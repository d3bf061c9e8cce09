-- ===== src/GuestCall/Answer.antt =====
-- The answer to a call of the guest, when nobody interferes with the slot while it is made.
use shm.Base.{
  ℕ, ◌+◌, ◌≡◌, ◌≢◌, refl, ap, Bool, true, false, List, arith, ltb, ◌==◌, if◌then◌else◌, add64,
  Bool-cases, inl, inr, if-cases,
}
use shm.Wire.{system_error}
use shm.Slot.{
  slot_req_ready, slot_resp_ready, slot_busy, guest_state_waiting, Cell, World, look, cas_state,
}
use shm.Slot.Claim.{quiet}
use shm.Slot.Exchange.{Slot, abs_size}
use shm.GuestCall.{
  Handled, Handler, lock_for_publish, signal_caller, publish_response, respond, run_handler,
  with_resp_buffer, answer_request, claim_request, process_slot, read_request,
}

-- The response to a request: an error of no bytes to one that is larger than its slot, and otherwise
-- what the handler makes of its bytes, or an error of no bytes if that is too large.
pub record Reply : Type 0 where
  pub resp_size : ℕ
  pub is_error : Bool
  pub resp_buffer : List ℕ

abbrev pub reply_handled : Slot → Handled → Reply
reply_handled s h =
    let overflow = ltb s.max_resp_size (abs_size h.resp_size) in
    record {
      resp_size = if overflow then 0 else h.resp_size;
      is_error = overflow;
      resp_buffer = h.resp_buffer;
    }

abbrev pub reply_to : Slot → Handler → Cell → Reply
reply_to s handler c =
    if ltb s.max_req_size (abs_size c.header.req_size)
    then record { resp_size = 0; is_error = true; resp_buffer = c.resp_buffer }
    else reply_handled s (
        handler (read_request s.max_req_size c.header.req_size c.req_buffer) c.resp_buffer
          s.max_resp_size c.header.msg_type)

-- The cell `d` is the cell `c` with the reply in it; its generation and its lease may have changed.
pub record IsAnswered (c : Cell) (r : Reply) (d : Cell) : Type 0 where
  pub ready : d.header.state ≡ slot_resp_ready
  pub same_transaction : d.header.msg_seq ≡ c.header.msg_seq
  pub sized : d.header.resp_size ≡ r.resp_size
  pub typed : d.header.msg_type ≡ (if r.is_error then system_error else c.header.msg_type)
  pub filled : d.resp_buffer ≡ r.resp_buffer
  pub request_kept : d.req_buffer ≡ c.req_buffer

module _ (clock : ℕ → ℕ) where
  signal_caller-cell : (w : World) → (signal_caller (quiet clock) w).cell ≡ w.cell
  signal_caller-cell w =
      if-cases (λ v. v.cell ≡ w.cell) (w.cell.header.guest_state == guest_state_waiting)
        (let v = look (quiet clock) w in record v { signals = v.signals + 1 })
        (look (quiet clock) w) (λ h. refl) (λ h. refl)

  respond-quiet :
      (n : ℕ) (b : Bool) (w : World)
      → w.cell.header.state ≡ slot_busy
      → (respond (quiet clock) n b w).1.cell ≡ record w.cell {
        header = record w.cell.header {
          state = slot_resp_ready;
          resp_size = n;
          msg_type = if b then system_error else w.cell.header.msg_type;
        };
      }
  unfolding respond lock_for_publish publish_response cas_state
  respond-quiet n b w busy =
      let held : (w.cell.header.state == slot_busy) ≡ true = ground arith in
      rw held (
        signal_caller-cell (record {
          tick = w.tick + 1 + 1 + 1;
          signals = w.signals;
          cell = record w.cell {
            header = record w.cell.header {
              state = slot_resp_ready;
              resp_size = n;
              msg_type = if b then system_error else w.cell.header.msg_type;
            };
          };
        }))

  -- A reply that is published in a cell like the one that the request came in.
  respond-IsAnswered :
      (c : Cell) (n : ℕ) (b : Bool) (w : World)
      → w.cell.header.state ≡ slot_busy
      → w.cell.header.msg_seq ≡ c.header.msg_seq
      → w.cell.header.msg_type ≡ c.header.msg_type
      → w.cell.req_buffer ≡ c.req_buffer
      → IsAnswered c
          (record { resp_size = n; is_error = b; resp_buffer = w.cell.resp_buffer })
          (respond (quiet clock) n b w).1.cell
  respond-IsAnswered c n b w busy seq type kept = rw (respond-quiet n b w busy) (record {
    ready = refl;
    same_transaction = seq;
    sized = refl;
    typed = ap (λ t. if b then system_error else t) type;
    filled = refl;
    request_kept = kept;
  })

  answer_request-IsAnswered :
      (s : Slot) (handler : Handler) (w : World)
      → w.cell.header.state ≡ slot_busy
      → IsAnswered w.cell
          (reply_to s handler w.cell)
          (answer_request (quiet clock) s handler w).1.cell
  unfolding answer_request
  answer_request-IsAnswered s handler w busy =
      elim (Bool-cases (ltb s.max_req_size (abs_size w.cell.header.req_size))) [
        | inl large ↦ rw large (respond-IsAnswered w.cell 0 true w busy refl refl refl)
        | inr fits ↦
            let h = run_handler handler s w in
            let over = ltb s.max_resp_size (abs_size h.resp_size) in
            rw fits (
              respond-IsAnswered w.cell (if over then 0 else h.resp_size) over
                (with_resp_buffer h.resp_buffer w) busy refl refl refl)
      ]

  -- What a call of the loop's body makes of a slot.
  abbrev pub Processes : Slot → Handler → Cell → Bool × World → Type 0
  Processes s handler c (true, v) =
      (c.header.state ≡ slot_req_ready) × IsAnswered c (reply_to s handler c) v.cell
  Processes s handler c (false, v) = (c.header.state ≢ slot_req_ready) × (v.cell ≡ c)

  -- The cell of a claimed request.
  abbrev claimed_request : ℕ → ℕ → Cell → Cell
  claimed_request gen lease c = record c {
    header = record c.header { state = slot_busy; gen = gen; lease = lease };
  }

  abbrev claimed_world : ℕ → ℕ → ℕ → World → World
  claimed_world tick gen lease w = record {
    tick = tick;
    signals = w.signals;
    cell = claimed_request gen lease w.cell;
  }

  claim_request-quiet :
      (fast_claim : Bool) (w : World)
      → w.cell.header.state ≡ slot_req_ready
      → (t : ℕ) × ((gen : ℕ) × ((lease : ℕ) × (claim_request (quiet clock) fast_claim w
              ≡ (true, claimed_world t gen lease w))))
  unfolding claim_request cas_state
  claim_request-quiet true w ready =
      let same : (w.cell.header.state == slot_req_ready) ≡ true = ground arith in
      (w.tick + 1, (w.cell.header.gen, (w.cell.header.lease, rw same refl)))
  claim_request-quiet false w ready =
      let same : (w.cell.header.state == slot_req_ready) ≡ true = ground arith in
      (w.tick + 1 + 1 + 1, (add64 w.cell.header.gen 1, (clock (w.tick + 1 + 1), rw same refl)))

  claimed-IsAnswered :
      (s : Slot) (handler : Handler) (gen lease : ℕ) (c d : Cell)
      → IsAnswered
          (claimed_request gen lease c)
          (reply_to s handler (claimed_request gen lease c))
          d
      → IsAnswered c (reply_to s handler c) d
  claimed-IsAnswered s handler gen lease c d a = record {
    ready = a.ready;
    same_transaction = a.same_transaction;
    sized = a.sized;
    typed = a.typed;
    filled = a.filled;
    request_kept = a.request_kept;
  }

  claimed-Processes :
      (s : Slot) (handler : Handler) (w : World) (t gen lease : ℕ)
      → IsAnswered w.cell
          (reply_to s handler w.cell)
          (answer_request
            (quiet clock)
            s
            handler
            (look (quiet clock) (claimed_world t gen lease w))).1.cell
  claimed-Processes s handler w t gen lease =
      let v = look (quiet clock) (claimed_world t gen lease w) in
      claimed-IsAnswered s handler gen lease w.cell
        (answer_request (quiet clock) s handler v).1.cell
        (answer_request-IsAnswered s handler v refl)

  -- When nobody interferes, the body of the loop of `ProcessGuestCalls` processes exactly the slots
  -- that are at REQ_READY. It leaves such a slot at RESP_READY in the same transaction, with the
  -- reply: what the handler makes of the request's bytes, or a system error of no bytes if the
  -- request or the response is larger than the slot. It leaves any other cell as it was.
  pub process_slot-Processes :
      (fast_claim : Bool) (s : Slot) (handler : Handler) (w : World)
      → Processes s handler w.cell (process_slot (quiet clock) fast_claim s handler w)
  unfolding process_slot
  process_slot-Processes fast_claim s handler w =
      elim (Bool-cases (w.cell.header.state == slot_req_ready)) [
        | inr other ↦ rw other ((λ h. absurd (ground arith)), refl)
        | inl ready ↦
            let v = look (quiet clock) w in
            let (t, (gen, (lease, won))) = claim_request-quiet fast_claim v (ground arith) in
            rw (ready, won) (ground arith, claimed-Processes s handler v t gen lease)
      ]
