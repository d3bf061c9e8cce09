-- ===== src/GuestCall.antt =====
-- include/shm/GuestCallWorker.h: the host answers calls of the guest. A guest slot is shared as a host
-- slot is, and the operations on it are those of `Slot`. The handler is a parameter.
pub mod Publish
pub mod Answer
pub mod Batch
pub mod Wait
pub mod Thread
mod Tests
use shm.Base.{
  ℕ, zero, suc, ◌+◌, ◌-◌, Bool, true, false, ◌&&◌, List, [], ◌∷◌, ltb, leb, ◌==◌, if◌then◌else◌,
  take, drop, add64,
}
use shm.Wire.{MsgType, system_error}
use shm.Slot.{
  slot_req_ready, slot_resp_ready, slot_done, slot_busy, guest_state_waiting, Env, World, look,
  with_header, store_lease, cas_state,
}
use shm.Slot.Exchange.{Slot, abs_size, is_negative}

-- What a handler returns and leaves in the response buffer.
pub record Handled : Type 0 where
  pub resp_size : ℕ
  pub resp_buffer : List ℕ

-- `GuestCallHandler`: from the request's bytes, the response buffer with its capacity, and the type.
abbrev pub Handler : Type 0
Handler = List ℕ → List ℕ → ℕ → MsgType → Handled

-- The bytes of a request, from the start of its buffer or, for a negative size, at its end.
abbrev pub read_request : ℕ → ℕ → List ℕ → List ℕ
read_request max_req_size req_size req_buffer =
    let n = abs_size req_size in
    if is_negative req_size then take n (drop (max_req_size - n) req_buffer) else take n req_buffer

-- `LockForPublish`
unfoldable pub lock_for_publish : Env → World → Bool × World
unfolding cas_state
lock_for_publish e w = cas_state e slot_busy slot_done w

-- The response event is signalled if the guest said that it waits.
abbrev pub signal_caller : Env → World → World
signal_caller e w =
    let v = look e w in
    if v.cell.header.guest_state == guest_state_waiting
    then record v { signals = v.signals + 1 }
    else v

-- `PublishResponse`
unfoldable pub publish_response : Env → World → Bool × World
unfolding cas_state
publish_response e w =
    let r = cas_state e slot_done slot_resp_ready w in
    if r.0 then (true, signal_caller e r.1) else r

-- The header fields of a response. They are plain stores to a slot that is locked.
abbrev pub write_response : Env → ℕ → Bool → World → World
write_response e resp_size is_error w =
    with_header
      (λ h. record h {
        resp_size = resp_size;
        msg_type = if is_error then system_error else h.msg_type;
      })
      (look e w)

-- The two phases of a publication: no header field is written without the lock.
unfoldable pub respond : Env → ℕ → Bool → World → Bool × World
unfolding lock_for_publish publish_response
respond e resp_size is_error w =
    let r = lock_for_publish e w in
    if r.0 then publish_response e (write_response e resp_size is_error r.1) else r

-- A response that is too large is an error of size 0.
abbrev pub respond_handled : Env → Slot → Handled → World → Bool × World
respond_handled e s h w =
    let overflow = ltb s.max_resp_size (abs_size h.resp_size) in
    respond e (if overflow then 0 else h.resp_size) overflow w

-- The handler runs, and leaves its bytes in the buffer.
abbrev pub run_handler : Handler → Slot → World → Handled
run_handler handler s w =
    handler (read_request s.max_req_size w.cell.header.req_size w.cell.req_buffer)
      w.cell.resp_buffer s.max_resp_size w.cell.header.msg_type

abbrev pub with_resp_buffer : List ℕ → World → World
with_resp_buffer b w = record w { cell = record w.cell { resp_buffer = b } }

-- A claimed request is answered; `w` is the world at the load of its size.
unfoldable pub answer_request : Env → Slot → Handler → World → Bool × World
unfolding respond
answer_request e s handler w =
    if ltb s.max_req_size (abs_size w.cell.header.req_size)
    then respond e 0 true w
    else let h = run_handler handler s w in respond_handled e s h (with_resp_buffer h.resp_buffer w)

-- The claim of a request: the generation and the lease are left out if `fast_claim`.
unfoldable pub claim_request : Env → Bool → World → Bool × World
unfolding cas_state
claim_request e fast_claim w =
    let v =
      if fast_claim then w else with_header (λ h. record h { gen = add64 h.gen 1 }) (look e w) in
    let r = cas_state e slot_req_ready slot_busy v in
    if r.0 then (true, if fast_claim then r.1 else store_lease e r.1) else r

-- The body of the loop of `ProcessGuestCalls`; `true` if a request was processed, whether its
-- response was published or dropped.
unfoldable pub process_slot : Env → Bool → Slot → Handler → World → Bool × World
unfolding claim_request answer_request
process_slot e fast_claim s handler w =
    let v = look e w in
    if v.cell.header.state == slot_req_ready
    then (let r = claim_request e fast_claim v in
        if r.0 then (true, (answer_request e s handler (look e r.1)).1) else r)
    else (false, v)

-- A guest slot with its surroundings.
pub record GuestSlot : Type 0 where
  pub env : Env
  pub slot : Slot
  pub world : World

-- A batch: how many requests were processed, and the slots behind it.
pub record Processed : Type 0 where
  pub count : ℕ
  pub slots : List GuestSlot

abbrev pub bump : Bool → ℕ → ℕ
bump true n = suc n
bump false n = n

-- The loop of `ProcessGuestCalls`, with `limit` 0 for a limit that is not positive.
unfoldable pub process_from : Handler → Bool → ℕ → ℕ → List GuestSlot → Processed
unfolding process_slot
process_from handler fast_claim limit processed [] = record { count = processed; slots = [] }
process_from handler fast_claim limit processed (g ∷ gs) =
    let r = process_slot g.env fast_claim g.slot handler g.world in
    let rest = process_from handler fast_claim limit (bump r.0 processed) gs in
    if ltb 0 limit && leb limit processed
    then record { count = processed; slots = g ∷ gs }
    else record { count = rest.count; slots = record g { world = r.1 } ∷ rest.slots }

-- `ProcessGuestCalls`
unfoldable pub process_guest_calls : Bool → Handler → Bool → ℕ → List GuestSlot → Processed
unfolding process_from
process_guest_calls running handler fast_claim limit gs =
    if running then process_from handler fast_claim limit 0 gs else record { count = 0; slots = gs }
