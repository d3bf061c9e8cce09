-- ===== src/Slot/Exchange/Flight.antt =====
-- A transaction in flight, when the other parties keep to the protocol: it stays so over every check
-- and every sleep of the wait.
use shm.Base.{
  ℕ, zero, suc, ◌≡◌, ◌≢◌, inl, inr, refl, true, not, ◌&&◌, Option, none, some, List, arith, leb,
  ◌==◌, Bool-cases,
}
use shm.Wire.{MsgType}
use shm.WaitStrategy.Laws.{InWindow, Returns, Answers, wait-Answers}
use shm.Slot.{
  slot_req_ready, slot_resp_ready, slot_busy, host_state_active, host_state_waiting,
  guest_state_waiting, Cell, Env, World, look, store_state, store_host_state, store_active_wait,
}
use shm.Slot.Exchange.{
  infinite, elapsed_ms, check_ready, sleep_loop, awake, sleep_action, wait_for_resp_ready, publish,
  signal_guest,
}

-- What a responder leaves in a cell.
pub record Response : Type 0 where
  pub msg_seq : ℕ
  pub msg_type : MsgType
  pub resp_size : ℕ
  pub resp_buffer : List ℕ

abbrev pub response_of : Cell → Response
response_of c = record {
  msg_seq = c.header.msg_seq;
  msg_type = c.header.msg_type;
  resp_size = c.header.resp_size;
  resp_buffer = c.resp_buffer;
}

module _ (e : Env) (Q : Response → Type 0) where
  -- The others leave a slot alone that is parked at BUSY, or answered while its owner waits; they
  -- never take the owner's flag away while it waits; and what they publish then has the property.
  pub record IsPolite : Type 0 where
    pub parked : (t : ℕ) (c : Cell) → c.header.state ≡ slot_busy → e.peers t c ≡ c
    pub answered :
        (t : ℕ) (c : Cell)
        → c.header.state ≡ slot_resp_ready
        → c.active_wait ≡ true
        → e.peers t c ≡ c
    pub waited : (t : ℕ) (c : Cell) → c.active_wait ≡ true → (e.peers t c).active_wait ≡ true
    pub published :
        (t : ℕ) (c : Cell)
        → c.active_wait ≡ true
        → c.header.state ≢ slot_resp_ready
        → (e.peers t c).header.state ≡ slot_resp_ready
        → Q (response_of (e.peers t c))

  -- A transaction in flight: its owner waits, and if it is answered, then properly.
  pub record InFlight (w : World) : Type 0 where
    pub waits : w.cell.active_wait ≡ true
    pub answer : w.cell.header.state ≡ slot_resp_ready → Q (response_of w.cell)

  pub look-InFlight : IsPolite → (w : World) → InFlight w → InFlight (look e w)
  look-InFlight p w f = record {
    waits = p.waited w.tick w.cell f.waits;
    answer = λ h. elim (Bool-cases (w.cell.header.state == slot_resp_ready)) [
      | inl there ↦
          let same = p.answered w.tick w.cell (ground arith) f.waits in
          rw same (f.answer (ground arith))
      | inr pending ↦ p.published w.tick w.cell f.waits (λ q. absurd (ground arith)) h
    ];
  }

  pub host_state-InFlight :
      IsPolite → (x : ℕ) (w : World) → InFlight w → InFlight (store_host_state e x w)
  host_state-InFlight p x w f =
      let g = look-InFlight p w f in record { waits = g.waits; answer = g.answer }

  sleep_loop-InFlight :
      IsPolite
      → (timeout_ms start fuel : ℕ) (w : World) → InFlight w
      → Returns InFlight (sleep_loop e timeout_ms start fuel w)
  unfolding sleep_loop
  sleep_loop-InFlight p timeout_ms start zero w f = tt
  sleep_loop-InFlight p timeout_ms start (suc fuel) w f =
      let v = look e w in
      let g = look-InFlight p w f in
      elim (Bool-cases (v.cell.header.state == slot_resp_ready)) [
        | inl there ↦ rw there g
        | inr pending ↦
            elim (Bool-cases
              (not (timeout_ms == infinite) && leb timeout_ms (elapsed_ms e start v))) [
                | inl late ↦ rw (pending, late) g
                | inr early ↦
                    rw (pending, early)
                      (sleep_loop-InFlight p timeout_ms start fuel (look e v) (look-InFlight p v g))
              ]
      ]

  awake-InFlight : IsPolite → (o : Option World) → Returns InFlight o → Returns InFlight (awake e o)
  unfolding awake
  awake-InFlight p none f = tt
  awake-InFlight p (some w) f = host_state-InFlight p host_state_active w f

  sleep_action-InFlight :
      IsPolite
      → (fuel timeout_ms : ℕ) (w : World) → InFlight w
      → Returns InFlight (sleep_action e fuel timeout_ms w)
  unfolding sleep_action
  sleep_action-InFlight p fuel timeout_ms w f =
      let a = store_host_state e host_state_waiting w in
      let v = look e a in
      let g = look-InFlight p a (host_state-InFlight p host_state_waiting w f) in
      elim (Bool-cases (v.cell.header.state == slot_resp_ready)) [
        | inl there ↦ rw there (host_state-InFlight p host_state_active v g)
        | inr pending ↦ rw pending (
            awake-InFlight p (sleep_loop e timeout_ms (e.clock v.tick) fuel v)
              (sleep_loop-InFlight p timeout_ms (e.clock v.tick) fuel v g))
      ]

  -- While a transaction waits, it stays in flight, and is answered if the wait says so.
  pub wait-InFlight :
      IsPolite
      → (fuel limit timeout_ms : ℕ) (w : World) → InWindow limit
      → InFlight w
      → Answers
          (check_ready e)
          (sleep_action e fuel timeout_ms)
          (λ v. v.cell.header.state ≡ slot_resp_ready)
          InFlight
          (wait_for_resp_ready e fuel limit timeout_ms w)
  unfolding wait_for_resp_ready
  wait-InFlight p fuel limit timeout_ms w k f =
      wait-Answers (check_ready e) (sleep_action e fuel timeout_ms) limit w
        (record {
          seen = λ s a h. ground arith;
          kept = λ s a. look-InFlight p s a;
          slept = λ s a. sleep_action-InFlight p fuel timeout_ms s a;
        })
        k f

  signal_guest-InFlight : IsPolite → (w : World) → InFlight w → InFlight (signal_guest e w)
  signal_guest-InFlight p w f =
      let g = look-InFlight p w f in
      elim (Bool-cases ((look e w).cell.header.guest_state == guest_state_waiting)) [
        | inl sleeps ↦ rw sleeps (record { waits = g.waits; answer = g.answer })
        | inr runs ↦ rw runs g
      ]

  pub publish-InFlight : IsPolite → (w : World) → InFlight (publish e w)
  unfolding publish
  publish-InFlight p w =
      let a = store_active_wait e true w in
      let b = store_host_state e host_state_active a in
      signal_guest-InFlight p (store_state e slot_req_ready b) (record {
        waits = p.waited b.tick b.cell (p.waited a.tick a.cell refl);
        answer = λ h. absurd (ground arith);
      })
