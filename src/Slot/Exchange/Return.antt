-- ===== src/Slot/Exchange/Return.antt =====
-- With a finite timeout the transactions return, whatever the other parties do: the wait ends once
-- the clock has passed its time.
use shm.Base.{
  ℕ, zero, suc, ◌+◌, ◌*◌, ◌≤◌, ◌<◌, ◌≡◌, ◌≢◌, inl, inr, refl, true, false, not, ◌&&◌, Option, none,
  some, arith, leb, ◌==◌, ltb, Bool-cases,
}
use shm.Wire.{MsgType}
use shm.WaitStrategy.{Waited, spin, check_again, wait, shrink}
use shm.Slot.{
  slot_free, slot_resp_ready, host_state_waiting, Env, World, look, store_state, store_lease,
  store_host_state,
}
use shm.Slot.Exchange.{
  Slot, abs_size, infinite, elapsed_ms, check_ready, sleep_loop, awake, sleep_action,
  wait_for_resp_ready, wait_response, complete, send_acquired, send_held, is_foreign, arm,
  effective_timeout, next_seq, publish,
}

-- `n` accesses take at least the time.
abbrev pub Passes : Env → ℕ → ℕ → Type 0
Passes e timeout_ms n = (s t : ℕ) → s + n ≤ t → e.clock s + timeout_ms * 1000000 ≤ e.clock t

module _ (e : Env) (timeout_ms n : ℕ) (finite : timeout_ms ≢ infinite)
    (passes : Passes e timeout_ms n) where
  pub time_is_over :
      (s : ℕ) (w : World)
      → s + n ≤ w.tick
      → (not (timeout_ms == infinite) && leb timeout_ms (elapsed_ms e (e.clock s) w)) ≡ true
  time_is_over s w l =
      let p = passes s w.tick l in
      let q : timeout_ms ≤ elapsed_ms e (e.clock s) w = omega arith in ground arith

  -- The loop ends if it ends behind an access at which the time is not over.
  sleep_loop-step :
      (s fuel : ℕ) (w : World)
      → ((not (timeout_ms == infinite) && leb timeout_ms (elapsed_ms e (e.clock s) (look e w)))
            ≡ false
          → sleep_loop e timeout_ms (e.clock s) fuel (look e (look e w)) ≢ none)
      → sleep_loop e timeout_ms (e.clock s) (suc fuel) w ≢ none
  unfolding sleep_loop
  sleep_loop-step s fuel w longer =
      let v = look e w in
      elim (Bool-cases (v.cell.header.state == slot_resp_ready)) [
        | inl there ↦ rw there (λ h. cc)
        | inr pending ↦
            elim (Bool-cases
              (not (timeout_ms == infinite) && leb timeout_ms (elapsed_ms e (e.clock s) v))) [
                | inl late ↦ rw (pending, late) (λ h. cc)
                | inr early ↦ rw (pending, early) (longer early)
              ]
      ]

  sleep_loop-returns :
      (s fuel : ℕ) (w : World)
      → s + n ≤ w.tick + fuel
      → sleep_loop e timeout_ms (e.clock s) (suc fuel) w ≢ none
  sleep_loop-returns s zero w l =
      sleep_loop-step s zero w
        (λ early. absurd (ground (arith, time_is_over s (look e w) (omega arith))))
  sleep_loop-returns s (suc fuel) w l =
      sleep_loop-step s (suc fuel) w
        (λ early. sleep_loop-returns s fuel (look e (look e w)) (omega arith))

  awake-returns : (o : Option World) → o ≢ none → awake e o ≢ none
  unfolding awake
  awake-returns none h = λ q. h refl
  awake-returns (some w) h = λ q. cc

  sleep_action-returns : (fuel : ℕ) (w : World) → n < fuel → sleep_action e fuel timeout_ms w ≢ none
  unfolding sleep_action
  sleep_action-returns zero w l = absurd (omega arith)
  sleep_action-returns (suc fuel) w l =
      let v = look e (store_host_state e host_state_waiting w) in
      elim (Bool-cases (v.cell.header.state == slot_resp_ready)) [
        | inl there ↦ rw there (λ h. cc)
        | inr pending ↦ rw pending (
            awake-returns (sleep_loop e timeout_ms (e.clock v.tick) (suc fuel) v)
              (sleep_loop-returns v.tick fuel v (omega arith)))
      ]

  wait-returns :
      (fuel limit : ℕ) (w : World) → n < fuel → wait_for_resp_ready e fuel limit timeout_ms w ≢ none
  unfolding wait_for_resp_ready wait check_again
  wait-returns fuel limit w l =
      let r = spin (check_ready e) (sleep_action e fuel timeout_ms) limit w in
      elim (Bool-cases r.0) [
        | inl spun ↦ rw spun (λ h. cc)
        | inr idle ↦ rw idle (
            woken (shrink limit) (sleep_action e fuel timeout_ms r.1)
              (sleep_action-returns fuel r.1 l))
      ]
    where
      woken :
          (limit : ℕ) (o : Option World)
          → o ≢ none
          → check_again (check_ready e) (sleep_action e fuel timeout_ms) limit o ≢ none
      woken limit none h = λ q. h refl
      woken limit (some w) h = λ q. cc

complete-returns :
    (e : Env) (release : World → World) (seq : ℕ) (s : Slot) (o : Option (Waited World))
    → o ≢ none
    → complete e release seq s o ≢ none
unfolding complete
complete-returns e release seq s none h = λ q. h refl
complete-returns e release seq s (some r) h = λ q. cc

-- A call of `SendAcquired` or of `SendHeld` whose timeout is finite returns, whatever the other
-- parties do, if `n` accesses take at least the timeout and the fuel is more than `n`.
pub sends-return :
    (e : Env) (fuel n : ℕ) (s : Slot) (slot_idx size : ℕ) (msg_type : MsgType) (timeout_ms : ℕ)
    (w : World)
    → effective_timeout s timeout_ms ≢ infinite
    → Passes e (effective_timeout s timeout_ms) n
    → n < fuel
    → (send_acquired e fuel s slot_idx size msg_type timeout_ms w ≢ none)
      × (send_held e fuel s slot_idx size msg_type timeout_ms w ≢ none)
unfolding send_acquired send_held
sends-return e fuel n s slot_idx size msg_type timeout_ms w finite passes l =
    let t = effective_timeout s timeout_ms in
    elim (Bool-cases (is_foreign s slot_idx)) [
      | inl foreign ↦ rw foreign (λ h. cc, λ h. cc)
      | inr mine ↦ elim (Bool-cases (ltb s.max_req_size (abs_size size))) [
        | inl large ↦ rw (mine, large) (λ h. cc, λ h. cc)
        | inr fits ↦
            let a = arm e s size msg_type w in
            let b = store_lease e a in
            rw (mine, fits)
              (
                complete-returns e (store_state e slot_free) s.msg_seq (next_seq s)
                    (wait_response e fuel s t a)
                    (wait-returns e t n finite passes fuel s.current_limit (publish e a) l),
                complete-returns e (λ v. v) s.msg_seq (next_seq s) (wait_response e fuel s t b)
                    (wait-returns e t n finite passes fuel s.current_limit (publish e b) l),
              )
      ]
    ]
