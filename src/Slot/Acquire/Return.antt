-- ===== src/Slot/Acquire/Return.antt =====
-- With a finite timeout `AcquireSpecificSlot` returns, whatever the others do to the slot: its time
-- starts within 1001 tries, and is looked at in every 1001 tries behind that.
use shm.Base.{
  ℕ, zero, suc, ◌+◌, ◌≤◌, ◌≡◌, ◌≢◌, inl, inr, refl, Bool, false, not, ◌&&◌, ◌||◌, Option, none,
  some, arith, leb, if-cases, Bool-cases, Option-cases,
}
use shm.Slot.{Env, World, try_claim_slot}
use shm.Slot.Exchange.{Slot, infinite, elapsed_ms, effective_timeout, is_foreign}
use shm.Slot.Exchange.Return.{Passes, time_is_over}
use shm.Slot.Acquire.Outcome.{Acquires, acquire_specific_slot-Acquires}
use shm.Slot.Acquire.{
  start_of, is_slow, is_timed, next_retries, next_start, acquire_loop, acquire_specific_slot,
}
use shm.Slot.Acquire.Outcome.{try_claim_slot-After}

module _ (e : Env) (timeout_ms n : ℕ) (finite : timeout_ms ≢ infinite)
    (passes : Passes e timeout_ms n) where
  -- The loop returns if it does so behind a claim that is lost while the time is not over.
  acquire_loop-step :
      (fuel retries : ℕ) (start : Option ℕ) (w : World)
      → (let v = (try_claim_slot e w).1 in
          (is_timed timeout_ms retries && leb timeout_ms (elapsed_ms e (start_of e start v) v))
            ≡ false
          → acquire_loop e timeout_ms fuel
              (next_retries retries)
              (next_start e timeout_ms retries start v)
              v
            ≢ none)
      → acquire_loop e timeout_ms (suc fuel) retries start w ≢ none
  unfolding acquire_loop
  acquire_loop-step fuel retries start w longer =
      let r = try_claim_slot e w in
      if-cases (λ x. x ≢ none) r.0 _ _ (λ won q. cc)
        (λ lost.
          if-cases (λ x. x ≢ none)
            (is_timed timeout_ms retries
              && leb timeout_ms (elapsed_ms e (start_of e start r.1) r.1))
            _ _ (λ late q. cc) longer)

  kept :
      (s : ℕ) (retries : ℕ) (v : World)
      → next_start e timeout_ms retries (some (e.clock s)) v ≡ some (e.clock s)
  kept s retries v =
      if-cases (λ x. x ≡ some (e.clock s)) (is_timed timeout_ms retries) _ _ (λ t. refl) (λ f. refl)

  -- Once the time has passed, it is noticed at the next look at the clock.
  acquire_loop-late :
      (s fuel retries : ℕ) (w : World)
      → s + n ≤ w.tick
      → retries ≤ 1000
      → 1001 ≤ fuel + retries
      → acquire_loop e timeout_ms fuel retries (some (e.clock s)) w ≢ none
  acquire_loop-late s zero retries w l m f = absurd (omega arith)
  acquire_loop-late s (suc fuel) retries w l m f =
      let a = try_claim_slot-After e w in
      let v = (try_claim_slot e w).1 in
      let over = time_is_over e timeout_ms n finite passes s v (omega (arith, a, l)) in
      acquire_loop-step fuel retries (some (e.clock s)) w (λ early. rw (kept s retries v) (
        if-cases (λ x. acquire_loop e timeout_ms fuel x (some (e.clock s)) v ≢ none)
          (is_slow retries) _ _ (λ slow. absurd (ground (arith, over, early, slow)))
          (λ fast.
            acquire_loop-late s fuel (retries + 1) v (omega (arith, a, l)) (ground (arith, fast))
              (omega (arith, f)))))

  -- Each try takes an access at least.
  acquire_loop-started :
      (s fuel retries : ℕ) (w : World)
      → w.tick ≤ s + n
      → s + n + 1002 ≤ w.tick + fuel
      → retries ≤ 1000
      → acquire_loop e timeout_ms fuel retries (some (e.clock s)) w ≢ none
  acquire_loop-started s zero retries w u l m = absurd (omega arith)
  acquire_loop-started s (suc fuel) retries w u l m =
      let a = try_claim_slot-After e w in
      let v = (try_claim_slot e w).1 in
      let bound : next_retries retries ≤ 1000 = ground arith in
      acquire_loop-step fuel retries (some (e.clock s)) w (λ early.
        rw (kept s retries v) (elim (Bool-cases (leb v.tick (s + n))) [
          | inl soon ↦
              acquire_loop-started s fuel (next_retries retries) v (ground (arith, soon))
                (omega (arith, a, l)) bound
          | inr over ↦
              acquire_loop-late s fuel (next_retries retries) v (ground (arith, over)) bound
                (omega (arith, l, u))
        ]))

  acquire_loop-returns :
      (fuel retries : ℕ) (w : World)
      → n + 2003 ≤ fuel + retries
      → retries ≤ 1000
      → acquire_loop e timeout_ms fuel retries none w ≢ none
  acquire_loop-returns zero retries w l m = absurd (omega arith)
  acquire_loop-returns (suc fuel) retries w l m =
      let v = (try_claim_slot e w).1 in
      acquire_loop-step fuel retries none w (λ early.
        if-cases (λ x. acquire_loop e timeout_ms fuel (next_retries retries) x v ≢ none)
          (is_timed timeout_ms retries) _ _
          (λ timed.
            acquire_loop-started v.tick fuel (next_retries retries) v (omega arith)
              (omega (arith, l, m)) (ground arith))
          (λ fast.
            if-cases (λ x. acquire_loop e timeout_ms fuel x none v ≢ none) (is_slow retries) _ _
              (λ slow. absurd (ground (arith, fast, slow, finite)))
              (λ still.
                acquire_loop-returns fuel (retries + 1) v (omega (arith, l))
                  (ground (arith, still)))))

acquire_specific_slot-ends :
    (e : Env) (fuel n : ℕ) (running : Bool) (s : Slot) (slot_idx timeout_ms : ℕ) (w : World)
    → effective_timeout s timeout_ms ≢ infinite
    → Passes e (effective_timeout s timeout_ms) n
    → n + 2003 ≤ fuel
    → acquire_specific_slot e fuel running s slot_idx timeout_ms w ≢ none
unfolding acquire_specific_slot
acquire_specific_slot-ends e fuel n running s slot_idx timeout_ms w finite passes l =
    if-cases (λ x. x ≢ none) (not running || is_foreign s slot_idx) _ _ (λ refused q. cc)
      (λ own.
        acquire_loop-returns e (effective_timeout s timeout_ms) n finite passes fuel 0 w
          (omega (arith, l)) (omega arith))

-- A call of `AcquireSpecificSlot` whose timeout is finite returns, whatever the others do, if `n`
-- accesses take at least the timeout and it has fuel for `n` tries and 2003 more. If it answers with
-- the index, the host was running and the index was a host slot's, and behind loads and advances of
-- the generation alone it took the slot itself by a claim that was won: the access that set the slot
-- to BUSY saw it FREE, or in the state to be stolen that the claim had loaded. If it answers -1, it
-- changed nothing because the host was not running or the index is no host slot's, or it made nothing
-- but loads and advances of the generation and its timeout has passed between two readings of the
-- clock in the call.
pub acquire_specific_slot-returns :
    (e : Env) (fuel n : ℕ) (running : Bool) (s : Slot) (slot_idx timeout_ms : ℕ) (w : World)
    → effective_timeout s timeout_ms ≢ infinite
    → Passes e (effective_timeout s timeout_ms) n
    → n + 2003 ≤ fuel
    → (r : Bool × World) × ((acquire_specific_slot e fuel running s slot_idx timeout_ms w ≡ some r)
        × Acquires e running s slot_idx timeout_ms w (some r))
acquire_specific_slot-returns e fuel n running s slot_idx timeout_ms w finite passes l =
    let h = acquire_specific_slot-Acquires e fuel running s slot_idx timeout_ms w in
    elim (Option-cases (acquire_specific_slot e fuel running s slot_idx timeout_ms w)) [
      | inl lost ↦
          absurd (
            acquire_specific_slot-ends e fuel n running s slot_idx timeout_ms w finite passes l
              lost)
      | inr (r, back) ↦ (r, (back, rw back at h))
    ]
