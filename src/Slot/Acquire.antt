-- ===== src/Slot/Acquire.antt =====
-- include/shm/SlotAllocator.h: `AcquireSpecificSlot`, which claims one slot, again and again until its
-- time is over.
pub mod Outcome
pub mod Return
mod Tests
use shm.Base.{
  ℕ, zero, suc, ◌+◌, Bool, true, false, not, ◌&&◌, ◌||◌, Option, none, some, ltb, leb, ◌==◌,
  if◌then◌else◌,
}
use shm.Slot.{Env, World, try_claim_slot}
use shm.Slot.Exchange.{Slot, infinite, elapsed_ms, effective_timeout, is_foreign}

-- `start`, which is taken when the clock is first read; `w` is the world at that reading.
abbrev pub start_of : Env → Option ℕ → World → ℕ
start_of e none w = e.clock w.tick
start_of e (some start) w = start

-- The slow path of the loop, which reads the clock if the timeout is finite.
abbrev pub is_slow : ℕ → Bool
is_slow retries = ltb 1000 (retries + 1)

abbrev pub is_timed : ℕ → ℕ → Bool
is_timed timeout_ms retries = is_slow retries && not (timeout_ms == infinite)

abbrev pub next_retries : ℕ → ℕ
next_retries retries = if is_slow retries then 0 else retries + 1

abbrev pub next_start : Env → ℕ → ℕ → Option ℕ → World → Option ℕ
next_start e timeout_ms retries start w =
    if is_timed timeout_ms retries then some (start_of e start w) else start

-- The retry loop; `none` is a loop that its fuel did not end, and `false` a timeout.
unfoldable pub acquire_loop : Env → ℕ → ℕ → ℕ → Option ℕ → World → Option (Bool × World)
acquire_loop e timeout_ms zero retries start w = none
acquire_loop e timeout_ms (suc fuel) retries start w =
    let r = try_claim_slot e w in
    let rest =
      acquire_loop e timeout_ms fuel (next_retries retries)
        (next_start e timeout_ms retries start r.1) r.1 in
    if r.0
    then some r
    else if is_timed timeout_ms retries && leb timeout_ms (elapsed_ms e (start_of e start r.1) r.1)
    then some (false, r.1)
    else rest

-- `AcquireSpecificSlot`: whether the slot's index is returned, or -1. `s` is the slot at the index.
unfoldable pub acquire_specific_slot : Env → ℕ → Bool → Slot → ℕ → ℕ → World → Option (Bool × World)
unfolding acquire_loop
acquire_specific_slot e fuel running s slot_idx timeout_ms w =
    if not running || is_foreign s slot_idx
    then some (false, w)
    else acquire_loop e (effective_timeout s timeout_ms) fuel 0 none w
