-- ===== src/Slot/Pool/Acquire.antt =====
-- include/shm/SlotAllocator.h: `AcquireSlot`, which sweeps over the host's slots until it has one. A
-- yield changes nothing but lets the others act, as they may before every access anyway, so the
-- counter of retries that decides on yields is left out, as is the code under SHM_DEBUG.
pub mod Outcome
pub mod Return
pub mod Takes
mod Tests
use shm.Base.{
  ℕ, zero, suc, ◌+◌, ◌-◌, ◌%◌, ◌^◌, Bool, not, ◌&&◌, Option, none, some, ltb, leb, if◌then◌else◌,
  add32,
}
use shm.Slot.{Env, try_claim_slot, try_reclaim_abandoned_slot}
use shm.Slot.Pool.{Pool, world_at, with_world}

-- What a call leaves: the index, or `none` for -1, the index that its thread keeps for the next call,
-- and the slots.
pub record Acquired : Type 0 where
  pub slot : Option ℕ
  pub cached : ℕ
  pub pool : Pool

-- `cachedSlotIdx` of a thread that has not acquired a slot.
abbrev pub no_cached : ℕ
no_cached = 2 ^ 32 - 1

-- `tryClaimSlot` on a slot of the pool.
unfoldable pub claim_at : (ℕ → Env) → ℕ → Pool → Bool × Pool
claim_at e i p = let r = try_claim_slot (e i) (world_at i p) in (r.0, with_world i p r.1)

-- The loop of `TryReclaimAbandonedSlot` over the slots from `i` on, of which there are `k`.
unfoldable pub reclaim_from : (ℕ → Env) → ℕ → ℕ → ℕ → Pool → Pool
reclaim_from e threshold i zero p = p
reclaim_from e threshold i (suc k) p =
    reclaim_from e threshold (suc i) k
      (with_world i p (try_reclaim_abandoned_slot (e i) threshold (world_at i p)).1)

abbrev pub is_wrap : ℕ → ℕ → Bool
is_wrap num_slots idx = leb num_slots (idx + 1)

abbrev pub next_idx : ℕ → ℕ → ℕ
next_idx num_slots idx = if is_wrap num_slots idx then 0 else idx + 1

-- What happens behind a slot that could not be claimed: at the end of a sweep the abandoned slots are
-- reclaimed, if that is enabled.
unfoldable pub after_miss : (ℕ → Env) → ℕ → ℕ → ℕ → Pool → Pool
unfolding reclaim_from
after_miss e threshold num_slots idx p =
    if is_wrap num_slots idx && ltb 0 threshold then reclaim_from e threshold 0 num_slots p else p

-- The endless loop; `none` is one that its fuel did not end.
unfoldable pub acquire_from : (ℕ → Env) → ℕ → ℕ → ℕ → ℕ → Pool → Option Acquired
unfolding claim_at after_miss
acquire_from e threshold num_slots zero idx p = none
acquire_from e threshold num_slots (suc fuel) idx p =
    let r = claim_at e idx p in
    let rest =
      acquire_from e threshold num_slots fuel (next_idx num_slots idx)
        (after_miss e threshold num_slots idx r.1) in
    if r.0 then some (record { slot = some idx; cached = idx; pool = r.1 }) else rest

-- The sweep from the round-robin hint.
unfoldable pub acquire_by_hint : (ℕ → Env) → ℕ → ℕ → ℕ → Pool → Option Acquired
unfolding acquire_from
acquire_by_hint e threshold num_slots fuel p =
    acquire_from e threshold num_slots fuel (p.next_slot % num_slots)
      (record p { next_slot = add32 p.next_slot 1 })

-- The slot that the thread had last is tried first.
unfoldable pub acquire_cached : (ℕ → Env) → ℕ → ℕ → ℕ → ℕ → Pool → Option Acquired
unfolding acquire_by_hint claim_at
acquire_cached e threshold num_slots fuel cached p =
    let r = claim_at e cached p in
    if r.0
    then some (record { slot = some cached; cached = cached; pool = r.1 })
    else acquire_by_hint e threshold num_slots fuel r.1

-- `AcquireSlot`, with `autoReclaimTimeoutNs` as `threshold`.
unfoldable pub acquire_slot : (ℕ → Env) → ℕ → Bool → ℕ → ℕ → ℕ → Pool → Option Acquired
unfolding acquire_cached acquire_by_hint
acquire_slot e threshold running num_slots fuel cached p =
    if not running
    then some (record { slot = none; cached = cached; pool = p })
    else if ltb cached num_slots
    then acquire_cached e threshold num_slots fuel cached p
    else acquire_by_hint e threshold num_slots fuel p
