-- ===== src/Slot/Pool/Acquire/Tests.antt =====
-- Three busy slots whose owners are gone.
use shm.Base.{ℕ, ◌+◌, ◌≡◌, refl, true, false, inr, some, [], arith}
use shm.Wire.{normal}
use shm.Slot.{
  slot_busy, Cell, cas_state, cas_gen, claim_state, claim_free, claim_observed, try_claim_slot,
  reclaim, reclaim_if_same, reclaim_observed, try_reclaim_abandoned_slot,
}
use shm.Slot.Claim.{quiet}
use shm.Slot.Pool.{Pool}
use shm.Slot.Pool.Acquire.{
  Acquired, no_cached, acquire_slot, acquire_by_hint, acquire_from, claim_at, after_miss,
  reclaim_from,
}
use shm.Slot.Pool.Acquire.Outcome.{TakesAny}
use shm.Slot.Pool.Acquire.Return.{Finds}
use shm.Slot.Pool.Acquire.Takes.{acquire_slot-takes}

abbrev left_behind : Cell
left_behind = record {
  header = record {
    state = slot_busy;
    host_state = 0;
    guest_state = 1;
    msg_seq = 5;
    msg_type = normal;
    req_size = 0;
    resp_size = 0;
    lease = 10;
    gen = 3;
  };
  req_buffer = [];
  resp_buffer = [];
  active_wait = false;
}

abbrev pool : Pool
pool = record { tick = 0; signals = 0; cells = λ i. left_behind; next_slot = 4 }

abbrev clock : ℕ → ℕ
clock t = 100 + t

-- The hint points at slot 1. Behind slot 2 the slots are reclaimed, and slot 0 is taken.
acquire_slot-pool :
    (a : Acquired) × ((acquire_slot (λ i. quiet clock) 50 true 3 7 no_cached pool ≡ some a)
      × (a.slot ≡ some 0))
unfolding acquire_slot acquire_by_hint acquire_from claim_at after_miss reclaim_from try_claim_slot
    claim_observed claim_free claim_state cas_state cas_gen try_reclaim_abandoned_slot
    reclaim_observed reclaim_if_same reclaim
acquire_slot-pool = (_, (refl, refl))

acquire_slot-takes_example :
    Finds (acquire_slot (λ i. quiet clock) 50 true 3 7 no_cached pool)
    × TakesAny
        (λ i. quiet clock)
        50
        true
        3
        pool
        (acquire_slot (λ i. quiet clock) 50 true 3 7 no_cached pool)
acquire_slot-takes_example =
    acquire_slot-takes (λ i. quiet clock) true clock 50 3 7 no_cached 0 pool pool (omega arith)
      (inr (omega arith, λ t. ground arith)) (omega arith)
