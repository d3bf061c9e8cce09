-- ===== src/Slot/Pool/Tests.antt =====
-- A sweep over three slots, of which the last one is free.
use shm.Base.{ℕ, ◌+◌, ◌≡◌, refl, true, false, some, [], ◌==◌, if◌then◌else◌, arith}
use shm.Wire.{normal}
use shm.Slot.{
  slot_free, slot_busy, Cell, cas_state, claim_state, claim_free, claim_observed, try_claim_slot,
}
use shm.Slot.Claim.{quiet}
use shm.Slot.Pool.{Pool, sweep, try_acquire_slot}
use shm.Slot.Pool.Sweep.{TakesOne, try_acquire_slot-TakesOne}

abbrev cell_in : ℕ → Cell
cell_in state = record {
  header = record {
    state = state;
    host_state = 0;
    guest_state = 1;
    msg_seq = 5;
    msg_type = normal;
    req_size = 0;
    resp_size = 0;
    lease = 10;
    gen = 3;
  };
  req_buffer = [];
  resp_buffer = [];
  active_wait = false;
}

abbrev pool : Pool
pool = record {
  tick = 0;
  signals = 0;
  cells = λ i. if i == 2 then cell_in slot_free else cell_in slot_busy;
  next_slot = 4;
}

abbrev clock : ℕ → ℕ
clock t = 100 + t

-- The hint points at slot 1, and slot 2 is taken.
try_acquire_slot-pool : (try_acquire_slot (λ i. quiet clock) true 3 pool).0 ≡ some 2
unfolding try_acquire_slot sweep try_claim_slot claim_observed claim_free claim_state cas_state
try_acquire_slot-pool = refl

try_acquire_slot-TakesOne_example :
    TakesOne clock true 3 pool.cells (try_acquire_slot (λ i. quiet clock) true 3 pool)
try_acquire_slot-TakesOne_example = try_acquire_slot-TakesOne clock true 3 pool (omega arith)
