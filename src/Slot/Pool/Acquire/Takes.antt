-- ===== src/Slot/Pool/Acquire/Takes.antt =====
-- `AcquireSlot`: what it finds, and what it takes.
use shm.Base.{ℕ, ◌+◌, ◌<◌, Bool, true, arith}
use shm.Slot.{Env}
use shm.Slot.Claim.{quiet}
use shm.Slot.Pool.{Pool}
use shm.Slot.Pool.Acquire.{acquire_slot}
use shm.Slot.Pool.Acquire.Outcome.{TakesAny, acquire_slot-TakesAny}
use shm.Slot.Pool.Acquire.Return.{Finds, IsObtainable, acquire_slot-Finds}

-- When nobody interferes and the host is running, a call of `AcquireSlot` returns an index within two
-- sweeps if a host slot is claimable, or if the automatic reclaim is enabled and a host slot is
-- abandoned: not free, with a lease that was written and is older than the configured age. However the
-- others interfere, a call of `AcquireSlot` on a host with slots that answers an index has the host
-- running, and the index is a host slot's and the one that the thread tries first the next time: behind
-- moves of the hint, loads and advances of generations, and reclaims that were won, it took the slot at
-- that index itself by a claim that was won, and did nothing after that. A call that answers -1 changed
-- nothing because the host was not running.
pub acquire_slot-takes :
    (e : ℕ → Env) (running : Bool) (clock : ℕ → ℕ) (threshold num_slots fuel cached j : ℕ)
    (p q : Pool)
    → j < num_slots
    → IsObtainable clock threshold num_slots (p.cells j)
    → num_slots + num_slots < fuel
    → Finds (acquire_slot (λ i. quiet clock) threshold true num_slots fuel cached p)
      × TakesAny e threshold running num_slots q
          (acquire_slot e threshold running num_slots fuel cached q)
acquire_slot-takes e running clock threshold num_slots fuel cached j p q b o l = (
  acquire_slot-Finds clock threshold num_slots fuel cached j p b o l,
  acquire_slot-TakesAny e threshold running num_slots fuel cached q (omega (arith, b)),
)
