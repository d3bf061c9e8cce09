-- ===== src/GuestCall/Thread/Matches.antt =====
-- The worker has at most one thread, whatever its owner calls.
use shm.Base.{ℕ, ◌≡◌, inl, inr, refl, true, false, Option, List, [], ◌∷◌, Bool-cases, ◌==◌}
use shm.Slot.Pool.{Pool}
use shm.GuestCall.Wait.{Allocator}
use shm.GuestCall.Thread.{Thread, no_thread, start, stop, Call, starts, stops, calls}

-- A thread runs and is joinable exactly while the flag is up.
pub data Matches : Thread → Type 0 where
  runs : Matches (record { guest_worker_running = true; joinable = true; loops = 1 })
  rests : Matches (record { guest_worker_running = false; joinable = false; loops = 0 })

module _ (alloc : Option Allocator) (num_guest_slots : ℕ) where
  start-Matches : (t : Thread) → Matches t → Matches (start num_guest_slots t)
  start-Matches t runs = elim (Bool-cases (num_guest_slots == 0)) [
    | inl nothing ↦ rw nothing runs
    | inr guests ↦ rw guests runs
  ]
  start-Matches t rests = elim (Bool-cases (num_guest_slots == 0)) [
    | inl nothing ↦ rw nothing rests
    | inr guests ↦ rw guests runs
  ]

  pub stop-Matches :
      (t : Thread) (p : Pool)
      → Matches t
      → Matches (stop alloc t p).0 × ((stop alloc t p).0 ≡ no_thread)
  stop-Matches t p runs = (rests, refl)
  stop-Matches t p rests = (rests, refl)

  -- No sequence of `Start` and `Stop` leaves more than one thread, or starts one over one that is
  -- joinable: a thread runs the loop, and is joinable, exactly while the flag is up.
  pub calls-Matches :
      (cs : List Call) (s : Thread × Pool)
      → Matches s.0
      → Matches (calls alloc num_guest_slots cs s).0
  unfolding calls
  calls-Matches [] s m = m
  calls-Matches (starts ∷ cs) (t, p) m =
      calls-Matches cs (start num_guest_slots t, p) (start-Matches t m)
  calls-Matches (stops ∷ cs) (t, p) m = calls-Matches cs (stop alloc t p) (stop-Matches t p m).0
