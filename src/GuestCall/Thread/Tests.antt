-- ===== src/GuestCall/Thread/Tests.antt =====
-- A worker that is started twice and stopped, and its loop of two rounds.
use shm.Base.{◌+◌, ◌≡◌, ◌≢◌, refl, true, false, none, some, List, [], ◌∷◌, ltb}
use shm.Wire.{normal}
use shm.Slot.{slot_free, Cell}
use shm.Slot.Claim.{quiet}
use shm.Slot.Pool.{Pool}
use shm.GuestCall.Wait.{System, Worker}
use shm.GuestCall.Thread.{guest_worker_loop, no_thread, stop, Call, starts, stops, calls}
use shm.GuestCall.Thread.Matches.{Matches}
use shm.GuestCall.Thread.Return.{worker-stops}

abbrev idle : Cell
idle = record {
  header = record {
    state = slot_free;
    host_state = 0;
    guest_state = 0;
    msg_seq = 5;
    msg_type = normal;
    req_size = 0;
    resp_size = 0;
    lease = 10;
    gen = 3;
  };
  req_buffer = [];
  resp_buffer = [];
  active_wait = false;
}

abbrev pool : Pool
pool = record { tick = 0; signals = 0; cells = λ i. idle; next_slot = 0 }

abbrev worker : Worker
worker = record {
  alloc = some (record { num_slots = 1; num_guest_slots = 1; size = 2; has_req_event = true });
  spin = false;
  current_limit = 100;
}

abbrev system : System
system = record { sleep_for = λ ms t. t + ms; wait_event = λ ms t. some (t + ms) }

abbrev owner : List Call
owner = starts ∷ starts ∷ stops ∷ starts ∷ []

-- Two starts make one thread, and the last one another.
calls-owner : (calls worker.alloc 1 owner (no_thread, pool)).0.loops ≡ 1
unfolding calls
calls-owner = refl

worker-stops_example :
    (guest_worker_loop system (λ i. quiet (λ t. t)) (λ k. ltb k 2) (λ p. p) 0 3 worker pool ≢ none)
    × (Matches (calls worker.alloc 1 owner (no_thread, pool)).0
        × ((stop worker.alloc
              (calls worker.alloc 1 owner (no_thread, pool)).0
              (calls worker.alloc 1 owner (no_thread, pool)).1).0
            ≡ no_thread))
worker-stops_example =
    worker-stops system (λ i. quiet (λ t. t)) (λ t h. cc) (λ k. ltb k 2) (λ p. p) 2 worker pool 1
      owner refl
