-- ===== src/GuestCall/Wait/Tests.antt =====
-- A worker with two guest slots behind two host slots, and a guest that sends while it is parked.
use shm.Base.{ℕ, ◌+◌, ◌≡◌, refl, true, false, ◌&&◌, some, [], ◌==◌, leb, if◌then◌else◌, arith}
use shm.Wire.{normal}
use shm.WaitStrategy.{Waited}
use shm.Slot.{slot_free, slot_req_ready, host_state_waiting, Cell, Env}
use shm.Slot.Pool.{Pool}
use shm.GuestCall.Wait.{
  Allocator, System, Worker, any_request_ready, set_host_state, announce, unpark, park, check_slept,
  wait_doorbell, wait_on, wait_for_request,
}
use shm.GuestCall.Wait.Gate.{Reports, AllHost, KeepsHost, announce-Reports}
use shm.GuestCall.Wait.Report.{Reported}
use shm.GuestCall.Wait.Return.{wait_for_request-returns}

abbrev idle : Cell
idle = record {
  header = record {
    state = slot_free;
    host_state = 0;
    guest_state = 0;
    msg_seq = 5;
    msg_type = normal;
    req_size = 0;
    resp_size = 0;
    lease = 10;
    gen = 3;
  };
  req_buffer = [];
  resp_buffer = [];
  active_wait = false;
}

abbrev pool : Pool
pool = record { tick = 0; signals = 0; cells = λ i. idle; next_slot = 0 }

abbrev two : Allocator
two = record { num_slots = 2; num_guest_slots = 2; size = 4; has_req_event = true }

abbrev worker : Worker
worker = record { alloc = some two; spin = false; current_limit = 100 }

-- A guest sends on slot 3 once 20 accesses were made, and does not touch the host's state.
abbrev sends_late : ℕ → Env
sends_late k = record {
  peers = λ t c. record c {
    header = record c.header {
      state = if (k == 3) && leb 20 t then slot_req_ready else c.header.state;
    };
  };
  clock = λ t. t;
}

sends_late-KeepsHost : KeepsHost sends_late
sends_late-KeepsHost k t c = refl

abbrev system : System
system = record { sleep_for = λ ms t. t + ms; wait_event = λ ms t. some (t + ms) }

-- The worker parks, is woken, and sees the request.
ready-wait_for_request :
    (r : Waited Pool) × ((wait_for_request system sends_late worker 1000 pool ≡ some r)
      × (r.ready ≡ true))
unfolding wait_on wait_doorbell park announce unpark check_slept any_request_ready set_host_state
ready-wait_for_request = (_, (refl, refl))

-- Nobody sends in so short a time.
idle-wait_for_request :
    (r : Waited Pool) × ((wait_for_request system sends_late worker 1 pool ≡ some r)
      × (r.ready ≡ false))
unfolding wait_on wait_doorbell park announce unpark check_slept any_request_ready set_host_state
idle-wait_for_request = (_, (refl, refl))

announce-Reports_example :
    AllHost host_state_waiting 2 2 (announce sends_late 2 2 pool).1
    × Reports 2 2 (announce sends_late 2 2 pool)
announce-Reports_example = announce-Reports sends_late 2 2 pool sends_late-KeepsHost

wait_for_request-returns_example :
    (r : Waited Pool) × ((wait_for_request system sends_late worker 1000 pool ≡ some r)
      × Reported 2 2 pool r)
wait_for_request-returns_example =
    wait_for_request-returns system sends_late 1000 (λ t h. cc) worker pool sends_late-KeepsHost
      (omega arith)
