-- ===== src/GuestCall/Thread.antt =====
-- include/shm/GuestCallWorker.h: the worker's thread, `GuestWorkerLoop`, `Start` and `Stop`. The loop
-- loads its flag once in a round, and `flag` says what each load sees. `process` is the call of
-- `ProcessGuestCalls` on the slots. Pinning the thread to a processor is left out.
pub mod Return
pub mod Matches
mod Tests
use shm.Base.{
  ℕ, zero, suc, Bool, true, false, Option, none, some, List, [], ◌∷◌, ◌==◌, if◌then◌else◌,
}
use shm.WaitStrategy.{Waited}
use shm.Slot.{Env}
use shm.Slot.Pool.{Pool}
use shm.GuestCall.Wait.{Allocator, System, Worker, wait_for_request, wake_waiter}

-- The park of a round, in milliseconds.
abbrev pub park_ms : ℕ
park_ms = 1000

-- Behind a wait that returns, the round goes on.
abbrev pub and_then : Option (Waited Pool) → (Waited Pool → Option Pool) → Option Pool
and_then none f = none
and_then (some r) f = f r

abbrev pub with_limit : ℕ → Worker → Worker
with_limit limit w = record w { current_limit = limit }

-- `GuestWorkerLoop` from load number `k` of its flag on; `none` is a loop that its fuel did not end,
-- or a wait that never does.
unfoldable pub guest_worker_loop :
    System → (ℕ → Env) → (ℕ → Bool) → (Pool → Pool) → ℕ → ℕ → Worker → Pool → Option Pool
guest_worker_loop sys e flag process k zero w p = none
guest_worker_loop sys e flag process k (suc fuel) w p =
    let rest = and_then (wait_for_request sys e w park_ms p) (λ r.
      guest_worker_loop sys e flag process (suc k) fuel (with_limit r.current_limit w)
        (process r.state)) in
    if flag k then rest else some p

-- `guestWorkerRunning`, whether `guestWorker` is joinable, and the number of threads that run the
-- loop.
pub record Thread : Type 0 where
  pub guest_worker_running : Bool
  pub joinable : Bool
  pub loops : ℕ

abbrev pub no_thread : Thread
no_thread = record { guest_worker_running = false; joinable = false; loops = 0 }

-- `Start`
abbrev pub start : ℕ → Thread → Thread
start num_guest_slots t =
    if num_guest_slots == 0
    then t
    else if t.guest_worker_running
    then t
    else record { guest_worker_running = true; joinable = true; loops = suc t.loops }

-- The join ends when the loop has ended.
abbrev pub join : Thread → Thread
join t =
    if t.joinable
    then record { guest_worker_running = false; joinable = false; loops = 0 }
    else record t { guest_worker_running = false }

-- `Stop`, and the destructor, with the wake of a parked loop.
abbrev pub stop : Option Allocator → Thread → Pool → Thread × Pool
stop alloc t p = if t.guest_worker_running then (join t, wake_waiter alloc p) else (t, p)

-- The calls of a worker's owner, in any order.
pub data Call : Type 0 where
  starts : Call
  stops : Call

abbrev pub call : Option Allocator → ℕ → Call → Thread × Pool → Thread × Pool
call alloc num_guest_slots starts (t, p) = (start num_guest_slots t, p)
call alloc num_guest_slots stops (t, p) = stop alloc t p

unfoldable pub calls : Option Allocator → ℕ → List Call → Thread × Pool → Thread × Pool
calls alloc num_guest_slots [] s = s
calls alloc num_guest_slots (c ∷ cs) s =
    calls alloc num_guest_slots cs (call alloc num_guest_slots c s)
