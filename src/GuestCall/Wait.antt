-- ===== src/GuestCall/Wait.antt =====
-- include/shm/GuestCallWorker.h: `WaitForRequest`, where the host waits for a call of the guest, and
-- `WakeWaiter`. The guest slots stand in the table of slots behind the host's, and the others act on
-- a slot before each access to it. The sleeps of the operating system are parameters. The numbers of
-- slots are small, so their sum does not wrap.
pub mod Gate
pub mod Report
pub mod Return
mod Tests
use shm.Base.{
  ℕ, zero, suc, ◌+◌, Bool, true, false, ◌&&◌, ◌||◌, Option, none, some, ltb, leb, ◌==◌,
  if◌then◌else◌,
}
use shm.WaitStrategy.{Waited, wait}
use shm.Slot.{
  slot_req_ready, host_state_active, host_state_waiting, Cell, Env, look, store_host_state,
}
use shm.Slot.Pool.{Pool, world_at, with_world}

-- What the worker sees of the allocator: `numSlots`, `numGuestSlots`, `slots.size()`, and whether the
-- first guest slot has a request event.
pub record Allocator : Type 0 where
  pub num_slots : ℕ
  pub num_guest_slots : ℕ
  pub size : ℕ
  pub has_req_event : Bool

-- `GuestRequestEvent`, as whether there is one; `none` is a worker without an allocator.
abbrev pub guest_request_event : Option Allocator → Bool
guest_request_event none = false
guest_request_event (some a) =
    (ltb 0 a.num_guest_slots && leb (a.num_slots + a.num_guest_slots) a.size) && a.has_req_event

-- The sleeps of the operating system, by the milliseconds and the access before which they begin: the
-- access at which they end, or `none` for a wait that never does.
pub record System : Type 0 where
  pub sleep_for : ℕ → ℕ → ℕ
  pub wait_event : ℕ → ℕ → Option ℕ

-- `anyRequestReady`, from slot `i` on, with `k` slots to go.
unfoldable pub any_request_ready : (ℕ → Env) → ℕ → ℕ → Pool → Bool × Pool
any_request_ready e i zero p = (false, p)
any_request_ready e i (suc k) p =
    let w = look (e i) (world_at i p) in
    let q = with_world i p w in
    let rest = any_request_ready e (suc i) k q in
    if w.cell.header.state == slot_req_ready then (true, q) else rest

-- `setHostState`, from slot `i` on, with `k` slots to go.
unfoldable pub set_host_state : (ℕ → Env) → ℕ → ℕ → ℕ → Pool → Pool
set_host_state e v i zero p = p
set_host_state e v i (suc k) p =
    set_host_state e v (suc i) k (with_world i p (store_host_state (e i) v (world_at i p)))

-- The gate before a park: WAITING is published, and the requests are checked once more.
unfoldable pub announce : (ℕ → Env) → ℕ → ℕ → Pool → Bool × Pool
unfolding any_request_ready set_host_state
announce e base count p =
    any_request_ready e base count (set_host_state e host_state_waiting base count p)

-- Behind the park.
unfoldable pub unpark : (ℕ → Env) → ℕ → ℕ → Pool → Option ℕ → Option Pool
unfolding set_host_state
unpark e base count p none = none
unpark e base count p (some t) =
    some (set_host_state e host_state_active base count (record p { tick = t }))

-- `sleepAction`
unfoldable pub park : System → (ℕ → Env) → ℕ → ℕ → ℕ → Pool → Option Pool
unfolding announce unpark
park sys e timeout_ms base count p =
    let r = announce e base count p in
    if r.0
    then some (set_host_state e host_state_active base count r.1)
    else unpark e base count r.1 (sys.wait_event timeout_ms r.1.tick)

abbrev pub fallback_poll_ms : ℕ
fallback_poll_ms = 100

abbrev pub pause : System → ℕ → Pool → Pool
pause sys ms p = record p { tick = sys.sleep_for ms p.tick }

-- The last check, and the spin window that the wait left.
abbrev pub check_now : (ℕ → Env) → ℕ → ℕ → ℕ → Pool → Waited Pool
check_now e base count limit p =
    let r = any_request_ready e base count p in
    record { ready = r.0; current_limit = limit; state = r.1 }

-- The checks behind a sleep, and behind an adaptive wait.
unfoldable pub check_slept : (ℕ → Env) → ℕ → ℕ → ℕ → Option Pool → Option (Waited Pool)
check_slept e base count limit none = none
check_slept e base count limit (some p) = some (check_now e base count limit p)

unfoldable pub check_waited : (ℕ → Env) → ℕ → ℕ → Option (Waited Pool) → Option (Waited Pool)
check_waited e base count none = none
check_waited e base count (some w) = some (check_now e base count w.current_limit w.state)

-- The worker's `alloc`, `spin` and `waitStrategy`.
pub record Worker : Type 0 where
  pub alloc : Option Allocator
  pub spin : Bool
  pub current_limit : ℕ

-- Without a guest slot there is nothing to wait for.
abbrev pub sleep_only : System → ℕ → ℕ → Pool → Waited Pool
sleep_only sys limit timeout_ms p = record {
  ready = false;
  current_limit = limit;
  state =
      if ltb 0 timeout_ms
      then pause sys (if ltb timeout_ms fallback_poll_ms then timeout_ms else fallback_poll_ms) p
      else p;
}

-- Without an event the requests are polled.
abbrev pub poll : System → (ℕ → Env) → ℕ → ℕ → ℕ → ℕ → Pool → Waited Pool
poll sys e limit timeout_ms base count p =
    let ms =
      if ltb 0 timeout_ms && ltb timeout_ms fallback_poll_ms
      then timeout_ms
      else fallback_poll_ms in
    check_now e base count limit (pause sys ms p)

-- The wait with an event: adaptive, or the sleep alone.
unfoldable pub wait_doorbell :
    System → (ℕ → Env) → Bool → ℕ → ℕ → ℕ → ℕ → Pool → Option (Waited Pool)
unfolding park check_slept check_waited
wait_doorbell sys e spin limit timeout_ms base count p =
    if spin
    then check_waited e base count
        (wait (any_request_ready e base count) (park sys e timeout_ms base count) limit p)
    else check_slept e base count limit (park sys e timeout_ms base count p)

-- The waits that need no event, and the doorbell.
unfoldable pub wait_on :
    System → (ℕ → Env) → Bool → ℕ → ℕ → Pool → Option Allocator → Option (Waited Pool)
unfolding wait_doorbell
wait_on sys e spin limit timeout_ms p none = some (sleep_only sys limit timeout_ms p)
wait_on sys e spin limit timeout_ms p (some a) =
    if a.num_guest_slots == 0
    then some (sleep_only sys limit timeout_ms p)
    else if guest_request_event (some a)
    then wait_doorbell sys e spin limit timeout_ms a.num_slots a.num_guest_slots p
    else some (poll sys e limit timeout_ms a.num_slots a.num_guest_slots p)

-- `WaitForRequest`; `none` is a call that never returns.
abbrev pub wait_for_request : System → (ℕ → Env) → Worker → ℕ → Pool → Option (Waited Pool)
wait_for_request sys e w timeout_ms p = wait_on sys e w.spin w.current_limit timeout_ms p w.alloc

-- `WakeWaiter`
abbrev pub wake_waiter : Option Allocator → Pool → Pool
wake_waiter alloc p = if guest_request_event alloc then record p { signals = suc p.signals } else p
