-- ===== src/Slot/Exchange.antt =====
-- include/shm/SlotAllocator.h: the transactions of the host on a slot that it has claimed. The guest
-- answers, or does not, as one of the peers.
pub mod Outcome
pub mod Flight
pub mod Answer
pub mod Return
mod Tests
use shm.Base.{
  ℕ, zero, suc, ◌+◌, ◌-◌, ◌/◌, ◌%◌, ◌^◌, Bool, true, false, not, ◌&&◌, ◌||◌, min, Option, none,
  some, List, [], ltb, leb, ◌==◌, if◌then◌else◌, take, drop, length, add32,
}
use shm.Wire.{MsgType, system_error}
use shm.WaitStrategy.{Waited, wait}
use shm.Slot.{
  slot_free, slot_req_ready, slot_resp_ready, slot_busy, host_state_active, host_state_waiting,
  guest_state_waiting, SlotHeader, Cell, Env, World, look, with_header, store_state, store_lease,
  store_host_state, store_active_wait,
}

-- `enum class Error`, without its `None`
pub data Error : Type 0 where
  timeout : Error
  buffer_too_small : Error
  invalid_args : Error
  not_connected : Error
  resource_exhausted : Error
  internal_error : Error
  protocol_violation : Error

-- `Result<int>` with the bytes that the call leaves in `outResp`; `failure` leaves them as they were.
pub data SendResult : Type 0 where
  success : List ℕ → SendResult
  failure : Error → SendResult

-- What a transaction works with besides the cell: the capacities of the slot, the sequence number and
-- the spin window of its owner, and the configuration of the allocator.
pub record Slot : Type 0 where
  pub max_req_size : ℕ
  pub max_resp_size : ℕ
  pub msg_seq : ℕ
  pub current_limit : ℕ
  pub msg_seq_stride : ℕ
  pub response_timeout_ms : ℕ
  pub num_slots : ℕ

-- The sign of an int32_t, and its magnitude as a uint32_t. A size counts bytes from the start of a
-- buffer or, negative, from its end.
abbrev pub is_negative : ℕ → Bool
is_negative w = leb (2 ^ 31) w

abbrev pub abs_size : ℕ → ℕ
abs_size w = if is_negative w then (2 ^ 32 - w) % 2 ^ 32 else w

-- `0xFFFFFFFF`
abbrev pub infinite : ℕ
infinite = 2 ^ 32 - 1

-- `checkReady`
abbrev pub check_ready : Env → World → Bool × World
check_ready e w = let v = look e w in (v.cell.header.state == slot_resp_ready, v)

-- The time since `start`, in milliseconds
abbrev pub elapsed_ms : Env → ℕ → World → ℕ
elapsed_ms e start w = (e.clock w.tick - start) / 1000000

-- The loop of `sleepAction` over its `WaitEvent`s, each of which is a turn of the others. It ends
-- when the response is there or the time is over; `none` is a loop that its fuel did not end.
unfoldable pub sleep_loop : Env → ℕ → ℕ → ℕ → World → Option World
sleep_loop e timeout_ms start zero w = none
sleep_loop e timeout_ms start (suc fuel) w =
    let r = check_ready e w in
    let rest = sleep_loop e timeout_ms start fuel (look e r.1) in
    if r.0
    then some r.1
    else if not (timeout_ms == infinite) && leb timeout_ms (elapsed_ms e start r.1)
    then some r.1
    else rest

-- What the sleep leaves when it returns.
unfoldable pub awake : Env → Option World → Option World
awake e none = none
awake e (some w) = some (store_host_state e host_state_active w)

-- `sleepAction`
unfoldable pub sleep_action : Env → ℕ → ℕ → World → Option World
unfolding sleep_loop awake
sleep_action e fuel timeout_ms w =
    let r = check_ready e (store_host_state e host_state_waiting w) in
    if r.0
    then some (store_host_state e host_state_active r.1)
    else awake e (sleep_loop e timeout_ms (e.clock r.1.tick) fuel r.1)

-- `WaitForRespReady`
unfoldable pub wait_for_resp_ready : Env → ℕ → ℕ → ℕ → World → Option (Waited World)
unfolding sleep_action
wait_for_resp_ready e fuel limit timeout_ms w =
    wait (check_ready e) (sleep_action e fuel timeout_ms) limit w

-- `FinishWait`
unfoldable pub finish_wait : Env → Bool → World → World
finish_wait e ready w = store_active_wait e false (if ready then store_state e slot_busy w else w)

-- The event is signalled if the guest said that it waits.
abbrev pub signal_guest : Env → World → World
signal_guest e w =
    let v = look e w in
    if v.cell.header.guest_state == guest_state_waiting
    then record v { signals = v.signals + 1 }
    else v

-- The request is published and the guest signalled.
unfoldable pub publish : Env → World → World
publish e w = signal_guest e (
    store_state e slot_req_ready
      (store_host_state e host_state_active (store_active_wait e true w)))

-- `USE_DEFAULT_TIMEOUT`, and the timeout that a call works with.
abbrev pub use_default_timeout : ℕ
use_default_timeout = 2 ^ 32 - 1

abbrev pub effective_timeout : Slot → ℕ → ℕ
effective_timeout s timeout_ms =
    if timeout_ms == use_default_timeout then s.response_timeout_ms else timeout_ms

-- A call that returned. `slot` is what the owner's part of the slot has become.
pub record Sent : Type 0 where
  pub result : SendResult
  pub slot : Slot
  pub world : World

-- An index that is no host slot's.
abbrev pub is_foreign : Slot → ℕ → Bool
is_foreign s slot_idx = is_negative slot_idx || leb s.num_slots slot_idx

-- The request's fields. They are plain stores to a slot that its owner has to itself.
abbrev pub arm : Env → Slot → ℕ → MsgType → World → World
arm e s size msg_type w =
    with_header (λ h. record h { req_size = size; msg_type = msg_type; msg_seq = s.msg_seq })
      (look e w)

abbrev pub next_seq : Slot → Slot
next_seq s = record s { msg_seq = add32 s.msg_seq s.msg_seq_stride }

-- The response: its size is read at one access, its bytes are copied at another.
unfoldable pub read_response : ℕ → ℕ → List ℕ → List ℕ
read_response max_resp_size resp_size resp_buffer =
    let n = min (abs_size resp_size) max_resp_size in
    if is_negative resp_size
    then take n (drop (max_resp_size - n) resp_buffer)
    else take n resp_buffer

-- The end of a transaction whose response is there: a foreign sequence number and a system error
-- free the slot; otherwise it is copied out, and left as `release` leaves it.
unfoldable pub consume : Env → (World → World) → ℕ → Slot → World → Sent
unfolding read_response
consume e release expected_seq s w =
    let a = look e w in
    let b = look e a in
    let c = look e b in
    let d = look e c in
    if not (a.cell.header.msg_seq == expected_seq)
    then record { result = failure protocol_violation; slot = s; world = store_state e slot_free a }
    else if b.cell.header.msg_type == system_error
    then record { result = failure internal_error; slot = s; world = store_state e slot_free b }
    else record {
      result = success (read_response s.max_resp_size c.cell.header.resp_size d.cell.resp_buffer);
      slot = s;
      world = release d;
    }

-- The end of a transaction: `FinishWait`, and the response or the timeout.
unfoldable pub complete : Env → (World → World) → ℕ → Slot → Option (Waited World) → Option Sent
unfolding finish_wait consume
complete e release expected_seq s none = none
complete e release expected_seq s (some r) =
    let s' = record s { current_limit = r.current_limit } in
    let w = finish_wait e r.ready r.state in
    some (
      if r.ready
      then consume e release expected_seq s' w
      else record { result = failure timeout; slot = s'; world = w })

-- `WaitResponse`: the request is published, and answered or not.
abbrev pub wait_response : Env → ℕ → Slot → ℕ → World → Option (Waited World)
wait_response e fuel s timeout_ms w =
    wait_for_resp_ready e fuel s.current_limit timeout_ms (publish e w)

abbrev pub refuse : Error → Slot → World → Option Sent
refuse x s w = some (record { result = failure x; slot = s; world = w })

-- `SendAcquired`
pub send_acquired : Env → ℕ → Slot → ℕ → ℕ → MsgType → ℕ → World → Option Sent
unfolding complete wait_for_resp_ready publish
send_acquired e fuel s slot_idx size msg_type timeout_ms w =
    if is_foreign s slot_idx
    then refuse invalid_args s w
    else if ltb s.max_req_size (abs_size size)
    then refuse buffer_too_small s (store_state e slot_free w)
    else complete e (store_state e slot_free) s.msg_seq (next_seq s)
        (wait_response e fuel s (effective_timeout s timeout_ms) (arm e s size msg_type w))

-- `SendHeld`: the same on a slot that stays claimed, with a fresh lease for each request.
pub send_held : Env → ℕ → Slot → ℕ → ℕ → MsgType → ℕ → World → Option Sent
unfolding complete wait_for_resp_ready publish
send_held e fuel s slot_idx size msg_type timeout_ms w =
    if is_foreign s slot_idx
    then refuse invalid_args s w
    else if ltb s.max_req_size (abs_size size)
    then refuse buffer_too_small s w
    else complete e (λ v. v) s.msg_seq (next_seq s)
        (wait_response e fuel s (effective_timeout s timeout_ms)
          (store_lease e (arm e s size msg_type w)))

-- `SendAcquiredAsync`: the request is published and not waited for. Its success has no bytes.
pub send_acquired_async : Env → Slot → ℕ → ℕ → MsgType → World → Sent
unfolding publish
send_acquired_async e s slot_idx size msg_type w =
    if is_foreign s slot_idx
    then record { result = failure invalid_args; slot = s; world = w }
    else if ltb s.max_req_size (abs_size size)
    then record { result = failure buffer_too_small; slot = s; world = store_state e slot_free w }
    else record {
      result = success [];
      slot = next_seq s;
      world = publish e (arm e s size msg_type w);
    }

-- `WaitForSlot`
pub wait_for_slot : Env → ℕ → Slot → ℕ → ℕ → World → Option Sent
unfolding complete wait_for_resp_ready
wait_for_slot e fuel s slot_idx timeout_ms w =
    if is_foreign s slot_idx
    then refuse invalid_args s w
    else complete e (store_state e slot_free) ((s.msg_seq + 2 ^ 32 - s.msg_seq_stride) % 2 ^ 32) s (
        wait_for_resp_ready e fuel s.current_limit (effective_timeout s timeout_ms)
          (store_host_state e host_state_active (store_active_wait e true w)))

-- `ReleaseHeldSlot`
pub release_held_slot : Env → Slot → ℕ → World → World
release_held_slot e s slot_idx w = if is_foreign s slot_idx then w else store_state e slot_free w
