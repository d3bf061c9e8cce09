-- ===== src/Host/Send.antt =====
-- include/shm/DirectHost.h: `SendToSlot` and `Send`, which acquire a slot, put the request into its
-- buffer and send it.
pub mod Ends
pub mod Any
pub mod Copy
mod Tests
use shm.Base.{
  ℕ, ◌+◌, ◌-◌, Bool, true, false, not, Option, none, some, List, ◌++◌, take, drop, ltb, ◌==◌,
  if◌then◌else◌,
}
use shm.Wire.{MsgType}
use shm.CopySmall.{copy_small}
use shm.Slot.{slot_free, Env, World, store_state, look}
use shm.Slot.Exchange.{
  invalid_args, buffer_too_small, resource_exhausted, SendResult, failure, Slot, Sent, abs_size,
  is_negative, refuse, send_acquired,
}
use shm.Slot.Acquire.{acquire_specific_slot}
use shm.Slot.Pool.{Pool, world_at, with_world}
use shm.Slot.Pool.Acquire.{Acquired, acquire_slot}

-- What a caller sends: `bytes` is `none` for a null pointer.
pub record Request : Type 0 where
  pub bytes : Option (List ℕ)
  pub size : ℕ
  pub msg_type : MsgType
  pub timeout_ms : ℕ

-- The copy of the request into its buffer of `max` bytes: to the start or, for a negative size, to the
-- end.
unfoldable pub copy_request : ℕ → ℕ → List ℕ → List ℕ → List ℕ
copy_request max size bytes buf =
    let n = abs_size size in
    if is_negative size
    then take (max - n) buf ++ copy_small (drop (max - n) buf) bytes n
    else copy_small buf bytes n

-- The copy is one access to a slot that its owner has to itself.
abbrev pub put_request : Env → ℕ → ℕ → List ℕ → World → World
put_request e max size bytes w =
    let v = look e w in
    record v { cell = record v.cell { req_buffer = copy_request max size bytes v.cell.req_buffer } }

-- A request that is not empty.
unfoldable pub submit_bytes : Env → ℕ → Slot → ℕ → Request → Option (List ℕ) → World → Option Sent
unfolding copy_request
submit_bytes e fuel s slot_idx q none w = refuse invalid_args s (store_state e slot_free w)
submit_bytes e fuel s slot_idx q (some bytes) w =
    if ltb s.max_req_size (abs_size q.size)
    then refuse buffer_too_small s (store_state e slot_free w)
    else send_acquired e fuel s slot_idx q.size q.msg_type q.timeout_ms
        (put_request e s.max_req_size q.size bytes w)

-- What is left of both calls behind the acquisition.
unfoldable pub submit : Env → ℕ → Slot → ℕ → Request → World → Option Sent
unfolding submit_bytes
submit e fuel s slot_idx q w =
    if not (q.size == 0)
    then submit_bytes e fuel s slot_idx q q.bytes w
    else send_acquired e fuel s slot_idx q.size q.msg_type q.timeout_ms w

unfoldable pub submit_acquired : Env → ℕ → Slot → ℕ → Request → Option (Bool × World) → Option Sent
unfolding submit
submit_acquired e fuel s slot_idx q none = none
submit_acquired e fuel s slot_idx q (some (false, w)) = refuse resource_exhausted s w
submit_acquired e fuel s slot_idx q (some (true, w)) = submit e fuel s slot_idx q w

-- `SendToSlot`
unfoldable pub send_to_slot : Env → ℕ → Bool → Slot → ℕ → Request → World → Option Sent
unfolding submit_acquired acquire_specific_slot
send_to_slot e fuel running s slot_idx q w =
    submit_acquired e fuel s slot_idx q
      (acquire_specific_slot e fuel running s slot_idx q.timeout_ms w)

-- What a call of `Send` leaves: the index that its thread keeps, its result, the owner's parts of the
-- slots, and the slots.
pub record SentAny : Type 0 where
  pub cached : ℕ
  pub result : SendResult
  pub slots : ℕ → Slot
  pub pool : Pool

abbrev pub put_slot : (ℕ → Slot) → ℕ → Slot → ℕ → Slot
put_slot slots i s j = if j == i then s else slots j

abbrev pub on_pool : ℕ → ℕ → (ℕ → Slot) → Pool → Option Sent → Option SentAny
on_pool cached i slots p none = none
on_pool cached i slots p (some r) = some (record {
  cached = cached;
  result = r.result;
  slots = put_slot slots i r.slot;
  pool = with_world i p r.world;
})

unfoldable pub submit_on :
    (ℕ → Env) → ℕ → (ℕ → Slot) → Request → ℕ → Pool → Option ℕ → Option SentAny
unfolding submit
submit_on e fuel slots q cached p none =
    some (record { cached = cached; result = failure resource_exhausted; slots = slots; pool = p })
submit_on e fuel slots q cached p (some i) =
    on_pool cached i slots p (submit (e i) fuel (slots i) i q (world_at i p))

unfoldable pub submit_any : (ℕ → Env) → ℕ → (ℕ → Slot) → Request → Option Acquired → Option SentAny
unfolding submit_on
submit_any e fuel slots q none = none
submit_any e fuel slots q (some a) = submit_on e fuel slots q a.cached a.pool a.slot

-- `Send`
unfoldable pub send :
    (ℕ → Env) → ℕ → ℕ → Bool → ℕ → ℕ → (ℕ → Slot) → Request → Pool → Option SentAny
unfolding submit_any acquire_slot
send e fuel threshold running num_slots cached slots q p =
    submit_any e fuel slots q (acquire_slot e threshold running num_slots fuel cached p)
