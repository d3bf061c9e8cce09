-- ===== src/Host/ZeroCopy.antt =====
-- include/shm/DirectHost.h: the transactions of a `ZeroCopySlot`, which leave the response in the slot,
-- and its views of the response. `alive` says whether the host lives.
pub mod Receives
pub mod FlatBuffer
mod Tests
use shm.Base.{
  ℕ, ◌-◌, ◌%◌, ◌^◌, Bool, true, false, not, Option, none, some, ltb, leb, ◌==◌, if◌then◌else◌,
}
use shm.Wire.{MsgType, system_error, flatbuffer}
use shm.WaitStrategy.{Waited}
use shm.Slot.{slot_free, Env, World, look, store_state}
use shm.Slot.Exchange.{
  Error, timeout, buffer_too_small, invalid_args, internal_error, protocol_violation, Slot,
  abs_size, is_negative, finish_wait, wait_response, arm, effective_timeout, next_seq,
  wait_for_resp_ready, publish,
}
use shm.Host.Handle.{Handle, is_valid}

-- A call that returned: `error` is `none` on success.
pub record ZeroCopySent : Type 0 where
  pub error : Option Error
  pub handle : Handle
  pub slot : Slot
  pub world : World

abbrev pub give_up : Handle → Handle
give_up h = record h { slot_idx = none }

-- A refusal changes nothing.
abbrev pub refuse_call : Error → Handle → Slot → World → Option ZeroCopySent
refuse_call x h s w = some (record { error = some x; handle = h; slot = s; world = w })

-- A response is there, and the slot is BUSY.
unfoldable pub check_response : Env → ℕ → Handle → Slot → World → ZeroCopySent
check_response e current_seq h s w =
    let a = look e w in
    let b = look e a in
    if not (a.cell.header.msg_seq == current_seq)
    then record {
      error = some protocol_violation;
      handle = give_up h;
      slot = s;
      world = store_state e slot_free a;
    }
    else if b.cell.header.msg_type == system_error
    then record {
      error = some internal_error;
      handle = give_up h;
      slot = s;
      world = store_state e slot_free b;
    }
    else record { error = none; handle = h; slot = s; world = b }

-- The end of the wait; `none` is a wait that its fuel did not end.
unfoldable pub conclude : Env → ℕ → Handle → Slot → Option (Waited World) → Option ZeroCopySent
unfolding check_response finish_wait
conclude e current_seq h s none = none
conclude e current_seq h s (some r) =
    let s' = record s { current_limit = r.current_limit } in
    let w = finish_wait e r.ready r.state in
    some (
      if r.ready
      then check_response e current_seq h s' w
      else record { error = some timeout; handle = give_up h; slot = s'; world = w })

-- The request goes out with its header fields.
abbrev pub transact : Env → ℕ → Handle → Slot → ℕ → MsgType → ℕ → World → Option ZeroCopySent
transact e fuel h s size msg_type timeout_ms w =
    conclude e s.msg_seq h (next_seq s)
      (wait_response e fuel s (effective_timeout s timeout_ms) (arm e s size msg_type w))

-- `ZeroCopySlot::Send`
unfoldable pub send_zero_copy :
    Env → ℕ → Bool → Handle → Slot → ℕ → MsgType → ℕ → World → Option ZeroCopySent
unfolding conclude
send_zero_copy e fuel alive h s size msg_type timeout_ms w =
    if not (is_valid alive h)
    then refuse_call invalid_args h s w
    else if ltb s.max_req_size (abs_size size)
    then refuse_call buffer_too_small h s w
    else transact e fuel h s size msg_type timeout_ms w

-- The negation of an int32_t
abbrev pub neg32 : ℕ → ℕ
neg32 n = (2 ^ 32 - n) % 2 ^ 32

-- `ZeroCopySlot::SendFlatBuffer`, which reads the size as a uint32_t.
unfoldable pub send_flat_buffer :
    Env → ℕ → Bool → Handle → Slot → ℕ → ℕ → World → Option ZeroCopySent
unfolding conclude
send_flat_buffer e fuel alive h s size timeout_ms w =
    if not (is_valid alive h)
    then refuse_call invalid_args h s w
    else if ltb s.max_req_size size
    then refuse_call buffer_too_small h s w
    else transact e fuel h s (neg32 size) flatbuffer timeout_ms w

-- The magnitude of a response's size, which is cut to the capacity.
abbrev pub resp_length : Slot → ℕ → ℕ
resp_length s size = let n = abs_size size in if ltb s.max_resp_size n then s.max_resp_size else n

-- `GetRespSize`
unfoldable pub get_resp_size : Env → Bool → Handle → Slot → World → ℕ × World
get_resp_size e alive h s w =
    let v = look e w in
    if not (is_valid alive h) then (0, w) else (resp_length s v.cell.header.resp_size, v)

-- Where the response begins, from the start of the response buffer.
abbrev pub resp_offset : Slot → ℕ → ℕ
resp_offset s size = if not (is_negative size) then 0 else s.max_resp_size - resp_length s size

-- `GetRespBuffer`, as an offset into the response buffer; `none` is a null pointer.
unfoldable pub get_resp_buffer : Env → Bool → Handle → Slot → World → Option ℕ × World
get_resp_buffer e alive h s w =
    let v = look e w in
    if not (is_valid alive h) then (none, w) else (some (resp_offset s v.cell.header.resp_size), v)
