-- ===== src/Host.antt =====
-- include/shm/DirectHost.h: `Init`, which lays the slots out in the mapping. Addresses are offsets
-- from the start of the mapping. What the operating system does is a parameter.
pub mod Layout
pub mod Handle
pub mod Send
pub mod ZeroCopy
pub mod Life
mod Tests
use shm.Base.{
  ℕ, zero, suc, ◌+◌, ◌-◌, ◌*◌, ◌/◌, ◌%◌, ◌^◌, Bool, true, false, not, ◌&&◌, List, [], ◌∷◌, ltb,
  ◌==◌, if◌then◌else◌, add32, add64, leb,
}
use shm.Wire.{normal}
use shm.Slot.{slot_free, host_state_active, SlotHeader}
use shm.Slot.Exchange.{Error, internal_error, resource_exhausted, is_negative}

-- `sizeof(ExchangeHeader)` and `sizeof(SlotHeader)`
abbrev pub exchange_header_size : ℕ
exchange_header_size = 64

abbrev pub slot_header_size : ℕ
slot_header_size = 128

-- The numbers of a `HostConfig`
pub record HostConfig : Type 0 where
  pub num_host_slots : ℕ
  pub num_guest_slots : ℕ
  pub payload_size : ℕ

-- `halfSize`: half of the payload, a multiple of 64 and at least 64
unfoldable pub half_size : ℕ → ℕ
half_size payload_size = let h = payload_size / 2 / 64 * 64 in if ltb h 64 then 64 else h

-- `slotSize`, which grows if two halves do not fit.
unfoldable pub slot_size : ℕ → ℕ
unfolding half_size
slot_size payload_size =
    let h = half_size payload_size in
    if ltb payload_size (add32 h h) then add32 h h else payload_size

abbrev pub total_slots : HostConfig → ℕ
total_slots c = add32 c.num_host_slots c.num_guest_slots

-- `perSlotTotal` and `totalSize`, as `size_t`
unfoldable pub per_slot_total : ℕ → ℕ
unfolding slot_size
per_slot_total payload_size = add64 slot_header_size (slot_size payload_size)

unfoldable pub total_size : HostConfig → ℕ
unfolding per_slot_total
total_size c = add64 exchange_header_size ((per_slot_total c.payload_size * total_slots c) % 2 ^ 64)

-- Where a slot lies, and what its header holds at the start.
pub record SlotLayout : Type 0 where
  pub header_at : ℕ
  pub req_at : ℕ
  pub resp_at : ℕ
  pub max_req_size : ℕ
  pub max_resp_size : ℕ
  pub msg_seq : ℕ
  pub header : SlotHeader

-- The header of a slot in a mapping that is all zeros.
abbrev pub fresh_header : SlotHeader
fresh_header = record {
  state = slot_free;
  host_state = host_state_active;
  guest_state = 0;
  msg_seq = 0;
  msg_type = normal;
  req_size = 0;
  resp_size = 0;
  lease = 0;
  gen = 0;
}

-- The body of the loop over the slots, at the address `ptr`.
abbrev pub slot_at : ℕ → ℕ → ℕ → SlotLayout
slot_at payload_size i ptr =
    let data_base = ptr + slot_header_size in
    let h = half_size payload_size in
    record {
      header_at = ptr;
      req_at = data_base;
      resp_at = data_base + h;
      max_req_size = h;
      max_resp_size = slot_size payload_size - h;
      msg_seq = add32 i 1;
      header = fresh_header;
    }

-- The loop, from slot `i` on.
unfoldable pub slots_from : ℕ → ℕ → ℕ → ℕ → List SlotLayout
unfolding per_slot_total
slots_from payload_size i zero ptr = []
slots_from payload_size i (suc n) ptr =
    slot_at payload_size i ptr
    ∷ slots_from payload_size (suc i) n (ptr + per_slot_total payload_size)

-- `ExchangeHeader`, with what `Init` writes to it.
pub record ExchangeHeader : Type 0 where
  pub num_slots : ℕ
  pub num_guest_slots : ℕ
  pub slot_size : ℕ
  pub req_offset : ℕ
  pub resp_offset : ℕ
  pub fast_path_allowed : Bool

-- What the operating system grants: the mapping, its lock, and the two events of each slot.
pub record Os : Type 0 where
  pub creates_shm : Bool
  pub locks_shm : Bool
  pub creates_events : ℕ → Bool

unfoldable pub all_events : Os → ℕ → ℕ → Bool
all_events os i zero = true
all_events os i (suc n) = os.creates_events i && all_events os (suc i) n

-- A host that runs.
pub record Host : Type 0 where
  pub exchange : ExchangeHeader
  pub slots : List SlotLayout
  pub msg_seq_stride : ℕ
  pub total_shm_size : ℕ

pub data InitResult : Type 0 where
  ready : Host → InitResult
  failed : Error → InitResult

-- The host that `Init` sets up.
abbrev pub set_up : Bool → HostConfig → Host
set_up auto_reclaim c = record {
  exchange = record {
    num_slots = c.num_host_slots;
    num_guest_slots = c.num_guest_slots;
    slot_size = slot_size c.payload_size;
    req_offset = 0;
    resp_offset = half_size c.payload_size;
    fast_path_allowed = not auto_reclaim;
  };
  slots = slots_from c.payload_size 0 (total_slots c) exchange_header_size;
  msg_seq_stride = add32 c.num_host_slots c.num_guest_slots;
  total_shm_size = total_size c;
}

-- `Init`
pub init : Os → Bool → HostConfig → InitResult
unfolding slots_from total_size all_events
init os auto_reclaim c =
    if not os.creates_shm
    then failed internal_error
    else if not os.locks_shm
    then failed resource_exhausted
    else if all_events os 0 (total_slots c)
    then ready (set_up auto_reclaim c)
    else failed internal_error
