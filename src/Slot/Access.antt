-- ===== src/Slot/Access.antt =====
-- include/shm/SlotAllocator.h: the accessors of a host slot, and the threshold of the automatic
-- reclaim. An index that is no host slot's gives each its inert answer.
use shm.Base.{
  ℕ, ◌+◌, ◌^◌, ◌<◌, ◌≡◌, ◌≢◌, Bool, true, false, Option, none, some, List, arith, ltb,
  if◌then◌else◌,
}
use shm.Slot.{Cell, World}
use shm.Slot.Exchange.{Slot, abs_size, is_foreign}

-- `GetReqBuffer`; `none` is a null pointer.
abbrev pub get_req_buffer : Slot → ℕ → Cell → Option (List ℕ)
get_req_buffer s slot_idx c = if is_foreign s slot_idx then none else some c.req_buffer

-- `GetMaxReqSize`
unfoldable pub get_max_req_size : Slot → ℕ → ℕ
get_max_req_size s slot_idx = if is_foreign s slot_idx then 0 else s.max_req_size

-- `SignalSlot`
abbrev pub signal_slot : Slot → ℕ → World → World
signal_slot s slot_idx w = if is_foreign s slot_idx then w else record w { signals = w.signals + 1 }

-- `WaitForSlotEvent`, with the answer of the operating system by the timeout.
abbrev pub wait_for_slot_event : (ℕ → Bool) → Slot → ℕ → ℕ → Bool
wait_for_slot_event wait_event s slot_idx timeout_ms =
    if is_foreign s slot_idx then false else wait_event timeout_ms

-- An index that is no host slot's fails closed: a request of any size but 0 is too large for it.
pub get_max_req_size-foreign :
    (s : Slot) (slot_idx size : ℕ)
    → is_foreign s slot_idx ≡ true
    → size ≢ 0
    → size < 2 ^ 32
    → ltb (get_max_req_size s slot_idx) (abs_size size) ≡ true
unfolding get_max_req_size
get_max_req_size-foreign s slot_idx size foreign some_bytes fits =
    rw foreign (ground (arith, some_bytes, fits))
