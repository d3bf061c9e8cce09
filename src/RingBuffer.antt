-- ===== src/RingBuffer.antt =====
-- include/shm/RingBuffer.h: `RingBufferSender` over the request buffer of a slot. The guest reads
-- from the same buffer: before the loads of each round it may have moved the read offset, and it is a
-- parameter.
pub mod Copy
pub mod Stream
pub mod Write
mod Tests
use shm.Base.{
  ℕ, zero, suc, ◌+◌, ◌-◌, ◌%◌, ◌^◌, Bool, not, true, false, Option, none, some, List, [], ltb, leb,
  if◌then◌else◌, length, take, drop, min, add64, sub64,
}
use shm.Base.Bytes.{write_at}
use shm.Slot.Exchange.{Error, invalid_args, buffer_too_small}

-- `sizeof(RingBufferHeader)`
abbrev pub ring_header_size : ℕ
ring_header_size = 256

-- `RingBufferHeader` with the data area behind it, and the `capacity` of the sender.
pub record Ring : Type 0 where
  pub write_offset : ℕ
  pub read_offset : ℕ
  pub buf : List ℕ
  pub capacity : ℕ

-- What the guest has read before round `t`.
abbrev pub Reader : Type 0
Reader = ℕ → Ring → ℕ

-- A call of the sender that returned, and one that its fuel did not end. A sender is not
-- initialized, or it has its ring.
pub data RingResult : Type 0 where
  refused : Error → RingResult
  returned : Ring → RingResult
  spins : RingResult

abbrev pub Sender : Type 0
Sender = Option Ring

-- `Init`, on a request buffer of `max_req` bytes.
pub init_ring : Bool → ℕ → List ℕ → RingResult
init_ring has_host max_req req_buffer =
    if not has_host
    then refused invalid_args
    else if ltb max_req (ring_header_size + 1024)
    then refused buffer_too_small
    else returned (record {
      write_offset = 0;
      read_offset = 0;
      buf = drop ring_header_size req_buffer;
      capacity = max_req - ring_header_size;
    })

-- `usage`
abbrev pub usage : Ring → ℕ
usage r = sub64 r.write_offset r.read_offset

-- `toWrite`
abbrev pub to_write : Ring → ℕ → ℕ
to_write r remaining = min remaining (r.capacity - usage r)

-- The circular copy of the first `n` bytes of the source to `write_idx`, in one part or in two.
unfoldable pub copy_in : List ℕ → ℕ → ℕ → List ℕ → ℕ → List ℕ
copy_in buf capacity write_idx src n =
    let chunk = min n (capacity - write_idx) in
    let first = write_at buf write_idx (take chunk src) in
    if ltb chunk n then write_at first 0 (take (n - chunk) (drop chunk src)) else first

-- The copy and the commit of one round.
unfoldable pub put : Ring → List ℕ → Ring
unfolding copy_in
put r src =
    let n = to_write r (length src) in
    record r {
      buf = copy_in r.buf r.capacity (r.write_offset % r.capacity) src n;
      write_offset = add64 r.write_offset n;
    }

-- The loads of a round.
abbrev pub observe : Reader → ℕ → Ring → Ring
observe reader t r = record r { read_offset = reader t r }

-- The loop of `Write`; `none` is a loop that its fuel did not end.
unfoldable pub write_loop : Reader → ℕ → ℕ → Ring → List ℕ → Option Ring
unfolding put
write_loop reader t zero r src = if ltb 0 (length src) then none else some r
write_loop reader t (suc fuel) r src =
    let o = observe reader t r in
    let again = write_loop reader (suc t) fuel o src in
    let more = write_loop reader (suc t) fuel (put o src) (drop (to_write o (length src)) src) in
    if ltb 0 (length src) then (if leb o.capacity (usage o) then again else more) else some r

abbrev pub returns_ring : Option Ring → RingResult
returns_ring none = spins
returns_ring (some r) = returned r

-- `Write`. The signal to the guest after a round is a call of the host that changes nothing here.
pub write : Reader → ℕ → Sender → List ℕ → RingResult
unfolding write_loop
write reader fuel none src = refused invalid_args
write reader fuel (some r) src = returns_ring (write_loop reader 0 fuel r src)
