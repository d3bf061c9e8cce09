-- ===== src/Reassembler.antt =====
-- include/shm/StreamReassembler.h: `StreamReassembler`, its configuration and `Handle`. A call runs
-- under `streamsMutex`, so it is one step from a state to the next. What a call takes from outside
-- is an `Env`: the steady clock, and whether the allocations of the call succeed. The callback is a
-- value: `replied` holds what `onStream` is called with.
pub mod Valid
pub mod Safety
pub mod Trace
pub mod Tracking
pub mod Integrity
pub mod Completion
pub mod WholeStream
pub mod Session
pub mod Isolation
pub mod Expiry
mod Tests
use shm.Base.{
  ℕ, ◌-◌, ◌/◌, Bool, true, false, ◌||◌, Option, none, some, List, [], ◌∷◌, ltb, leb, ◌==◌,
  if◌then◌else◌, length, drop, take, replicate, add64,
}
use shm.Base.Dict.{Dict, find, erase, insert}
use shm.Wire.{
  MsgType, normal, system_error, stream_start, stream_chunk, max_stream_size, stream_header_size,
  chunk_header_size, StreamHeader, ChunkHeader, decode_stream_header, decode_chunk_header,
}
use shm.StreamContext.{
  Placed, StreamContext, Placement, kept, corrupt, overruns, spins, has_chunk, place,
}

-- `StreamReassemblerConfig`
pub record Config : Type 0 where
  pub max_stream_size : ℕ
  pub max_stream_chunks : ℕ
  pub max_streams : ℕ
  pub max_parked_chunks : ℕ
  pub stream_timeout_ms : ℕ

abbrev pub default_config : Config
default_config = record {
  max_stream_size = max_stream_size;
  max_stream_chunks = 1048576;
  max_streams = 1024;
  max_parked_chunks = 1024;
  stream_timeout_ms = 10000;
}

-- `StreamReassembler`
pub record Reassembler : Type 0 where
  pub config : Config
  pub streams : Dict StreamContext

pub record Env : Type 0 where
  pub now : ℕ
  pub buf_allocates : Bool
  pub park_allocates : Bool

-- What `onStream` is called with.
pub record Delivery : Type 0 where
  pub stream_id : ℕ
  pub app_msg_type : ℕ
  pub bytes : List ℕ

-- The end of a call of `Handle`. `unhandled` is its `false`, for a message that is not a stream's.
-- Every other return sets `respSize` to 0, so a reply is its message type. A call that copies past
-- the end of a buffer or does not return has `overrun` or `diverges`.
pub data Outcome : Type 0 where
  unhandled : Outcome
  replied : MsgType → Option Delivery → Reassembler → Outcome
  overrun : Outcome
  diverges : Outcome

-- `StreamReassemblerConfig::IsValid`
unfoldable pub config_is_valid : Config → Bool
config_is_valid c = leb c.max_stream_size max_stream_size

-- The constructor, with its clamp.
unfoldable pub construct : Config → Reassembler
unfolding config_is_valid
construct c = record {
  config = if config_is_valid c then c else record c { max_stream_size = max_stream_size };
  streams = [];
}

abbrev pub fail : Reassembler → Outcome
fail r = replied system_error none r

-- `now - startTime`, cut to milliseconds, against the configured age
abbrev pub is_timed_out : Config → ℕ → StreamContext → Bool
is_timed_out cfg now c = ltb cfg.stream_timeout_ms ((now - c.start_time) / 1000000)

unfoldable pub prune_streams : Config → ℕ → Dict StreamContext → Dict StreamContext
prune_streams cfg now [] = []
prune_streams cfg now ((id, c) ∷ m) =
    if is_timed_out cfg now c then prune_streams cfg now m else (id, c) ∷ prune_streams cfg now m

-- `Prune` and `PruneInternal`
unfoldable pub prune : ℕ → Reassembler → Reassembler
unfolding prune_streams
prune now r = record r { streams = prune_streams r.config now r.streams }

-- The context of a new stream: a destination of `totalSize` zeros.
abbrev pub open_context : ℕ → StreamHeader → StreamContext
open_context now h = record {
  total_size = h.total_size;
  total_chunks = h.total_chunks;
  app_msg_type = h.app_msg_type;
  next = 0;
  offset = 0;
  ooo_bytes = 0;
  buf = replicate h.total_size 0;
  ooo = [];
  start_time = now;
}

-- STREAM_START, behind the checks of its header: the cap, the allocation, the entry.
pub admit : Env → Reassembler → StreamHeader → Outcome
admit e r h =
    if leb r.config.max_streams (length r.streams)
    then fail r
    else if e.buf_allocates
    then replied normal none
        (record r { streams = insert h.stream_id (open_context e.now h) r.streams })
    else fail r

-- STREAM_START with the header read.
pub start : Env → Reassembler → StreamHeader → Outcome
unfolding prune admit
start e r h =
    if ltb r.config.max_stream_size h.total_size || ltb r.config.max_stream_chunks h.total_chunks
    then fail r
    else if h.total_chunks == 0
    then if h.total_size == 0
      then replied normal
          (some (record { stream_id = h.stream_id; app_msg_type = h.app_msg_type; bytes = [] })) r
      else fail r
    else admit e (prune e.now r) h

handle_start : Env → Reassembler → List ℕ → Outcome
unfolding start
handle_start e r req =
    if ltb (length req) stream_header_size then fail r else start e r (decode_stream_header req)

-- The end of a chunk: the context is stored, delivered and retired, or dropped.
pub settle : Reassembler → ℕ → Placement → Outcome
settle r id (kept c) =
    if c.next == c.total_chunks
    then if c.offset == c.total_size
      then replied normal
          (some (record { stream_id = id; app_msg_type = c.app_msg_type; bytes = c.buf }))
          (record r { streams = erase id r.streams })
      else fail (record r { streams = erase id r.streams })
    else replied normal none (record r { streams = insert id c r.streams })
settle r id corrupt = fail (record r { streams = erase id r.streams })
settle r id overruns = overrun
settle r id spins = diverges

-- STREAM_CHUNK with the header read and the payload cut out.
pub chunk : Env → Reassembler → ChunkHeader → List ℕ → Outcome
unfolding settle place
chunk e r h payload = elim (find h.stream_id r.streams) [
  | none ↦ fail r
  | some c ↦
      if leb c.total_chunks h.chunk_index
      then fail r
      else if has_chunk c h.chunk_index
      then replied normal none r
      else settle r h.stream_id (place e.park_allocates r.config.max_parked_chunks c h payload)
]

handle_chunk : Env → Reassembler → List ℕ → Outcome
unfolding chunk
handle_chunk e r req =
    if ltb (length req) chunk_header_size
    then fail r
    else let h = decode_chunk_header req in
      if ltb (length req) (add64 chunk_header_size h.payload_size)
      then fail r
      else chunk e r h (take h.payload_size (drop chunk_header_size req))

-- `Handle`
pub handle : Env → Reassembler → MsgType → List ℕ → Outcome
unfolding handle_start handle_chunk
handle e r t req =
    if t == stream_start
    then handle_start e r req
    else if t == stream_chunk
    then handle_chunk e r req
    else unhandled

-- `StreamSnapshot`
pub record StreamSnapshot : Type 0 where
  pub total_size : ℕ
  pub total_chunks : ℕ
  pub next : ℕ
  pub offset : ℕ
  pub ooo_bytes : ℕ
  pub buf : List ℕ
  pub placed : Dict Placed

-- `PeekStream`
pub peek_stream : ℕ → Reassembler → Option StreamSnapshot
peek_stream id r = elim (find id r.streams) [
  | none ↦ none
  | some c ↦ some (record {
    total_size = c.total_size;
    total_chunks = c.total_chunks;
    next = c.next;
    offset = c.offset;
    ooo_bytes = c.ooo_bytes;
    buf = c.buf;
    placed = c.ooo;
  })
]
