-- ===== src/Wire.antt =====
-- The wire format shared with the guest: include/shm/IPCUtils.h (message types and slot states) and
-- the two stream headers of include/shm/Stream.h, as the bytes that cross the process boundary.
-- x86 is the only target, so every field is little-endian.
pub mod Codec
use shm.Base.{ℕ, ◌^◌, List, ◌++◌, drop}
use shm.Base.Bytes.{encode_le, decode_le}

-- `enum class MsgType : uint32_t`. An application or a peer may put any number there, so a type is
-- a number and the enumerators are constants.
abbrev pub MsgType : Type 0
MsgType = ℕ

abbrev pub normal : MsgType
normal = 0

abbrev pub shutdown : MsgType
shutdown = 3

abbrev pub flatbuffer : MsgType
flatbuffer = 10

abbrev pub stream_start : MsgType
stream_start = 13

abbrev pub stream_chunk : MsgType
stream_chunk = 14

abbrev pub system_error : MsgType
system_error = 127

-- `kMaxStreamSize`, 1 GiB
abbrev pub max_stream_size : ℕ
max_stream_size = 2 ^ 30

-- `sizeof(StreamHeader)` and `sizeof(ChunkHeader)`
abbrev pub stream_header_size : ℕ
stream_header_size = 24

abbrev pub chunk_header_size : ℕ
chunk_header_size = 24

-- `struct StreamHeader`
pub record StreamHeader : Type 0 where
  pub stream_id : ℕ
  pub total_size : ℕ
  pub total_chunks : ℕ
  pub app_msg_type : ℕ

-- `struct ChunkHeader`; `padding` is written 0 and never read.
pub record ChunkHeader : Type 0 where
  pub stream_id : ℕ
  pub chunk_index : ℕ
  pub payload_size : ℕ
  pub dst_offset : ℕ

-- The 24 bytes of a header, as `memcpy` of the struct puts them into the request buffer.
unfoldable pub encode_stream_header : StreamHeader → List ℕ
encode_stream_header h =
    encode_le 8 h.stream_id
    ++ (encode_le 8 h.total_size ++ (encode_le 4 h.total_chunks ++ encode_le 4 h.app_msg_type))

-- The fields read through a `StreamHeader*` at the start of a request.
unfoldable pub decode_stream_header : List ℕ → StreamHeader
decode_stream_header req = record {
  stream_id = decode_le 8 req;
  total_size = decode_le 8 (drop 8 req);
  total_chunks = decode_le 4 (drop 16 req);
  app_msg_type = decode_le 4 (drop 20 req);
}

unfoldable pub encode_chunk_header : ChunkHeader → List ℕ
encode_chunk_header h =
    encode_le 8 h.stream_id
    ++ (encode_le 4 h.chunk_index
        ++ (encode_le 4 h.payload_size ++ (encode_le 4 h.dst_offset ++ encode_le 4 0)))

unfoldable pub decode_chunk_header : List ℕ → ChunkHeader
decode_chunk_header req = record {
  stream_id = decode_le 8 req;
  chunk_index = decode_le 4 (drop 8 req);
  payload_size = decode_le 4 (drop 12 req);
  dst_offset = decode_le 4 (drop 16 req);
}
