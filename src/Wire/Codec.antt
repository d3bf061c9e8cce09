-- ===== src/Wire/Codec.antt =====
-- What is read through a header pointer is what was copied there, whatever follows it.
use shm.Base.{ℕ, ◌^◌, ◌<◌, ◌≡◌, refl, List, ◌++◌, length, drop}
use shm.Base.Bytes.{encode_le, decode_le-encode_le}
use shm.Wire.{
  StreamHeader, ChunkHeader, encode_stream_header, decode_stream_header, encode_chunk_header,
  decode_chunk_header, chunk_header_size,
}

-- The header fields fit their widths.
pub record FitsStream (h : StreamHeader) : Type 0 where
  pub stream_id : h.stream_id < 2 ^ 64
  pub total_size : h.total_size < 2 ^ 64
  pub total_chunks : h.total_chunks < 2 ^ 32
  pub app_msg_type : h.app_msg_type < 2 ^ 32

pub record FitsChunk (h : ChunkHeader) : Type 0 where
  pub stream_id : h.stream_id < 2 ^ 64
  pub chunk_index : h.chunk_index < 2 ^ 32
  pub payload_size : h.payload_size < 2 ^ 32
  pub dst_offset : h.dst_offset < 2 ^ 32

-- A STREAM_START header that fits its fields is read back as it was written, with any bytes behind
-- it, and takes 24 bytes.
pub decode-encode_stream_header :
    (h : StreamHeader) (rest : List ℕ)
    → FitsStream h
    → (decode_stream_header (encode_stream_header h ++ rest) ≡ h)
      × (length (encode_stream_header h) ≡ 24)
unfolding encode_stream_header decode_stream_header encode_le
decode-encode_stream_header h rest f = (
  λ i. record {
    stream_id = decode_le-encode_le 8 h.stream_id after_id f.stream_id i;
    total_size = decode_le-encode_le 8 h.total_size after_size f.total_size i;
    total_chunks = decode_le-encode_le 4 h.total_chunks after_chunks f.total_chunks i;
    app_msg_type = decode_le-encode_le 4 h.app_msg_type rest f.app_msg_type i;
  },
  refl,
)
  where
    after_chunks : List ℕ
    after_chunks = encode_le 4 h.app_msg_type ++ rest

    after_size : List ℕ
    after_size = encode_le 4 h.total_chunks ++ after_chunks

    after_id : List ℕ
    after_id = encode_le 8 h.total_size ++ after_size

-- A STREAM_CHUNK header that fits its fields is read back as it was written, with any bytes behind
-- it, and takes 24 bytes.
pub decode-encode_chunk_header :
    (h : ChunkHeader) (rest : List ℕ)
    → FitsChunk h
    → (decode_chunk_header (encode_chunk_header h ++ rest) ≡ h)
      × (length (encode_chunk_header h) ≡ 24)
unfolding encode_chunk_header decode_chunk_header encode_le
decode-encode_chunk_header h rest f = (
  λ i. record {
    stream_id = decode_le-encode_le 8 h.stream_id after_id f.stream_id i;
    chunk_index = decode_le-encode_le 4 h.chunk_index after_index f.chunk_index i;
    payload_size = decode_le-encode_le 4 h.payload_size after_size f.payload_size i;
    dst_offset = decode_le-encode_le 4 h.dst_offset after_offset f.dst_offset i;
  },
  refl,
)
  where
    after_offset : List ℕ
    after_offset = encode_le 4 0 ++ rest

    after_size : List ℕ
    after_size = encode_le 4 h.dst_offset ++ after_offset

    after_index : List ℕ
    after_index = encode_le 4 h.payload_size ++ after_size

    after_id : List ℕ
    after_id = encode_le 4 h.chunk_index ++ after_index

-- A STREAM_START header and a STREAM_CHUNK header that fit their fields are each read back as they
-- were written, with any bytes behind them, and take 24 bytes.
pub decode-encode_headers :
    (s : StreamHeader) (c : ChunkHeader) (rest : List ℕ)
    → FitsStream s
    → FitsChunk c
    → ((decode_stream_header (encode_stream_header s ++ rest) ≡ s)
        × (length (encode_stream_header s) ≡ 24))
      × ((decode_chunk_header (encode_chunk_header c ++ rest) ≡ c)
          × (length (encode_chunk_header c) ≡ 24))
decode-encode_headers s c rest f g =
    (decode-encode_stream_header s rest f, decode-encode_chunk_header c rest g)

-- Behind the header stands the payload.
pub drop-encode_chunk_header :
    (h : ChunkHeader) (rest : List ℕ)
    → drop chunk_header_size (encode_chunk_header h ++ rest) ≡ rest
unfolding encode_chunk_header encode_le
drop-encode_chunk_header h rest = refl
