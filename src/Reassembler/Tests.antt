-- ===== src/Reassembler/Tests.antt =====
-- The reassembler on a stream of three parts.
use shm.Base.{ℕ, ◌≡◌, refl, true, none, List, [], ◌∷◌, ◌++◌, arith, length, All}
use shm.Base.Bytes.{encode_le, decode_le, memcpy_to}
use shm.Base.Dict.{find, erase, insert, emplace}
use shm.Wire.{
  stream_start, stream_chunk, ChunkHeader, encode_stream_header, encode_chunk_header,
  decode_stream_header, decode_chunk_header,
}
use shm.Wire.Codec.{decode-encode_headers}
use shm.StreamContext.{
  StreamContext, place, fits, in_bounds, write, advance, park, note_placed, drain, account_in_order,
}
use shm.StreamContext.Plan.{Agrees}
use shm.Reassembler.{
  default_config, Reassembler, Env, replied, construct, config_is_valid, prune_streams, prune,
  admit, start, handle_start, settle, chunk, handle_chunk, handle,
}
use shm.Reassembler.Valid.{IsValid, construct-IsValid}
use shm.Reassembler.Safety.{Keeps, handle-IsValid}
use shm.Reassembler.Trace.{Message, deliveries}
use shm.Reassembler.Tracking.{IsIntact}
use shm.Reassembler.Integrity.{deliveries-IsIntact}
use shm.Reassembler.Completion.{send, sends}
use shm.Reassembler.Session.{
  range, start_message, start_header, IsAcceptable, whole, session-in_order, session-any_order,
}
use shm.Reassembler.Expiry.{Admits, handle-Admits}
use shm.Reassembler.Isolation.{Acknowledged, chunk-Acknowledged}

abbrev parts : List (List ℕ)
parts = (10 ∷ 20 ∷ []) ∷ (30 ∷ []) ∷ (40 ∷ 50 ∷ []) ∷ []

abbrev env : Env
env = record { now = 5; buf_allocates = true; park_allocates = true }

abbrev fresh : Reassembler
fresh = record { config = default_config; streams = [] }

abbrev opened : StreamContext
opened = record {
  total_size = 5;
  total_chunks = 3;
  app_msg_type = 9;
  next = 0;
  offset = 0;
  ooo_bytes = 0;
  buf = 0 ∷ 0 ∷ 0 ∷ 0 ∷ 0 ∷ [];
  ooo = [];
  start_time = 5;
}

abbrev started : Reassembler
started = record { config = default_config; streams = (7, opened) ∷ [] }

fresh-IsValid : IsValid fresh
unfolding construct config_is_valid
fresh-IsValid = construct-IsValid default_config

started-IsValid : IsValid started
unfolding handle handle_start start admit prune prune_streams insert erase encode_stream_header
    decode_stream_header encode_le decode_le
started-IsValid =
    (handle-IsValid env stream_start (encode_stream_header (start_header 7 parts 9 env))
      fresh-IsValid).0

fresh-IsAcceptable : IsAcceptable 7 parts 9 env fresh
unfolding prune prune_streams
fresh-IsAcceptable = record {
  valid = fresh-IsValid;
  expressible = record { id_fits = omega arith; size_fits = omega arith; count_fits = omega arith };
  tag_fits = omega arith;
  size_fits = omega arith;
  count_fits = omega arith;
  place_free = omega arith;
  allocates = refl;
}

session-any_order_example :
    deliveries fresh
      (start_message 7 parts 9 env ∷ sends 7 parts env ((2 ∷ 0 ∷ 2 ∷ []) ++ (1 ∷ [])))
    ≡ whole 7 parts 9 env ∷ []
session-any_order_example =
    session-any_order 7 parts 9 env (2 ∷ 0 ∷ 2 ∷ []) 1 fresh-IsAcceptable (omega arith) refl
      (ground arith) (omega arith) (λ k l ne. ground arith)

session-in_order_example :
    deliveries fresh (start_message 7 parts 9 env ∷ sends 7 parts env (range 0 3))
    ≡ whole 7 parts 9 env ∷ []
session-in_order_example = session-in_order 7 parts 9 env fresh-IsAcceptable

opened-Agrees : Agrees parts opened
unfolding find
opened-Agrees = record {
  whole = refl;
  count = refl;
  at_cursor = refl;
  planned = λ k p f. cc;
  filled = λ k h. absurd (ground arith);
}

-- The last chunk, then garbage of another stream, then the other two chunks.
abbrev script : List Message
script =
    send 7 parts env 2
    ∷ record { env = env; msg_type = stream_chunk; req = 1 ∷ 2 ∷ 3 ∷ [] }
    ∷ send 7 parts env 0
    ∷ send 7 parts env 1
    ∷ []

deliveries-script : deliveries started script ≡ whole 7 parts 9 env ∷ []
unfolding deliveries handle handle_chunk chunk settle place fits in_bounds write memcpy_to advance
    park note_placed drain account_in_order find erase insert emplace encode_chunk_header
    decode_chunk_header encode_le decode_le
deliveries-script = refl

deliveries-IsIntact_example : All (IsIntact 7 parts 9) (deliveries started script)
unfolding encode_chunk_header decode_chunk_header encode_le decode_le find
deliveries-IsIntact_example =
    deliveries-IsIntact 7 parts 9 started script started-IsValid
      (λ c f. ground (arith, opened-Agrees)) (ground arith)

-- A chunk of stream 7 whose destination leaves the buffer.
abbrev stray : ChunkHeader
stray = record { stream_id = 7; chunk_index = 0; payload_size = 2; dst_offset = 4 }

handle-stray :
    handle env started stream_chunk (encode_chunk_header stray ++ (1 ∷ 2 ∷ []))
    ≡ replied 127 none fresh
unfolding handle handle_chunk chunk settle place fits in_bounds find erase insert
    encode_chunk_header decode_chunk_header encode_le decode_le
handle-stray = refl

handle-IsValid_example :
    Keeps started (handle env started stream_chunk (encode_chunk_header stray ++ (1 ∷ 2 ∷ [])))
handle-IsValid_example =
    handle-IsValid env stream_chunk (encode_chunk_header stray ++ (1 ∷ 2 ∷ [])) started-IsValid

-- Room for one stream, taken by stream 7.
abbrev crowded : Reassembler
crowded = record { config = record default_config { max_streams = 1 }; streams = (7, opened) ∷ [] }

crowded-IsValid : IsValid crowded
unfolding handle handle_start start admit prune prune_streams insert erase encode_stream_header
    decode_stream_header encode_le decode_le construct config_is_valid
crowded-IsValid =
    (handle-IsValid env stream_start (encode_stream_header (start_header 7 parts 9 env))
      (construct-IsValid (record default_config { max_streams = 1 }))).0

-- The first nanosecond at which stream 7 is too old.
abbrev late_env : Env
late_env = record { now = 10001000005; buf_allocates = true; park_allocates = true }

abbrev next_start : List ℕ
next_start = encode_stream_header (start_header 8 parts 9 late_env)

handle-Admits_example :
    Admits late_env crowded
      (decode_stream_header next_start)
      (handle late_env crowded stream_start next_start)
unfolding find encode_stream_header decode_stream_header encode_le decode_le
handle-Admits_example =
    handle-Admits late_env next_start 7 crowded-IsValid refl (omega arith) (omega arith)
      (omega arith) (omega arith) (omega arith) refl

-- The last chunk, ahead of the cursor.
abbrev ahead : ChunkHeader
ahead = record { stream_id = 7; chunk_index = 2; payload_size = 2; dst_offset = 3 }

chunk-Acknowledged_example :
    Acknowledged ahead (40 ∷ 50 ∷ []) (chunk env started ahead (40 ∷ 50 ∷ []))
unfolding find
chunk-Acknowledged_example =
    chunk-Acknowledged env ahead (40 ∷ 50 ∷ []) started-IsValid refl (omega arith) refl refl

decode-encode_headers_example :
    ((decode_stream_header (encode_stream_header (start_header 7 parts 9 env) ++ (1 ∷ []))
        ≡ start_header 7 parts 9 env)
      × (length (encode_stream_header (start_header 7 parts 9 env)) ≡ 24))
    × ((decode_chunk_header (encode_chunk_header stray ++ (1 ∷ [])) ≡ stray)
        × (length (encode_chunk_header stray) ≡ 24))
decode-encode_headers_example =
    decode-encode_headers (start_header 7 parts 9 env) stray (1 ∷ []) (omega arith) (omega arith)
