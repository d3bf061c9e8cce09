-- ===== src/Reassembler/Trace.antt =====
-- Sequences of calls of `Handle`, and the bytes of the messages of a conforming sender.
use mathlib.Core.List.{append-nil}
use shm.Base.{
  false, ap, ℕ, ◌+◌, ◌^◌, ◌≤◌, ◌<◌, ◌≡◌, refl, some, List, [], ◌∷◌, ◌++◌, arith, length, ltb, add64,
  take-length, length-append,
}
use shm.Wire.{
  MsgType, stream_start, stream_chunk, chunk_header_size, stream_header_size, StreamHeader,
  ChunkHeader, encode_stream_header, encode_chunk_header,
}
use shm.Wire.Codec.{
  FitsStream, FitsChunk, decode-encode_stream_header, decode-encode_chunk_header,
  drop-encode_chunk_header,
}
use shm.StreamContext.Parts.{joined, part, offset_of, offset_of-le}
use shm.Reassembler.{
  Reassembler, Env, Delivery, Outcome, unhandled, replied, overrun, diverges, start, handle_start,
  chunk, handle_chunk, handle,
}
use shm.Reassembler.Valid.{IsValid}
use shm.Reassembler.Safety.{Keeps}

-- A message as it reaches `Handle`, with the surroundings of the call.
pub record Message : Type 0 where
  pub env : Env
  pub msg_type : MsgType
  pub req : List ℕ

abbrev pub receive : Reassembler → Message → Outcome
receive r m = handle m.env r m.msg_type m.req

-- The state after a call. (No call of a valid reassembler overruns or diverges.)
abbrev pub after : Reassembler → Outcome → Reassembler
after r unhandled = r
after r (replied t d r') = r'
after r overrun = r
after r diverges = r

pub after-IsValid : {r : Reassembler} → IsValid r → (o : Outcome) → Keeps r o → IsValid (after r o)
after-IsValid v unhandled k = v
after-IsValid v (replied t d r') k = k.0
after-IsValid v overrun k = v
after-IsValid v diverges k = v

abbrev pub emitted : Outcome → List Delivery
emitted (replied t (some d) r') = d ∷ []
emitted _ = []

-- What is delivered over a sequence of messages.
unfoldable pub deliveries : Reassembler → List Message → List Delivery
deliveries r [] = []
deliveries r (m ∷ ms) = emitted (receive r m) ++ deliveries (after r (receive r m)) ms

-- The header and the bytes of the chunk that carries part `k` of a stream.
abbrev pub chunk_header : ℕ → List (List ℕ) → ℕ → ChunkHeader
chunk_header id parts k = record {
  stream_id = id;
  chunk_index = k;
  payload_size = length (part parts k);
  dst_offset = offset_of parts k;
}

abbrev pub chunk_message : ℕ → List (List ℕ) → ℕ → List ℕ
chunk_message id parts k = encode_chunk_header (chunk_header id parts k) ++ part parts k

-- A stream that the wire format can express.
pub record IsExpressible (id : ℕ) (parts : List (List ℕ)) : Type 0 where
  pub id_fits : id < 2 ^ 64
  pub size_fits : length (joined parts) ≤ 2 ^ 30
  pub count_fits : length parts < 2 ^ 32

chunk_header-FitsChunk :
    {id : ℕ} {parts : List (List ℕ)} (k : ℕ)
    → IsExpressible id parts
    → k < length parts
    → FitsChunk (chunk_header id parts k)
chunk_header-FitsChunk {id} {parts} k x h = record {
  stream_id = x.id_fits;
  chunk_index = omega (arith, x);
  payload_size = omega (arith, x, offset_of-le parts k h);
  dst_offset = omega (arith, x, offset_of-le parts k h);
}

-- A chunk reaches the chunk path as the header and the payload that were sent.
pub handle-encode_chunk :
    (e : Env) (r : Reassembler) (h : ChunkHeader) (payload : List ℕ)
    → FitsChunk h
    → length payload ≡ h.payload_size
    → handle e r stream_chunk (encode_chunk_header h ++ payload) ≡ chunk e r h payload
unfolding handle handle_chunk
handle-encode_chunk e r h payload f l =
    let (same, size) = decode-encode_chunk_header h payload f in
    let total : length (encode_chunk_header h ++ payload) ≡ 24 + h.payload_size =
      omega (arith, size, l, length-append {0} (encode_chunk_header h) payload) in
    let headed : ltb (length (encode_chunk_header h ++ payload)) chunk_header_size ≡ false =
      ground arith in
    let carried : ltb (length (encode_chunk_header h ++ payload))
          (add64 chunk_header_size h.payload_size)
        ≡ false =
      ground (arith, f) in
    rw (headed, same, carried, drop-encode_chunk_header h payload, ← l, take-length payload)

-- A header reaches the start path as it was sent.
pub handle-encode_start :
    (e : Env) (r : Reassembler) (h : StreamHeader)
    → FitsStream h
    → handle e r stream_start (encode_stream_header h) ≡ start e r h
unfolding handle handle_start
handle-encode_start e r h f =
    let (same, size) = decode-encode_stream_header h [] f in
    let headed : ltb (length (encode_stream_header h)) stream_header_size ≡ false = ground arith in
    rw headed (ap (start e r) (rw append-nil at same))

-- The bytes of a chunk of the plan reach the chunk path as its header and its part.
pub handle-chunk_message :
    {id : ℕ} {parts : List (List ℕ)} (e : Env) (r : Reassembler) (k : ℕ)
    → IsExpressible id parts
    → k < length parts
    → handle e r stream_chunk (chunk_message id parts k)
      ≡ chunk e r (chunk_header id parts k) (part parts k)
handle-chunk_message {id} {parts} e r k x h =
    handle-encode_chunk e r (chunk_header id parts k) (part parts k) (chunk_header-FitsChunk k x h)
      refl
