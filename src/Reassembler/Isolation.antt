-- ===== src/Reassembler/Isolation.antt =====
-- What a chunk does to the table, for any sender: `StreamContext` and `Handle` of
-- include/shm/StreamReassembler.h on a STREAM_CHUNK message.
use shm.Base.{
  ℕ, ◌+◌, ◌^◌, ◌≤◌, ◌<◌, ◌≡◌, ◌≢◌, inl, inr, Bool, false, Option, none, some, List, arith, length,
  leb, ◌==◌, get_elem?, Bool-cases,
}
use shm.Base.Bytes.{write_at, get_elem?-write_at_inside}
use shm.Base.Dict.{find, insert, find-insert}
use shm.Wire.{normal, ChunkHeader}
use shm.StreamContext.{
  StreamContext, Placement, kept, corrupt, overruns, spins, has_chunk, place, account_in_order,
}
use shm.StreamContext.Valid.{IsSettled, Ensures}
use shm.StreamContext.Place.{IsNew, place_inv}
use shm.Reassembler.{
  Reassembler, Env, Outcome, unhandled, replied, overrun, diverges, settle, chunk, StreamSnapshot,
  peek_stream,
}
use shm.Reassembler.Valid.{IsValid}
use shm.Reassembler.Safety.{chunk-IsNew}

-- The bytes around the destination that a chunk declares are those that were there.
abbrev pub SameAround : ChunkHeader → List ℕ → List ℕ → Type 0
SameAround h buf buf' =
    (length buf' ≡ length buf)
    × (((i : ℕ) → i < h.dst_offset → get_elem? buf' i ≡ get_elem? buf i)
        × ((i : ℕ) → h.dst_offset + h.payload_size ≤ i → get_elem? buf' i ≡ get_elem? buf i))

-- What became of the chunk's own stream: it was ended, or it is the one that was there, with no
-- byte changed around the destination.
abbrev pub OwnStream : ChunkHeader → Option StreamContext → Option StreamContext → Type 0
OwnStream h before none = Unit
OwnStream h none (some d) = ⊥
OwnStream h (some c) (some d) = SameAround h c.buf d.buf

abbrev pub OwnBytes : ChunkHeader → Option StreamContext → List ℕ → Type 0
OwnBytes h none bytes = ⊥
OwnBytes h (some c) bytes = SameAround h c.buf bytes

abbrev pub OthersKept : ChunkHeader → Reassembler → Reassembler → Type 0
OthersKept h r r' = (j : ℕ) → j ≢ h.stream_id → find j r'.streams ≡ find j r.streams

-- A chunk is answered, and writes and delivers within its own stream.
abbrev pub Spares : ChunkHeader → Reassembler → Outcome → Type 0
Spares h r unhandled = ⊥
Spares h r (replied t none r') =
    OthersKept h r r' × OwnStream h (find h.stream_id r.streams) (find h.stream_id r'.streams)
Spares h r (replied t (some d) r') =
    OthersKept h r r'
    × ((d.stream_id ≡ h.stream_id) × OwnBytes h (find h.stream_id r.streams) d.bytes)
Spares h r overrun = ⊥
Spares h r diverges = ⊥

-- The payload stands at its destination in the snapshot of the stream.
abbrev pub ShowsPayload : ChunkHeader → List ℕ → Option StreamSnapshot → Type 0
ShowsPayload h payload none = ⊥
ShowsPayload h payload (some s) =
    (i : ℕ) → i < length payload → get_elem? s.buf (h.dst_offset + i) ≡ get_elem? payload i

-- A chunk that is acknowledged while its stream stays in flight is in the snapshot of the stream.
abbrev pub Acknowledged : ChunkHeader → List ℕ → Outcome → Type 0
Acknowledged h payload (replied t none r') =
    t ≡ normal → ShowsPayload h payload (peek_stream h.stream_id r')
Acknowledged h payload _ = Unit

abbrev HasPayload : ChunkHeader → List ℕ → StreamContext → Type 0
HasPayload h payload d =
    (i : ℕ) → i < length payload → get_elem? d.buf (h.dst_offset + i) ≡ get_elem? payload i

place-HasPayload :
    {c : StreamContext} {h : ChunkHeader} {payload : List ℕ} (allocates : Bool) (max_parked : ℕ)
    → IsSettled c
    → IsNew c h payload
    → Ensures (λ d. IsSettled d × HasPayload h payload d) (place allocates max_parked c h payload)
unfolding account_in_order
place-HasPayload {c} {h} {payload} allocates max_parked s n =
    place_inv s n (HasPayload h payload) allocates max_parked (λ d p v q f e. q) (λ e o r. copied r)
      (λ e r q. copied r)
  where
    copied :
        h.dst_offset + h.payload_size ≤ c.total_size
        → (i : ℕ) → i < length payload
        → get_elem? (write_at c.buf h.dst_offset payload) (h.dst_offset + i) ≡ get_elem? payload i
    copied r i l =
        get_elem?-write_at_inside c.buf h.dst_offset payload i l
          (omega (arith, s.valid.sized, n.carried))

settle-Acknowledged :
    (r : Reassembler) (h : ChunkHeader) (payload : List ℕ) (p : Placement)
    → Ensures (λ d. IsSettled d × HasPayload h payload d) p
    → Acknowledged h payload (settle r h.stream_id p)
unfolding settle peek_stream
settle-Acknowledged r h payload (kept d) w = elim (Bool-cases (d.next == d.total_chunks)) [
  | inl last ↦ elim (Bool-cases (d.offset == d.total_size)) [
    | inl full ↦ rw (last, full) tt
    | inr short ↦ rw (last, short) (λ e. absurd (omega (arith, e)))
  ]
  | inr waits ↦
      let stored : find h.stream_id (insert h.stream_id d r.streams) ≡ some d =
        ground (arith, find-insert h.stream_id h.stream_id d r.streams) in
      rw waits (λ e. rw (stored, ShowsPayload) w.1)
]
settle-Acknowledged r h payload corrupt w = λ e. absurd (omega (arith, e))
settle-Acknowledged r h payload overruns w = tt
settle-Acknowledged r h payload spins w = tt

-- In a valid reassembler a chunk of an index that its stream does not have yet, with as many bytes
-- as it declares, is refused, or completes its stream, or stands at the offset it declares in the
-- snapshot that `PeekStream` returns after the call.
pub chunk-Acknowledged :
    (e : Env) {r : Reassembler} (h : ChunkHeader) (payload : List ℕ) {c : StreamContext}
    → IsValid r
    → length payload ≡ h.payload_size
    → h.payload_size < 2 ^ 32
    → find h.stream_id r.streams ≡ some c
    → has_chunk c h.chunk_index ≡ false
    → Acknowledged h payload (chunk e r h payload)
unfolding chunk
chunk-Acknowledged e {r} h payload {c} v l w known first =
    elim (Bool-cases (leb c.total_chunks h.chunk_index)) [
      | inl outside ↦ rw (known, chunk, outside) (λ e. absurd (omega (arith, e)))
      | inr inside ↦
          rw (known, chunk, inside, first)
            (settle-Acknowledged r h payload
              (place e.park_allocates r.config.max_parked_chunks c h payload)
              (place-HasPayload e.park_allocates r.config.max_parked_chunks
                (v.in_flight h.stream_id c known).settled
                (chunk-IsNew c h payload l w inside first)))
    ]
