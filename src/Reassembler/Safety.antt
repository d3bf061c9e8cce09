-- ===== src/Reassembler/Safety.antt =====
-- Every call of `Handle` keeps the invariant of the reassembler, and none copies past the end of a
-- buffer or loops for ever.
use shm.Base.{
  add64, ℕ, ◌^◌, ◌≤◌, ◌<◌, ◌≡◌, ◌≢◌, refl, inl, inr, false, ◌||◌, none, some, List, arith, length,
  take, drop, Bool-cases, Option-cases, ◌==◌, leb, ltb, length-take, length-drop, length-replicate,
}
use shm.Base.Bytes.{decode_le-lt}
use shm.Base.Dict.{total, find, length-erase-le, length-erase-lt}
use shm.Wire.{
  stream_start, stream_chunk, stream_header_size, chunk_header_size, MsgType, StreamHeader,
  ChunkHeader, decode_stream_header, decode_chunk_header,
}
use shm.StreamContext.{has_chunk, StreamContext, Placement, kept, corrupt, overruns, spins, place}
use shm.StreamContext.Valid.{IsSettled, SameStream, Ensures}
use shm.StreamContext.Place.{IsNew, place-IsSettled}
use shm.Reassembler.{
  Reassembler, Env, Outcome, unhandled, replied, overrun, diverges, open_context, admit, start,
  handle_start, settle, chunk, handle_chunk, handle,
}
use shm.Reassembler.Valid.{InFlight, IsValid, prune-IsValid, erase-IsValid, insert-IsValid}

-- What the call leaves behind is valid, under the same configuration.
abbrev pub Keeps : Reassembler → Outcome → Type 0
Keeps r unhandled = Unit
Keeps r (replied t d r') = IsValid r' × (r'.config ≡ r.config)
Keeps r overrun = ⊥
Keeps r diverges = ⊥

-- A new context is settled, unless the stream is empty.
open_context-InFlight :
    (now max_parked : ℕ) (h : StreamHeader)
    → h.total_size ≤ 2 ^ 30
    → h.total_chunks < 2 ^ 32
    → h.total_chunks ≢ 0
    → InFlight max_parked (open_context now h)
unfolding find total
open_context-InFlight now max_parked h s t z = record {
  settled = record {
    valid = record {
      sized = length-replicate h.total_size 0;
      small = s;
      short = t;
      behind = omega arith;
      room = omega arith;
      counted = refl;
      distinct = tt;
      ahead = λ k p f. cc;
    };
    drained = refl;
  };
  waiting = omega arith;
  parked = omega arith;
}

admit-Keeps :
    (e : Env) {r : Reassembler} (h : StreamHeader)
    → IsValid r
    → h.total_size ≤ 2 ^ 30
    → h.total_chunks < 2 ^ 32
    → h.total_chunks ≢ 0
    → Keeps r (admit e r h)
unfolding admit
admit-Keeps e {r} h v s t z = elim (Bool-cases (leb r.config.max_streams (length r.streams))) [
  | inl full ↦ rw full (v, refl)
  | inr room ↦ elim (Bool-cases e.buf_allocates) [
    | inl fine ↦
        rw (room, fine)
          (
            insert-IsValid h.stream_id (open_context e.now h) v
                (ground (arith, length-erase-le h.stream_id r.streams))
                (open_context-InFlight e.now r.config.max_parked_chunks h s t z),
            refl,
          )
    | inr thrown ↦ rw (room, thrown) (v, refl)
  ]
]

start-Keeps :
    (e : Env) {r : Reassembler} (h : StreamHeader)
    → IsValid r
    → h.total_chunks < 2 ^ 32
    → Keeps r (start e r h)
unfolding start
start-Keeps e {r} h v t =
    elim (Bool-cases (
      ltb r.config.max_stream_size h.total_size || ltb r.config.max_stream_chunks h.total_chunks)) [
        | inl large ↦ rw large (v, refl)
        | inr fine ↦ elim (Bool-cases (h.total_chunks == 0)) [
          | inl none_sent ↦ elim (Bool-cases (h.total_size == 0)) [
            | inl empty ↦ rw (fine, none_sent, empty) (v, refl)
            | inr sized ↦ rw (fine, none_sent, sized) (v, refl)
          ]
          | inr some_sent ↦
              rw (fine, some_sent)
                (admit-Keeps e h (prune-IsValid e.now v) (ground (arith, v.clamped)) t
                  (ground arith))
        ]
      ]

settle-Keeps :
    {r : Reassembler} (id : ℕ) {c : StreamContext} (p : Placement)
    → IsValid r
    → find id r.streams ≡ some c
    → Ensures (λ d. IsSettled d × (SameStream c d × (length d.ooo ≤ r.config.max_parked_chunks))) p
    → Keeps r (settle r id p)
unfolding settle
settle-Keeps {r} id (kept d) v f w = elim (Bool-cases (d.next == d.total_chunks)) [
  | inl last ↦ elim (Bool-cases (d.offset == d.total_size)) [
    | inl full ↦ rw (last, full) (erase-IsValid id v, refl)
    | inr short ↦ rw (last, short) (erase-IsValid id v, refl)
  ]
  | inr waits ↦ rw waits (
    insert-IsValid id d v (omega (arith, v.capped, length-erase-lt id r.streams f))
        (record { settled = w.0; waiting = ground (arith, w.0.valid.behind); parked = w.1.1 }),
    refl,
  )
]
settle-Keeps id corrupt v f w = (erase-IsValid id v, refl)
settle-Keeps id overruns v f w = w
settle-Keeps id spins v f w = w

pub has_chunk-false :
    (c : StreamContext) (i : ℕ) → has_chunk c i ≡ false → (c.next ≤ i) × (find i c.ooo ≡ none)
has_chunk-false c i h = elim (Option-cases (find i c.ooo)) [
  | inl e ↦ (ground arith, e)
  | inr (p, e) ↦ absurd (ground arith)
]

pub chunk-IsNew :
    (c : StreamContext) (h : ChunkHeader) (payload : List ℕ)
    → length payload ≡ h.payload_size
    → h.payload_size < 2 ^ 32
    → leb c.total_chunks h.chunk_index ≡ false
    → has_chunk c h.chunk_index ≡ false
    → IsNew c h payload
chunk-IsNew c h payload l w r n = record {
  carried = l;
  wide = w;
  in_range = ground arith;
  beyond = (has_chunk-false c h.chunk_index n).0;
  unparked = (has_chunk-false c h.chunk_index n).1;
}

chunk-Keeps :
    (e : Env) {r : Reassembler} (h : ChunkHeader) (payload : List ℕ)
    → IsValid r
    → length payload ≡ h.payload_size
    → h.payload_size < 2 ^ 32
    → Keeps r (chunk e r h payload)
unfolding chunk
chunk-Keeps e {r} h payload v l w = elim (Option-cases (find h.stream_id r.streams)) [
  | inl unknown ↦ rw (unknown, chunk) (v, refl)
  | inr (c, known) ↦ elim (Bool-cases (leb c.total_chunks h.chunk_index)) [
    | inl outside ↦ rw (known, chunk, outside) (v, refl)
    | inr inside ↦ elim (Bool-cases (has_chunk c h.chunk_index)) [
      | inl again ↦ rw (known, chunk, inside, again) (v, refl)
      | inr first ↦
          let f = v.in_flight h.stream_id c known in
          rw (known, chunk, inside, first)
            (settle-Keeps h.stream_id
              (place e.park_allocates r.config.max_parked_chunks c h payload) v known
              (place-IsSettled f.settled (chunk-IsNew c h payload l w inside first) e.park_allocates
                r.config.max_parked_chunks f.parked))
    ]
  ]
]

handle_start-Keeps :
    (e : Env) {r : Reassembler} (req : List ℕ) → IsValid r → Keeps r (handle_start e r req)
unfolding handle_start decode_stream_header
handle_start-Keeps e {r} req v = elim (Bool-cases (ltb (length req) stream_header_size)) [
  | inl small ↦ rw small (v, refl)
  | inr fine ↦
      rw fine
        (start-Keeps e (decode_stream_header req) v (omega (arith, decode_le-lt 4 (drop 16 req))))
]

-- Behind the two length checks of a chunk, its payload is there and its size fits its field.
pub payload-carried :
    (req : List ℕ)
    → ltb (length req) chunk_header_size ≡ false
    → ltb (length req) (add64 chunk_header_size (decode_chunk_header req).payload_size) ≡ false
    → let n = (decode_chunk_header req).payload_size in
      (length (take n (drop chunk_header_size req)) ≡ n) × (n < 2 ^ 32)
unfolding decode_chunk_header
payload-carried req fine whole =
    let n = (decode_chunk_header req).payload_size in
    let w : n < 2 ^ 32 = omega (arith, decode_le-lt 4 (drop 12 req)) in
    (
      ground
          (arith, w, length-take n (drop chunk_header_size req), length-drop chunk_header_size req),
      w,
    )

handle_chunk-Keeps :
    (e : Env) {r : Reassembler} (req : List ℕ) → IsValid r → Keeps r (handle_chunk e r req)
unfolding handle_chunk
handle_chunk-Keeps e {r} req v = elim (Bool-cases (ltb (length req) chunk_header_size)) [
  | inl small ↦ rw small (v, refl)
  | inr fine ↦
      let h = decode_chunk_header req in
      elim (Bool-cases (ltb (length req) (add64 chunk_header_size h.payload_size))) [
        | inl cut ↦ rw (fine, cut) (v, refl)
        | inr whole ↦
            let (l, w) = payload-carried req fine whole in
            rw (fine, whole)
              (chunk-Keeps e h (take h.payload_size (drop chunk_header_size req)) v l w)
      ]
]

-- Whatever the message and its bytes, a call of `Handle` on a valid reassembler returns: it copies
-- inside its buffers, its drain ends, and what it leaves is valid under the same configuration.
pub handle-IsValid :
    (e : Env) {r : Reassembler} (t : MsgType) (req : List ℕ)
    → IsValid r
    → Keeps r (handle e r t req)
unfolding handle
handle-IsValid e {r} t req v = elim (Bool-cases (t == stream_start)) [
  | inl starts ↦ rw starts (handle_start-Keeps e req v)
  | inr other ↦ elim (Bool-cases (t == stream_chunk)) [
    | inl chunks ↦ rw (other, chunks) (handle_chunk-Keeps e req v)
    | inr foreign ↦ rw (other, foreign) tt
  ]
]
