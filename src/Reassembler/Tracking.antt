-- ===== src/Reassembler/Tracking.antt =====
-- What a reassembler keeps of one stream whose chunks conform, and that the chunk path keeps it:
-- chunks of the stream extend it, chunks of others leave it alone.
use shm.Base.{
  ℕ, ◌^◌, ◌<◌, ◌≡◌, ◌≢◌, inl, inr, ◌∙◌, Bool, none, some, List, arith, length, take, drop, leb,
  ◌==◌, Bool-cases, Option-cases, ℕ_discrete,
}
use shm.Base.Dict.{find, erase, insert, find-erase, find-insert}
use shm.Wire.{
  stream_start, stream_chunk, chunk_header_size, ChunkHeader, decode_stream_header,
  decode_chunk_header,
}
use shm.StreamContext.{StreamContext, Placement, kept, corrupt, overruns, spins, has_chunk, place}
use shm.StreamContext.Parts.{joined, part}
use shm.StreamContext.Valid.{IsSettled, Ensures, Ensures-map}
use shm.StreamContext.Plan.{Agrees, IsPart, buf-eq_joined}
use shm.StreamContext.Place.{IsNew, place_inv}
use shm.StreamContext.Arrive.{Arrived, place-Arrived}
use shm.Reassembler.{
  Reassembler, Env, Delivery, Outcome, unhandled, replied, overrun, diverges, settle, chunk,
}
use shm.Reassembler.Valid.{IsValid}
use shm.Reassembler.Safety.{chunk-IsNew}
use shm.Reassembler.Trace.{Message}

module _ (id : ℕ) (parts : List (List ℕ)) (tag : ℕ) where
  -- A message that does not disturb stream `id`: any message of another stream or of no stream, and
  -- of this stream the chunks of the plan, but no second start.
  pub record IsBenign (m : Message) : Type 0 where
    pub no_restart : m.msg_type ≡ stream_start → (decode_stream_header m.req).stream_id ≢ id
    pub in_plan :
        m.msg_type ≡ stream_chunk
        → let h = decode_chunk_header m.req in
          h.stream_id ≡ id
          → IsPart parts h
            × (take h.payload_size (drop chunk_header_size m.req) ≡ part parts h.chunk_index)

  -- Stream `id`, if it is in flight, agrees with the plan and carries the tag.
  abbrev pub Tracks : Reassembler → Type 0
  Tracks r =
      (c : StreamContext) → find id r.streams ≡ some c → Agrees parts c × (c.app_msg_type ≡ tag)

  -- A delivery of stream `id` is the whole stream under its tag.
  abbrev pub IsIntact : Delivery → Type 0
  IsIntact d = d.stream_id ≡ id → (d.bytes ≡ joined parts) × (d.app_msg_type ≡ tag)

  abbrev pub Carries : Outcome → Type 0
  Carries unhandled = Unit
  Carries (replied t none r) = Tracks r
  Carries (replied t (some d) r) = Tracks r × IsIntact d
  Carries overrun = Unit
  Carries diverges = Unit

  pub Tracks-erase :
      (r : Reassembler) (j : ℕ) → Tracks r → Tracks (record r { streams = erase j r.streams })
  Tracks-erase r j t c f = ground (arith, find-erase j id r.streams, t c)

  pub Tracks-insert :
      (r : Reassembler) (j : ℕ) (d : StreamContext)
      → (j ≡ id → Agrees parts d × (d.app_msg_type ≡ tag))
      → Tracks r
      → Tracks (record r { streams = insert j d r.streams })
  Tracks-insert r j d a t c f = ground (arith, find-insert j id d r.streams, t c)

  settle-Carries :
      (r : Reassembler) (j : ℕ) (p : Placement)
      → Ensures (λ d. IsSettled d × (j ≡ id → Agrees parts d × (d.app_msg_type ≡ tag))) p
      → Tracks r
      → Carries (settle r j p)
  unfolding settle
  settle-Carries r j (kept d) w t = elim (Bool-cases (d.next == d.total_chunks)) [
    | inl last ↦ elim (Bool-cases (d.offset == d.total_size)) [
      | inl full ↦
          rw (last, full)
            (Tracks-erase r j t, λ e. (buf-eq_joined parts w.0 (w.1 e).0 (ground arith), (w.1 e).1))
      | inr short ↦ rw (last, short) (Tracks-erase r j t)
    ]
    | inr waits ↦ rw waits (Tracks-insert r j d w.1 t)
  ]
  settle-Carries r j corrupt w t = Tracks-erase r j t
  settle-Carries r j overruns w t = tt
  settle-Carries r j spins w t = tt

  -- The guarded block, for a chunk of this stream and for one of another.
  place-tracks :
      {c : StreamContext} {h : ChunkHeader} {payload : List ℕ} (allocates : Bool) (max_parked : ℕ)
      → IsSettled c
      → IsNew c h payload
      → (h.stream_id ≡ id → Agrees parts c × (c.app_msg_type ≡ tag))
      → (h.stream_id ≡ id → IsPart parts h × (payload ≡ part parts h.chunk_index))
      → Ensures
          (λ d. IsSettled d × (h.stream_id ≡ id → Agrees parts d × (d.app_msg_type ≡ tag)))
          (place allocates max_parked c h payload)
  place-tracks {c} {h} {payload} allocates max_parked s n a q = elim (ℕ_discrete h.stream_id id) [
    | yes e ↦
        let cut = (q e).1 in
        rw cut (
          Ensures-map {P = λ d. IsSettled d × Arrived parts c h.chunk_index d}
            (λ d w. (w.0, λ _. (w.1.agrees, w.1.same.app_msg_type ∙ (a e).1)))
            (place allocates max_parked c h (part parts h.chunk_index))
            (place-Arrived parts s (a e).0 (rw cut at n) (q e).0 allocates max_parked))
    | no ne ↦
        Ensures-map {P = λ d. IsSettled d × Unit {0}} (λ d w. (w.0, λ e. absurd (ne e)))
          (place allocates max_parked c h payload)
          (place_inv s n (λ _. Unit {0}) allocates max_parked (λ d p v u f e. tt) (λ e o r. tt)
            (λ e r l. tt))
  ]

  pub chunk-Carries :
      (e : Env) (r : Reassembler) (h : ChunkHeader) (payload : List ℕ)
      → IsValid r
      → length payload ≡ h.payload_size
      → h.payload_size < 2 ^ 32
      → (h.stream_id ≡ id → IsPart parts h × (payload ≡ part parts h.chunk_index))
      → Tracks r
      → Carries (chunk e r h payload)
  unfolding chunk
  chunk-Carries e r h payload v l w q t = elim (Option-cases (find h.stream_id r.streams)) [
    | inl unknown ↦ rw (unknown, chunk) t
    | inr (c, known) ↦ elim (Bool-cases (leb c.total_chunks h.chunk_index)) [
      | inl outside ↦ rw (known, chunk, outside) t
      | inr inside ↦ elim (Bool-cases (has_chunk c h.chunk_index)) [
        | inl again ↦ rw (known, chunk, inside, again) t
        | inr first ↦
            rw (known, chunk, inside, first)
              (settle-Carries r h.stream_id
                (place e.park_allocates r.config.max_parked_chunks c h payload)
                (place-tracks e.park_allocates r.config.max_parked_chunks
                  (v.in_flight h.stream_id c known).settled
                  (chunk-IsNew c h payload l w inside first) (λ i. t c (rw i at known)) q)
                t)
      ]
    ]
  ]
