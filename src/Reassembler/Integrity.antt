-- ===== src/Reassembler/Integrity.antt =====
-- A stream whose chunks conform is delivered as it was sent or not at all, in whatever order its
-- chunks come, how often they are repeated, and whatever else the peer sends in between.
use shm.Base.{
  ℕ, ◌≡◌, ◌≢◌, inl, inr, ◌||◌, none, some, List, [], ◌∷◌, arith, length, take, drop, ltb, leb, ◌==◌,
  add64, Bool-cases, All, All-append,
}
use shm.Wire.{
  stream_start, stream_chunk, stream_header_size, chunk_header_size, StreamHeader,
  decode_stream_header, decode_chunk_header,
}
use shm.StreamContext.Parts.{part}
use shm.StreamContext.Plan.{IsPart}
use shm.Reassembler.{
  Reassembler, Env, Outcome, unhandled, replied, overrun, diverges, open_context, prune, admit,
  start, handle_start, handle_chunk, handle,
}
use shm.Reassembler.Valid.{IsValid, find-prune}
use shm.Reassembler.Safety.{payload-carried, handle-IsValid}
use shm.Reassembler.Trace.{Message, receive, after, after-IsValid, emitted, deliveries}
use shm.Reassembler.Tracking.{IsBenign, Tracks, IsIntact, Carries, Tracks-insert, chunk-Carries}

module _ (id : ℕ) (parts : List (List ℕ)) (tag : ℕ) where
  Tracks-prune :
      (r : Reassembler) (now : ℕ)
      → IsValid r
      → Tracks id parts tag r
      → Tracks id parts tag (prune now r)
  Tracks-prune r now v t c f = ground (arith, find-prune now id v, t c)

  admit-Carries :
      (e : Env) (r : Reassembler) (h : StreamHeader)
      → h.stream_id ≢ id
      → Tracks id parts tag r
      → Carries id parts tag (admit e r h)
  unfolding admit
  admit-Carries e r h ne t = elim (Bool-cases (leb r.config.max_streams (length r.streams))) [
    | inl full ↦ rw full t
    | inr room ↦ elim (Bool-cases e.buf_allocates) [
      | inl fine ↦
          rw (room, fine)
            (Tracks-insert id parts tag r h.stream_id (open_context e.now h) (λ i. absurd (ne i)) t)
      | inr thrown ↦ rw (room, thrown) t
    ]
  ]

  start-Carries :
      (e : Env) (r : Reassembler) (h : StreamHeader)
      → IsValid r
      → h.stream_id ≢ id
      → Tracks id parts tag r
      → Carries id parts tag (start e r h)
  unfolding start
  start-Carries e r h v ne t =
      elim (Bool-cases (
        ltb r.config.max_stream_size h.total_size
        || ltb r.config.max_stream_chunks h.total_chunks)) [
          | inl large ↦ rw large t
          | inr fine ↦ elim (Bool-cases (h.total_chunks == 0)) [
            | inl none_sent ↦ elim (Bool-cases (h.total_size == 0)) [
              | inl empty ↦ rw (fine, none_sent, empty) (t, λ i. absurd (ne i))
              | inr sized ↦ rw (fine, none_sent, sized) t
            ]
            | inr some_sent ↦
                rw (fine, some_sent)
                  (admit-Carries e (prune e.now r) h ne (Tracks-prune r e.now v t))
          ]
        ]

  handle_start-Carries :
      (e : Env) (r : Reassembler) (req : List ℕ)
      → IsValid r
      → (decode_stream_header req).stream_id ≢ id
      → Tracks id parts tag r
      → Carries id parts tag (handle_start e r req)
  unfolding handle_start
  handle_start-Carries e r req v ne t = elim (Bool-cases (ltb (length req) stream_header_size)) [
    | inl small ↦ rw small t
    | inr fine ↦ rw fine (start-Carries e r (decode_stream_header req) v ne t)
  ]

  handle_chunk-Carries :
      (e : Env) (r : Reassembler) (req : List ℕ)
      → IsValid r
      → (let h = decode_chunk_header req in
          h.stream_id ≡ id
          → IsPart parts h
            × (take h.payload_size (drop chunk_header_size req) ≡ part parts h.chunk_index))
      → Tracks id parts tag r
      → Carries id parts tag (handle_chunk e r req)
  unfolding handle_chunk
  handle_chunk-Carries e r req v q t = elim (Bool-cases (ltb (length req) chunk_header_size)) [
    | inl small ↦ rw small t
    | inr fine ↦
        let h = decode_chunk_header req in
        elim (Bool-cases (ltb (length req) (add64 chunk_header_size h.payload_size))) [
          | inl cut ↦ rw (fine, cut) t
          | inr whole ↦
              let (l, w) = payload-carried req fine whole in
              rw (fine, whole)
                (chunk-Carries id parts tag e r h (take h.payload_size (drop chunk_header_size req))
                  v l w q t)
        ]
  ]

  receive-Carries :
      (r : Reassembler) (m : Message)
      → IsValid r
      → (IsBenign id parts tag) m
      → Tracks id parts tag r
      → Carries id parts tag (receive r m)
  unfolding handle
  receive-Carries r m v b t = elim (Bool-cases (m.msg_type == stream_start)) [
    | inl starts ↦ rw starts (handle_start-Carries m.env r m.req v (b.no_restart (ground arith)) t)
    | inr other ↦ elim (Bool-cases (m.msg_type == stream_chunk)) [
      | inl chunks ↦
          rw (other, chunks) (handle_chunk-Carries m.env r m.req v (b.in_plan (ground arith)) t)
      | inr foreign ↦ rw (other, foreign) tt
    ]
  ]

  after-Tracks :
      (r : Reassembler) (o : Outcome)
      → Tracks id parts tag r
      → Carries id parts tag o
      → Tracks id parts tag (after r o)
  after-Tracks r unhandled t c = t
  after-Tracks r (replied m none r') t c = c
  after-Tracks r (replied m (some d) r') t c = c.0
  after-Tracks r overrun t c = t
  after-Tracks r diverges t c = t

  emitted-IsIntact :
      (o : Outcome) → Carries id parts tag o → All (IsIntact id parts tag) (emitted o)
  emitted-IsIntact unhandled c = tt
  emitted-IsIntact (replied m none r') c = tt
  emitted-IsIntact (replied m (some d) r') c = (c.1, tt)
  emitted-IsIntact overrun c = tt
  emitted-IsIntact diverges c = tt

  -- A stream that is in flight or absent, and that agrees with its plan so far, is over any sequence
  -- of messages that do not disturb it delivered whole and under its tag, each time that it is
  -- delivered.
  pub deliveries-IsIntact :
      (r : Reassembler) (ms : List Message)
      → IsValid r
      → Tracks id parts tag r
      → All (IsBenign id parts tag) ms
      → All (IsIntact id parts tag) (deliveries r ms)
  unfolding deliveries
  deliveries-IsIntact r [] v t b = tt
  deliveries-IsIntact r (m ∷ ms) v t b =
      let c = receive-Carries r m v b.0 t in
      All-append (IsIntact id parts tag) (emitted (receive r m))
        (deliveries (after r (receive r m)) ms) (emitted-IsIntact (receive r m) c)
        (deliveries-IsIntact (after r (receive r m)) ms
          (after-IsValid v (receive r m) (handle-IsValid m.env m.msg_type m.req v))
          (after-Tracks r (receive r m) t c) b.1)
