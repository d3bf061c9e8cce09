-- ===== src/StreamSender/Sends.antt =====
-- What a call of `Send` hands to the host, whatever the host answers.
use mathlib.Core.List.{append-nil, append_assoc}
use shm.Base.{
  ℕ, zero, suc, ◌-◌, ◌^◌, ◌≤◌, ◌≡◌, refl, ap, ◌∙◌, sym, Bool, true, not, ◌||◌, Option, none, some,
  List, [], ◌∷◌, ◌++◌, arith, length, ltb, leb, if-cases, length-append,
}
use shm.Base.Bytes.{length-encode_le}
use shm.Wire.{
  stream_header_size, chunk_header_size, max_stream_size, encode_stream_header, StreamHeader,
}
use shm.Slot.Exchange.{Error}
use shm.StreamSender.{
  SenderHost, StreamSender, StreamData, Pipeline, Progress, goes, breaks, StreamResult, done,
  failed, spins, is_finished, drain_all, end_round, send_chunks, after_start, start_on, acquire,
  send, opening,
}
use shm.StreamSender.Recording.{Recorded, recorded, recording}
use shm.StreamSender.Plan.{cut, cut-Cuts, plan, packets_from, start_packet, length-cut-lt}
use shm.StreamSender.Post.{IsUniform, Sending, Broken, Keeps, message_lem}
use shm.StreamSender.Rounds.{round-Keeps, acquire-inner}

module _ {S : Type 0} (h : SenderHost S) (s : StreamSender) (t : StreamData) (max_req : ℕ) where
  -- A stream that was sent whole, in order, with every slot waited for in the order of its use; one
  -- that an error broke off, which was sent up to a point and of which no slot is left pending; and
  -- one in the middle.
  abbrev pub Sends : StreamResult (Recorded S) → Type 0
  Sends (done w) = (w.packets ≡ plan t max_req) × (w.posted ≡ w.waited)
  Sends (failed e w) = Broken h s t max_req w []
  Sends (spins w) = (pending : List ℕ) × Broken h s t max_req w pending

  drain_all-Broken :
      (pending : List ℕ) (w : Recorded S)
      → Broken h s t max_req w pending
      → Broken h s t max_req (drain_all (recording h) s t pending w) []
  unfolding drain_all
  drain_all-Broken [] w b = b
  drain_all-Broken (slot ∷ pending) w b = drain_all-Broken pending _ (record {
    missing = b.missing;
    begun = b.begun;
    in_order = b.in_order ∙ sym (append_assoc w.waited (slot ∷ []) pending);
  })

  finished-Sends :
      (p : Pipeline (Recorded S)) (rest : List (List ℕ))
      → Sending h s t max_req p rest
      → is_finished p ≡ true
      → Sends (done p.host)
  finished-Sends p [] w f = (
    sym (append-nil p.host.packets) ∙ w.planned,
    w.in_order ∙ none_pending p.pending (ground (arith, f)),
  )
    where
      none_pending :
          (pending : List ℕ) → length pending ≡ 0 → p.host.waited ++ pending ≡ p.host.waited
      none_pending [] z = append-nil p.host.waited
      none_pending (x ∷ xs) z = absurd (omega arith)
  finished-Sends p (x ∷ xs) w f = absurd (ground (arith, w.cuts.0, f))

  module _ (u : IsUniform h s t max_req) where
    end_round-Sends :
        (k : Pipeline (Recorded S) → StreamResult (Recorded S)) (o : Progress (Recorded S))
        → ((p : Pipeline (Recorded S)) (rest : List (List ℕ))
            → Sending h s t max_req p rest
            → Sends (k p))
        → Keeps h s t max_req o
        → Sends (end_round (recording h) s t k o)
    unfolding end_round
    end_round-Sends k (goes p) f (rest, w) = f p rest w
    end_round-Sends k (breaks e p) f w = drain_all-Broken p.pending p.host w

    send_chunks-Sends :
        (fuel : ℕ) (p : Pipeline (Recorded S)) (rest : List (List ℕ))
        → length t.bytes ≤ 2 ^ 30
        → Sending h s t max_req p rest
        → Sends (send_chunks (recording h) s t fuel p)
    unfolding send_chunks
    send_chunks-Sends zero p rest b w =
        if-cases Sends (is_finished p) _ _ (finished-Sends p rest w)
          (λ more. (p.pending, record { missing = _; begun = w.planned; in_order = w.in_order }))
    send_chunks-Sends (suc fuel) p rest b w =
        if-cases Sends (is_finished p) _ _ (finished-Sends p rest w) (λ more.
          end_round-Sends (send_chunks (recording h) s t fuel) _
            (λ q rest. send_chunks-Sends fuel q rest b) (round-Keeps h s t max_req u b p rest w))

    after_start-Sends :
        (fuel rr : ℕ) (o : Option Error) (w : Recorded S)
        → length t.bytes ≤ 2 ^ 30
        → w.packets ≡ start_packet t max_req ∷ []
        → w.posted ≡ w.waited
        → Sends (after_start (recording h) s t fuel rr (o, w))
    unfolding after_start
    after_start-Sends fuel rr none w b e f =
        send_chunks-Sends fuel _ (cut (max_req - 24) t.bytes) b (record {
          cuts = cut-Cuts (max_req - 24) t.bytes (omega (arith, u.large));
          counted = omega (arith, length-cut-lt max_req t.bytes u.large u.word b);
          left = omega arith;
          planned = let z : length t.bytes - length t.bytes ≡ 0 = omega arith in rw (z, e) refl;
          in_order = f ∙ sym (append-nil w.waited);
        })
    after_start-Sends fuel rr (some x) w b e f = record {
      missing = packets_from t.stream_id 0 0 (cut (max_req - 24) t.bytes);
      begun = ap (λ k. k ++ packets_from t.stream_id 0 0 (cut (max_req - 24) t.bytes)) e;
      in_order = f ∙ sym (append-nil w.waited);
    }

    length-encode_stream_header :
        (c : StreamHeader) → length (encode_stream_header c) ≡ stream_header_size
    unfolding encode_stream_header
    length-encode_stream_header c = simp (length-append, length-encode_le)

    -- A host state in which nothing was sent.
    record IsFresh (w : Recorded S) : Type 0 where
      packets : w.packets ≡ []
      posted : w.posted ≡ []
      waited : w.waited ≡ []

    untouched : (w : Recorded S) → IsFresh w → Broken h s t max_req w []
    untouched w f = record {
      missing = plan t max_req;
      begun = rw (f.packets) refl;
      in_order = rw (f.posted, f.waited) refl;
    }

    start_on-Sends :
        (fuel : ℕ) (slot : Option ℕ) (rr : ℕ) (w : Recorded S)
        → length t.bytes ≤ 2 ^ 30
        → IsFresh w
        → Sends (start_on (recording h) s t fuel slot rr w)
    unfolding start_on
    start_on-Sends fuel none rr w b f = untouched w f
    start_on-Sends fuel (some slot) rr w b f =
        let o = opening t (h.max_req_size slot) in
        if-cases Sends (leb (h.max_req_size slot) chunk_header_size) _ _
          (λ small. absurd (ground (arith, u.same slot, u.large, small)))
          (λ large.
            after_start-Sends fuel rr _ _ b
              (rw
                (
                  f.packets,
                  message_lem h s t max_req slot stream_header_size w (encode_stream_header o)
                      (length-encode_stream_header o),
                  u.same slot,
                )
                refl)
              (rw (f.posted, f.waited) refl))

    acquired-IsFresh : (w : Recorded S) → IsFresh w → IsFresh (acquire (recording h) s 0 w).host
    acquired-IsFresh w f =
        let (v, e) = acquire-inner h s t max_req 0 w in
        record { packets = rw e f.packets; posted = rw e f.posted; waited = rw e f.waited }

  -- If every slot has the same size, less than 2^31 and more than a header, then whatever the host
  -- answers, what a call of `Send` hands to it is the start of the stream and its chunks in order, and
  -- nothing else: all of it if the call succeeds, and a first part of it if the call fails or does not
  -- end. Each slot that a chunk went out on is waited for once, in the order of the chunks, before a
  -- call returns, whether it succeeds or fails.
  pub send-Sends :
      IsUniform h s t max_req
      → (has_host has_data : Bool) (fuel : ℕ) (w : S)
      → Sends (send (recording h) s t has_host has_data fuel (recorded w))
  unfolding send
  send-Sends u has_host has_data fuel w =
      let fresh : IsFresh u (recorded w) = record {
        packets = refl;
        posted = refl;
        waited = refl;
      } in
      let r = acquire (recording h) s 0 (recorded w) in
      if-cases Sends (not has_host || not has_data) _ _ (λ absent. untouched u (recorded w) fresh)
        (λ there.
          if-cases Sends (ltb max_stream_size (length t.bytes)) _ _
            (λ large. untouched u (recorded w) fresh)
            (λ fits.
              start_on-Sends u fuel r.slot r.rr r.host (ground (arith, fits))
                (acquired-IsFresh u (recorded w) fresh)))
