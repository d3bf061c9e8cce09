-- ===== src/StreamSender/Post.antt =====
-- What is known of a stream in the middle of its chunks, and that the next chunk keeps it.
use mathlib.Core.List.{append_assoc}
use shm.Base.{
  ℕ, suc, ◌+◌, ◌-◌, ◌%◌, ◌^◌, ◌≤◌, ◌<◌, ◌≡◌, refl, ap, ◌∙◌, sym, Option, none, some, List, [], ◌∷◌,
  ◌++◌, arith, length, take, drop, min, ◌==◌, if◌then◌else◌, if-cases, length-take, length-drop,
  length-append, take-length, add32,
}
use shm.Base.Bytes.{length-encode_le}
use shm.Wire.{ChunkHeader, chunk_header_size, stream_chunk, encode_chunk_header}
use shm.Slot.Exchange.{Error}
use shm.StreamSender.{
  on_answer, SenderHost, StreamSender, StreamData, Pipeline, Progress, goes, breaks, post,
  chunk_size, next_header,
}
use shm.StreamSender.Recording.{Recorded, Packet, recording}
use shm.StreamSender.Plan.{Cuts, plan, packets_from, chunk_size_lem}

pub on_answer-cases :
    {S : Type 0} (P : Progress S → Type 0) (o : Option Error) (q p : Pipeline S)
    → (o ≡ none → P (goes q))
    → ((e : Error) → o ≡ some e → P (breaks e p))
    → P (on_answer o q p)
on_answer-cases P none q p good bad = good refl
on_answer-cases P (some e) q p good bad = bad e refl

module _ {S : Type 0} (h : SenderHost S) (s : StreamSender) (t : StreamData) (max_req : ℕ) where
  -- Every slot has `max_req` bytes for a request, and more than a header.
  pub record IsUniform : Type 0 where
    pub same : (i : ℕ) → h.max_req_size i ≡ max_req
    pub large : 24 < max_req
    pub word : max_req < 2 ^ 31

  -- The messages so far, and those of the chunks that are left, are the plan, and the slots that were
  -- sent on and not waited for are those pending.
  pub record Sending (p : Pipeline (Recorded S)) (rest : List (List ℕ)) : Type 0 where
    pub cuts : Cuts (max_req - 24) rest p.src
    pub counted : p.chunk_index + length rest < 2 ^ 32
    pub left : length p.src ≤ length t.bytes
    pub planned :
        p.host.packets
          ++ packets_from t.stream_id p.chunk_index (length t.bytes - length p.src) rest
        ≡ plan t max_req
    pub in_order : p.host.posted ≡ p.host.waited ++ p.pending

  -- A stream that an error broke off.
  pub record Broken (w : Recorded S) (pending : List ℕ) : Type 0 where
    pub missing : List Packet
    pub begun : w.packets ++ missing ≡ plan t max_req
    pub in_order : w.posted ≡ w.waited ++ pending

  abbrev pub Keeps : Progress (Recorded S) → Type 0
  Keeps (goes p) = (rest : List (List ℕ)) × Sending p rest
  Keeps (breaks e p) = Broken p.host p.pending

  length-encode_chunk_header :
      (c : ChunkHeader) → length (encode_chunk_header c) ≡ chunk_header_size
  unfolding encode_chunk_header
  length-encode_chunk_header c = simp (length-append, length-encode_le)

  pub message_lem :
      (slot n : ℕ) (w : Recorded S) (bytes : List ℕ)
      → length bytes ≡ n
      → take n (if slot == slot then bytes else w.req slot) ≡ bytes
  message_lem slot n w bytes l =
      if-cases (λ x. take n x ≡ bytes) (slot == slot) _ _
        (λ same. ap (λ k. take k bytes) (sym l) ∙ take-length bytes)
        (λ other. absurd (ground (arith, other)))

  module _ (u : IsUniform) (b : length t.bytes ≤ 2 ^ 30) (slot : ℕ) (p : Pipeline (Recorded S))
      (x : List ℕ) (xs : List (List ℕ)) (w : Sending p (x ∷ xs)) where
    abbrev taken : ℕ
    taken = min (max_req - 24) (length p.src)

    length-x : length x ≡ taken
    length-x = ap length w.cuts.1.0 ∙ omega (arith, length-take taken p.src)

    offset_left :
        length t.bytes - length (drop taken p.src) ≡ length t.bytes - length p.src + length x
    offset_left = omega (arith, length-x, length-drop taken p.src, w.left)

    header_lem : next_header t p taken ≡ record {
      stream_id = t.stream_id;
      chunk_index = p.chunk_index;
      payload_size = length x;
      dst_offset = length t.bytes - length p.src;
    }
    header_lem =
        let e : (length t.bytes - length p.src) % 2 ^ 32 ≡ length t.bytes - length p.src =
          omega (arith, b) in
        cc (e, length-x)

    abbrev message : List ℕ
    message = encode_chunk_header (next_header t p taken) ++ take taken p.src

    length-message : length message ≡ chunk_header_size + taken
    length-message = omega (
      arith,
      length-append (encode_chunk_header (next_header t p taken)) (take taken p.src),
      length-encode_chunk_header (next_header t p taken),
      length-take taken p.src,
    )

    planned_next :
        (p.host.packets ++ (record { msg_type = stream_chunk; req = message } ∷ []))
          ++ packets_from t.stream_id
              (add32 p.chunk_index 1)
              (length t.bytes - length (drop taken p.src))
              xs
        ≡ plan t max_req
    planned_next =
        let next : add32 p.chunk_index 1 ≡ suc p.chunk_index = omega (arith, w.counted) in
        append_assoc p.host.packets _ _ ∙ rw (next, offset_left, header_lem, ← w.cuts.1.0) w.planned

    post-taken-Keeps : Keeps (post (recording h) s t slot taken p)
    unfolding post
    post-taken-Keeps =
        let r =
          h.send_acquired_async slot (chunk_header_size + taken) stream_chunk
            (h.write_req slot message p.host.inner) in
        on_answer-cases Keeps r.0 _ _
          (λ sent. (
            xs,
            record {
              cuts = w.cuts.1.1;
              counted = omega (arith, w.counted);
              left = omega (arith, w.left, length-drop taken p.src);
              planned =
                  rw
                    (
                      sent,
                      message_lem slot (chunk_header_size + taken) p.host message length-message,
                    )
                    planned_next;
              in_order =
                  rw sent (ap (λ k. k ++ (slot ∷ [])) w.in_order ∙ append_assoc p.host.waited _ _);
            },
          ))
          (λ e refused.
            rw refused (record { missing = _; begun = w.planned; in_order = w.in_order }))

    chunk_size-taken : chunk_size (length p.src) (h.max_req_size slot) ≡ taken
    chunk_size-taken =
        ap (chunk_size (length p.src)) (u.same slot)
        ∙ chunk_size_lem (length p.src) max_req u.large u.word (omega (arith, w.left, b))

    pub post-Keeps :
        Keeps (post (recording h) s t slot (chunk_size (length p.src) (h.max_req_size slot)) p)
    post-Keeps = rw chunk_size-taken post-taken-Keeps
