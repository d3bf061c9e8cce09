-- ===== src/Reassembler/Session.antt =====
-- A whole session of one stream, from its STREAM_START to its delivery.
use shm.Base.{
  ℕ, zero, suc, ◌+◌, ◌^◌, ◌≤◌, ◌<◌, ◌≡◌, ◌≢◌, inl, refl, sym, ◌∙◌, ap, true, false, ◌||◌, none,
  some, List, [], ◌∷◌, ◌++◌, arith, length, ltb, leb, ◌==◌, All,
}
use shm.Base.Dict.{find, insert, find-insert}
use shm.Wire.{normal, stream_start, StreamHeader, encode_stream_header}
use shm.StreamContext.{StreamContext, kept, has_chunk}
use shm.StreamContext.Parts.{joined, offset_of}
use shm.StreamContext.Valid.{IsSettled}
use shm.StreamContext.Plan.{Agrees}
use shm.StreamContext.Arrive.{Arrived}
use shm.Reassembler.{Reassembler, Env, Delivery, replied, settle, open_context, prune, start, admit}
use shm.Reassembler.Valid.{IsValid}
use shm.Reassembler.Safety.{handle-IsValid}
use shm.Reassembler.Trace.{Message, receive, deliveries, IsExpressible, handle-encode_start}
use shm.Reassembler.Completion.{
  elem, send, sends, finished, Holds, flight, receive-new, receive-missing, receive-last,
}
use shm.Reassembler.WholeStream.{deliveries-any_order}

abbrev pub range : ℕ → ℕ → List ℕ
range k zero = []
range k (suc m) = k ∷ range (suc k) m

offset_of-zero : (parts : List (List ℕ)) → offset_of parts 0 ≡ 0
offset_of-zero [] = refl
offset_of-zero (x ∷ xs) = refl

joined-empty : (parts : List (List ℕ)) → length parts ≡ 0 → joined parts ≡ []
joined-empty [] z = refl
joined-empty (x ∷ xs) z = absurd (omega arith)

module _ (id : ℕ) (parts : List (List ℕ)) (tag : ℕ) (e : Env) where
  abbrev pub start_header : StreamHeader
  start_header = record {
    stream_id = id;
    total_size = length (joined parts);
    total_chunks = length parts;
    app_msg_type = tag;
  }

  abbrev pub start_message : Message
  start_message = record {
    env = e;
    msg_type = stream_start;
    req = encode_stream_header start_header;
  }

  -- A start that the reassembler accepts: the stream is within its limits, there is a place for it
  -- once the old streams are pruned, and memory.
  pub record IsAcceptable (r : Reassembler) : Type 0 where
    pub valid : IsValid r
    pub expressible : IsExpressible id parts
    pub tag_fits : tag < 2 ^ 32
    pub size_fits : length (joined parts) ≤ r.config.max_stream_size
    pub count_fits : length parts ≤ r.config.max_stream_chunks
    pub place_free : length (prune e.now r).streams < r.config.max_streams
    pub allocates : e.buf_allocates ≡ true

  open_context-Agrees : Agrees parts (open_context e.now start_header)
  unfolding find
  open_context-Agrees = record {
    whole = refl;
    count = refl;
    at_cursor = sym (offset_of-zero parts);
    planned = λ k p f. cc;
    filled = λ k h. absurd (ground arith);
  }

  -- The reassembler once the start is accepted.
  abbrev started : Reassembler → Reassembler
  started r =
      let r' = prune e.now r in
      record r' { streams = insert id (open_context e.now start_header) r'.streams }

  receive-start :
      {r : Reassembler} → IsAcceptable r → receive r start_message ≡ start e r start_header
  receive-start a = handle-encode_start e _ start_header (record {
    stream_id = a.expressible.id_fits;
    total_size = omega (arith, a.expressible);
    total_chunks = a.expressible.count_fits;
    app_msg_type = a.tag_fits;
  })

  start-Holds :
      {r : Reassembler}
      → IsAcceptable r
      → length parts ≢ 0
      → (receive r start_message ≡ replied normal none (started r))
        × Holds id parts e (started r) (open_context e.now start_header)
  unfolding start admit prune
  start-Holds {r} a ne =
      let large : (ltb r.config.max_stream_size (length (joined parts))
            || ltb r.config.max_stream_chunks (length parts))
          ≡ false =
        ground (arith, a) in
      let full : leb r.config.max_streams (length (prune e.now r).streams) ≡ false =
        ground (arith, a) in
      let some_sent : (length parts == 0) ≡ false = ground arith in
      let reply : receive r start_message ≡ replied normal none (started r) =
        receive-start a ∙ rw (large, some_sent, full, a.allocates) refl in
      (
        reply,
        record {
          expressible = a.expressible;
          valid =
              (rw reply at
                (handle-IsValid e stream_start (encode_stream_header start_header) a.valid)).0;
          known =
              ground (
                arith,
                find-insert id id (open_context e.now start_header) (prune e.now r).streams,
              );
          agrees = open_context-Agrees;
        },
      )

  -- The parts below `k` have come, and no others.
  record UpTo (r : Reassembler) (c : StreamContext) (k : ℕ) : Type 0 where
    holds : Holds id parts e r c
    has : (i : ℕ) → has_chunk c i ≡ ltb i k

  next_step :
      {r : Reassembler} {c : StreamContext} (k : ℕ)
      → UpTo r c k
      → k < length parts
      → (d : StreamContext) × ((receive r (send id parts e k) ≡ settle r id (kept d))
          × IsSettled d
          × Arrived parts c k d)
        × ((i : ℕ) → has_chunk d i ≡ ltb i (suc k))
  next_step {r} {c} k w l =
      let settled = (flight id parts e w.holds).settled in
      let at : k ≡ c.next = ground (arith, w.has k, w.has c.next, settled.drained) in
      let n = receive-new id parts e w.holds k l (ground (arith, w.has k)) (inl at) in
      (n.0, (n.1, n.2, n.3), λ i. ground (arith, n.3.adds i, w.has i))

  -- From part `k` on, in order: the last part delivers the stream.
  deliveries-in_order :
      (m k : ℕ) {r : Reassembler} {c : StreamContext}
      → k + suc m ≡ length parts
      → UpTo r c k
      → deliveries r (sends id parts e (range k (suc m))) ≡ finished id parts e c ∷ []
  unfolding deliveries
  deliveries-in_order zero k {r} {c} l w =
      let (d, (o, s, a), has) = next_step k w (omega arith) in
      rw (receive-last id parts e w.holds k d o s a (λ j b. has j ∙ ground arith)) refl
  deliveries-in_order (suc m) k {r} {c} l w =
      let (d, (o, s, a), has) = next_step k w (omega arith) in
      let (reply, holds) =
        receive-missing id parts e w.holds k (suc k) d o s a (omega arith)
          (has (suc k) ∙ ground arith) in
      rw reply (
        deliveries-in_order m (suc k) (omega arith) (record { holds = holds; has = has })
        ∙ ap (λ t. record { stream_id = id; app_msg_type = t; bytes = joined parts } ∷ [])
            a.same.app_msg_type)

  -- What a session delivers.
  abbrev pub whole : Delivery
  whole = record { stream_id = id; app_msg_type = tag; bytes = joined parts }

  start-empty :
      {r : Reassembler}
      → IsAcceptable r
      → length parts ≡ 0
      → receive r start_message ≡ replied normal (some whole) r
  unfolding start
  start-empty {r} a z =
      let none_left : joined parts ≡ [] = joined-empty parts z in
      let large : (ltb r.config.max_stream_size (length (joined parts))
            || ltb r.config.max_stream_chunks (length parts))
          ≡ false =
        ground (arith, a) in
      let none_sent : (length parts == 0) ≡ true = ground arith in
      receive-start a ∙ rw (large, none_sent) (rw none_left refl)

  sends_none : (n : ℕ) → n ≡ 0 → sends id parts e (range 0 n) ≡ []
  sends_none zero z = refl
  sends_none (suc n) z = absurd (omega arith)

  in_order-by_count :
      {r : Reassembler} (n : ℕ)
      → n ≡ length parts
      → IsAcceptable r
      → deliveries r (start_message ∷ sends id parts e (range 0 n)) ≡ whole ∷ []
  unfolding deliveries find
  in_order-by_count zero l a = rw (start-empty a (sym l)) refl
  in_order-by_count {r} (suc m) l a =
      let (reply, holds) = start-Holds a (omega arith) in
      rw reply
        (deliveries-in_order m 0 (omega arith) (record { holds = holds; has = λ i. ground arith }))

  -- A stream that the reassembler accepts, sent as its start and its parts in order, as a sender
  -- with one chunk in flight does, is delivered once, whole and under its tag. The number of parts
  -- has no bound but the configured one, and no memory is needed beyond the buffer. A stream of no
  -- parts is delivered by its start.
  pub session-in_order :
      {r : Reassembler}
      → IsAcceptable r
      → deliveries r (start_message ∷ sends id parts e (range 0 (length parts))) ≡ whole ∷ []
  session-in_order a = in_order-by_count (length parts) refl a

  -- A stream that the reassembler accepts is delivered once, whole and under its tag by the message
  -- that brings its last missing part, in whatever order and however often its parts come behind
  -- the start, if no more parts than may be parked make it up and the memory to park them is there.
  pub session-any_order :
      {r : Reassembler} (ks : List ℕ) (j : ℕ)
      → IsAcceptable r
      → length parts ≤ r.config.max_parked_chunks
      → e.park_allocates ≡ true
      → All (λ k. (k < length parts) × (k ≢ j)) ks
      → j < length parts
      → ((k : ℕ) → k < length parts → k ≢ j → elem k ks ≡ true)
      → deliveries r (start_message ∷ sends id parts e (ks ++ (j ∷ []))) ≡ whole ∷ []
  unfolding deliveries find prune
  session-any_order {r} ks j a room mem others l all =
      let (reply, holds) = start-Holds a (λ z. absurd (omega arith)) in
      rw reply (
        deliveries-any_order id parts e (started r) (open_context e.now start_header) ks j
          (record {
            holds = holds;
            others = others;
            in_range = l;
            missing = ground arith;
            covered = λ k b ne. ground (arith, all k b ne);
          })
          room mem)
