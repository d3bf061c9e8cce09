-- ===== src/StreamSender/Deliver.antt =====
-- From the sender to the reassembler: what `Send` hands over is what the reassembler delivers.
use mathlib.Core.List.{append_assoc}
use shm.Base.{
  ℕ, suc, ◌+◌, ◌-◌, ◌^◌, ◌≤◌, ◌<◌, ◌≡◌, ◌≢◌, refl, ap, ◌∙◌, Bool, true, Option, none, some, List,
  [], ◌∷◌, ◌++◌, arith, length, length-append,
}
use shm.StreamContext.Parts.{joined, offset_of, part}
use shm.Reassembler.{Reassembler, Env, Delivery}
use shm.Reassembler.Trace.{Message, deliveries}
use shm.Reassembler.Completion.{sends}
use shm.Reassembler.Session.{range, start_message, IsAcceptable, session-in_order}
use shm.StreamSender.{
  SenderHost, StreamSender, StreamData, StreamResult, done, failed, spins, acquire, acquire_at,
  send,
}
use shm.StreamSender.Recording.{Packet, Recorded, recorded, recording}
use shm.StreamSender.Plan.{cut, cut-Cuts, joined-cut, total_chunks_lem, packets_from, plan}
use shm.StreamSender.Post.{IsUniform}
use shm.StreamSender.Sends.{Sends, send-Sends}
use shm.StreamSender.Return.{Ends, Answers, send-Ends}

-- The messages of a sender as calls of `Handle`.
abbrev pub arriving : Env → List Packet → List Message
arriving e [] = []
arriving e (p ∷ ps) = record { env = e; msg_type = p.msg_type; req = p.req } ∷ arriving e ps

part_at :
    (before : List (List ℕ)) (x : List ℕ) (xs : List (List ℕ))
    → part (before ++ (x ∷ xs)) (length before) ≡ x
part_at [] x xs = refl
part_at (b ∷ before) x xs = part_at before x xs

offset_at :
    (before xs : List (List ℕ)) → offset_of (before ++ xs) (length before) ≡ length (joined before)
offset_at [] [] = refl
offset_at [] (x ∷ xs) = refl
offset_at (b ∷ before) xs = omega (arith, offset_at before xs, length-append {0} b (joined before))

joined-snoc :
    (before : List (List ℕ)) (x : List ℕ)
    → length (joined (before ++ (x ∷ []))) ≡ length (joined before) + length x
joined-snoc [] x = omega (arith, length-append {0} x [])
joined-snoc (b ∷ before) x = omega (
  arith,
  joined-snoc before x,
  length-append {0} b (joined before),
  length-append {0} b (joined (before ++ (x ∷ []))),
)

module _ (id : ℕ) (e : Env) where
  -- The chunks behind `before` are the parts from there on.
  arriving-packets_from :
      (before xs : List (List ℕ))
      → arriving e (packets_from id (length before) (length (joined before)) xs)
        ≡ sends id (before ++ xs) e (range (length before) (length xs))
  arriving-packets_from before [] = refl
  arriving-packets_from before (x ∷ xs) =
      let ih = arriving-packets_from (before ++ (x ∷ [])) xs in
      let l : length (before ++ (x ∷ [])) ≡ suc (length before) =
        omega (arith, length-append before (x ∷ [])) in
      let a = append_assoc before (x ∷ []) xs in
      let j = joined-snoc before x in
      let rest : arriving e
            (packets_from id (suc (length before)) (length (joined before) + length x) xs)
          ≡ sends id (before ++ (x ∷ xs)) e (range (suc (length before)) (length xs)) =
        rw (l, j, a) at ih in
      rw (part_at before x xs, offset_at before (x ∷ xs), rest) refl

module _ (t : StreamData) (max_req : ℕ) (e : Env) where
  abbrev pub parts_of : List (List ℕ)
  parts_of = cut (max_req - 24) t.bytes

  abbrev pub everything : List Message
  everything =
      start_message t.stream_id parts_of t.app_msg_type e
      ∷ sends t.stream_id parts_of e (range 0 (length parts_of))

  -- The plan is a session of the reassembler's.
  arriving-plan :
      24 < max_req
      → max_req < 2 ^ 31
      → length t.bytes ≤ 2 ^ 30
      → arriving e (plan t max_req) ≡ everything
  arriving-plan a b c =
      let n = total_chunks_lem max_req t.bytes a b c in
      let whole_is : joined parts_of ≡ t.bytes =
        joined-cut (max_req - 24) parts_of t.bytes
          (cut-Cuts (max_req - 24) t.bytes (omega (arith, a))) in
      rw (arriving-packets_from t.stream_id e [] parts_of) (rw (n, whole_is) refl)

-- The delivery of a stream.
abbrev pub delivered : StreamData → List Delivery
delivered t =
    record { stream_id = t.stream_id; app_msg_type = t.app_msg_type; bytes = t.bytes } ∷ []

module _ {S : Type 0} (h : SenderHost S) (s : StreamSender) (t : StreamData) (max_req : ℕ)
    (u : IsUniform h s t max_req) (e : Env) {r : Reassembler}
    (a : IsAcceptable t.stream_id (cut (max_req - 24) t.bytes) t.app_msg_type e r) where
  joined-parts : joined (cut (max_req - 24) t.bytes) ≡ t.bytes
  joined-parts =
      joined-cut (max_req - 24) (cut (max_req - 24) t.bytes) t.bytes
        (cut-Cuts (max_req - 24) t.bytes (omega (arith, u.large)))

  bytes_fit : length t.bytes ≤ 2 ^ 30
  bytes_fit = omega (arith, a.expressible.size_fits, ap length joined-parts)

  plan-delivered : deliveries r (arriving e (plan t max_req)) ≡ delivered t
  plan-delivered = rw (arriving-plan t max_req e u.large u.word bytes_fit) (
      session-in_order t.stream_id (cut (max_req - 24) t.bytes) t.app_msg_type e a
      ∙ rw joined-parts refl)

  -- What a call delivers that succeeds.
  abbrev pub Delivers : StreamResult (Recorded S) → Type 0
  Delivers (done w) = deliveries r (arriving e w.packets) ≡ delivered t
  Delivers (failed x w) = Unit
  Delivers (spins w) = Unit

  Sends-Delivers : (o : StreamResult (Recorded S)) → Sends h s t max_req o → Delivers o
  Sends-Delivers (done w) (p, q) = rw p plan-delivered
  Sends-Delivers (failed x w) b = tt
  Sends-Delivers (spins w) b = tt

  -- If every slot has the same size, less than 2^31 and more than a header, then a call of `Send` that
  -- succeeds has handed over messages of which a reassembler that accepts the stream, and gets them in
  -- the order in which they were sent, makes one delivery: the stream, with its number, its type and
  -- its bytes.
  pub send-Delivers :
      (has_host has_data : Bool) (fuel : ℕ) (w : S)
      → Delivers (send (recording h) s t has_host has_data fuel (recorded w))
  send-Delivers has_host has_data fuel w =
      Sends-Delivers _ (send-Sends h s t max_req u has_host has_data fuel w)

  recording-Answers : Answers h s ⊥ → Answers (recording h) s ⊥
  unfolding acquire
  recording-Answers n = record {
    asked = λ rr w. asked_at s.base_slot rr w (n.asked rr w.inner);
    starts = λ slot k m w x bad. n.starts slot k m _ x bad;
    sends = λ slot k m w x bad. n.sends slot k m _ x bad;
    waits = λ slot time w x bad. n.waits slot time _ x bad;
  }
    where
      asked_at :
          (b : Option ℕ) (rr : ℕ) (w : Recorded S)
          → (acquire_at h s b rr w.inner).slot ≢ none
          → (acquire_at (recording h) s b rr w).slot ≢ none
      asked_at none rr w k = k
      asked_at (some base) rr w k = k

  succeeds :
      (o : StreamResult (Recorded S))
      → Ends ⊥ o
      → Delivers o
      → (w : Recorded S) × ((o ≡ done w) × (deliveries r (arriving e w.packets) ≡ delivered t))
  succeeds (done w) n d = (w, (refl, d))
  succeeds (failed x w) n d = absurd n
  succeeds (spins w) n d = absurd n

  -- If every slot has the same size, less than 2^31 and more than a header, at least one chunk may be
  -- in flight, and the host always has a slot and answers without an error, then a call of `Send`
  -- with its pointers succeeds within as many rounds of its loop as the stream has bytes, and a
  -- reassembler that accepts the stream, and gets the messages in the order in which they were sent,
  -- delivers it once and whole.
  pub send-succeeds :
      Answers h s ⊥
      → 0 < s.max_in_flight
      → (fuel : ℕ) (w : S) → length t.bytes ≤ fuel
      → (w' : Recorded S) × ((send (recording h) s t true true fuel (recorded w) ≡ done w')
          × (deliveries r (arriving e w'.packets) ≡ delivered t))
  send-succeeds n places fuel w l =
      succeeds (send (recording h) s t true true fuel (recorded w))
        (send-Ends (recording h) s t max_req
          (record { same = u.same; large = u.large; word = u.word }) ⊥ (recording-Answers n) places
          true true fuel (recorded w) l (λ q. cc) (λ q. cc)
          (λ long. absurd (omega (arith, long, bytes_fit))))
        (send-Delivers true true fuel w)
