-- ===== src/StreamSender/Return.antt =====
-- `Send` returns: every round of its loop ends a chunk.
use shm.Base.{
  ℕ, zero, suc, ◌+◌, ◌-◌, ◌≤◌, ◌<◌, ◌≡◌, ◌≢◌, ◌⊎◌, inl, inr, refl, Bool, false, not, ◌||◌, Option,
  none, some, List, [], ◌∷◌, arith, length, ltb, leb, ◌==◌, if-cases, Bool-cases, length-append,
  length-drop,
}
use shm.Wire.{MsgType, max_stream_size, chunk_header_size}
use shm.Slot.Exchange.{Error}
use shm.StreamSender.{
  SenderHost, StreamSender, StreamData, Pipeline, Progress, goes, breaks, StreamResult, done,
  failed, spins, is_finished, end_round, send_chunks, after_start, start_on, acquire, send, round,
  fill, fill_with, post, drain_one, drain_pending, then_goes, chunk_size,
}
use shm.StreamSender.Post.{IsUniform, on_answer-cases}

-- What is still to be done.
abbrev measure : {S : Type 0} → Pipeline S → ℕ
measure p = length p.src + length p.pending

-- A pipeline with a slot to wait for.
abbrev Filled : {S : Type 0} → Type 0 → ℕ → Progress S → Type 0
Filled T n (goes p) = (measure p ≤ n) × (0 < length p.pending)
Filled T n (breaks e p) = T

abbrev Falls : {S : Type 0} → Type 0 → ℕ → Progress S → Type 0
Falls T n (goes p) = measure p < n
Falls T n (breaks e p) = T

-- A call that returned; it failed only where `T` holds.
abbrev pub Ends : {S : Type 0} → Type 0 → StreamResult S → Type 0
Ends T (done w) = Unit
Ends T (failed e w) = T
Ends T (spins w) = ⊥

-- The host answers with an error only where `T` holds, and always has a slot.
pub record Answers {S : Type 0} (h : SenderHost S) (s : StreamSender) (T : Type 0) : Type 0 where
  pub asked : (rr : ℕ) (w : S) → (acquire h s rr w).slot ≢ none
  pub starts :
      (slot n : ℕ) (m : MsgType) (w : S) (e : Error) → (h.send_acquired slot n m w).0 ≡ some e → T
  pub sends :
      (slot n : ℕ) (m : MsgType) (w : S) (e : Error)
      → (h.send_acquired_async slot n m w).0 ≡ some e
      → T
  pub waits :
      (slot : ℕ) (time : Option ℕ) (w : S) (e : Error)
      → (h.wait_for_slot slot time w).0 ≡ some e
      → T

module _ {S : Type 0} (h : SenderHost S) (s : StreamSender) (t : StreamData) (max_req : ℕ)
    (u : IsUniform h s t max_req) (T : Type 0) (answers : Answers h s T)
    (places : 0 < s.max_in_flight) where
  post-Filled :
      (n slot : ℕ) (p : Pipeline S)
      → 0 < length p.src
      → measure p ≤ n
      → Filled T n (post h s t slot (chunk_size (length p.src) (h.max_req_size slot)) p)
  unfolding post
  post-Filled n slot p l m =
      let size = chunk_size (length p.src) (h.max_req_size slot) in
      let some_bytes : 0 < size = ground (arith, u.same slot, u.large, u.word, l) in
      on_answer-cases (Filled T n) _ _ _
        (λ good. (
          omega (
            arith,
            length-drop size p.src,
            length-append p.pending (slot ∷ []),
            some_bytes,
            m,
            l,
          ),
          omega (arith, length-append p.pending (slot ∷ [])),
        ))
        (λ e bad. answers.sends slot _ _ _ e bad)

  then_goes-Filled :
      (n : ℕ) (k : Pipeline S → Progress S) (o : Progress S)
      → ((q : Pipeline S) → measure q ≤ n → 0 < length q.pending → Filled T n (k q))
      → Filled T n o
      → Filled T n (then_goes k o)
  then_goes-Filled n k (goes p) f (a, b) = f p a b
  then_goes-Filled n k (breaks e p) f w = w

  fill_with-Filled :
      (n : ℕ) (k : Pipeline S → Progress S) (p : Pipeline S) (slot : Option ℕ)
      → ((q : Pipeline S) → measure q ≤ n → 0 < length q.pending → Filled T n (k q))
      → slot ≢ none
      → 0 < length p.src
      → measure p ≤ n
      → Filled T n (fill_with h s t k p slot)
  unfolding fill_with
  fill_with-Filled n k p none f ne l m = absurd (ne refl)
  fill_with-Filled n k p (some slot) f ne l m = then_goes-Filled n k _ f (post-Filled n slot p l m)

  fill-Filled :
      (n room : ℕ) (p : Pipeline S)
      → measure p ≤ n
      → (0 < length p.pending) ⊎ ((0 < length p.src) × (0 < room))
      → Filled T n (fill h s t room p)
  unfolding fill
  fill-Filled n zero p m c = (m, ground (arith, c))
  fill-Filled n (suc room) p m c =
      let g = acquire h s p.rr p.host in
      if-cases (Filled T n) (length p.src == 0) _ _ (λ empty. (m, ground (arith, c, empty)))
        (λ more.
          fill_with-Filled n (fill h s t room) (record p { rr = g.rr; host = g.host }) g.slot
            (λ q a b. fill-Filled n room q a (inl b)) (answers.asked p.rr p.host)
            (ground (arith, more)) m)

  drain_pending-Falls :
      (n : ℕ) (pending : List ℕ) (p : Pipeline S)
      → length p.src + length pending ≤ n
      → 0 < length pending
      → Falls T n (drain_pending h s t pending p)
  unfolding drain_pending
  drain_pending-Falls n [] p m l = absurd (omega arith)
  drain_pending-Falls n (slot ∷ pending) p m l =
      on_answer-cases (Falls T n) _ _ _ (λ good. omega (arith, m))
        (λ e bad. answers.waits slot none _ e bad)

  then_drains : (n : ℕ) (o : Progress S) → Filled T n o → Falls T n (then_goes (drain_one h s t) o)
  unfolding drain_one
  then_drains n (goes p) (m, l) = drain_pending-Falls n p.pending p m l
  then_drains n (breaks e p) w = w

  round-Falls : (p : Pipeline S) → is_finished p ≡ false → Falls T (measure p) (round h s t p)
  unfolding round
  round-Falls p more = then_drains (measure p) _ (
      fill-Filled (measure p) (s.max_in_flight - length p.pending) p (omega arith)
        (elim (Bool-cases (length p.pending == 0)) [
          | inl idle ↦ inr (ground (arith, more, idle), ground (arith, places, idle))
          | inr busy ↦ inl (ground (arith, busy))
        ]))

  end_round-Ends :
      (n : ℕ) (k : Pipeline S → StreamResult S) (o : Progress S)
      → ((p : Pipeline S) → measure p < n → Ends T (k p))
      → Falls T n o
      → Ends T (end_round h s t k o)
  unfolding end_round
  end_round-Ends n k (goes p) f w = f p w
  end_round-Ends n k (breaks e p) f w = w

  send_chunks-Ends :
      (fuel : ℕ) (p : Pipeline S) → measure p ≤ fuel → Ends T (send_chunks h s t fuel p)
  unfolding send_chunks
  send_chunks-Ends zero p m =
      if-cases (Ends T) (is_finished p) _ _ (λ all. tt) (λ more. absurd (ground (arith, more, m)))
  send_chunks-Ends (suc fuel) p m =
      if-cases (Ends T) (is_finished p) _ _ (λ all. tt)
        (λ more.
          end_round-Ends (measure p) (send_chunks h s t fuel) _
            (λ q l. send_chunks-Ends fuel q (omega (arith, m, l))) (round-Falls p more))

  after_start-Ends :
      (fuel rr : ℕ) (o : Option Error × S)
      → length t.bytes ≤ fuel
      → ((e : Error) → o.0 ≡ some e → T)
      → Ends T (after_start h s t fuel rr o)
  unfolding after_start
  after_start-Ends fuel rr (none, w) l f = send_chunks-Ends fuel _ (omega (arith, l))
  after_start-Ends fuel rr (some e, w) l f = f e refl

  start_on-Ends :
      (fuel : ℕ) (slot : Option ℕ) (rr : ℕ) (w : S)
      → slot ≢ none
      → length t.bytes ≤ fuel
      → Ends T (start_on h s t fuel slot rr w)
  unfolding start_on
  start_on-Ends fuel none rr w ne l = absurd (ne refl)
  start_on-Ends fuel (some slot) rr w ne l =
      if-cases (Ends T) (leb (h.max_req_size slot) chunk_header_size) _ _
        (λ small. absurd (ground (arith, u.same slot, u.large, small)))
        (λ large. after_start-Ends fuel rr _ l (λ e bad. answers.starts slot _ _ _ e bad))

  -- A call with its pointers and no more than 1 GiB.
  pub send-Ends :
      (has_host has_data : Bool) (fuel : ℕ) (w : S)
      → length t.bytes ≤ fuel
      → (has_host ≡ false → T)
      → (has_data ≡ false → T)
      → (max_stream_size < length t.bytes → T)
      → Ends T (send h s t has_host has_data fuel w)
  unfolding send
  send-Ends has_host has_data fuel w l no_host no_data too_long =
      let g = acquire h s 0 w in
      if-cases (Ends T) (not has_host || not has_data) _ _
        (λ absent. elim (Bool-cases has_host) [
          | inl a ↦ no_data (ground (arith, a, absent))
          | inr a ↦ no_host a
        ])
        (λ there.
          if-cases (Ends T) (ltb max_stream_size (length t.bytes)) _ _
            (λ large. too_long (ground (arith, large)))
            (λ fits. start_on-Ends fuel g.slot g.rr g.host (answers.asked 0 w) l))

-- If every slot has the same size, less than 2^31 and more than a header, at least one chunk may be
-- in flight, and the host always has a slot when it is asked for one, then a call of `Send` returns
-- within as many rounds of its loop as the stream has bytes, whatever the host answers to what it
-- is handed.
pub send-returns :
    {S : Type 0} (h : SenderHost S) (s : StreamSender) (t : StreamData) (max_req : ℕ)
    → IsUniform h s t max_req
    → ((rr : ℕ) (w : S) → (acquire h s rr w).slot ≢ none)
    → 0 < s.max_in_flight
    → (has_host has_data : Bool) (fuel : ℕ) (w : S) → length t.bytes ≤ fuel
    → Ends Unit (send h s t has_host has_data fuel w)
send-returns h s t max_req u asked places has_host has_data fuel w l =
    send-Ends h s t max_req u Unit
      (record {
        asked = asked;
        starts = λ slot n m v e bad. tt;
        sends = λ slot n m v e bad. tt;
        waits = λ slot time v e bad. tt;
      })
      places has_host has_data fuel w l (λ no_host. tt) (λ no_data. tt) (λ too_long. tt)
