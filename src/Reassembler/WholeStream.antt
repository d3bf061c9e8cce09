-- ===== src/Reassembler/WholeStream.antt =====
-- Whole streams: the parts in any order with repetitions, and the parts in order, each delivered
-- exactly once, by the last message.
use shm.Base.{
  ℕ, suc, ◌≤◌, ◌<◌, ◌≡◌, ◌≢◌, inl, inr, refl, ◌∙◌, ap, true, false, ◌||◌, none, List, [], ◌∷◌, ◌++◌,
  arith, length, Bool-cases, ℕ_discrete, All,
}
use shm.Base.Dict.{find, insert, length-le-range}
use shm.Wire.{normal}
use shm.StreamContext.{StreamContext, kept, has_chunk}
use shm.StreamContext.Parts.{joined}
use shm.StreamContext.Valid.{IsValid as ContextIsValid, IsSettled}
use shm.StreamContext.Arrive.{Arrived}
use shm.Reassembler.{Reassembler, Env, replied, settle}
use shm.Reassembler.Safety.{has_chunk-false}
use shm.Reassembler.Trace.{receive, deliveries}
use shm.Reassembler.Completion.{
  elem, send, sends, finished, Holds, flight, receive-again, receive-new, receive-missing,
  receive-last,
}

module _ (id : ℕ) (parts : List (List ℕ)) (e : Env) where
  -- There are no more parked parts than parts, and one fewer while one is new.
  park_room :
      {r : Reassembler} {c : StreamContext} (k : ℕ)
      → Holds id parts e r c
      → k < length parts
      → has_chunk c k ≡ false
      → suc (length c.ooo) ≤ length parts
  unfolding find
  park_room {r} {c} k w l h =
      length-le-range (length parts) 0 ((k, record { dst_offset = 0; size = 0 }) ∷ c.ooo)
        ((has_chunk-false c k h).1, v.distinct)
        (λ j p g. ground (arith, v.ahead j p, w.agrees.count))
    where
      v : ContextIsValid c
      v = (flight id parts e w).settled.valid

  -- What is still to come: the parts `ks`, and at last `j`, which is missing so far.
  pub record Awaits (r : Reassembler) (c : StreamContext) (ks : List ℕ) (j : ℕ) : Type 0 where
    pub holds : Holds id parts e r c
    pub others : All (λ k. (k < length parts) × (k ≢ j)) ks
    pub in_range : j < length parts
    pub missing : has_chunk c j ≡ false
    pub covered : (k : ℕ) → k < length parts → k ≢ j → (has_chunk c k || elem k ks) ≡ true

  -- The context that a part leaves behind, in the reassembler that stores it.
  abbrev store : Reassembler → StreamContext → Reassembler
  store r d = record r { streams = insert id d r.streams }

  abbrev New : Reassembler → StreamContext → ℕ → StreamContext → Type 0
  New r c k d =
      (receive r (send id parts e k) ≡ settle r id (kept d)) × IsSettled d × Arrived parts c k d

  again-Awaits :
      {r : Reassembler} {c : StreamContext} {k j : ℕ} (ks : List ℕ)
      → has_chunk c k ≡ true
      → Awaits r c (k ∷ ks) j
      → Awaits r c ks j
  again-Awaits {c} {k} ks h w = record {
    holds = w.holds;
    others = w.others.1;
    in_range = w.in_range;
    missing = w.missing;
    covered = λ i l ne. ground (arith, w.covered i l ne);
  }

  more_step :
      {r : Reassembler} {c : StreamContext} {k j : ℕ} (ks : List ℕ) (d : StreamContext)
      → Awaits r c (k ∷ ks) j
      → New r c k d
      → (receive r (send id parts e k) ≡ replied normal none (store r d))
        × Awaits (store r d) d ks j
        × (d.app_msg_type ≡ c.app_msg_type)
  more_step {r} {c} {k} {j} ks d w (o, s, a) =
      let missing : has_chunk d j ≡ false = ground (arith, a.adds j, w.missing, w.others.0.1) in
      let (reply, holds) = receive-missing id parts e w.holds k j d o s a w.in_range missing in
      (
        reply,
        record {
          holds = holds;
          others = w.others.1;
          in_range = w.in_range;
          missing = missing;
          covered = λ i l ne. ground (arith, a.adds i, w.covered i l ne);
        },
        a.same.app_msg_type,
      )

  last_step :
      {r : Reassembler} {c : StreamContext} {j : ℕ} (d : StreamContext)
      → Awaits r c [] j
      → New r c j d
      → deliveries r (send id parts e j ∷ []) ≡ finished id parts e c ∷ []
  unfolding deliveries
  last_step {r} {c} {j} d w (o, s, a) = rw (receive-last id parts e w.holds j d o s a all) refl
    where
      all : (k : ℕ) → k < length parts → has_chunk d k ≡ true
      all k l = elim (ℕ_discrete k j) [
        | yes same ↦ rw same (ground (arith, a.adds j))
        | no ne ↦ ground (arith, a.adds k, w.covered k l ne)
      ]

  -- Stream `id` is delivered once and whole by the call that brings its last missing part `j`, and
  -- not before, in whatever order and however often the other parts come, if the reassembler may
  -- park as many parts as the stream has and has the memory for it.
  pub deliveries-any_order :
      (r : Reassembler) (c : StreamContext) (ks : List ℕ) (j : ℕ)
      → Awaits r c ks j
      → length parts ≤ r.config.max_parked_chunks
      → e.park_allocates ≡ true
      → deliveries r (sends id parts e (ks ++ (j ∷ []))) ≡ finished id parts e c ∷ []
  unfolding deliveries
  deliveries-any_order r c [] j w room mem =
      let fits = park_room j w.holds w.in_range w.missing in
      let n = receive-new id parts e w.holds j w.in_range w.missing (inr (omega arith, mem)) in
      last_step n.0 w (n.1, n.2, n.3)
  deliveries-any_order r c (k ∷ ks) j w room mem = elim (Bool-cases (has_chunk c k)) [
    | inl old ↦
        rw (receive-again id parts e w.holds k w.others.0.0 old)
          (deliveries-any_order r c ks j (again-Awaits ks old w) room mem)
    | inr new ↦
        let fits = park_room k w.holds w.others.0.0 new in
        let n = receive-new id parts e w.holds k w.others.0.0 new (inr (omega arith, mem)) in
        let (reply, w', tag) = more_step ks n.0 w (n.1, n.2, n.3) in
        rw reply (
          deliveries-any_order (store r n.0) n.0 ks j w' room mem
          ∙ ap (λ t. record { stream_id = id; app_msg_type = t; bytes = joined parts } ∷ []) tag)
  ]
