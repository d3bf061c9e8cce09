-- ===== src/StreamSender/Rounds.antt =====
-- Every round of the loop keeps what is known of a stream in the middle of its chunks.
use mathlib.Core.List.{append_assoc}
use shm.Base.{
  ℕ, zero, suc, ◌-◌, ◌^◌, ◌≤◌, ◌≡◌, ◌≢◌, refl, ◌∙◌, sym, Option, none, some, List, [], ◌∷◌, ◌++◌,
  arith, length, ◌==◌, if-cases,
}
use shm.StreamSender.{
  SenderHost, StreamSender, StreamData, Pipeline, Progress, goes, breaks, fill, fill_with, acquire,
  acquire_at, then_goes, drain_one, drain_pending, round,
}
use shm.StreamSender.Recording.{Recorded, recording}
use shm.StreamSender.Post.{IsUniform, Sending, Keeps, post-Keeps, on_answer-cases}

module _ {S : Type 0} (h : SenderHost S) (s : StreamSender) (t : StreamData) (max_req : ℕ) where
  -- Asking for a slot leaves the record alone.
  pub acquire-inner :
      (rr : ℕ) (w : Recorded S)
      → (v : S) × ((acquire (recording h) s rr w).host ≡ record w { inner = v })
  unfolding acquire
  acquire-inner rr w = at s.base_slot
    where
      at :
          (b : Option ℕ)
          → (v : S) × ((acquire_at (recording h) s b rr w).host ≡ record w { inner = v })
      at none = (_, refl)
      at (some base) = (_, refl)

  then_goes-Keeps :
      (k : Pipeline (Recorded S) → Progress (Recorded S)) (o : Progress (Recorded S))
      → ((q : Pipeline (Recorded S)) (rest : List (List ℕ))
          → Sending h s t max_req q rest
          → Keeps h s t max_req (k q))
      → Keeps h s t max_req o
      → Keeps h s t max_req (then_goes k o)
  then_goes-Keeps k (goes p) f (rest, w) = f p rest w
  then_goes-Keeps k (breaks e p) f w = w

  module _ (u : IsUniform h s t max_req) (b : length t.bytes ≤ 2 ^ 30) where
    fill_with-Keeps :
        (k : Pipeline (Recorded S) → Progress (Recorded S)) (p : Pipeline (Recorded S))
        (slot : Option ℕ) (rest : List (List ℕ))
        → ((q : Pipeline (Recorded S)) (rest : List (List ℕ))
            → Sending h s t max_req q rest
            → Keeps h s t max_req (k q))
        → length p.src ≢ 0
        → Sending h s t max_req p rest
        → Keeps h s t max_req (fill_with (recording h) s t k p slot)
    unfolding fill_with
    fill_with-Keeps k p none rest f ne w = (rest, w)
    fill_with-Keeps k p (some slot) [] f ne w = absurd (ne w.cuts)
    fill_with-Keeps k p (some slot) (x ∷ xs) f ne w =
        then_goes-Keeps k _ f (post-Keeps h s t max_req u b slot p x xs w)

    pub fill-Keeps :
        (room : ℕ) (p : Pipeline (Recorded S)) (rest : List (List ℕ))
        → Sending h s t max_req p rest
        → Keeps h s t max_req (fill (recording h) s t room p)
    unfolding fill
    fill-Keeps zero p rest w = (rest, w)
    fill-Keeps (suc room) p rest w =
        let g = acquire (recording h) s p.rr p.host in
        let (v, e) = acquire-inner p.rr p.host in
        let q = record p { rr = g.rr; host = g.host } in
        let w' : Sending h s t max_req q rest = record {
          cuts = w.cuts;
          counted = w.counted;
          left = w.left;
          planned = rw e w.planned;
          in_order = rw e w.in_order;
        } in
        if-cases (Keeps h s t max_req) (length p.src == 0) _ _ (λ empty. (rest, w))
          (λ more.
            fill_with-Keeps (fill (recording h) s t room) q g.slot rest
              (λ q rest. fill-Keeps room q rest) (ground (arith, more)) w')

  drain_pending-Keeps :
      (pending : List ℕ) (p : Pipeline (Recorded S)) (rest : List (List ℕ))
      → Sending h s t max_req p rest
      → p.host.posted ≡ p.host.waited ++ pending
      → Keeps h s t max_req (drain_pending (recording h) s t pending p)
  unfolding drain_pending
  drain_pending-Keeps [] p rest w e = (rest, w)
  drain_pending-Keeps (slot ∷ pending) p rest w e =
      let e' : p.host.posted ≡ (p.host.waited ++ (slot ∷ [])) ++ pending =
        e ∙ sym (append_assoc p.host.waited (slot ∷ []) pending) in
      on_answer-cases (Keeps h s t max_req) (h.wait_for_slot slot none p.host.inner).0 _ _
        (λ good. (
          rest,
          record {
            cuts = w.cuts;
            counted = w.counted;
            left = w.left;
            planned = w.planned;
            in_order = e';
          },
        ))
        (λ x bad. record { missing = _; begun = w.planned; in_order = e' })

  pub drain_one-Keeps :
      (p : Pipeline (Recorded S)) (rest : List (List ℕ))
      → Sending h s t max_req p rest
      → Keeps h s t max_req (drain_one (recording h) s t p)
  unfolding drain_one
  drain_one-Keeps p rest w = drain_pending-Keeps p.pending p rest w w.in_order

  pub round-Keeps :
      IsUniform h s t max_req
      → length t.bytes ≤ 2 ^ 30
      → (p : Pipeline (Recorded S)) (rest : List (List ℕ)) → Sending h s t max_req p rest
      → Keeps h s t max_req (round (recording h) s t p)
  unfolding round
  round-Keeps u b p rest w =
      then_goes-Keeps (drain_one (recording h) s t) _ drain_one-Keeps
        (fill-Keeps u b (s.max_in_flight - length p.pending) p rest w)
