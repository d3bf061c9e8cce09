-- ===== src/Host/Handle/Owning.antt =====
-- The invariant of handles as a relation between the slots that they have and the slots held, and what
-- giving up, taking and passing on a slot do to it.
use shm.Base.{
  ℕ, ◌≡◌, ◌≢◌, ap, sym, ◌∙◌, Bool, true, false, Option, none, some, ◌==◌, if◌then◌else◌, arith,
  ℕ_discrete, if-cases,
}
use shm.Host.Handle.{no_longer, mark}

-- The slots held are those of the valid handles, and no two of these have the same. `slots` is what
-- each variable's handle has.
pub record Owning (slots : ℕ → Option ℕ) (held : ℕ → Bool) : Type 0 where
  pub claimed : (k i : ℕ) → slots k ≡ some i → held i ≡ true
  pub unique : (k k' i : ℕ) → slots k ≡ some i → slots k' ≡ some i → k ≡ k'
  pub no_leak : (i : ℕ) → held i ≡ true → (k : ℕ) × (slots k ≡ some i)

module _ (slots slots' : ℕ → Option ℕ) (held : ℕ → Bool) (o : Owning slots held) (k : ℕ) where
  -- A handle other than `k` that has a slot had it before.
  had :
      (j i : ℕ)
      → slots' k ≡ none
      → ((j : ℕ) → j ≢ k → slots' j ≡ slots j)
      → slots' j ≡ some i
      → (j ≢ k) × (slots j ≡ some i)
  had j i empty same h = elim (ℕ_discrete j k) [
    | yes here ↦ absurd cc
    | no there ↦ (there, sym (same j there) ∙ h)
  ]

  unique_still :
      slots' k ≡ none
      → ((j : ℕ) → j ≢ k → slots' j ≡ slots j)
      → (j j' i : ℕ) → slots' j ≡ some i
      → slots' j' ≡ some i
      → j ≡ j'
  unique_still empty same j j' i h h' =
      o.unique j j' i (had j i empty same h).1 (had j' i empty same h').1

  -- Handle `k` gives up its slot, if it has one.
  pub gives_up :
      (m : Option ℕ)
      → slots k ≡ m
      → slots' k ≡ none
      → ((j : ℕ) → j ≢ k → slots' j ≡ slots j)
      → Owning slots' (no_longer held m)
  gives_up none e empty same = record {
    claimed = λ j i h. o.claimed j i (had j i empty same h).1;
    unique = unique_still empty same;
    no_leak = λ i h. let (j, g) = o.no_leak i h in (j, same j (λ q. cc (q, g, e, ap slots q)) ∙ g);
  }
  gives_up (some m) e empty same = record {
    claimed = λ j i h.
        let (there, g) = had j i empty same h in
        let other : i ≢ m = λ q. there (o.unique j k i g (e ∙ ap some (sym q))) in
        if-cases (λ x. x ≡ true) (i == m) _ _ (λ q. absurd (ground (arith, other, q)))
          (λ q. o.claimed j i g);
    unique = unique_still empty same;
    no_leak = λ i h.
        let before : (i ≢ m) × (held i ≡ true) = ground (arith, h) in
        let (j, g) = o.no_leak i before.1 in
        (j, same j (λ q. before.0 (ground (arith, g, e, ap slots q))) ∙ g);
  }

  -- Handle `k`, which has none, takes a slot that nobody has.
  pub takes :
      (i : ℕ)
      → slots k ≡ none
      → held i ≡ false
      → slots' k ≡ some i
      → ((j : ℕ) → j ≢ k → slots' j ≡ slots j)
      → Owning slots' (mark held i)
  takes i e free has same = record {
    claimed = λ j l h. elim (ℕ_discrete j k) [
      | yes here ↦ ground (arith, h, has, ap slots' here)
      | no there ↦ let g = o.claimed j l (sym (same j there) ∙ h) in ground (arith, g)
    ];
    unique = λ j j' l h h'. elim (ℕ_discrete j k) [
      | yes here ↦ elim (ℕ_discrete j' k) [
        | yes here' ↦ here ∙ sym here'
        | no there' ↦
            let g = o.claimed j' l (sym (same j' there') ∙ h') in
            absurd (ground (arith, g, free, h, has, ap slots' here))
      ]
      | no there ↦ elim (ℕ_discrete j' k) [
        | yes here' ↦
            let g = o.claimed j l (sym (same j there) ∙ h) in
            absurd (ground (arith, g, free, h', has, ap slots' here'))
        | no there' ↦ o.unique j j' l (sym (same j there) ∙ h) (sym (same j' there') ∙ h')
      ]
    ];
    no_leak = λ l h. elim (ℕ_discrete l i) [
      | yes here ↦ (k, has ∙ ap some (sym here))
      | no there ↦
          let before : held l ≡ true = ground (arith, h, there) in
          let (j, g) = o.no_leak l before in (j, same j (λ q. cc (q, g, e, ap slots q)) ∙ g)
    ];
  }

  -- Handle `k`, which has none, takes over what handle `j` has.
  pub takes_over :
      (j : ℕ)
      → j ≢ k
      → slots k ≡ none
      → slots' k ≡ slots j
      → slots' j ≡ none
      → ((l : ℕ) → l ≢ k → l ≢ j → slots' l ≡ slots l)
      → Owning slots' held
  takes_over j ne e has gone same = record {
    claimed = λ l i h. o.claimed (from l) i (from_lem l i h);
    unique = λ l l' i h h'.
        back l l' i h h' (o.unique (from l) (from l') i (from_lem l i h) (from_lem l' i h'));
    no_leak = λ i h.
        let (l, g) = o.no_leak i h in
        elim (ℕ_discrete l j) [
          | yes here ↦ (k, has ∙ (ap slots (sym here) ∙ g))
          | no there ↦ (l, same l (λ q. cc (q, g, e, ap slots q)) there ∙ g)
        ];
  }
    where
      -- Where a slot comes from.
      from : ℕ → ℕ
      from l = if l == k then j else l

      from_lem : (l i : ℕ) → slots' l ≡ some i → slots (from l) ≡ some i
      from_lem l i h = elim (ℕ_discrete l k) [
        | yes here ↦
            if-cases (λ x. slots x ≡ some i) (l == k) _ _
              (λ q. sym has ∙ (ap slots' (sym here) ∙ h)) (λ q. absurd (ground (arith, here, q)))
        | no there ↦
            if-cases (λ x. slots x ≡ some i) (l == k) _ _ (λ q. absurd (ground (arith, there, q)))
              (λ q. sym (same l there (λ r. cc (r, h, gone, ap slots' r))) ∙ h)
      ]

      back : (l l' i : ℕ) → slots' l ≡ some i → slots' l' ≡ some i → from l ≡ from l' → l ≡ l'
      back l l' i h h' q =
          let a : l ≢ j = λ r. cc (r, h, gone, ap slots' r) in
          let b : l' ≢ j = λ r. cc (r, h', gone, ap slots' r) in ground (arith, q, a, b)
