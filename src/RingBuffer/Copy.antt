-- ===== src/RingBuffer/Copy.antt =====
-- The circular copy: where its bytes stand, and that the other bytes stay.
use native.Mathlib.Decide.{dec_lt}
use native.Mathlib.Nat.{mod-lt, mod-eq_of_lt, add-mod-mod, mod-eq-sub-mod, add_comm}
use shm.Base.{
  ℕ, ◌+◌, ◌-◌, ◌%◌, ◌≤◌, ◌<◌, ◌≡◌, ◌⊎◌, inl, inr, sym, ◌∙◌, ap, List, arith, length, get_elem?,
  take, drop, min, ltb, length-take, length-drop, get_elem?-take, get_elem?-drop, if-cases,
}
use shm.Base.Bytes.{
  write_at, length-write_at, get_elem?-write_at_inside, get_elem?-write_at_before,
  get_elem?-write_at_after,
}
use shm.RingBuffer.{copy_in}

-- The place of the byte `j` behind `w` on a ring of `c` bytes.
pub mod-step :
    (w j c : ℕ)
    → j < c
    → (((w + j) % c ≡ w % c + j) × (w % c + j < c))
      ⊎ (((w + j) % c ≡ w % c + j - c) × (c ≤ w % c + j))
mod-step w j c l =
    let pos : 0 < c = omega arith in
    let small = mod-lt w pos in
    let shift : (w + j) % c ≡ (j + w % c) % c =
      ap (λ n. n % c) (add_comm w j) ∙ sym (add-mod-mod j w c) in
    elim (dec_lt (j + w % c) c) [
      | yes under ↦ inl (shift ∙ (mod-eq_of_lt under ∙ add_comm j (w % c)), omega (arith, under))
      | no over ↦ inr (
        shift
            ∙ (mod-eq-sub-mod (omega (arith, over))
                ∙ (mod-eq_of_lt (omega (arith, small)) ∙ omega (arith, over))),
        omega (arith, over),
      )
    ]

module _ (d : List ℕ) (c o : ℕ) (src : List ℕ) (n : ℕ) (sized : length d ≡ c) (at : o < c)
    (few : n ≤ c) (there : n ≤ length src) where
  abbrev chunk : ℕ
  chunk = min n (c - o)

  abbrev first : List ℕ
  first = write_at d o (take chunk src)

  length-first : length first ≡ c
  length-first = length-write_at d o (take chunk src) ∙ sized

  length-chunk : length (take chunk src) ≡ chunk
  length-chunk = omega (arith, length-take chunk src)

  length-rest : length (take (n - chunk) (drop chunk src)) ≡ n - chunk
  length-rest = omega (arith, length-take (n - chunk) (drop chunk src), length-drop chunk src)

  get_elem?-first : (j : ℕ) → j < chunk → get_elem? first (o + j) ≡ get_elem? src j
  get_elem?-first j l =
      get_elem?-write_at_inside d o (take chunk src) j (omega (arith, length-chunk))
        (omega (arith, length-chunk))
      ∙ get_elem?-take chunk src j l

  -- The bytes that are copied in stand at their places.
  pub copy_in-low :
      (j : ℕ) → j < n → o + j < c → get_elem? (copy_in d c o src n) (o + j) ≡ get_elem? src j
  unfolding copy_in
  copy_in-low j l b =
      if-cases (λ x. get_elem? x (o + j) ≡ get_elem? src j) (ltb chunk n) _ _
        (λ two.
          get_elem?-write_at_after first 0 (take (n - chunk) (drop chunk src)) (o + j)
            (omega (arith, length-rest))
          ∙ get_elem?-first j (omega arith))
        (λ one. get_elem?-first j (omega arith))

  pub copy_in-high :
      (j : ℕ) → j < n → c ≤ o + j → get_elem? (copy_in d c o src n) (o + j - c) ≡ get_elem? src j
  unfolding copy_in
  copy_in-high j l b =
      if-cases (λ x. get_elem? x (o + j - c) ≡ get_elem? src j) (ltb chunk n) _ _
        (λ two.
          let e : o + j - c ≡ 0 + (j - chunk) = omega arith in
          ap (get_elem? (write_at first 0 (take (n - chunk) (drop chunk src)))) e
          ∙ (get_elem?-write_at_inside first 0 (take (n - chunk) (drop chunk src)) (j - chunk)
                (omega (arith, length-rest)) (omega (arith, length-rest, length-first))
              ∙ (get_elem?-take (n - chunk) (drop chunk src) (j - chunk) (omega arith)
                  ∙ (get_elem?-drop chunk src (j - chunk) ∙ ap (get_elem? src) (omega arith)))))
        (λ one. absurd (ground arith))

  -- The bytes at other places stand as they were.
  pub copy_in-outside :
      (q : ℕ)
      → q < c
      → (q < o) ⊎ (o + n ≤ q)
      → o + n ≤ q + c
      → get_elem? (copy_in d c o src n) q ≡ get_elem? d q
  unfolding copy_in
  copy_in-outside q l side under =
      if-cases (λ x. get_elem? x q ≡ get_elem? d q) (ltb chunk n) _ _
        (λ two.
          get_elem?-write_at_after first 0 (take (n - chunk) (drop chunk src)) q
            (omega (arith, length-rest))
          ∙ kept side)
        (λ one. kept side)
    where
      kept : (q < o) ⊎ (o + n ≤ q) → get_elem? first q ≡ get_elem? d q
      kept (inl before) = get_elem?-write_at_before d o (take chunk src) q before
      kept (inr after) =
          get_elem?-write_at_after d o (take chunk src) q (omega (arith, length-chunk))

pub length-copy_in :
    (d : List ℕ) (c o : ℕ) (src : List ℕ) (n : ℕ) → length (copy_in d c o src n) ≡ length d
unfolding copy_in
length-copy_in d c o src n =
    let chunk = min n (c - o) in
    let first = write_at d o (take chunk src) in
    if-cases (λ x. length x ≡ length d) (ltb chunk n) _ first
      (λ two.
        length-write_at first 0 (take (n - chunk) (drop chunk src))
        ∙ length-write_at d o (take chunk src))
      (λ one. length-write_at d o (take chunk src))
