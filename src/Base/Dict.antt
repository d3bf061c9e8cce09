-- ===== src/Base/Dict.antt =====
-- Maps keyed by numbers, as association lists: `find`, `erase` and `insert` of unordered_map.
use shm.Base.Lists.{length}
use shm.Base.Tests.{Option-cases, ◌==◌, if◌then◌else◌}
use Prim.Native.Nat.{ℕ, zero, suc, ◌+◌, ◌≤◌, ◌<◌}
use mathlib.Core.Path.{◌≡◌, refl}
use mathlib.Core.Logic.{inl, inr}
use mathlib.Core.Option.{Option, none, some}
use mathlib.Core.List.{List, [], ◌∷◌}
use native.Mathlib.Omega.{arith}

abbrev pub Dict {ℓ} : Type ℓ → Type ℓ
Dict V = List (ℕ × V)

module _ {ℓ} {V : Type ℓ} where
  unfoldable pub find : ℕ → Dict V → Option V
  find k [] = none
  find k ((j, v) ∷ m) = if j == k then some v else find k m

  unfoldable pub erase : ℕ → Dict V → Dict V
  erase k [] = []
  erase k ((j, v) ∷ m) = if j == k then erase k m else (j, v) ∷ erase k m

  -- `emplace` leaves a key that is there as it was.
  unfoldable pub emplace : ℕ → V → Dict V → Dict V
  unfolding find
  emplace k v m = elim (find k m) [ none ↦ (k, v) ∷ m | some _ ↦ m ]

  pub emplace-fresh : (k : ℕ) (v : V) (m : Dict V) → find k m ≡ none → emplace k v m ≡ (k, v) ∷ m
  unfolding emplace
  emplace-fresh k v m h = ground arith

  -- `m[k] = v`
  unfoldable pub insert : ℕ → V → Dict V → Dict V
  insert k v m = (k, v) ∷ erase k m

  pub find-erase : (k j : ℕ) (m : Dict V) → find j (erase k m) ≡ (if k == j then none else find j m)
  unfolding find erase
  find-erase k j [] = ground arith
  find-erase k j ((i, v) ∷ m) = ground (arith, find-erase k j m)

  pub find-insert :
      (k j : ℕ) (v : V) (m : Dict V) → find j (insert k v m) ≡ (if k == j then some v else find j m)
  unfolding find insert
  find-insert k j v m = ground (arith, find-erase k j m)

  pub length-erase-le : (k : ℕ) (m : Dict V) → length (erase k m) ≤ length m
  unfolding erase
  length-erase-le k [] = omega arith
  length-erase-le k ((i, v) ∷ m) = ground (arith, length-erase-le k m)

  pub length-erase-lt :
      (k : ℕ) (m : Dict V) {v : V} → find k m ≡ some v → length (erase k m) < length m
  unfolding find erase
  length-erase-lt k [] h = cc
  length-erase-lt k ((i, w) ∷ m) {v} h =
      ground (arith, length-erase-le k m, length-erase-lt k m {v = v})

  -- No key stands twice.
  abbrev pub Distinct : Dict V → Type ℓ
  Distinct [] = Unit
  Distinct ((k, v) ∷ m) = (find k m ≡ none) × Distinct m

  pub erase-fresh : (k : ℕ) (m : Dict V) → find k m ≡ none → erase k m ≡ m
  unfolding find erase
  erase-fresh k [] h = refl
  erase-fresh k ((i, v) ∷ m) h = ground (arith, erase-fresh k m)

  pub Distinct-erase : (k : ℕ) (m : Dict V) → Distinct m → Distinct (erase k m)
  unfolding erase
  Distinct-erase k [] d = tt
  Distinct-erase k ((i, v) ∷ m) d = ground (arith, find-erase k i m, Distinct-erase k m d.1)

  -- The sum of a measure over the values.
  unfoldable pub total : (V → ℕ) → Dict V → ℕ
  total w [] = 0
  total w ((k, v) ∷ m) = w v + total w m

  pub total-erase :
      (w : V → ℕ) (k : ℕ) (m : Dict V) {v : V}
      → Distinct m
      → find k m ≡ some v
      → total w (erase k m) + w v ≡ total w m
  unfolding find erase total
  total-erase w k [] d h = cc
  total-erase w k ((i, u) ∷ m) {v} d h =
      ground (arith, erase-fresh k m, total-erase w k m {v = v} d.1)

  pub Distinct-insert : (k : ℕ) (v : V) (m : Dict V) → Distinct m → Distinct (insert k v m)
  unfolding insert
  Distinct-insert k v m d = ground (arith, find-erase k k m, Distinct-erase k m d)

  length-erase :
      (k : ℕ) (m : Dict V) {v : V}
      → Distinct m
      → find k m ≡ some v
      → suc (length (erase k m)) ≡ length m
  unfolding find erase
  length-erase k [] d h = cc
  length-erase k ((i, u) ∷ m) {v} d h =
      ground (arith, erase-fresh k m, length-erase k m {v = v} d.1)

  -- As many keys as there are numbers for them.
  pub length-le-range :
      (n lo : ℕ) (m : Dict V)
      → Distinct m
      → ((k : ℕ) (v : V) → find k m ≡ some v → (lo ≤ k) × (k < lo + n))
      → length m ≤ n
  unfolding find
  length-le-range zero lo [] d h = omega arith
  length-le-range zero lo ((k, v) ∷ m) d h = absurd (omega (arith, h k v (ground arith)))
  length-le-range (suc n) lo m d h = elim (Option-cases (find lo m)) [
    | inl absent ↦ omega (arith, length-le-range n (suc lo) m d (λ k v f. ground (arith, h k v)))
    | inr (u, present) ↦ omega (
      arith,
      length-erase lo m d present,
      length-le-range n (suc lo) (erase lo m) (Distinct-erase lo m d)
          (λ k v f. ground (arith, find-erase lo k m, h k v)),
    )
  ]
