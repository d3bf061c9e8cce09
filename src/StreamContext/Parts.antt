-- ===== src/StreamContext/Parts.antt =====
-- A stream cut into parts: the whole, where each part begins, and that the parts tile the whole.
-- This is what a conforming sender of chunks means by its indices and offsets.
use native.Mathlib.Nat.{zero-add, suc-add, add_assoc}
use shm.Base.{
  ℕ, zero, suc, ◌+◌, ◌-◌, ◌≤◌, ◌<◌, ◌≡◌, refl, ◌∙◌, List, [], ◌∷◌, ◌++◌, arith, length, get_elem?,
  get_or, length-append, dec_lt,
}

abbrev pub joined : List (List ℕ) → List ℕ
joined [] = []
joined (x ∷ xs) = x ++ joined xs

-- `Σ payloadSize` of the parts below `k`
abbrev pub offset_of : List (List ℕ) → ℕ → ℕ
offset_of [] k = 0
offset_of (x ∷ xs) zero = 0
offset_of (x ∷ xs) (suc k) = length x + offset_of xs k

abbrev pub part : List (List ℕ) → ℕ → List ℕ
part parts k = get_or parts k []

pub offset_of-suc :
    (parts : List (List ℕ)) (k : ℕ)
    → k < length parts
    → offset_of parts (suc k) ≡ offset_of parts k + length (part parts k)
offset_of-suc [] k h = absurd (omega arith)
offset_of-suc (x ∷ []) zero h = omega arith
offset_of-suc (x ∷ y ∷ xs) zero h = omega arith
offset_of-suc (x ∷ xs) (suc k) h = omega (arith, offset_of-suc xs k (omega arith))

pub offset_of-length :
    (parts : List (List ℕ)) → offset_of parts (length parts) ≡ length (joined parts)
offset_of-length [] = refl
offset_of-length (x ∷ xs) = omega (arith, offset_of-length xs, length-append {0} x (joined xs))

pub offset_of-le :
    (parts : List (List ℕ)) (k : ℕ)
    → k < length parts
    → offset_of parts k + length (part parts k) ≤ length (joined parts)
offset_of-le [] k h = absurd (omega arith)
offset_of-le (x ∷ xs) zero h = omega (arith, length-append {0} x (joined xs))
offset_of-le (x ∷ xs) (suc k) h =
    omega (arith, offset_of-le xs k (omega arith), length-append {0} x (joined xs))

-- Two parts do not overlap.
pub offset_of-lt :
    (parts : List (List ℕ)) (j k : ℕ)
    → j < k
    → k < length parts
    → offset_of parts j + length (part parts j) ≤ offset_of parts k
offset_of-lt [] j k h l = absurd (omega arith)
offset_of-lt (x ∷ xs) zero zero h l = absurd (omega arith)
offset_of-lt (x ∷ xs) zero (suc k) h l = omega arith
offset_of-lt (x ∷ xs) (suc j) zero h l = absurd (omega arith)
offset_of-lt (x ∷ xs) (suc j) (suc k) h l =
    omega (arith, offset_of-lt xs j k (omega arith) (omega arith))

get_elem?-append_left {ℓ} :
    {A : Type ℓ} (xs ys : List A) (i : ℕ) → i < length xs → get_elem? (xs ++ ys) i ≡ get_elem? xs i
get_elem?-append_left [] ys i h = absurd (omega arith)
get_elem?-append_left (x ∷ xs) ys zero h = refl
get_elem?-append_left (x ∷ xs) ys (suc i) h = get_elem?-append_left xs ys i (omega arith)

get_elem?-append_right {ℓ} :
    {A : Type ℓ} (xs ys : List A) (i : ℕ) → get_elem? (xs ++ ys) (length xs + i) ≡ get_elem? ys i
get_elem?-append_right [] ys i = rw zero-add
get_elem?-append_right (x ∷ xs) ys i = rw suc-add (get_elem?-append_right xs ys i)

-- Part `k` stands in the whole at its offset.
pub get_elem?-joined :
    (parts : List (List ℕ)) (k i : ℕ)
    → i < length (part parts k)
    → get_elem? (joined parts) (offset_of parts k + i) ≡ get_elem? (part parts k) i
get_elem?-joined [] k i h = absurd (omega arith)
get_elem?-joined (x ∷ xs) zero i h = rw zero-add (get_elem?-append_left x (joined xs) i h)
get_elem?-joined (x ∷ xs) (suc k) i h =
    rw add_assoc
      (get_elem?-append_right x (joined xs) (offset_of xs k + i) ∙ get_elem?-joined xs k i h)

-- A position of the whole, as a part and a position in it.
pub record Position (parts : List (List ℕ)) (i : ℕ) : Type 0 where
  pub index : ℕ
  pub inner : ℕ
  pub in_range : index < length parts
  pub in_part : inner < length (part parts index)
  pub at : i ≡ offset_of parts index + inner

-- Every position of the whole lies in a part.
pub position : (parts : List (List ℕ)) (i : ℕ) → i < length (joined parts) → Position parts i
position [] i h = absurd (omega arith)
position (x ∷ xs) i h = elim (dec_lt i (length x)) [
  | yes l ↦ record { index = 0; inner = i; in_range = omega arith; in_part = l; at = omega arith }
  | no l ↦
      let p = position xs (i - length x) (omega (arith, length-append {0} x (joined xs))) in
      record {
        index = suc p.index;
        inner = p.inner;
        in_range = omega (arith, p.in_range);
        in_part = p.in_part;
        at = omega (arith, p.at);
      }
]

-- Lists that agree at every position are equal.
pub list_ext {ℓ} :
    {A : Type ℓ} (xs ys : List A)
    → length xs ≡ length ys
    → ((i : ℕ) → i < length ys → get_elem? xs i ≡ get_elem? ys i)
    → xs ≡ ys
list_ext [] [] l h = refl
list_ext [] (y ∷ ys) l h = absurd (omega arith)
list_ext (x ∷ xs) [] l h = absurd (omega arith)
list_ext (x ∷ xs) (y ∷ ys) l h =
    cc (h 0 (omega arith), list_ext xs ys (omega arith) (λ i b. h (suc i) (omega arith)))
