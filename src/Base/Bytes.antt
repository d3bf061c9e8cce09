-- ===== src/Base/Bytes.antt =====
-- Bytes in memory: copies into a buffer, and little-endian numbers. A byte is a number; the code
-- only moves bytes, except in headers.
use shm.Base.Lists.{length, get_elem?}
use shm.Base.Tests.{leb, if◌then◌else◌}
use Prim.Native.Nat.{ℕ, zero, suc, ◌+◌, ◌*◌, ◌/◌, ◌%◌, ◌^◌, ◌≤◌, ◌<◌}
use mathlib.Core.Path.{◌≡◌, refl, ap}
use mathlib.Core.Option.{Option, none, some}
use mathlib.Core.List.{List, [], ◌∷◌, ◌++◌}
use native.Mathlib.Nat.{pow-suc, zero-add, suc-add}
use native.Mathlib.Omega.{arith}

-- The bytes `ys` over the first bytes of `xs`; what does not fit is cut off.
abbrev pub overwrite : List ℕ → List ℕ → List ℕ
overwrite xs [] = xs
overwrite [] (y ∷ ys) = []
overwrite (x ∷ xs) (y ∷ ys) = y ∷ overwrite xs ys

-- The bytes `ys` over those of `xs` from offset `o` on.
abbrev pub write_at : List ℕ → ℕ → List ℕ → List ℕ
write_at xs zero ys = overwrite xs ys
write_at [] (suc o) ys = []
write_at (x ∷ xs) (suc o) ys = x ∷ write_at xs o ys

-- `memcpy(buf + o, ys, |ys|)`, with `none` for a write past the end of the buffer.
unfoldable pub memcpy_to : List ℕ → ℕ → List ℕ → Option (List ℕ)
memcpy_to xs o ys = if leb (o + length ys) (length xs) then some (write_at xs o ys) else none

pub memcpy_to-in_bounds :
    (xs ys : List ℕ) (o : ℕ)
    → o + length ys ≤ length xs
    → memcpy_to xs o ys ≡ some (write_at xs o ys)
unfolding memcpy_to
memcpy_to-in_bounds xs ys o h = ground arith

pub memcpy_to-eq_some :
    (xs ys : List ℕ) (o : ℕ) {zs : List ℕ}
    → memcpy_to xs o ys ≡ some zs
    → (o + length ys ≤ length xs) × (zs ≡ write_at xs o ys)
unfolding memcpy_to
memcpy_to-eq_some xs ys o h = ground arith

length-overwrite : (xs ys : List ℕ) → length (overwrite xs ys) ≡ length xs
length-overwrite xs [] = refl
length-overwrite [] (y ∷ ys) = refl
length-overwrite (x ∷ xs) (y ∷ ys) = ap suc (length-overwrite xs ys)

pub length-write_at : (xs : List ℕ) (o : ℕ) (ys : List ℕ) → length (write_at xs o ys) ≡ length xs
length-write_at xs zero ys = length-overwrite xs ys
length-write_at [] (suc o) ys = refl
length-write_at (x ∷ xs) (suc o) ys = ap suc (length-write_at xs o ys)

get_elem?-overwrite_inside :
    (xs ys : List ℕ) (i : ℕ)
    → i < length ys
    → length ys ≤ length xs
    → get_elem? (overwrite xs ys) i ≡ get_elem? ys i
get_elem?-overwrite_inside xs [] i h l = absurd (omega arith)
get_elem?-overwrite_inside [] (y ∷ ys) i h l = absurd (omega arith)
get_elem?-overwrite_inside (x ∷ xs) (y ∷ ys) zero h l = refl
get_elem?-overwrite_inside (x ∷ xs) (y ∷ ys) (suc i) h l =
    get_elem?-overwrite_inside xs ys i (omega arith) (omega arith)

get_elem?-overwrite_after :
    (xs ys : List ℕ) (i : ℕ) → length ys ≤ i → get_elem? (overwrite xs ys) i ≡ get_elem? xs i
get_elem?-overwrite_after xs [] i h = refl
get_elem?-overwrite_after [] (y ∷ ys) i h = refl
get_elem?-overwrite_after (x ∷ xs) (y ∷ ys) zero h = absurd (omega arith)
get_elem?-overwrite_after (x ∷ xs) (y ∷ ys) (suc i) h =
    get_elem?-overwrite_after xs ys i (omega arith)

-- Inside the range that was written stand the bytes written.
pub get_elem?-write_at_inside :
    (xs : List ℕ) (o : ℕ) (ys : List ℕ) (i : ℕ)
    → i < length ys
    → o + length ys ≤ length xs
    → get_elem? (write_at xs o ys) (o + i) ≡ get_elem? ys i
get_elem?-write_at_inside xs zero ys i h l =
    rw (zero-add) (get_elem?-overwrite_inside xs ys i h (omega arith))
get_elem?-write_at_inside [] (suc o) ys i h l = absurd (omega arith)
get_elem?-write_at_inside (x ∷ xs) (suc o) ys i h l =
    rw (suc-add) (get_elem?-write_at_inside xs o ys i h (omega arith))

-- Outside of it nothing changes.
pub get_elem?-write_at_before :
    (xs : List ℕ) (o : ℕ) (ys : List ℕ) (i : ℕ)
    → i < o
    → get_elem? (write_at xs o ys) i ≡ get_elem? xs i
get_elem?-write_at_before xs zero ys i h = absurd (omega arith)
get_elem?-write_at_before [] (suc o) ys i h = refl
get_elem?-write_at_before (x ∷ xs) (suc o) ys zero h = refl
get_elem?-write_at_before (x ∷ xs) (suc o) ys (suc i) h =
    get_elem?-write_at_before xs o ys i (omega arith)

pub get_elem?-write_at_after :
    (xs : List ℕ) (o : ℕ) (ys : List ℕ) (i : ℕ)
    → o + length ys ≤ i
    → get_elem? (write_at xs o ys) i ≡ get_elem? xs i
get_elem?-write_at_after xs zero ys i h = get_elem?-overwrite_after xs ys i (omega arith)
get_elem?-write_at_after [] (suc o) ys i h = refl
get_elem?-write_at_after (x ∷ xs) (suc o) ys zero h = absurd (omega arith)
get_elem?-write_at_after (x ∷ xs) (suc o) ys (suc i) h =
    get_elem?-write_at_after xs o ys i (omega arith)

-- The `w` bytes of a number, lowest first, and back. A cell of memory holds a uint8_t.
unfoldable pub encode_le : ℕ → ℕ → List ℕ
encode_le zero n = []
encode_le (suc w) n = n % 256 ∷ encode_le w (n / 256)

unfoldable pub decode_le : ℕ → List ℕ → ℕ
decode_le zero bs = 0
decode_le (suc w) [] = 0
decode_le (suc w) (b ∷ bs) = b % 256 + 256 * decode_le w bs

pub decode_le-lt : (w : ℕ) (bs : List ℕ) → decode_le w bs < 256 ^ w
unfolding decode_le
decode_le-lt zero bs = omega arith
decode_le-lt (suc w) [] = omega (arith, pow-suc 256 w, decode_le-lt w [])
decode_le-lt (suc w) (b ∷ bs) = omega (arith, pow-suc 256 w, decode_le-lt w bs)

pub length-encode_le : (w n : ℕ) → length (encode_le w n) ≡ w
unfolding encode_le
length-encode_le zero n = refl
length-encode_le (suc w) n = ap suc (length-encode_le w (n / 256))

pub decode_le-encode_le :
    (w n : ℕ) (rest : List ℕ) → n < 256 ^ w → decode_le w (encode_le w n ++ rest) ≡ n
unfolding encode_le decode_le
decode_le-encode_le zero n rest h = omega arith
decode_le-encode_le (suc w) n rest h =
    omega (arith, decode_le-encode_le w (n / 256) rest (omega (arith, pow-suc 256 w)))

pub write_at-nil : (xs : List ℕ) (o : ℕ) → write_at xs o [] ≡ xs
write_at-nil xs zero = refl
write_at-nil [] (suc o) = refl
write_at-nil (x ∷ xs) (suc o) = ap (λ r. x ∷ r) (write_at-nil xs o)
