-- ===== src/CopySmall/Same.antt =====
-- The ladder of windows is one copy.
use native.Mathlib.Decide.{dec_lt}
use shm.Base.{
  ℕ, ◌+◌, ◌-◌, ◌≤◌, ◌<◌, ◌≡◌, refl, sym, ◌∙◌, ap, List, arith, length, get_elem?, take, drop, leb,
  ◌==◌, length-take, get_elem?-take, get_elem?-drop, length-drop, if-cases,
}
use shm.Base.Bytes.{
  write_at, length-write_at, get_elem?-write_at_inside, get_elem?-write_at_before,
  get_elem?-write_at_after, write_at-nil,
}
use shm.StreamContext.Parts.{list_ext}
use shm.CopySmall.{window, two_windows, copy_large, copy_small}

length-piece : (k o : ℕ) (s : List ℕ) → o + k ≤ length s → length (take k (drop o s)) ≡ k
length-piece k o s l = omega (arith, length-take k (drop o s), length-drop o s)

-- Inside a window stand the bytes of the source, and outside nothing changes.
get_elem?-window_inside :
    (k o : ℕ) (s d : List ℕ) (i : ℕ)
    → o + k ≤ length s
    → o + k ≤ length d
    → o ≤ i
    → i < o + k
    → get_elem? (window k o s d) i ≡ get_elem? s i
get_elem?-window_inside k o s d i ls ld a b =
    let piece = take k (drop o s) in
    let size = length-piece k o s ls in
    let at : o + (i - o) ≡ i = omega arith in
    sym (ap (get_elem? (window k o s d)) at)
    ∙ (get_elem?-write_at_inside d o piece (i - o) (omega (arith, size)) (omega (arith, size))
        ∙ (get_elem?-take k (drop o s) (i - o) (omega arith)
            ∙ (get_elem?-drop o s (i - o) ∙ ap (get_elem? s) at)))

get_elem?-window_after :
    (k o : ℕ) (s d : List ℕ) (i : ℕ)
    → o + k ≤ length s
    → o + k ≤ i
    → get_elem? (window k o s d) i ≡ get_elem? d i
get_elem?-window_after k o s d i ls a =
    get_elem?-write_at_after d o (take k (drop o s)) i (omega (arith, length-piece k o s ls))

-- Two windows that meet are one copy.
two_windows-same :
    (k n : ℕ) (s d : List ℕ)
    → k ≤ n
    → n ≤ k + k
    → n ≤ length s
    → n ≤ length d
    → two_windows k n s d ≡ window n 0 s d
unfolding two_windows
two_windows-same k n s d few many ls ld =
    let first = window k 0 s d in
    let size : length first ≡ length d = length-write_at d 0 (take k s) in
    list_ext (window k (n - k) s first) (window n 0 s d)
      (length-write_at first (n - k) (take k (drop (n - k) s))
        ∙ (size ∙ sym (length-write_at d 0 (take n s))))
      (λ i b. elim (dec_lt i n) [
        | no past ↦
            get_elem?-window_after k (n - k) s first i (omega arith) (omega arith)
            ∙ (get_elem?-window_after k 0 s d i (omega arith) (omega arith)
                ∙ sym (get_elem?-window_after n 0 s d i (omega arith) (omega arith)))
        | yes within ↦
            let whole =
              get_elem?-window_inside n 0 s d i (omega arith) (omega arith) (omega arith)
                (omega arith) in
            elim (dec_lt i (n - k)) [
              | yes low ↦
                  get_elem?-write_at_before first (n - k) (take k (drop (n - k) s)) i low
                  ∙ (get_elem?-window_inside k 0 s d i (omega arith) (omega arith) (omega arith)
                        (omega arith)
                      ∙ sym whole)
              | no high ↦
                  get_elem?-window_inside k (n - k) s first i (omega arith) (omega (arith, size))
                    (omega arith) (omega arith)
                  ∙ sym whole
            ]
      ])

copy_large-same :
    (d s : List ℕ) (n : ℕ)
    → 16 ≤ n
    → n ≤ length s
    → n ≤ length d
    → copy_large d s n ≡ window n 0 s d
unfolding copy_large
copy_large-same d s n l ls ld =
    let P : List ℕ → Type 0 = λ r. r ≡ window n 0 s d in
    if-cases P (leb n 32) _ _ (λ a. two_windows-same 16 n s d l (ground arith) ls ld)
      (λ a.
        if-cases P (leb n 64) _ _
          (λ b. two_windows-same 32 n s d (ground arith) (ground arith) ls ld)
          (λ b.
            if-cases P (leb n 128) _ _
              (λ c. two_windows-same 64 n s d (ground arith) (ground arith) ls ld)
              (λ c.
                if-cases P (leb n 256) _ _
                  (λ e. two_windows-same 128 n s d (ground arith) (ground arith) ls ld)
                  (λ e. refl))))

by_size : (s d : List ℕ) {m n : ℕ} → m ≡ n → window m 0 s d ≡ window n 0 s d
by_size s d e = ap (λ m. window m 0 s d) e

-- If the source has at least `n` bytes and the destination room for them, `CopySmall` of `n` bytes
-- is one copy: the first `n` bytes of the source over those of the destination, and no others.
pub copy_small-same :
    (d s : List ℕ) (n : ℕ)
    → n ≤ length s
    → n ≤ length d
    → copy_small d s n ≡ write_at d 0 (take n s)
unfolding copy_small
copy_small-same d s n ls ld =
    let P : List ℕ → Type 0 = λ r. r ≡ window n 0 s d in
    if-cases P (leb 16 n) _ _ (λ a. copy_large-same d s n (ground arith) ls ld)
      (λ a.
        if-cases P (leb 8 n) _ _ (λ b. two_windows-same 8 n s d (ground arith) (ground arith) ls ld)
          (λ b.
            if-cases P (leb 4 n) _ _
              (λ c. two_windows-same 4 n s d (ground arith) (ground arith) ls ld)
              (λ c.
                if-cases P (leb 2 n) _ _
                  (λ e. two_windows-same 2 n s d (ground arith) (ground arith) ls ld)
                  (λ e.
                    if-cases P (n == 1) _ _ (λ f. by_size s d {m = 1} (ground arith))
                      (λ f. sym (write_at-nil d 0) ∙ by_size s d {m = 0} (ground arith))))))
