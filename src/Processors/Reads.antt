-- ===== src/Processors/Reads.antt =====
-- The lists of processors are read within the buffer, whatever the operating system puts there.
use shm.Base.{
  ℕ, zero, suc, ◌+◌, ◌≤◌, ◌≢◌, ◌%◌, refl, not, ◌&&◌, Option, none, some, List, arith, leb, ◌==◌,
  if-cases, length,
}
use shm.Processors.{
  read, reads, collects, walk, relation_cache, relation_processor_core, ccx_entry, smt_entry, Reply,
  enumerate_ccx_masks, enumerate_smt_pairs,
}

reads-returns :
    {A : Type 0} (buf : List ℕ) (off n : ℕ) (f : ℕ → Option A)
    → off + n ≤ length buf
    → ((x : ℕ) → f x ≢ none)
    → reads (read buf off n) f ≢ none
unfolding read
reads-returns buf off n f l h =
    if-cases (λ o. reads o f ≢ none) (leb (off + n) (length buf)) _ none (λ t. h _)
      (λ t. absurd (ground (arith, l, t)))

collects-returns :
    {A : Type 0} (o rest : Option (List A)) → o ≢ none → rest ≢ none → collects o rest ≢ none
collects-returns none rest h k = λ q. h refl
collects-returns (some xs) none h k = λ q. k refl
collects-returns (some xs) (some ys) h k = λ q. cc

-- A walk reads within the buffer and ends, if its entries are read within it.
walk-returns :
    {A : Type 0} (entry : ℕ → ℕ → ℕ → Option (List A)) (buf : List ℕ) (need fuel off : ℕ)
    → need ≤ length buf
    → ((rel size o : ℕ) → entry rel size o ≢ none)
    → need ≤ off + fuel
    → walk entry buf need (suc fuel) off ≢ none
unfolding walk
walk-returns entry buf need zero off l h k =
    if-cases (λ o. o ≢ none) (leb (off + 8) need) _ _ (λ more. absurd (ground (arith, more, k)))
      (λ t q. cc)
walk-returns entry buf need (suc fuel) off l h k =
    if-cases (λ o. o ≢ none) (leb (off + 8) need) _ _
      (λ more.
        let room : off + 8 ≤ need = ground (arith, more) in
        reads-returns buf off 4 _ (omega arith) (λ rel.
          reads-returns buf (off + 4) 4 _ (omega arith) (λ size.
            if-cases (λ o. o ≢ none) (size == 0) _ _ (λ t q. cc)
              (λ t.
                collects-returns (entry rel size off) _ (h rel size off)
                  (walk-returns entry buf need fuel (off + size) l h (ground (arith, t, k)))))))
      (λ t q. cc)

ccx_entry-returns :
    (buf : List ℕ) (need rel size off : ℕ)
    → need ≤ length buf
    → ccx_entry buf need rel size off ≢ none
unfolding ccx_entry
ccx_entry-returns buf need rel size off l =
    if-cases (λ o. o ≢ none) ((rel == relation_cache) && (leb 56 size && leb (off + size) need)) _ _
      (λ whole.
        let room : off + 56 ≤ length buf = ground (arith, whole, l) in
        reads-returns buf (off + 8) 1 _ (omega arith) (λ level.
          reads-returns buf (off + 16) 4 _ (omega arith) (λ cache_type.
            reads-returns buf (off + 38) 2 _ (omega arith) (λ group_count.
              if-cases (λ o. o ≢ none) ((level == 3) && ((cache_type == 0) && (group_count == 1))) _
                _ (λ t. reads-returns buf (off + 40) 8 _ (omega arith) (λ mask q. cc))
                (λ t q. cc)))))
      (λ t q. cc)

smt_entry-returns :
    (buf : List ℕ) (need rel size off : ℕ)
    → need ≤ length buf
    → smt_entry buf need rel size off ≢ none
unfolding smt_entry
smt_entry-returns buf need rel size off l =
    if-cases (λ o. o ≢ none)
      ((rel == relation_processor_core) && (leb 48 size && leb (off + size) need)) _ _
      (λ whole.
        let room : off + 48 ≤ length buf = ground (arith, whole, l) in
        reads-returns buf (off + 8) 1 _ (omega arith) (λ flags.
          reads-returns buf (off + 30) 2 _ (omega arith) (λ group_count.
            if-cases (λ o. o ≢ none) (not (flags % 2 == 0) && (group_count == 1)) _ _
              (λ t. reads-returns buf (off + 32) 8 _ (omega arith) (λ mask q. cc)) (λ t q. cc))))
      (λ t q. cc)

-- Whatever bytes the operating system puts into its buffer, if it needs no more than the buffer has,
-- `EnumerateCcxMasks` and `EnumerateSmtPairs` read within it, and end.
pub enumerations-return :
    (r : Reply)
    → r.need ≤ length r.buffer
    → (enumerate_ccx_masks (some r) ≢ none) × (enumerate_smt_pairs (some r) ≢ none)
enumerations-return r l = (
  walk-returns (ccx_entry r.buffer r.need) r.buffer r.need r.need 0 l
      (λ rel size off. ccx_entry-returns r.buffer r.need rel size off l) (omega arith),
  walk-returns (smt_entry r.buffer r.need) r.buffer r.need r.need 0 l
      (λ rel size off. smt_entry-returns r.buffer r.need rel size off l) (omega arith),
)
