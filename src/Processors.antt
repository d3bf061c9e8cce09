-- ===== src/Processors.antt =====
-- include/shm/Platform.h: the lists of processors, `EnumerateCcxMasks` and `EnumerateSmtPairs`, which
-- read entries of different sizes from a buffer that the operating system fills. A read outside of the
-- buffer is `none`.
pub mod Reads
mod Tests
use shm.Base.{
  ℕ, zero, suc, ◌+◌, ◌-◌, ◌%◌, ◌^◌, Bool, true, false, not, ◌&&◌, Option, none, some, List, [], ◌∷◌,
  ◌++◌, leb, ◌==◌, if◌then◌else◌, length, drop,
}
use Prim.Native.Nat.{bit_and}
use shm.Base.Bytes.{decode_le}

-- A number of `n` bytes at an offset of the buffer.
unfoldable pub read : List ℕ → ℕ → ℕ → Option ℕ
read buf off n = if leb (off + n) (length buf) then some (decode_le n (drop off buf)) else none

-- What a read is followed by.
abbrev pub reads : {A : Type 0} → Option ℕ → (ℕ → Option A) → Option A
reads none f = none
reads (some x) f = f x

-- The entries of an entry that was read, before those of the entries behind it.
abbrev pub joins : {A : Type 0} → List A → Option (List A) → Option (List A)
joins xs none = none
joins xs (some ys) = some (xs ++ ys)

abbrev pub collects : {A : Type 0} → Option (List A) → Option (List A) → Option (List A)
collects none rest = none
collects (some xs) rest = joins xs rest

-- The loop over the entries from `off` on: each has its kind and its size in front, and `entry` makes
-- of them and of the offset what it yields. An entry of size 0 ends the loop.
unfoldable pub walk :
    {A : Type 0} → (ℕ → ℕ → ℕ → Option (List A)) → List ℕ → ℕ → ℕ → ℕ → Option (List A)
walk entry buf need zero off = none
walk entry buf need (suc fuel) off =
    if leb (off + 8) need
    then reads (read buf off 4) (λ rel. reads (read buf (off + 4) 4) (λ size.
      let rest = walk entry buf need fuel (off + size) in
      if size == 0 then some [] else collects (entry rel size off) rest))
    else some []

-- `RelationCache` and `RelationProcessorCore`
abbrev pub relation_cache : ℕ
relation_cache = 2

abbrev pub relation_processor_core : ℕ
relation_processor_core = 0

-- The mask of an L3 cache that is unified and of one group.
unfoldable pub ccx_entry : List ℕ → ℕ → ℕ → ℕ → ℕ → Option (List ℕ)
unfolding read
ccx_entry buf need rel size off =
    if (rel == relation_cache) && (leb 56 size && leb (off + size) need)
    then reads (read buf (off + 8) 1) (λ level. reads (read buf (off + 16) 4) (λ cache_type.
      reads (read buf (off + 38) 2) (λ group_count.
        if (level == 3) && ((cache_type == 0) && (group_count == 1))
        then reads (read buf (off + 40) 8)
            (λ mask. some (if not (mask == 0) then mask ∷ [] else []))
        else some [])))
    else some []

pub record SmtPair : Type 0 where
  pub host : ℕ
  pub guest : ℕ

-- The bits of a mask, of which no more than `k` are counted.
unfoldable pub count_bits : ℕ → ℕ → ℕ
count_bits zero m = 0
count_bits (suc k) m = let rest = count_bits k (bit_and m (m - 1)) in if m == 0 then 0 else suc rest

-- The two bits of a mask: its lowest one, and the rest.
abbrev pub pair_of : ℕ → SmtPair
pair_of mask =
    let host = bit_and mask ((2 ^ 64 - mask) % 2 ^ 64) in
    record { host = host; guest = bit_and mask (2 ^ 64 - 1 - host) }

-- The pair of a core with exactly two logical processors in one group.
unfoldable pub smt_entry : List ℕ → ℕ → ℕ → ℕ → ℕ → Option (List SmtPair)
unfolding read count_bits
smt_entry buf need rel size off =
    if (rel == relation_processor_core) && (leb 48 size && leb (off + size) need)
    then reads (read buf (off + 8) 1) (λ flags. reads (read buf (off + 30) 2) (λ group_count.
      if not (flags % 2 == 0) && (group_count == 1)
      then reads (read buf (off + 32) 8)
          (λ mask. some (if count_bits 3 mask == 2 then pair_of mask ∷ [] else []))
      else some []))
    else some []

-- What the operating system answers: `none` if it has nothing or fails, or a buffer and how many of its
-- bytes were needed.
pub record Reply : Type 0 where
  pub buffer : List ℕ
  pub need : ℕ

-- `EnumerateCcxMasks`, with fuel for each byte.
abbrev pub enumerate_ccx_masks : Option Reply → Option (List ℕ)
enumerate_ccx_masks none = some []
enumerate_ccx_masks (some r) = walk (ccx_entry r.buffer r.need) r.buffer r.need (suc r.need) 0

-- `EnumerateSmtPairs`, with fuel for each byte.
abbrev pub enumerate_smt_pairs : Option Reply → Option (List SmtPair)
enumerate_smt_pairs none = some []
enumerate_smt_pairs (some r) = walk (smt_entry r.buffer r.need) r.buffer r.need (suc r.need) 0
