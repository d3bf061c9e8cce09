-- ===== src/StreamContext/Valid.antt =====
-- The invariant of a stream in flight, and that the guarded block keeps it: no write leaves the
-- buffer, no counter wraps, the drain ends.
use shm.Base.{
  ℕ, zero, suc, ◌+◌, ◌^◌, ◌≤◌, ◌<◌, ◌≡◌, inl, inr, none, some, arith, length, Bool-cases,
  Option-cases, ◌==◌,
}
use shm.Base.Dict.{
  Dict, find, erase, Distinct, total, find-erase, length-erase-lt, Distinct-erase, total-erase,
}
use shm.StreamContext.{
  Placed, StreamContext, Placement, kept, corrupt, overruns, spins, account_in_order, unpark, drain,
}

-- The payload of the parked indices together.
abbrev pub parked_bytes : Dict Placed → ℕ
parked_bytes = total (λ p. p.size)

pub record IsValid (c : StreamContext) : Type 0 where
  pub sized : length c.buf ≡ c.total_size
  pub small : c.total_size ≤ 2 ^ 30
  pub short : c.total_chunks < 2 ^ 32
  pub behind : c.next ≤ c.total_chunks
  pub room : c.offset + c.ooo_bytes ≤ c.total_size
  pub counted : c.ooo_bytes ≡ parked_bytes c.ooo
  pub distinct : Distinct c.ooo
  pub ahead : (k : ℕ) (p : Placed) → find k c.ooo ≡ some p → (c.next ≤ k) × (k < c.total_chunks)

-- The cursor has caught up with all that it can reach.
pub record IsSettled (c : StreamContext) : Type 0 where
  pub valid : IsValid c
  pub drained : find c.next c.ooo ≡ none

-- What a chunk leaves alone.
pub record SameStream (c d : StreamContext) : Type 0 where
  pub total_size : d.total_size ≡ c.total_size
  pub total_chunks : d.total_chunks ≡ c.total_chunks
  pub app_msg_type : d.app_msg_type ≡ c.app_msg_type
  pub start_time : d.start_time ≡ c.start_time

-- A placement is no overrun and no endless loop, and what is kept has the property.
abbrev pub Ensures : (StreamContext → Type 0) → Placement → Type 0
Ensures P (kept c) = P c
Ensures P corrupt = Unit
Ensures P overruns = ⊥
Ensures P spins = ⊥

pub Ensures-map :
    {P Q : StreamContext → Type 0}
    → ((c : StreamContext) → P c → Q c)
    → (p : Placement) → Ensures P p
    → Ensures Q p
Ensures-map f (kept c) h = f c h
Ensures-map f corrupt h = h
Ensures-map f overruns h = h
Ensures-map f spins h = h

-- One round of the drain keeps the invariant.
pub unpark-IsValid :
    (c : StreamContext) (p : Placed)
    → IsValid c
    → find c.next c.ooo ≡ some p
    → IsValid (account_in_order (unpark c p) p.size)
unfolding account_in_order
unpark-IsValid c p v h = record {
  sized = v.sized;
  small = v.small;
  short = v.short;
  behind = omega (arith, v.ahead c.next p h, v.short);
  room = omega (arith, less);
  counted = omega (arith, less);
  distinct = Distinct-erase c.next c.ooo v.distinct;
  ahead = λ k q f. ground (arith, find-erase c.next k c.ooo, v.ahead k q, v.ahead c.next p h);
}
  where
    less : parked_bytes (erase c.next c.ooo) + p.size ≡ parked_bytes c.ooo
    less = total-erase (λ p. p.size) c.next c.ooo v.distinct h

-- The rule for the drain: what each round keeps holds at its end, where the cursor waits for an
-- index that has not come.
pub drain_inv :
    (P : StreamContext → Type 0)
    → ((c : StreamContext) (p : Placed)
        → IsValid c
        → P c
        → find c.next c.ooo ≡ some p
        → p.dst_offset ≡ c.offset
        → P (account_in_order (unpark c p) p.size))
    → (fuel : ℕ) (c : StreamContext) → length c.ooo < fuel
    → IsValid c
    → P c
    → Ensures (λ d. IsSettled d × P d) (drain fuel c)
unfolding drain
drain_inv P keep zero c l v h = absurd (omega arith)
drain_inv P keep (suc fuel) c l v h = elim (Option-cases (find c.next c.ooo)) [
  | inl e ↦ rw (e, drain) (record { valid = v; drained = e }, h)
  | inr (p, e) ↦ elim (Bool-cases (p.dst_offset == c.offset)) [
    | inl at ↦
        rw (e, drain, at)
          (drain_inv P keep fuel (account_in_order (unpark c p) p.size)
            (omega (arith, length-erase-lt c.next c.ooo e)) (unpark-IsValid c p v e)
            (keep c p v h e (ground arith)))
    | inr off ↦ rw (e, drain, off) tt
  ]
]
