-- ===== src/StreamContext/Plan.antt =====
-- A stream context under a conforming sender: what has arrived stands in the buffer where it
-- belongs, and the guarded block never refuses a chunk of the plan for its bounds or its place.
use native.Mathlib.Decide.{dec_lt}
use shm.Base.{
  ℕ, zero, suc, ◌+◌, ◌≤◌, ◌<◌, ◌≡◌, ◌≢◌, sym, ap, inl, inr, ◌∙◌, true, some, List, [], ◌∷◌, arith,
  length, get_elem?, Option-cases, ℕ_discrete,
}
use shm.Base.Bytes.{
  write_at, get_elem?-write_at_inside, get_elem?-write_at_before, get_elem?-write_at_after,
}
use shm.Base.Dict.{Dict, find, erase, Distinct, total, find-erase, Distinct-erase, total-erase}
use shm.Wire.{ChunkHeader}
use shm.StreamContext.{has_chunk, Placed, StreamContext}
use shm.StreamContext.Parts.{
  joined, offset_of, part, offset_of-suc, offset_of-length, offset_of-le, offset_of-lt,
  get_elem?-joined, position, list_ext,
}
use shm.StreamContext.Valid.{IsSettled, parked_bytes}

module _ (parts : List (List ℕ)) where
  -- The record of part `k` when it is parked.
  abbrev pub IsPlanned : Dict Placed → Type 0
  IsPlanned m =
      (k : ℕ) (p : Placed)
      → find k m ≡ some p
      → (p.dst_offset ≡ offset_of parts k) × (p.size ≡ length (part parts k))

  -- Part `k` stands in the buffer.
  abbrev pub Stands : List ℕ → ℕ → Type 0
  Stands buf k =
      (i : ℕ)
      → i < length (part parts k)
      → get_elem? buf (offset_of parts k + i) ≡ get_elem? (part parts k) i

  pub record Agrees (c : StreamContext) : Type 0 where
    pub whole : c.total_size ≡ length (joined parts)
    pub count : c.total_chunks ≡ length parts
    pub at_cursor : c.offset ≡ offset_of parts c.next
    pub planned : IsPlanned c.ooo
    pub filled : (k : ℕ) → has_chunk c k ≡ true → Stands c.buf k

  -- The header that a conforming sender puts before part `k`.
  pub record IsPart (h : ChunkHeader) : Type 0 where
    pub in_range : h.chunk_index < length parts
    pub sized : h.payload_size ≡ length (part parts h.chunk_index)
    pub at : h.dst_offset ≡ offset_of parts h.chunk_index

  -- A write of part `k` puts it there and leaves the other parts alone.
  pub Stands-write_at :
      (buf : List ℕ) (j k : ℕ)
      → j < length parts
      → k < length parts
      → length buf ≡ length (joined parts)
      → (j ≢ k → Stands buf j)
      → Stands (write_at buf (offset_of parts k) (part parts k)) j
  Stands-write_at buf j k hj hk l old i hi = elim (ℕ_discrete j k) [
    | yes e ↦ rw e (
        get_elem?-write_at_inside buf (offset_of parts k) (part parts k) i (rw (← e) hi)
          (omega (arith, offset_of-le parts k hk)))
    | no ne ↦ elim (dec_lt j k) [
      | yes before ↦
          get_elem?-write_at_before buf (offset_of parts k) (part parts k) (offset_of parts j + i)
            (omega (arith, offset_of-lt parts j k before hk))
          ∙ old ne i hi
      | no after ↦
          get_elem?-write_at_after buf (offset_of parts k) (part parts k) (offset_of parts j + i)
            (omega (arith, offset_of-lt parts k j (omega arith) hj))
          ∙ old ne i hi
    ]
  ]

  -- A full buffer under the plan is the stream.
  pub buf-eq_joined :
      {c : StreamContext} → IsSettled c → Agrees c → c.next ≡ c.total_chunks → c.buf ≡ joined parts
  buf-eq_joined {c} s a e = list_ext c.buf (joined parts) (s.valid.sized ∙ a.whole) λ i b.
      let p = position parts i b in
      rw (p.at) (
        a.filled p.index (ground (arith, p.in_range, a.count)) p.inner p.in_part
        ∙ sym (get_elem?-joined parts p.index p.inner p.in_part))

  -- At the end of the plan every byte is accounted for.
  pub offset-eq_total :
      {c : StreamContext} → Agrees c → c.next ≡ c.total_chunks → c.offset ≡ c.total_size
  offset-eq_total {c} a e =
      a.at_cursor ∙ (ap (offset_of parts) (e ∙ a.count) ∙ (offset_of-length parts ∙ sym a.whole))

  -- Distinct parked parts from `lo` on leave the stream its room.
  pub parked-room :
      (n lo : ℕ) (m : Dict Placed)
      → lo + n ≡ length parts
      → Distinct m
      → IsPlanned m
      → ((k : ℕ) (p : Placed) → find k m ≡ some p → (lo ≤ k) × (k < length parts))
      → offset_of parts lo + parked_bytes m ≤ length (joined parts)
  unfolding find total
  parked-room zero lo [] e d planned ahead =
      let e' : lo ≡ length parts = omega arith in rw e' (omega (arith, offset_of-length parts))
  parked-room zero lo ((k, p) ∷ m) e d planned ahead =
      absurd (omega (arith, ahead k p (ground arith)))
  parked-room (suc n) lo m e d planned ahead = elim (Option-cases (find lo m)) [
    | inl absent ↦ omega (
      arith,
      offset_of-suc parts lo (omega arith),
      parked-room n (suc lo) m (omega arith) d planned (λ k p f. ground (arith, ahead k p)),
    )
    | inr (q, present) ↦ omega (
      arith,
      offset_of-suc parts lo (omega arith),
      planned lo q present,
      total-erase (λ p. p.size) lo m d present,
      parked-room n (suc lo) (erase lo m) (omega arith) (Distinct-erase lo m d)
          (λ k p f. ground (arith, find-erase lo k m, planned k p))
          (λ k p f. ground (arith, find-erase lo k m, ahead k p)),
    )
  ]
