-- ===== src/StreamContext/Place.antt =====
-- The guarded block of a chunk: no copy leaves the buffer, no counter wraps, the drain ends; and the
-- rule by which an invariant of the bookkeeping passes through it.
use shm.Base.{
  ℕ, suc, ◌+◌, ◌^◌, ◌≤◌, ◌<◌, ◌∙◌, add64, ◌≡◌, ◌⊎◌, inl, inr, Bool, true, none, some, List, [], ◌∷◌,
  arith, leb, length, Bool-cases, ◌==◌,
}
use shm.Base.Bytes.{memcpy_to, write_at, write_at-nil, length-write_at}
use shm.Base.Dict.{find, emplace, total, emplace-fresh, length-erase-le}
use shm.Wire.{ChunkHeader}
use shm.StreamContext.{
  Placed, StreamContext, fits, in_bounds, write, account_in_order, note_placed, unpark, park,
  advance, place,
}
use shm.StreamContext.Valid.{IsValid, IsSettled, SameStream, Ensures, drain_inv}

-- The context once the payload is in the buffer, and once its index is parked too.
abbrev pub written : StreamContext → ChunkHeader → List ℕ → StreamContext
written c h payload = record c { buf = write_at c.buf h.dst_offset payload }

abbrev pub parked : StreamContext → ChunkHeader → StreamContext
parked c h = record c {
  ooo = emplace h.chunk_index (record { dst_offset = h.dst_offset; size = h.payload_size }) c.ooo;
  ooo_bytes = add64 c.ooo_bytes h.payload_size;
}

-- A chunk that `Handle` lets through to the guarded block: its index is in range and new.
pub record IsNew (c : StreamContext) (h : ChunkHeader) (payload : List ℕ) : Type 0 where
  pub carried : length payload ≡ h.payload_size
  pub wide : h.payload_size < 2 ^ 32
  pub in_range : h.chunk_index < c.total_chunks
  pub beyond : c.next ≤ h.chunk_index
  pub unparked : find h.chunk_index c.ooo ≡ none

note_placed-cases :
    (allocates : Bool) (c : StreamContext) (h : ChunkHeader) (max_parked : ℕ)
    → (note_placed allocates c h.chunk_index
          (record { dst_offset = h.dst_offset; size = h.payload_size })
          max_parked
        ≡ none)
      ⊎ ((note_placed allocates c h.chunk_index
              (record { dst_offset = h.dst_offset; size = h.payload_size })
              max_parked
            ≡ some (parked c h))
          × (length c.ooo < max_parked))
unfolding note_placed
note_placed-cases allocates c h max_parked = elim (Bool-cases (leb max_parked (length c.ooo))) [
  | inl full ↦ inl (rw full)
  | inr room ↦ elim (Bool-cases allocates) [
    | inl fine ↦ inr (rw (room, fine), ground arith)
    | inr thrown ↦ inl (rw (room, thrown))
  ]
]

-- A copy that stays inside the buffer is made whole.
write-fits :
    (c : StreamContext) (o : ℕ) (payload : List ℕ)
    → o + length payload ≤ length c.buf
    → write c o payload ≡ some (write_at c.buf o payload)
unfolding write memcpy_to
write-fits c o [] l = rw (write_at-nil c.buf o)
write-fits c o (x ∷ xs) l = ground arith

module _ {c : StreamContext} {h : ChunkHeader} {payload : List ℕ} (s : IsSettled c)
    (n : IsNew c h payload) where
  guards-true :
      fits c h.payload_size ≡ true
      → in_bounds c h.dst_offset h.payload_size ≡ true
      → (c.offset + c.ooo_bytes + h.payload_size ≤ c.total_size)
        × (h.dst_offset + h.payload_size ≤ c.total_size)
  unfolding fits in_bounds
  guards-true f b = ground (arith, s, n)

  -- The copy stays inside the buffer.
  pub write-in_bounds :
      in_bounds c h.dst_offset h.payload_size ≡ true
      → write c h.dst_offset payload ≡ some (write_at c.buf h.dst_offset payload)
  unfolding in_bounds
  write-in_bounds b = write-fits c h.dst_offset payload (ground (arith, s, n))

  written-IsValid : IsValid (written c h payload)
  written-IsValid = record {
    sized = length-write_at c.buf h.dst_offset payload ∙ s.valid.sized;
    small = s.valid.small;
    short = s.valid.short;
    behind = s.valid.behind;
    room = s.valid.room;
    counted = s.valid.counted;
    distinct = s.valid.distinct;
    ahead = s.valid.ahead;
  }

  pub account-IsValid :
      h.chunk_index ≡ c.next
      → c.offset + c.ooo_bytes + h.payload_size ≤ c.total_size
      → IsValid (account_in_order (written c h payload) h.payload_size)
  unfolding account_in_order
  account-IsValid e r = record {
    sized = w.sized;
    small = w.small;
    short = w.short;
    behind = omega (arith, w, n);
    room = omega (arith, w, n);
    counted = w.counted;
    distinct = w.distinct;
    ahead = λ k q f. ground (arith, w.short, n.in_range, s.drained, w.ahead k q f);
  }
    where
      w : IsValid (written c h payload)
      w = written-IsValid

  parked-IsSettled :
      c.next < h.chunk_index
      → c.offset + c.ooo_bytes + h.payload_size ≤ c.total_size
      → IsSettled (parked (written c h payload) h)
  unfolding find total
  parked-IsSettled e r = rw (emplace-fresh h.chunk_index p c.ooo n.unparked) (record {
    valid = record {
      sized = w.sized;
      small = w.small;
      short = w.short;
      behind = w.behind;
      room = omega (arith, w, n);
      counted = omega (arith, w, n);
      distinct = (n.unparked, w.distinct);
      ahead = λ k q f. ground (arith, n.in_range, n.beyond, w.ahead k q);
    };
    drained = ground (arith, s.drained);
  })
    where
      w : IsValid (written c h payload)
      w = written-IsValid

      p : Placed
      p = record { dst_offset = h.dst_offset; size = h.payload_size }

  module _ (P : StreamContext → Type 0) where
    advance_inv :
        ((d : StreamContext) (p : Placed)
          → IsValid d
          → P d
          → find d.next d.ooo ≡ some p
          → p.dst_offset ≡ d.offset
          → P (account_in_order (unpark d p) p.size))
        → (h.dst_offset ≡ c.offset → P (account_in_order (written c h payload) h.payload_size))
        → h.chunk_index ≡ c.next
        → c.offset + c.ooo_bytes + h.payload_size ≤ c.total_size
        → Ensures (λ d. IsSettled d × P d) (advance (written c h payload) h)
    unfolding advance account_in_order
    advance_inv round first e l = elim (Bool-cases (h.dst_offset == c.offset)) [
      | inl at ↦ rw at (
          drain_inv P round (suc (length c.ooo))
            (account_in_order (written c h payload) h.payload_size) (omega arith)
            (account-IsValid e l) (first (ground arith)))
      | inr off ↦ rw off tt
    ]

    park_inv :
        (allocates : Bool) (max_parked : ℕ)
        → (length c.ooo < max_parked → P (parked (written c h payload) h))
        → c.next < h.chunk_index
        → c.offset + c.ooo_bytes + h.payload_size ≤ c.total_size
        → Ensures (λ d. IsSettled d × P d) (park allocates max_parked (written c h payload) h)
    unfolding park
    park_inv allocates max_parked aside e l =
        elim (note_placed-cases allocates (written c h payload) h max_parked) [
          | inl dropped ↦ rw (dropped, park) tt
          | inr (stored, below) ↦ rw (stored, park) (parked-IsSettled e l, aside below)
        ]

    -- The rule for the guarded block: what holds after the copy and the first bookkeeping, and what
    -- each round of the drain keeps, holds of the context that is kept.
    pub place_inv :
        (allocates : Bool) (max_parked : ℕ)
        → ((d : StreamContext) (p : Placed)
            → IsValid d
            → P d
            → find d.next d.ooo ≡ some p
            → p.dst_offset ≡ d.offset
            → P (account_in_order (unpark d p) p.size))
        → (h.chunk_index ≡ c.next
            → h.dst_offset ≡ c.offset
            → h.dst_offset + h.payload_size ≤ c.total_size
            → P (account_in_order (written c h payload) h.payload_size))
        → (c.next < h.chunk_index
            → h.dst_offset + h.payload_size ≤ c.total_size
            → length c.ooo < max_parked
            → P (parked (written c h payload) h))
        → Ensures (λ d. IsSettled d × P d) (place allocates max_parked c h payload)
    unfolding place
    place_inv allocates max_parked round first aside = elim (Bool-cases (fits c h.payload_size)) [
      | inr bad ↦ rw bad tt
      | inl f ↦ elim (Bool-cases (in_bounds c h.dst_offset h.payload_size)) [
        | inr bad ↦ rw (f, bad) tt
        | inl b ↦
            let (l, r) = guards-true f b in
            rw (f, b, write-in_bounds b)
              (elim (Bool-cases (h.chunk_index == c.next)) [
                | inl here ↦
                    let e : h.chunk_index ≡ c.next = ground arith in
                    rw here (advance_inv round (λ o. first e o r) e l)
                | inr there ↦
                    let e : c.next < h.chunk_index = ground (arith, n.beyond) in
                    rw there (park_inv allocates max_parked (λ q. aside e r q) e l)
              ])
      ]
    ]

  -- A chunk leaves what identifies its stream alone, and parks no more indices than it may.
  pub place-IsSettled :
      (allocates : Bool) (max_parked : ℕ)
      → length c.ooo ≤ max_parked
      → Ensures
          (λ d. IsSettled d × (SameStream c d × (length d.ooo ≤ max_parked)))
          (place allocates max_parked c h payload)
  unfolding account_in_order
  place-IsSettled allocates max_parked l =
      place_inv (λ d. SameStream c d × (length d.ooo ≤ max_parked)) allocates max_parked
        (λ d p v q e o. ground (arith, length-erase-le d.next d.ooo)) (λ e o r. ground arith)
        (λ e r q. ground (
          arith,
          emplace-fresh h.chunk_index (record { dst_offset = h.dst_offset; size = h.payload_size })
              c.ooo n.unparked,
        ))
