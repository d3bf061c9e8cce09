-- ===== src/StreamContext/Arrive.antt =====
-- One chunk of a conforming sender arrives: it is added to what stands in the buffer, and it is
-- refused only for want of room to park it.
use shm.Base.{
  ℕ, zero, suc, ◌+◌, ◌≤◌, ◌<◌, ◌≡◌, ◌≢◌, sym, ap, ◌⊎◌, inl, inr, ◌∙◌, Bool, true, ◌||◌, some, List,
  ◌∷◌, arith, length, Bool-cases, Option-cases, ◌==◌, add64, add32, ◌-◌,
}
use shm.Base.Bytes.{write_at}
use shm.Base.Dict.{find, total, find-erase, emplace-fresh}
use shm.Wire.{ChunkHeader}
use shm.StreamContext.{
  has_chunk, Placed, StreamContext, corrupt, fits, in_bounds, account_in_order, note_placed, unpark,
  drain, park, advance, place,
}
use shm.StreamContext.Parts.{offset_of, part, offset_of-suc, offset_of-le}
use shm.StreamContext.Valid.{IsValid, IsSettled, SameStream, unpark-IsValid, Ensures}
use shm.StreamContext.Place.{written, parked, IsNew, write-in_bounds, account-IsValid, place_inv}
use shm.StreamContext.Plan.{Stands, Agrees, IsPart, Stands-write_at, parked-room}

-- What the arrival of index `k` makes of `c`: nothing is lost, `k` is added, no other index is.
pub record Arrived (parts : List (List ℕ)) (c : StreamContext) (k : ℕ) (d : StreamContext)
    : Type 0 where
  pub agrees : Agrees parts d
  pub adds : (j : ℕ) → has_chunk d j ≡ (has_chunk c j || (j == k))
  pub same : SameStream c d

has_chunk-lt : {c : StreamContext} → IsValid c → (j : ℕ) → has_chunk c j ≡ true → j < c.total_chunks
has_chunk-lt {c} v j h = elim (Option-cases (find j c.ooo)) [
  | inl e ↦ ground (arith, v.behind)
  | inr (p, e) ↦ ground (arith, v.ahead j p e)
]

-- Accounting for the part at the cursor moves the cursor to the next part.
cursor_suc :
    (parts : List (List ℕ)) (d : StreamContext) (n : ℕ)
    → IsValid d
    → Agrees parts d
    → d.next < d.total_chunks
    → n ≡ length (part parts d.next)
    → add64 d.offset n ≡ offset_of parts (add32 d.next 1)
cursor_suc parts d n v a l e =
    let next : add32 d.next 1 ≡ suc d.next = omega (arith, v) in
    rw next (
      omega (
        arith,
        e,
        v,
        a.count,
        a.whole,
        a.at_cursor,
        offset_of-suc parts d.next (omega (arith, a.count)),
        offset_of-le parts d.next (omega (arith, a.count)),
      ))

module _ (parts : List (List ℕ)) {c : StreamContext} (k : ℕ) where
  -- A round of the drain moves an index from parked to assembled.
  unpark-Arrived :
      (d : StreamContext) (p : Placed)
      → IsValid d
      → Arrived parts c k d
      → find d.next d.ooo ≡ some p
      → p.dst_offset ≡ d.offset
      → Arrived parts c k (account_in_order (unpark d p) p.size)
  unfolding account_in_order
  unpark-Arrived d p v a f e = record {
    agrees = record {
      whole = a.agrees.whole;
      count = a.agrees.count;
      at_cursor =
          cursor_suc parts d p.size v a.agrees (v.ahead d.next p f).1
            (a.agrees.planned d.next p f).1;
      planned = λ j q g. ground (arith, find-erase d.next j d.ooo, a.agrees.planned j q);
      filled = λ j h. a.agrees.filled j (sym (has j) ∙ h);
    };
    adds = λ j. has j ∙ a.adds j;
    same = ground (arith, a.same);
  }
    where
      has : (j : ℕ) → has_chunk (account_in_order (unpark d p) p.size) j ≡ has_chunk d j
      has j = ground (arith, find-erase d.next j d.ooo, v.ahead d.next p f, v.short)

module _ (parts : List (List ℕ)) {c : StreamContext} {h : ChunkHeader} (s : IsSettled c)
    (a : Agrees parts c) (n : IsNew c h (part parts h.chunk_index)) (q : IsPart parts h) where
  abbrev filled_buf : List ℕ
  filled_buf = write_at c.buf h.dst_offset (part parts h.chunk_index)

  -- After the copy part `h.chunk_index` stands, and so do the parts that stood before.
  Stands-filled_buf :
      (j : ℕ) → (has_chunk c j || (j == h.chunk_index)) ≡ true → Stands parts filled_buf j
  Stands-filled_buf j e = rw (q.at) (
      Stands-write_at parts c.buf j h.chunk_index
        (ground (arith, q.in_range, a.count, has_chunk-lt s.valid j)) q.in_range
        (s.valid.sized ∙ a.whole) (λ ne. a.filled j (ground arith)))

  first-Arrived :
      h.chunk_index ≡ c.next
      → Arrived parts c h.chunk_index
          (account_in_order (written c h (part parts h.chunk_index)) h.payload_size)
  unfolding account_in_order
  first-Arrived e = record {
    agrees = record {
      whole = a.whole;
      count = a.count;
      at_cursor =
          cursor_suc parts c h.payload_size s.valid a (omega (arith, e, n.in_range))
            (rw (← e) q.sized);
      planned = a.planned;
      filled = λ j b. Stands-filled_buf j (sym (has j) ∙ b);
    };
    adds = has;
    same = ground arith;
  }
    where
      has :
          (j : ℕ)
          → has_chunk (account_in_order (written c h (part parts h.chunk_index)) h.payload_size) j
            ≡ (has_chunk c j || (j == h.chunk_index))
      has j = ground (arith, s.valid.short, n.in_range)

  aside-Arrived :
      c.next < h.chunk_index
      → Arrived parts c h.chunk_index (parked (written c h (part parts h.chunk_index)) h)
  unfolding find
  aside-Arrived e = rw (emplace-fresh h.chunk_index p c.ooo n.unparked) (record {
    agrees = record {
      whole = a.whole;
      count = a.count;
      at_cursor = a.at_cursor;
      planned = λ j r f. ground (arith, a.planned j r, q.at, q.sized);
      filled = λ j b. Stands-filled_buf j (sym (has j) ∙ b);
    };
    adds = has;
    same = ground arith;
  })
    where
      p : Placed
      p = record { dst_offset = h.dst_offset; size = h.payload_size }

      has :
          (j : ℕ)
          → has_chunk (record c { ooo = (h.chunk_index, p) ∷ c.ooo }) j
            ≡ (has_chunk c j || (j == h.chunk_index))
      has j = ground (arith, n.unparked)

  -- A chunk of the plan is added to what stands, in whatever order it comes, if it is kept at all.
  pub place-Arrived :
      (allocates : Bool) (max_parked : ℕ)
      → Ensures
          (λ d. IsSettled d × Arrived parts c h.chunk_index d)
          (place allocates max_parked c h (part parts h.chunk_index))
  place-Arrived allocates max_parked =
      place_inv s n (Arrived parts c h.chunk_index) allocates max_parked
        (unpark-Arrived parts h.chunk_index) (λ e o r. first-Arrived e) (λ e r l. aside-Arrived e)

  room-planned : c.offset + c.ooo_bytes + h.payload_size ≤ c.total_size
  unfolding find total
  room-planned = omega (
    arith,
    a.at_cursor,
    a.whole,
    s.valid.counted,
    parked-room parts (length parts - c.next) c.next ((h.chunk_index, p) ∷ c.ooo)
        (omega (arith, s.valid.behind, a.count)) (n.unparked, s.valid.distinct)
        (λ j r f. ground (arith, a.planned j r, q.at, q.sized))
        (λ j r f. ground (arith, s.valid.ahead j r, n.beyond, q.in_range, a.count)),
  )
    where
      p : Placed
      p = record { dst_offset = h.dst_offset; size = h.payload_size }

  fits-planned : fits c h.payload_size ≡ true
  unfolding fits
  fits-planned = ground (arith, s.valid, room-planned)

  in_bounds-planned : in_bounds c h.dst_offset h.payload_size ≡ true
  unfolding in_bounds
  in_bounds-planned =
      ground (arith, q.at, q.sized, a.whole, offset_of-le parts h.chunk_index q.in_range)

  drain-ne-corrupt :
      (fuel : ℕ) (d : StreamContext)
      → IsValid d
      → Arrived parts c h.chunk_index d
      → drain fuel d ≢ corrupt
  unfolding drain
  drain-ne-corrupt zero d v r = λ e. cc
  drain-ne-corrupt (suc fuel) d v r = elim (Option-cases (find d.next d.ooo)) [
    | inl e ↦ rw (e, drain) (λ x. cc)
    | inr (p, e) ↦
        let at : p.dst_offset ≡ d.offset =
          (r.agrees.planned d.next p e).0 ∙ sym (r.agrees.at_cursor) in
        let same : (p.dst_offset == d.offset) ≡ true = ground arith in
        rw (e, drain, same)
          (drain-ne-corrupt fuel (account_in_order (unpark d p) p.size) (unpark-IsValid d p v e)
            (unpark-Arrived parts h.chunk_index d p v r e at))
  ]

  -- It is kept if it is the chunk at the cursor, or if there is room and memory to park it.
  pub place-ne-corrupt :
      (allocates : Bool) (max_parked : ℕ)
      → ((h.chunk_index ≡ c.next) ⊎ ((length c.ooo < max_parked) × (allocates ≡ true)))
      → place allocates max_parked c h (part parts h.chunk_index) ≢ corrupt
  unfolding place advance park note_placed account_in_order
  place-ne-corrupt allocates max_parked room =
      rw (fits-planned, in_bounds-planned, write-in_bounds s n in_bounds-planned)
        (elim (Bool-cases (h.chunk_index == c.next)) [
          | inl here ↦
              let e : h.chunk_index ≡ c.next = ground arith in
              let at : (h.dst_offset == c.offset) ≡ true =
                let o : h.dst_offset ≡ c.offset =
                  q.at ∙ (ap (offset_of parts) e ∙ sym a.at_cursor) in
                ground arith in
              rw (here, at)
                (drain-ne-corrupt (suc (length c.ooo))
                  (account_in_order (written c h (part parts h.chunk_index)) h.payload_size)
                  (account-IsValid s n e room-planned) (first-Arrived e))
          | inr there ↦
              rw there
                (elim room [ inl e ↦ absurd (ground arith) | inr (l, al) ↦ λ x. ground arith ])
        ])
