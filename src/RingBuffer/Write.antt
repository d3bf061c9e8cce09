-- ===== src/RingBuffer/Write.antt =====
-- `Write` puts the whole source into the ring, however it is cut by the guest's progress.
use mathlib.Core.List.{append-nil, append_assoc}
use shm.Base.{
  ℕ, zero, suc, ◌+◌, ◌-◌, ◌^◌, ◌≤◌, ◌<◌, ◌≡◌, ◌≢◌, refl, ap, Bool, true, false, Option, none, some,
  List, [], ◌∷◌, ◌++◌, arith, length, take, drop, ltb, leb, length-take, length-drop, length-append,
  take-append-drop, if-cases,
}
use shm.WaitStrategy.Laws.{Returns}
use shm.Slot.Exchange.{buffer_too_small, invalid_args}
use shm.RingBuffer.{
  Ring, Reader, RingResult, refused, returned, spins, Sender, returns_ring, write, init_ring, usage,
  to_write, put, observe, write_loop, ring_header_size,
}
use shm.RingBuffer.Stream.{Holds, IsReader, observe-Holds, put-Holds}

nothing_left :
    {r : Ring} (sent src : List ℕ) → length src ≡ 0 → Holds sent r → Holds (sent ++ src) r
nothing_left sent [] z h = rw append-nil h
nothing_left sent (x ∷ xs) z h = absurd (omega arith)

module _ {reader : Reader} (i : IsReader reader) where
  -- The loop, when it ends, has appended the source to what was sent.
  write_loop-Holds :
      (t fuel : ℕ) (r : Ring) (sent src : List ℕ)
      → Holds sent r
      → length sent + length src < 2 ^ 64
      → Returns (Holds (sent ++ src)) (write_loop reader t fuel r src)
  unfolding write_loop
  write_loop-Holds t zero r sent src h wide =
      if-cases (Returns (Holds (sent ++ src))) (ltb 0 (length src)) none (some r) (λ more. tt)
        (λ done. nothing_left sent src (ground arith) h)
  write_loop-Holds t (suc fuel) r sent src h wide =
      let o = observe reader t r in
      let n = to_write o (length src) in
      let seen = observe-Holds t i h in
      let P = Returns (Holds (sent ++ src)) in
      let wait = write_loop-Holds (suc t) fuel o sent src seen wide in
      let fits : length (sent ++ take n src) + length (drop n src) < 2 ^ 64 =
        omega (
          arith,
          wide,
          length-append {0} sent (take n src),
          length-take n src,
          length-drop n src,
        ) in
      let rest =
        write_loop-Holds (suc t) fuel (put o src) (sent ++ take n src) (drop n src)
          (put-Holds src seen wide) fits in
      if-cases P (ltb 0 (length src)) _ _
        (λ more.
          if-cases P (leb o.capacity (usage o)) _ _ (λ full. wait)
            (λ room. rw (append_assoc, take-append-drop n src) at rest))
        (λ done. nothing_left sent src (ground arith) h)

  -- With a guest that leaves room before each round, a round takes at least a byte, so there are no
  -- more rounds than bytes.
  abbrev pub LeavesRoom : Type 0
  LeavesRoom =
      (t : ℕ) (r : Ring)
      → r.read_offset ≤ r.write_offset
      → 0 < r.capacity
      → r.write_offset < reader t r + r.capacity

  write_loop-returns :
      LeavesRoom
      → (t fuel : ℕ) (r : Ring) (sent src : List ℕ) → Holds sent r
      → length sent + length src < 2 ^ 64
      → length src ≤ fuel
      → write_loop reader t fuel r src ≢ none
  unfolding write_loop
  write_loop-returns g t zero r sent src h wide l =
      if-cases (λ x. x ≢ none) (ltb 0 (length src)) none (some r) (λ more. absurd (ground arith))
        (λ done q. cc)
  write_loop-returns g t (suc fuel) r sent src h wide l =
      let o = observe reader t r in
      let n = to_write o (length src) in
      let seen = observe-Holds t i h in
      let free : o.write_offset < o.read_offset + o.capacity = g t r h.read h.has_room in
      let fits : length (sent ++ take n src) + length (drop n src) < 2 ^ 64 =
        omega (
          arith,
          wide,
          length-append {0} sent (take n src),
          length-take n src,
          length-drop n src,
        ) in
      if-cases (λ x. x ≢ none) (ltb 0 (length src)) _ _
        (λ more.
          if-cases (λ x. x ≢ none) (leb o.capacity (usage o)) _ _
            (λ full. absurd (ground (arith, free, seen.read, seen.written, wide)))
            (λ room.
              write_loop-returns g (suc t) fuel (put o src) (sent ++ take n src) (drop n src)
                (put-Holds src seen wide) fits (ground (arith, length-drop n src, l))))
        (λ done q. cc)

  sends-by_cases :
      (sent src : List ℕ) (o : Option Ring)
      → o ≢ none
      → Returns (Holds (sent ++ src)) o
      → (r : Ring) × ((o ≡ some r) × Holds (sent ++ src) r)
  sends-by_cases sent src none ne h = absurd (ne refl)
  sends-by_cases sent src (some r) ne h = (r, (refl, h))

  -- What a call of `Write` on a sender answers.
  abbrev pub Writes : List ℕ → Sender → RingResult → Type 0
  Writes sent s (refused invalid_args) = s ≡ none
  Writes sent s (refused _) = ⊥
  Writes sent s (returned r) = Holds sent r
  Writes sent s spins = Unit

  returns_ring-Writes :
      (sent : List ℕ) (s : Sender) (o : Option Ring)
      → Returns (Holds sent) o
      → Writes sent s (returns_ring o)
  returns_ring-Writes sent s none h = tt
  returns_ring-Writes sent s (some r) h = h

  -- If the guest's offset only moves forward and not past what was written, and the offsets do not
  -- wrap, then a call of `Write` is refused on a sender that is not initialized, and one that returns
  -- a ring has appended the whole source to what was sent, however the guest's progress cuts it: what
  -- the guest has not read stands at its place in the ring.
  pub write-Writes :
      (fuel : ℕ) (s : Sender) (sent src : List ℕ)
      → ((r : Ring) → s ≡ some r → Holds sent r)
      → length sent + length src < 2 ^ 64
      → Writes (sent ++ src) s (write reader fuel s src)
  unfolding write
  write-Writes fuel none sent src h wide = refl
  write-Writes fuel (some r) sent src h wide =
      returns_ring-Writes (sent ++ src) (some r) (write_loop reader 0 fuel r src)
        (write_loop-Holds 0 fuel r sent src (h r refl) wide)

  -- If the guest's offset only moves forward and not past what was written, the guest leaves room
  -- before each round, and the offsets do not wrap, then a call of `Write` on an initialized sender
  -- returns within as many rounds as the source has bytes, with the whole source appended to what was
  -- sent.
  pub write-sends :
      (fuel : ℕ) (r : Ring) (sent src : List ℕ)
      → LeavesRoom
      → Holds sent r
      → length sent + length src < 2 ^ 64
      → length src ≤ fuel
      → (r' : Ring) × ((write reader fuel (some r) src ≡ returned r') × Holds (sent ++ src) r')
  unfolding write
  write-sends fuel r sent src g h wide l =
      let (r', (o, h')) =
        sends-by_cases sent src (write_loop reader 0 fuel r src)
          (write_loop-returns g 0 fuel r sent src h wide l)
          (write_loop-Holds 0 fuel r sent src h wide) in
      (r', (ap returns_ring o, h'))

-- What a call of `Init` answers.
abbrev pub Inits : Bool → ℕ → RingResult → Type 0
Inits has_host max_req (refused invalid_args) = has_host ≡ false
Inits has_host max_req (refused buffer_too_small) =
    (has_host ≡ true) × (max_req < ring_header_size + 1024)
Inits has_host max_req (refused _) = ⊥
Inits has_host max_req (returned r) = Holds [] r
Inits has_host max_req spins = ⊥

-- `Init` on a request buffer of its declared size is refused without a host, or if the buffer is too
-- small for a header and 1024 bytes, and otherwise returns an empty ring.
pub init_ring-Inits :
    (has_host : Bool) (max_req : ℕ) (req_buffer : List ℕ)
    → length req_buffer ≡ max_req
    → Inits has_host max_req (init_ring has_host max_req req_buffer)
unfolding init_ring
init_ring-Inits false max_req req_buffer l = refl
init_ring-Inits true max_req req_buffer l =
    if-cases (Inits true max_req) (ltb max_req (ring_header_size + 1024)) (refused buffer_too_small)
      (returned (record {
        write_offset = 0;
        read_offset = 0;
        buf = drop ring_header_size req_buffer;
        capacity = max_req - ring_header_size;
      }))
      (λ small. (refl, ground arith))
      (λ fits. record {
        sized = omega (arith, length-drop ring_header_size req_buffer, l);
        has_room = ground arith;
        written = refl;
        read = omega arith;
        unread = omega arith;
        stands = λ p a b. absurd (omega (arith, b));
      })
