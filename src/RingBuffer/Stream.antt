-- ===== src/RingBuffer/Stream.antt =====
-- The ring holds the bytes of the stream that the guest has not read, each at its place.
use native.Mathlib.Decide.{dec_lt}
use native.Mathlib.Nat.{mod-lt}
use shm.Base.{
  ℕ, ◌+◌, ◌-◌, ◌%◌, ◌^◌, ◌≤◌, ◌<◌, ◌≡◌, ◌⊎◌, inl, inr, sym, ◌∙◌, ap, List, ◌++◌, arith, length,
  get_elem?, take, length-take, get_elem?-take, get_elem?-append_left, get_elem?-append_right,
  length-append, add64,
}
use shm.RingBuffer.Copy.{mod-step, copy_in-low, copy_in-high, copy_in-outside, length-copy_in}
use shm.RingBuffer.{Ring, Reader, to_write, copy_in, put, observe}

-- The ring after the bytes `sent` were written to it: those that the guest has not read stand at
-- their places.
pub record Holds (sent : List ℕ) (r : Ring) : Type 0 where
  pub sized : length r.buf ≡ r.capacity
  pub has_room : 0 < r.capacity
  pub written : r.write_offset ≡ length sent
  pub read : r.read_offset ≤ r.write_offset
  pub unread : r.write_offset ≤ r.read_offset + r.capacity
  pub stands :
      (p : ℕ)
      → r.read_offset ≤ p
      → p < r.write_offset
      → get_elem? r.buf (p % r.capacity) ≡ get_elem? sent p

-- The guest moves its offset forward, and not past the bytes that were written.
pub record IsReader (reader : Reader) : Type 0 where
  pub forward : (t : ℕ) (r : Ring) → r.read_offset ≤ r.write_offset → r.read_offset ≤ reader t r
  pub behind : (t : ℕ) (r : Ring) → r.read_offset ≤ r.write_offset → reader t r ≤ r.write_offset

pub observe-Holds :
    {reader : Reader} {sent : List ℕ} {r : Ring} (t : ℕ)
    → IsReader reader
    → Holds sent r
    → Holds sent (observe reader t r)
observe-Holds {reader} {sent} {r} t i h =
    let f = i.forward t r h.read in
    record {
      sized = h.sized;
      has_room = h.has_room;
      written = h.written;
      read = i.behind t r h.read;
      unread = omega (arith, f, h.unread);
      stands = λ p a b. h.stands p (omega (arith, f)) b;
    }

module _ {sent : List ℕ} {r : Ring} (src : List ℕ) (n : ℕ) (h : Holds sent r)
    (there : n ≤ length src) (room : n + r.write_offset ≤ r.read_offset + r.capacity) where
  abbrev place : ℕ
  place = r.write_offset % r.capacity

  abbrev copied : List ℕ
  copied = copy_in r.buf r.capacity place src n

  place-lt : place < r.capacity
  place-lt = mod-lt r.write_offset h.has_room

  -- The byte `j` behind the old end.
  copied-new :
      (j : ℕ) → j < n → get_elem? copied ((r.write_offset + j) % r.capacity) ≡ get_elem? src j
  copied-new j l = elim (mod-step r.write_offset j r.capacity (omega (arith, h.read))) [
    | inl (e, low) ↦
        ap (get_elem? copied) e
        ∙ copy_in-low r.buf r.capacity place src n h.sized place-lt (omega (arith, h.read)) there j
            l low
    | inr (e, high) ↦
        ap (get_elem? copied) e
        ∙ copy_in-high r.buf r.capacity place src n h.sized place-lt (omega (arith, h.read)) there j
            l high
  ]

  -- A byte that was not read yet.
  copied-old :
      (p : ℕ)
      → r.read_offset ≤ p
      → p < r.write_offset
      → get_elem? copied (p % r.capacity) ≡ get_elem? r.buf (p % r.capacity)
  copied-old p a b =
      let m = mod-lt p h.has_room in
      let i = r.write_offset - p in
      let e : p + i ≡ r.write_offset = omega (arith, b) in
      let shift : (p + i) % r.capacity ≡ place = ap (λ x. x % r.capacity) e in
      elim (dec_lt i r.capacity) [
        | no full ↦
            let none_new : n ≡ 0 = omega (arith, full, room, a) in
            let side : (p % r.capacity < place) ⊎ (place + n ≤ p % r.capacity) =
              elim (dec_lt (p % r.capacity) place) [
                | yes before ↦ inl before
                | no after ↦ inr (omega (arith, none_new, after))
              ] in
            copy_in-outside r.buf r.capacity place src n h.sized place-lt (omega (arith, h.read))
              there (p % r.capacity) m side (omega (arith, none_new, place-lt))
        | yes within ↦ elim (mod-step p i r.capacity within) [
          | inl (f, low) ↦
              copy_in-outside r.buf r.capacity place src n h.sized place-lt (omega (arith, h.read))
                there (p % r.capacity) m (inl (omega (arith, shift, f, b)))
                (omega (arith, shift, f, room, a))
          | inr (f, high) ↦
              copy_in-outside r.buf r.capacity place src n h.sized place-lt (omega (arith, h.read))
                there (p % r.capacity) m (inr (omega (arith, shift, f, room, a, e)))
                (omega (arith, shift, f, room, a, e, high))
        ]
      ]

-- One round of `Write`, whose offsets do not wrap, appends what it takes from the source.
pub put-Holds :
    {sent : List ℕ} {r : Ring} (src : List ℕ)
    → Holds sent r
    → length sent + length src < 2 ^ 64
    → Holds (sent ++ take (to_write r (length src)) src) (put r src)
unfolding put
put-Holds {sent} {r} src h wide =
    let n = to_write r (length src) in
    let there : n ≤ length src = omega arith in
    let room : n + r.write_offset ≤ r.read_offset + r.capacity =
      omega (arith, h.read, h.unread, h.written, wide) in
    let taken : length (take n src) ≡ n = omega (arith, length-take n src, there) in
    let more : add64 r.write_offset n ≡ r.write_offset + n =
      omega (arith, h.written, wide, there) in
    let place = r.write_offset % r.capacity in
    record {
      sized = length-copy_in r.buf r.capacity place src n ∙ h.sized;
      has_room = h.has_room;
      written = omega (arith, more, h.written, taken, length-append {0} sent (take n src));
      read = omega (arith, more, h.read);
      unread = omega (arith, more, room);
      stands = λ p a b. elim (dec_lt p r.write_offset) [
        | yes old ↦
            copied-old src n h there room p a old
            ∙ (h.stands p a old
                ∙ sym (get_elem?-append_left sent (take n src) p (omega (arith, old, h.written))))
        | no new ↦
            let j = p - r.write_offset in
            let l : j < n = omega (arith, more, new, b) in
            let e : r.write_offset + j ≡ p = omega (arith, new) in
            let f : length sent + j ≡ p = omega (arith, e, h.written) in
            ap (λ x. get_elem? (copy_in r.buf r.capacity place src n) (x % r.capacity)) (sym e)
            ∙ (copied-new src n h there room j l
                ∙ (sym (get_elem?-take n src j l)
                    ∙ (sym (get_elem?-append_right sent (take n src) j)
                        ∙ ap (get_elem? (sent ++ take n src)) f)))
      ];
    }
