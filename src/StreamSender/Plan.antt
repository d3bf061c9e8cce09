-- ===== src/StreamSender/Plan.antt =====
-- A stream cut into chunks of at most `m` bytes, and the messages that carry them.
use shm.Base.{
  ℕ, zero, suc, ◌+◌, ◌-◌, ◌/◌, ◌%◌, ◌^◌, ◌≤◌, ◌<◌, ◌≡◌, refl, ap, ◌∙◌, sym, List, [], ◌∷◌, ◌++◌,
  arith, length, take, drop, min, ◌==◌, if◌then◌else◌, if-cases, length-drop, take-append-drop,
  dec_lt,
}
use native.Mathlib.Nat.{div-eq_of_lt, add-div_right, zero-add, div-le_self}
use shm.Wire.{stream_start, stream_chunk, encode_stream_header, encode_chunk_header}
use shm.StreamContext.Parts.{joined}
use shm.StreamSender.{total_chunks_of, max_payload, chunk_size, StreamData, opening}
use shm.StreamSender.Recording.{Packet}

-- `rest` is what the bytes `src` are cut into.
abbrev pub Cuts : ℕ → List (List ℕ) → List ℕ → Type 0
Cuts m [] src = length src ≡ 0
Cuts m (x ∷ xs) src =
    (0 < length src)
    × ((x ≡ take (min m (length src)) src) × Cuts m xs (drop (min m (length src)) src))

unfoldable pub cut_from : ℕ → ℕ → List ℕ → List (List ℕ)
cut_from m zero src = []
cut_from m (suc fuel) src =
    let rest = cut_from m fuel (drop (min m (length src)) src) in
    if length src == 0 then [] else take (min m (length src)) src ∷ rest

-- The chunks of a stream.
unfoldable pub cut : ℕ → List ℕ → List (List ℕ)
unfolding cut_from
cut m src = cut_from m (length src) src

cut_from-Cuts :
    (m fuel : ℕ) (src : List ℕ) → 0 < m → length src ≤ fuel → Cuts m (cut_from m fuel src) src
unfolding cut_from
cut_from-Cuts m zero src p l = omega arith
cut_from-Cuts m (suc fuel) src p l =
    let n = min m (length src) in
    if-cases (λ x. Cuts m x src) (length src == 0) _ _ (λ none_left. ground arith)
      (λ some_left. (
        ground arith,
        (
          refl,
          cut_from-Cuts m fuel (drop n src) p (ground (arith, some_left, length-drop n src, l)),
        ),
      ))

pub cut-Cuts : (m : ℕ) (src : List ℕ) → 0 < m → Cuts m (cut m src) src
unfolding cut
cut-Cuts m src p = cut_from-Cuts m (length src) src p (omega arith)

pub joined-cut : (m : ℕ) (xs : List (List ℕ)) (src : List ℕ) → Cuts m xs src → joined xs ≡ src
joined-cut m [] [] c = refl
joined-cut m [] (b ∷ src) c = absurd (omega arith)
joined-cut m (x ∷ xs) src (l, (e, c)) =
    rw (e, joined-cut m xs (drop (min m (length src)) src) c)
      (take-append-drop (min m (length src)) src)

-- The number of chunks, as the source computes it.
pub length-cut :
    (m : ℕ) (xs : List (List ℕ)) (src : List ℕ)
    → 0 < m
    → Cuts m xs src
    → length xs ≡ (length src + m - 1) / m
length-cut m [] src p c =
    let z : (length src + m - 1) / m ≡ 0 = div-eq_of_lt (omega (arith, p)) in omega (arith, z)
length-cut m (x ∷ xs) src p (l, (e, c)) =
    let d = length-drop (min m (length src)) src in
    let ih = length-cut m xs (drop (min m (length src)) src) p c in
    elim (dec_lt (length src) m) [
      | yes short ↦
          let k : length (drop (min m (length src)) src) ≡ 0 = omega (arith, d, short) in
          let z : (m - 1) / m ≡ 0 = div-eq_of_lt (omega (arith, p)) in
          let w : length src + m - 1 ≡ length src - 1 + m = omega (arith, l) in
          let y : (length src - 1) / m ≡ 0 = div-eq_of_lt (omega (arith, short)) in
          let t = add-div_right (length src - 1) p in
          let ih' : length xs ≡ (m - 1) / m = ih ∙ rw (k, zero-add) refl in
          rw w (omega (arith, ih', z, y, t))
      | no long ↦
          let k : length (drop (min m (length src)) src) + m ≡ length src =
            omega (arith, d, long) in
          let w : length src + m - 1 ≡ length (drop (min m (length src)) src) + m - 1 + m =
            omega (arith, k, p) in
          rw w (omega (arith, ih, add-div_right (length (drop (min m (length src)) src) + m - 1) p))
    ]

-- `maxPayload` and `currentChunkSize` where nothing wraps.
pub max_payload_lem :
    (max_req : ℕ) → 24 < max_req → max_req < 2 ^ 31 → max_payload max_req ≡ max_req - 24
max_payload_lem max_req a b = ground (arith, a, b)

pub chunk_size_lem :
    (remaining max_req : ℕ)
    → 24 < max_req
    → max_req < 2 ^ 31
    → remaining ≤ 2 ^ 30
    → chunk_size remaining max_req ≡ min (max_req - 24) remaining
chunk_size_lem remaining max_req a b c = ground (arith, a, b, c, max_payload_lem max_req a b)

total_by :
    (size m k : ℕ)
    → 0 < m
    → k ≡ (size + m - 1) / m
    → k < 2 ^ 32
    → (if size == 0 then 0 else ((size + m - 1) / m) % 2 ^ 32) ≡ k
total_by size m k p e b =
    let z : (m - 1) / m ≡ 0 = div-eq_of_lt (omega (arith, p)) in
    if-cases (λ x. x ≡ k) (size == 0) _ _
      (λ empty.
        let size_is : size ≡ 0 = ground (arith, empty) in
        let k_is : k ≡ (m - 1) / m = e ∙ rw (size_is, zero-add) refl in omega (arith, k_is, z))
      (λ full. omega (arith, e, b))

pub length-cut-lt :
    (max_req : ℕ) (src : List ℕ)
    → 24 < max_req
    → max_req < 2 ^ 31
    → length src ≤ 2 ^ 30
    → length (cut (max_req - 24) src) < 2 ^ 32
length-cut-lt max_req src a b c =
    let m = max_req - 24 in
    let p : 0 < m = omega (arith, a) in
    omega (
      arith,
      length-cut m (cut m src) src p (cut-Cuts m src p),
      div-le_self (length src + m - 1) m,
      a,
      b,
      c,
    )

-- The count in the start of a stream is the number of its chunks.
pub total_chunks_lem :
    (max_req : ℕ) (src : List ℕ)
    → 24 < max_req
    → max_req < 2 ^ 31
    → length src ≤ 2 ^ 30
    → total_chunks_of (length src) max_req ≡ length (cut (max_req - 24) src)
total_chunks_lem max_req src a b c =
    let e = max_payload_lem max_req a b in
    let m = max_req - 24 in
    let p : 0 < m = omega (arith, a) in
    total_by (length src) (max_payload max_req) (length (cut m src)) (omega (arith, e, p))
      (length-cut m (cut m src) src p (cut-Cuts m src p)
        ∙ ap (λ x. (length src + x - 1) / x) (sym e))
      (length-cut-lt max_req src a b c)

-- The messages that carry the chunks `xs` behind the first `k`, which have `o` bytes.
abbrev pub packets_from : ℕ → ℕ → ℕ → List (List ℕ) → List Packet
packets_from id k o [] = []
packets_from id k o (x ∷ xs) =
    record {
      msg_type = stream_chunk;
      req =
          encode_chunk_header
            (record { stream_id = id; chunk_index = k; payload_size = length x; dst_offset = o })
          ++ x;
    }
    ∷ packets_from id (suc k) (o + length x) xs

abbrev pub start_packet : StreamData → ℕ → Packet
start_packet t max_req = record {
  msg_type = stream_start;
  req = encode_stream_header (opening t max_req);
}

-- Every message of a stream: its start, and its chunks in order.
abbrev pub plan : StreamData → ℕ → List Packet
plan t max_req = start_packet t max_req ∷ packets_from t.stream_id 0 0 (cut (max_req - 24) t.bytes)
