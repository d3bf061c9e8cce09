-- ===== src/Host/Send/Copy.antt =====
-- The copy of a request and its reading are inverse.
use shm.Base.{
  ℕ, ◌-◌, ◌≤◌, ◌≡◌, refl, ap, sym, ◌∙◌, Bool, true, false, List, [], ◌∷◌, ◌++◌, arith, length, take,
  drop, if◌then◌else◌, length-take, length-drop, take-length,
}
use shm.Base.Bytes.{overwrite}
use shm.CopySmall.{copy_small}
use shm.CopySmall.Same.{copy_small-same}
use shm.Slot.Exchange.{abs_size, is_negative}
use shm.GuestCall.{read_request}
use shm.Host.Send.{copy_request}

take-overwrite : (xs ys : List ℕ) → length ys ≤ length xs → take (length ys) (overwrite xs ys) ≡ ys
take-overwrite xs [] l = refl
take-overwrite [] (y ∷ ys) l = absurd (omega arith)
take-overwrite (x ∷ xs) (y ∷ ys) l = ap (λ r. y ∷ r) (take-overwrite xs ys (omega arith))

drop-append : (xs ys : List ℕ) → drop (length xs) (xs ++ ys) ≡ ys
drop-append [] ys = refl
drop-append (x ∷ xs) ys = drop-append xs ys

-- What was copied to the start of a buffer is read there.
take-copy_small :
    (n : ℕ) (bytes buf : List ℕ)
    → length bytes ≡ n
    → n ≤ length buf
    → take n (copy_small buf bytes n) ≡ bytes
take-copy_small n bytes buf l fits =
    let all : take n bytes ≡ bytes = ap (λ k. take k bytes) (sym l) ∙ take-length bytes in
    ap (take n) (copy_small-same buf bytes n (omega (arith, l)) fits ∙ ap (overwrite buf) all)
    ∙ (ap (λ k. take k (overwrite buf bytes)) (sym l)
        ∙ take-overwrite buf bytes (omega (arith, l, fits)))

-- A request of `n` bytes at the end of a buffer of `max`, or at its start.
placed :
    (max n : ℕ) (back : Bool) (bytes buf : List ℕ)
    → length bytes ≡ n
    → n ≤ max
    → length buf ≡ max
    → let put =
        if back
        then take (max - n) buf ++ copy_small (drop (max - n) buf) bytes n
        else copy_small buf bytes n in
      (if back then take n (drop (max - n) put) else take n put) ≡ bytes
placed max n true bytes buf l fits full =
    let o = max - n in
    let head = take o buf in
    let tail = copy_small (drop o buf) bytes n in
    let l_head : length head ≡ o = omega (arith, length-take o buf, full) in
    ap (take n) (ap (λ k. drop k (head ++ tail)) (sym l_head) ∙ drop-append head tail)
    ∙ take-copy_small n bytes (drop o buf) l (omega (arith, length-drop o buf, full, fits))
placed max n false bytes buf l fits full = take-copy_small n bytes buf l (omega (arith, full, fits))

-- The request that `SendToSlot` and `Send` put into a buffer is what is read from it by its size, from
-- the start of the buffer or for a negative size at its end, if the caller's data has the length that
-- the size says, and the buffer its declared length and room for it.
pub read_request-copy_request :
    (max size : ℕ) (bytes buf : List ℕ)
    → length bytes ≡ abs_size size
    → abs_size size ≤ max
    → length buf ≡ max
    → read_request max size (copy_request max size bytes buf) ≡ bytes
unfolding copy_request
read_request-copy_request max size bytes buf l fits full =
    placed max (abs_size size) (is_negative size) bytes buf l fits full
