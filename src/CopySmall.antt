-- ===== src/CopySmall.antt =====
-- include/shm/Platform.h: `CopySmall`, which copies up to 256 bytes by two windows of a fixed size
-- that overlap.
pub mod Same
mod Tests
use shm.Base.{ℕ, ◌-◌, Bool, true, false, List, leb, ◌==◌, if◌then◌else◌, take, drop}
use shm.Base.Bytes.{write_at}

-- `memcpy(d + o, s + o, k)`
abbrev pub window : ℕ → ℕ → List ℕ → List ℕ → List ℕ
window k o s d = write_at d o (take k (drop o s))

-- `memcpy(d, s, k); memcpy(d + n - k, s + n - k, k);`
unfoldable pub two_windows : ℕ → ℕ → List ℕ → List ℕ → List ℕ
two_windows k n s d = window k (n - k) s (window k 0 s d)

-- The sizes from 16 on.
unfoldable pub copy_large : List ℕ → List ℕ → ℕ → List ℕ
unfolding two_windows
copy_large d s n =
    if leb n 32
    then two_windows 16 n s d
    else if leb n 64
    then two_windows 32 n s d
    else if leb n 128
    then two_windows 64 n s d
    else if leb n 256
    then two_windows 128 n s d
    else window n 0 s d

-- `CopySmall`
pub copy_small : List ℕ → List ℕ → ℕ → List ℕ
unfolding copy_large
copy_small d s n =
    if leb 16 n
    then copy_large d s n
    else if leb 8 n
    then two_windows 8 n s d
    else if leb 4 n
    then two_windows 4 n s d
    else if leb 2 n
    then two_windows 2 n s d
    else if n == 1
    then window 1 0 s d
    else d
