-- ===== src/CopySmall/Tests.antt =====
-- Three bytes, by two windows of two.
use shm.Base.{◌≡◌, refl, [], ◌∷◌, arith, take}
use shm.Base.Bytes.{write_at}
use shm.CopySmall.{two_windows, copy_small}
use shm.CopySmall.Same.{copy_small-same}

copy_small-three : copy_small (0 ∷ 0 ∷ 0 ∷ 0 ∷ []) (7 ∷ 8 ∷ 9 ∷ []) 3 ≡ 7 ∷ 8 ∷ 9 ∷ 0 ∷ []
unfolding copy_small two_windows
copy_small-three = refl

copy_small-same_example :
    copy_small (0 ∷ 0 ∷ 0 ∷ 0 ∷ []) (7 ∷ 8 ∷ 9 ∷ []) 3
    ≡ write_at (0 ∷ 0 ∷ 0 ∷ 0 ∷ []) 0 (take 3 (7 ∷ 8 ∷ 9 ∷ []))
copy_small-same_example =
    copy_small-same (0 ∷ 0 ∷ 0 ∷ 0 ∷ []) (7 ∷ 8 ∷ 9 ∷ []) 3 (omega arith) (omega arith)
