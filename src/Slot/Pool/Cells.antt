-- ===== src/Slot/Pool/Cells.antt =====
-- The table of cells of include/shm/SlotAllocator.h behind a change of one.
use shm.Base.{ℕ, ◌≡◌, ◌≢◌, refl, arith, ◌==◌, if-cases}
use shm.Slot.{Cell}
use shm.Slot.Pool.{put_cell}

pub put_cell_other :
    (cells : ℕ → Cell) (i j : ℕ) (c : Cell) → j ≢ i → put_cell cells i c j ≡ cells j
put_cell_other cells i j c h =
    if-cases (λ x. x ≡ cells j) (j == i) _ _ (λ same. absurd (h (ground (arith, same)))) (λ o. refl)

pub put_cell_self : (cells : ℕ → Cell) (i : ℕ) (c : Cell) → put_cell cells i c i ≡ c
put_cell_self cells i c =
    if-cases (λ x. x ≡ c) (i == i) _ _ (λ same. refl) (λ o. absurd (ground (arith, o)))

pub put_cell_same :
    (cells : ℕ → Cell) (i j : ℕ) (c : Cell) → c ≡ cells i → put_cell cells i c j ≡ cells j
put_cell_same cells i j c h =
    if-cases (λ x. x ≡ cells j) (j == i) _ _
      (λ same. let k : j ≡ i = ground (arith, same) in rw (h, k)) (λ o. refl)
