-- ===== src/Slot/Pool/Sweep.antt =====
-- `TryAcquireSlot` takes a slot exactly if there is one to take.
use shm.Base.{
  ℕ, zero, suc, ◌+◌, ◌-◌, ◌%◌, ◌^◌, ◌≤◌, ◌<◌, ◌≡◌, ◌≢◌, ◌⊎◌, inl, inr, refl, Bool, true, false,
  Option, none, some, arith, ◌∙◌, ap, leb, Bool-cases, ◌==◌, if-cases, add32,
}
use native.Mathlib.Nat.{mod-lt, mod-eq_of_lt, add-mod_right}
use shm.Slot.{Cell, World, try_claim_slot}
use shm.Slot.Claim.{Takes, quiet, is_claimable, claimed, try_claim_slot-quiet}
use shm.Slot.Pool.Cells.{put_cell_other, put_cell_self, put_cell_same}
use shm.Slot.Pool.{Pool, put_cell, world_at, with_world, sweep_idx, sweep, try_acquire_slot}

-- What a sweep over the steps `n` to `n + k` answers, from the cells it began with.
abbrev Sweeps : (ℕ → ℕ) → (ℕ → ℕ) → ℕ → ℕ → (ℕ → Cell) → Option ℕ × Pool → Type 0
Sweeps clock idx n k cells (none, q) =
    ((m : ℕ) → n ≤ m → m < n + k → is_claimable (cells (idx m)) ≡ false)
    × ((j : ℕ) → q.cells j ≡ cells j)
Sweeps clock idx n k cells (some i, q) =
    ((m : ℕ) × ((m < n + k) × (i ≡ idx m)))
    × ((is_claimable (cells i) ≡ true)
        × (((t : ℕ) × (q.cells i ≡ claimed (clock t) (cells i)))
            × ((j : ℕ) → j ≢ i → q.cells j ≡ cells j)))

module _ (clock : ℕ → ℕ) where
  pub lost_cell :
      (c : Cell) (r : Bool × World)
      → Takes clock c r
      → r.0 ≡ false
      → (is_claimable c ≡ false) × (r.1.cell ≡ c)
  lost_cell c (true, v) h q = absurd cc
  lost_cell c (false, v) h q = h

  pub won_cell :
      (c : Cell) (r : Bool × World)
      → Takes clock c r
      → r.0 ≡ true
      → (is_claimable c ≡ true) × ((t : ℕ) × (r.1.cell ≡ claimed (clock t) c))
  won_cell c (true, v) h q = h
  won_cell c (false, v) h q = absurd cc

  -- A step that takes nothing.
  later_step :
      (idx : ℕ → ℕ) (n k : ℕ) (cells cells' : ℕ → Cell) (o : Option ℕ × Pool)
      → is_claimable (cells (idx n)) ≡ false
      → cells' ≡ cells
      → Sweeps clock idx (suc n) k cells' o
      → Sweeps clock idx n (suc k) cells o
  later_step idx n k cells cells' (none, q) none_here same (nowhere, kept) =
      let nowhere' : (m : ℕ) → suc n ≤ m → m < suc n + k → is_claimable (cells (idx m)) ≡ false =
        rw same at nowhere in
      (
        (λ m a b.
            if-cases (λ x. is_claimable (cells (idx m)) ≡ false) (m == n) true false
              (λ here. let e : m ≡ n = ground (arith, here) in rw e none_here)
              (λ there. nowhere' m (ground (arith, there, a)) (omega (arith, b)))),
        (rw same at kept),
      )
  later_step idx n k cells cells' (some i, q) none_here same ((m, (b, e)), (h, (t, kept))) =
      ((m, (omega (arith, b), e)), ((rw same at h), ((rw same at t), (rw same at kept))))

  sweep-Sweeps :
      (num_slots start n k : ℕ) (p : Pool)
      → Sweeps clock
          (sweep_idx num_slots start)
          n
          k
          p.cells
          (sweep (λ i. quiet clock) num_slots start n k p)
  unfolding sweep
  sweep-Sweeps num_slots start n zero p = ((λ m a b. absurd (omega (arith, a, b))), (λ j. refl))
  sweep-Sweeps num_slots start n (suc k) p =
      let i = sweep_idx num_slots start n in
      let r = try_claim_slot (quiet clock) (world_at i p) in
      let took = try_claim_slot-quiet clock (world_at i p) in
      if-cases (Sweeps clock (sweep_idx num_slots start) n (suc k) p.cells) r.0 _ _
        (λ won.
          let (free, (t, now)) = won_cell (p.cells i) r took won in
          (
            (n, (omega arith, refl)),
            (
              free,
              (
                (t, put_cell_self p.cells i r.1.cell ∙ now),
                (λ j other. put_cell_other p.cells i j r.1.cell other),
              ),
            ),
          ))
        (λ lost.
          let (busy, same) = lost_cell (p.cells i) r took lost in
          later_step (sweep_idx num_slots start) n k p.cells (put_cell p.cells i r.1.cell) _ busy
            (λ x j. put_cell_same p.cells i j r.1.cell same x)
            (sweep-Sweeps num_slots start (suc n) k (with_world i p r.1)))

-- Every index is that of a step.
step_of :
    (num_slots start j : ℕ)
    → start < num_slots
    → num_slots ≤ 2 ^ 31
    → j < num_slots
    → (m : ℕ) × ((m < num_slots) × (sweep_idx num_slots start m ≡ j))
step_of num_slots start j l wide b = elim (Bool-cases (leb start j)) [
  | inl behind ↦
      let e : add32 start (j - start) ≡ j = ground (arith, behind, l, wide, b) in
      (j - start, (omega (arith, b), ap (λ x. x % num_slots) e ∙ mod-eq_of_lt b))
  | inr before ↦
      let e : add32 start (j + num_slots - start) ≡ j + num_slots =
        ground (arith, before, l, wide, b) in
      (
        j + num_slots - start,
        (
          ground (arith, before, l),
          ap (λ x. x % num_slots) e ∙ (add-mod_right j num_slots ∙ mod-eq_of_lt b),
        ),
      )
]

-- The answer of an exact test-and-claim on the host's slots.
abbrev pub TakesOne : (ℕ → ℕ) → Bool → ℕ → (ℕ → Cell) → Option ℕ × Pool → Type 0
TakesOne clock running num_slots cells (none, q) =
    ((running ≡ false) ⊎ ((j : ℕ) → j < num_slots → is_claimable (cells j) ≡ false))
    × ((j : ℕ) → q.cells j ≡ cells j)
TakesOne clock running num_slots cells (some i, q) =
    ((running ≡ true) × ((i < num_slots) × (is_claimable (cells i) ≡ true)))
    × (((t : ℕ) × (q.cells i ≡ claimed (clock t) (cells i)))
        × ((j : ℕ) → j ≢ i → q.cells j ≡ cells j))

of_sweep :
    (clock : ℕ → ℕ) (num_slots start : ℕ) (cells : ℕ → Cell) (o : Option ℕ × Pool)
    → start < num_slots
    → num_slots ≤ 2 ^ 31
    → Sweeps clock (sweep_idx num_slots start) 0 num_slots cells o
    → TakesOne clock true num_slots cells o
of_sweep clock num_slots start cells (none, q) l wide (nowhere, kept) = (
  inr (λ j b.
      let (m, (c, e)) = step_of num_slots start j l wide b in
      let h = nowhere m (omega arith) (omega (arith, c)) in rw e at h),
  kept,
)
of_sweep clock num_slots start cells (some i, q) l wide ((m, (b, e)), (free, (now, kept))) =
    let c : sweep_idx num_slots start m < num_slots = mod-lt (add32 start m) (omega (arith, l)) in
    ((refl, ((rw e c), free)), (now, kept))

-- When nobody interferes, and the host has at most 2^31 slots, `TryAcquireSlot` answers an index
-- exactly if the host is running and one of its slots is claimable: it claims the slot at that
-- index, which is claimable, in a new generation and with a lease read from the clock, and leaves
-- every other slot as it was; and where it answers -1 it leaves all of them as they were.
pub try_acquire_slot-TakesOne :
    (clock : ℕ → ℕ) (running : Bool) (num_slots : ℕ) (p : Pool)
    → num_slots ≤ 2 ^ 31
    → TakesOne clock running num_slots p.cells
        (try_acquire_slot (λ i. quiet clock) running num_slots p)
unfolding try_acquire_slot
try_acquire_slot-TakesOne clock false num_slots p wide = (inl refl, λ j. refl)
try_acquire_slot-TakesOne clock true num_slots p wide =
    if-cases (TakesOne clock true num_slots p.cells) (num_slots == 0) _ _
      (λ empty. (inr (λ j b. absurd (ground (arith, empty, b))), λ j. refl))
      (λ some_slots.
        let q = record p { next_slot = add32 p.next_slot 1 } in
        of_sweep clock num_slots (p.next_slot % num_slots) p.cells _
          (mod-lt p.next_slot (ground (arith, some_slots))) wide
          (sweep-Sweeps clock num_slots (p.next_slot % num_slots) 0 num_slots q))
