-- ===== src/Slot/Pool/Acquire/Return.antt =====
-- When nobody interferes `AcquireSlot` finds a slot that can be taken, and if the automatic reclaim is
-- enabled also one that was abandoned.
use shm.Base.{
  ℕ, zero, suc, ◌+◌, ◌-◌, ◌%◌, ◌≤◌, ◌<◌, ◌≡◌, ◌≢◌, ◌⊎◌, inl, inr, refl, ap, Bool, true, false,
  Option, none, some, arith, ltb, leb, ◌==◌, ◌&&◌, if◌then◌else◌, if-cases, add32, Bool-cases,
  ℕ_discrete,
}
use native.Mathlib.Nat.{mod-lt}
use shm.Slot.{Cell, Env, World, try_claim_slot, try_reclaim_abandoned_slot}
use shm.Slot.Claim.{quiet, is_claimable, try_claim_slot-quiet}
use shm.Slot.Reclaim.{Reclaims, is_reclaimable, try_reclaim_abandoned_slot-quiet}
use shm.Slot.Pool.{Pool, world_at, with_world}
use shm.Slot.Pool.Cells.{put_cell_other, put_cell_self, put_cell_same}
use shm.Slot.Pool.Sweep.{lost_cell}
use shm.Slot.Pool.Acquire.{
  Acquired, claim_at, is_wrap, next_idx, after_miss, reclaim_from, acquire_from, acquire_by_hint,
  acquire_cached, acquire_slot,
}

-- A call that answers an index.
abbrev pub Finds : Option Acquired → Type 0
Finds none = ⊥
Finds (some a) = a.slot ≢ none

module _ (clock : ℕ → ℕ) (threshold num_slots : ℕ) where
  abbrev alone : ℕ → Env
  alone i = quiet clock

  -- A claim that is lost leaves the slots as they were, and was not on a claimable slot.
  miss :
      (i : ℕ) (p : Pool)
      → (claim_at alone i p).0 ≡ false
      → (is_claimable (p.cells i) ≡ false) × ((j : ℕ) → (claim_at alone i p).1.cells j ≡ p.cells j)
  unfolding claim_at
  miss i p lost =
      let (busy, same) =
        lost_cell clock (p.cells i) (try_claim_slot (quiet clock) (world_at i p))
          (try_claim_slot-quiet clock (world_at i p)) lost in
      (busy, λ j. put_cell_same p.cells i j _ same)

  -- A slot that a reclaim leaves alone or frees stays claimable.
  reclaimed-claimable :
      (now : ℕ) (c : Cell) (r : Bool × World)
      → Reclaims now threshold c r
      → is_claimable c ≡ true
      → is_claimable r.1.cell ≡ true
  reclaimed-claimable now c (true, v) (a, b) h = rw b refl
  reclaimed-claimable now c (false, v) (a, b) h = rw b h

  reclaim_from-claimable :
      (i k j : ℕ) (p : Pool)
      → is_claimable (p.cells j) ≡ true
      → is_claimable ((reclaim_from alone threshold i k p).cells j) ≡ true
  unfolding reclaim_from
  reclaim_from-claimable i zero j p h = h
  reclaim_from-claimable i (suc k) j p h =
      let w = try_reclaim_abandoned_slot (quiet clock) threshold (world_at i p) in
      reclaim_from-claimable (suc i) k j (with_world i p w.1) (
        if-cases (λ c. is_claimable c ≡ true) (j == i) _ _
          (λ same.
            let e : j ≡ i = ground (arith, same) in
            reclaimed-claimable _ (p.cells i) w
              (try_reclaim_abandoned_slot-quiet clock threshold (world_at i p)) (rw e at h))
          (λ other. h))

  after_miss-claimable :
      (idx j : ℕ) (p : Pool)
      → is_claimable (p.cells j) ≡ true
      → is_claimable ((after_miss alone threshold num_slots idx p).cells j) ≡ true
  unfolding after_miss
  after_miss-claimable idx j p h =
      if-cases (λ (q : Pool). is_claimable (q.cells j) ≡ true)
        (is_wrap num_slots idx && ltb 0 threshold) _ _
        (λ now. reclaim_from-claimable 0 num_slots j p h) (λ not_now. h)

  -- How many slots are tried before slot `j`.
  abbrev steps : ℕ → ℕ → ℕ
  steps idx j = if leb idx j then j - idx else num_slots + j - idx

  closer :
      (idx j fuel : ℕ)
      → idx < num_slots
      → j < num_slots
      → idx ≢ j
      → steps idx j < suc fuel
      → steps (next_idx num_slots idx) j < fuel
  closer idx j fuel a b ne l = ground (arith, a, b, ne, l)

  -- From index `idx` on, a claimable slot is met within a sweep.
  acquire_from-Finds :
      (fuel idx j : ℕ) (p : Pool)
      → idx < num_slots
      → j < num_slots
      → is_claimable (p.cells j) ≡ true
      → steps idx j < fuel
      → Finds (acquire_from alone threshold num_slots fuel idx p)
  unfolding acquire_from
  acquire_from-Finds zero idx j p a b h l = absurd (omega (arith, l))
  acquire_from-Finds (suc fuel) idx j p a b h l =
      if-cases Finds (claim_at alone idx p).0 _ _ (λ won q. cc)
        (λ lost.
          let (busy, same) = miss idx p lost in
          let elsewhere : idx ≢ j = λ e. cc (busy, h, ap (λ k. is_claimable (p.cells k)) e) in
          acquire_from-Finds fuel (next_idx num_slots idx) j _ (ground (arith, a)) b
            (after_miss-claimable idx j _ (rw (same j) h)) (closer idx j fuel a b elsewhere l))

  -- A slot whose lease is too old, from time `now` on.
  abbrev pub IsAbandoned : Cell → Type 0
  IsAbandoned c = (t : ℕ) → is_reclaimable (clock t) threshold c ≡ true

  reclaimed :
      (now : ℕ) (c : Cell) (r : Bool × World)
      → Reclaims now threshold c r
      → is_reclaimable now threshold c ≡ true
      → is_claimable r.1.cell ≡ true
  reclaimed now c (true, v) (a, b) h = rw b refl
  reclaimed now c (false, v) (a, b) h = absurd cc

  reclaim_from-Abandoned :
      (i k j : ℕ) (p : Pool)
      → i ≤ j
      → j < i + k
      → IsAbandoned (p.cells j)
      → is_claimable ((reclaim_from alone threshold i k p).cells j) ≡ true
  unfolding reclaim_from
  reclaim_from-Abandoned i zero j p a b h = absurd (omega (arith, a, b))
  reclaim_from-Abandoned i (suc k) j p a b h =
      let w = try_reclaim_abandoned_slot (quiet clock) threshold (world_at i p) in
      let answer = try_reclaim_abandoned_slot-quiet clock threshold (world_at i p) in
      elim (ℕ_discrete j i) [
        | yes here ↦
            let h' : IsAbandoned (p.cells i) = λ t. rw here at (h t) in
            reclaim_from-claimable (suc i) k j (with_world i p w.1) (
              rw here
                (rw (put_cell_self p.cells i w.1.cell) (reclaimed _ (p.cells i) w answer (h' _))))
        | no there ↦
            reclaim_from-Abandoned (suc i) k j (with_world i p w.1) (omega (arith, a, there))
              (omega (arith, b)) (λ t. rw (put_cell_other p.cells i j w.1.cell there) (h t))
      ]

  -- With the automatic reclaim, an abandoned slot is freed at the end of a sweep, and met in the next.
  acquire_from-reclaims :
      (fuel idx j : ℕ) (p : Pool)
      → 0 < threshold
      → idx < num_slots
      → j < num_slots
      → IsAbandoned (p.cells j)
      → num_slots + num_slots < idx + fuel
      → Finds (acquire_from alone threshold num_slots fuel idx p)
  unfolding acquire_from after_miss
  acquire_from-reclaims zero idx j p on a b h l = absurd (omega (arith, a, l))
  acquire_from-reclaims (suc fuel) idx j p on a b h l =
      let q = (claim_at alone idx p).1 in
      if-cases Finds (claim_at alone idx p).0 _ _ (λ won f. cc)
        (λ lost.
          let (busy, same) = miss idx p lost in
          let h' : IsAbandoned (q.cells j) = λ t. rw (same j) (h t) in
          elim (Bool-cases (is_wrap num_slots idx)) [
            | inl wrap ↦
                let enabled : (is_wrap num_slots idx && ltb 0 threshold) ≡ true =
                  ground (arith, wrap, on) in
                rw (enabled, wrap)
                  (acquire_from-Finds fuel 0 j (reclaim_from alone threshold 0 num_slots q)
                    (omega (arith, b)) b
                    (reclaim_from-Abandoned 0 num_slots j q (omega arith) (omega (arith, b)) h')
                    (ground (arith, b, l, wrap, a)))
            | inr more ↦ rw more (
                acquire_from-reclaims fuel (idx + 1) j q on (ground (arith, more)) b h'
                  (omega (arith, l)))
          ])

  -- A slot that `AcquireSlot` can get.
  abbrev pub IsObtainable : Cell → Type 0
  IsObtainable c = (is_claimable c ≡ true) ⊎ ((0 < threshold) × IsAbandoned c)

  acquire_by_hint-Finds :
      (fuel j : ℕ) (p : Pool)
      → j < num_slots
      → IsObtainable (p.cells j)
      → num_slots + num_slots < fuel
      → Finds (acquire_by_hint alone threshold num_slots fuel p)
  unfolding acquire_by_hint
  acquire_by_hint-Finds fuel j p b o l =
      let idx = p.next_slot % num_slots in
      let a : idx < num_slots = mod-lt p.next_slot (omega (arith, b)) in
      let q = record p { next_slot = add32 p.next_slot 1 } in
      elim o [
        | inl free ↦ acquire_from-Finds fuel idx j q a b free (ground (arith, a, b, l))
        | inr (on, old) ↦ acquire_from-reclaims fuel idx j q on a b old (omega (arith, l))
      ]

-- A slot that can be taken is found, by the cached index, by a sweep, or behind a reclaim.
pub acquire_slot-Finds :
    (clock : ℕ → ℕ) (threshold num_slots fuel cached j : ℕ) (p : Pool)
    → j < num_slots
    → IsObtainable clock threshold num_slots (p.cells j)
    → num_slots + num_slots < fuel
    → Finds (acquire_slot (λ i. quiet clock) threshold true num_slots fuel cached p)
unfolding acquire_slot acquire_cached
acquire_slot-Finds clock threshold num_slots fuel cached j p b o l =
    if-cases Finds (ltb cached num_slots) _ _
      (λ known.
        if-cases Finds (claim_at (λ i. quiet clock) cached p).0 _ _ (λ won q. cc)
          (λ lost.
            let (busy, same) = miss clock threshold num_slots cached p lost in
            acquire_by_hint-Finds clock threshold num_slots fuel j
              (claim_at (λ i. quiet clock) cached p).1 b (rw (same j) o) l))
      (λ unknown. acquire_by_hint-Finds clock threshold num_slots fuel j p b o l)
