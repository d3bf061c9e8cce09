-- ===== src/WaitStrategy/Laws.antt =====
-- What a wait answers, and that the spin window adapts within its limits.
use shm.Base.{
  ℕ, ◌≤◌, ◌≡◌, inl, inr, zero, suc, Bool, true, Option, none, some, arith, Bool-cases, Option-cases,
}
use shm.WaitStrategy.{Waited, grow, shrink, spin, check_again, wait, min_spin, max_spin}

pub record InWindow (limit : ℕ) : Type 0 where
  pub above : min_spin ≤ limit
  pub below : limit ≤ max_spin

pub grow-InWindow : (limit : ℕ) → InWindow limit → InWindow (grow limit) × (limit ≤ grow limit)
unfolding grow
grow-InWindow limit w = (
  record { above = ground (arith, w.above, w.below); below = ground (arith, w.above, w.below) },
  ground (arith, w.above, w.below),
)

pub shrink-InWindow :
    (limit : ℕ) → InWindow limit → InWindow (shrink limit) × (shrink limit ≤ limit)
unfolding shrink
shrink-InWindow limit w = (
  record { above = ground (arith, w.above, w.below); below = ground (arith, w.above, w.below) },
  ground (arith, w.above, w.below),
)

-- If there is a result, it has the property.
abbrev pub Returns {ℓ} : {A : Type ℓ} → (A → Type 0) → Option A → Type 0
Returns P none = Unit
Returns P (some x) = P x

module _ {S : Type 0} (condition : S → Bool × S) (sleep_action : S → Option S) where
  -- What a check that answers true establishes, holds when the wait answers true; and what every
  -- check and every sleep keeps, holds at its end.
  pub record Understands (Ready Always : S → Type 0) : Type 0 where
    pub seen : (s : S) → Always s → (condition s).0 ≡ true → Ready (condition s).1
    pub kept : (s : S) → Always s → Always (condition s).1
    pub slept : (s : S) → Always s → Returns Always (sleep_action s)

  -- The answer of a wait: it reports the condition only if a check saw it, and keeps the window.
  abbrev pub Answers : (S → Type 0) → (S → Type 0) → Option (Waited S) → Type 0
  Answers Ready Always none = Unit
  Answers Ready Always (some w) =
      InWindow w.current_limit × Always w.state × (w.ready ≡ true → Ready w.state)

  spin-Understands :
      {Ready Always : S → Type 0}
      → Understands Ready Always
      → (limit : ℕ) (s : S) → Always s
      → Always (spin condition sleep_action limit s).1
        × ((spin condition sleep_action limit s).0 ≡ true
            → Ready (spin condition sleep_action limit s).1)
  unfolding spin
  spin-Understands u zero s a = (a, λ e. absurd (ground arith))
  spin-Understands u (suc limit) s a = elim (Bool-cases (condition s).0) [
    | inl yes_now ↦ rw yes_now (u.kept s a, λ e. u.seen s a yes_now)
    | inr not_yet ↦ rw not_yet (spin-Understands u limit (condition s).1 (u.kept s a))
  ]

  -- A wait whose window is within its limits answers true only if a check of the condition did, and
  -- leaves a window within its limits, whatever happens between the checks.
  pub wait-Answers :
      {Ready Always : S → Type 0} (limit : ℕ) (s : S)
      → Understands Ready Always
      → InWindow limit
      → Always s
      → Answers Ready Always (wait condition sleep_action limit s)
  unfolding wait check_again
  wait-Answers limit s u w a =
      let (kept, seen) = spin-Understands u limit s a in
      elim (Bool-cases (spin condition sleep_action limit s).0) [
        | inl spun ↦ rw spun ((grow-InWindow limit w).0, kept, λ e. seen spun)
        | inr idle ↦ elim (Option-cases (sleep_action (spin condition sleep_action limit s).1)) [
          | inl lost ↦ rw (idle, lost, check_again) tt
          | inr (t, woke) ↦
              let b = rw woke at (u.slept (spin condition sleep_action limit s).1 kept) in
              rw (idle, woke, check_again)
                ((shrink-InWindow limit w).0, u.kept t b, λ e. u.seen t b e)
        ]
      ]
