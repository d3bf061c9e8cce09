-- ===== src/Slot/Reclaim.antt =====
-- What a reclaim frees: only a slot that is not free and whose owner's lease was seen too old, in one
-- exchange, whatever the others did in between; and exactly such a slot when nobody interferes.
use shm.Base.{
  ℕ, ◌+◌, ◌≡◌, ◌≢◌, inl, inr, refl, Bool, true, false, not, ◌&&◌, arith, ◌==◌, add64, Bool-cases,
  if-cases,
}
use shm.Slot.{
  slot_free, Cell, Env, World, look, with_header, cas_state, cas_gen, reclaim, reclaim_if_same,
  is_abandoned, reclaim_observed, try_reclaim_abandoned_slot,
}
use shm.Slot.Claim.{
  set_state, bump, Reaches, starts, loads, bumps, Reaches-trans, Ends, Ends-map, cas_gen-won,
  cas_gen-lost, quiet,
}

-- A reclaim that began at `w` and was won. Its accesses load the generation, the state and the lease,
-- and the lease again, advance the generation, and set the slot free: the state was not FREE, the
-- lease abandoned and the same at both loads, and at the two exchanges the generation and the state
-- were what the call had loaded.
abbrev pub Freed : Env → ℕ → World → World → Type 0
Freed e max_lease_age w v =
    let g = look e w in
    let s = look e g in
    let l = look e s in
    let m = look e l in
    let c = look e (bump e m) in
    (s.cell.header.state ≢ slot_free)
    × ((is_abandoned (e.clock l.tick) l.cell.header.lease max_lease_age ≡ true)
        × ((m.cell.header.lease ≡ l.cell.header.lease)
            × (((look e m).cell.header.gen ≡ g.cell.header.gen)
                × ((c.cell.header.state ≡ s.cell.header.state) × (v ≡ set_state slot_free c)))))

-- A reclaim, by its answer: it was won, or it made only loads and advances of the generation.
abbrev pub TriesReclaim : Env → ℕ → World → Bool × World → Type 0
TriesReclaim e max_lease_age w = Ends (Freed e max_lease_age w) (Reaches e w)

abbrev Resets : Env → ℕ → ℕ → World → Bool × World → Type 0
Resets e gen current w =
    Ends
      (λ v.
        ((look e w).cell.header.gen ≡ gen)
        × (((look e (bump e w)).cell.header.state ≡ current)
            × (v ≡ set_state slot_free (look e (bump e w)))))
      (Reaches e w)

reclaim-Resets :
    (e : Env) (gen current : ℕ) (w : World) → Resets e gen current w (reclaim e gen current w)
unfolding reclaim cas_state
reclaim-Resets e gen current w = elim (Bool-cases ((look e w).cell.header.gen == gen)) [
  | inl same ↦
      let c = look e (bump e w) in
      rw (cas_gen-won e gen w same) (elim (Bool-cases (c.cell.header.state == current)) [
        | inl kept ↦ rw kept (ground (arith, same), (ground (arith, kept), refl))
        | inr moved ↦ rw moved (loads (bumps starts))
      ])
  | inr other ↦ rw (cas_gen-lost e gen w other) (loads starts)
]

pub try_reclaim_abandoned_slot-TriesReclaim :
    (e : Env) (max_lease_age : ℕ) (w : World)
    → TriesReclaim e max_lease_age w (try_reclaim_abandoned_slot e max_lease_age w)
unfolding try_reclaim_abandoned_slot reclaim_observed reclaim_if_same
try_reclaim_abandoned_slot-TriesReclaim e max_lease_age w =
    let g = look e w in
    let s = look e g in
    let l = look e s in
    let m = look e l in
    if-cases (TriesReclaim e max_lease_age w) (s.cell.header.state == slot_free) _ _
      (λ free. loads (loads starts))
      (λ held.
        if-cases (TriesReclaim e max_lease_age w)
          (is_abandoned (e.clock l.tick) l.cell.header.lease max_lease_age) _ _
          (λ old.
            if-cases (TriesReclaim e max_lease_age w) (m.cell.header.lease == l.cell.header.lease) _
              _
              (λ same.
                Ends-map
                  (λ v p. (λ h. absurd (ground (arith, held, h)), (old, (ground (arith, same), p))))
                  (λ v q. Reaches-trans (loads (loads (loads (loads starts)))) q)
                  (reclaim e g.cell.header.gen s.cell.header.state m)
                  (reclaim-Resets e g.cell.header.gen s.cell.header.state m))
              (λ beat. loads (loads (loads (loads starts)))))
          (λ fresh. loads (loads (loads starts))))

-- A slot that a reclaim at time `now` may free.
abbrev pub is_reclaimable : ℕ → ℕ → Cell → Bool
is_reclaimable now max_lease_age c =
    not (c.header.state == slot_free) && is_abandoned now c.header.lease max_lease_age

-- The answer of an exact reclaim on a cell.
abbrev pub Reclaims : ℕ → ℕ → Cell → Bool × World → Type 0
Reclaims now max_lease_age c (true, v) =
    (is_reclaimable now max_lease_age c ≡ true)
    × (v.cell
        ≡ record c { header = record c.header { state = slot_free; gen = add64 c.header.gen 1 } })
Reclaims now max_lease_age c (false, v) =
    (is_reclaimable now max_lease_age c ≡ false) × (v.cell ≡ c)

module _ (clock : ℕ → ℕ) (max_lease_age : ℕ) where
  reclaim-quiet :
      (gen current : ℕ) (w : World)
      → (w.cell.header.gen == gen) ≡ true
      → (w.cell.header.state == current) ≡ true
      → reclaim (quiet clock) gen current w ≡ (
        true,
        set_state slot_free (
            look
              (quiet clock)
              (with_header (λ h. record h { gen = add64 gen 1 }) (look (quiet clock) w))),
      )
  unfolding reclaim cas_gen cas_state
  reclaim-quiet gen current w g h = rw (g, h) refl

  reclaim_if_same-quiet :
      (w : World) (now : ℕ)
      → is_reclaimable now max_lease_age w.cell ≡ true
      → Reclaims now max_lease_age w.cell (
          reclaim_if_same (quiet clock) w.cell.header.lease w.cell.header.gen w.cell.header.state w)
  unfolding reclaim_if_same
  reclaim_if_same-quiet w now k =
      let h = w.cell.header in
      if-cases (Reclaims now max_lease_age w.cell) (h.lease == h.lease)
        (reclaim (quiet clock) h.gen h.state w) (false, w)
        (λ same. rw (reclaim-quiet h.gen h.state w (ground arith) (ground arith)) (k, refl))
        (λ other. absurd (ground arith))

  reclaim_observed-quiet :
      (w : World)
      → (w.cell.header.state == slot_free) ≡ false
      → Reclaims
          (clock w.tick)
          max_lease_age
          w.cell
          (reclaim_observed (quiet clock) max_lease_age w.cell.header.gen w.cell.header.state w)
  unfolding reclaim_observed
  reclaim_observed-quiet w held =
      let h = w.cell.header in
      let v = look (quiet clock) w in
      if-cases (Reclaims (clock w.tick) max_lease_age w.cell)
        (is_abandoned (clock w.tick) h.lease max_lease_age)
        (reclaim_if_same (quiet clock) h.lease h.gen h.state v) (false, w)
        (λ old. reclaim_if_same-quiet v (clock w.tick) (ground arith))
        (λ fresh. (ground arith, refl))

  pub try_reclaim_abandoned_slot-quiet :
      (w : World)
      → Reclaims
          (clock (w.tick + 1 + 1 + 1))
          max_lease_age
          w.cell
          (try_reclaim_abandoned_slot (quiet clock) max_lease_age w)
  unfolding try_reclaim_abandoned_slot
  try_reclaim_abandoned_slot-quiet w =
      let h = w.cell.header in
      let u = look (quiet clock) (look (quiet clock) w) in
      if-cases (Reclaims (clock (w.tick + 1 + 1 + 1)) max_lease_age w.cell) (h.state == slot_free)
        (false, u)
        (reclaim_observed (quiet clock) max_lease_age h.gen h.state (look (quiet clock) u))
        (λ free. (ground arith, refl)) (λ held. reclaim_observed-quiet (look (quiet clock) u) held)

-- However the others interfere, a call of `TryReclaimAbandonedSlot` that answers true freed the slot
-- itself: it loaded a state that is not FREE, and twice the same lease, which was written and is older
-- than the tolerated age; then the generation that it had loaded stood at the access that advanced it,
-- and the state that it had loaded stood at the access that set it to FREE. A call that answers false
-- made only loads and advances of the generation. When nobody interferes, it answers whether the slot
-- is reclaimable at the time of its third access; it frees exactly such a slot, in a new generation,
-- and leaves any other cell as it was.
pub try_reclaim_abandoned_slot-Reclaims :
    (e : Env) (clock : ℕ → ℕ) (max_lease_age : ℕ) (w : World)
    → TriesReclaim e max_lease_age w (try_reclaim_abandoned_slot e max_lease_age w)
      × Reclaims
          (clock (w.tick + 1 + 1 + 1))
          max_lease_age
          w.cell
          (try_reclaim_abandoned_slot (quiet clock) max_lease_age w)
try_reclaim_abandoned_slot-Reclaims e clock max_lease_age w = (
  try_reclaim_abandoned_slot-TriesReclaim e max_lease_age w,
  try_reclaim_abandoned_slot-quiet clock max_lease_age w,
)
