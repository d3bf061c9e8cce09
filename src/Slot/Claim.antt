-- ===== src/Slot/Claim.antt =====
-- What a claim and a reclaim do to a slot: what they won when they answer true, whatever the others
-- did in between, and exactly what they do when nobody interferes.
use shm.Base.{
  ℕ, ◌+◌, ◌≡◌, ◌⊎◌, inl, inr, refl, sym, ap, Bool, true, false, not, ◌&&◌, ◌||◌, arith, ◌==◌,
  if◌then◌else◌, add64, Bool-cases, if-cases,
}
use mathlib.Core.Path.{subst}
use shm.Slot.{
  slot_free, slot_busy, Cell, Env, World, look, with_header, store_lease, cas_state, cas_gen,
  is_stealable, claim_state, claim_free, steal, steal_if_idle, claim_observed, try_claim_slot,
}

abbrev pub set_state : ℕ → World → World
set_state x = with_header (λ h. record h { state = x })

-- An advance of the generation, at one access.
abbrev pub bump : Env → World → World
bump e w = with_header (λ h. record h { gen = add64 h.gen 1 }) (look e w)

-- The worlds that a call reaches from `w` by loads and by advances of the generation: it stores nothing
-- else, so the state there is what the others left.
pub data Reaches (e : Env) (w : World) : World → Type 0 where
  starts : Reaches e w w
  loads : {u : World} → Reaches e w u → Reaches e w (look e u)
  bumps : {u : World} → Reaches e w u → Reaches e w (bump e u)

pub Reaches-trans : {e : Env} {w u v : World} → Reaches e w u → Reaches e u v → Reaches e w v
Reaches-trans r starts = r
Reaches-trans r (loads s) = loads (Reaches-trans r s)
Reaches-trans r (bumps s) = bumps (Reaches-trans r s)

-- The two answers of a call.
abbrev pub Ends : (World → Type 0) → (World → Type 0) → Bool × World → Type 0
Ends P Q (true, v) = P v
Ends P Q (false, v) = Q v

pub Ends-map :
    {P P' Q Q' : World → Type 0}
    → ((v : World) → P v → P' v)
    → ((v : World) → Q v → Q' v)
    → (r : Bool × World) → Ends P Q r
    → Ends P' Q' r
Ends-map f g (true, v) p = f v p
Ends-map f g (false, v) q = g v q

-- The slot was set to BUSY from the world `c`, and its lease stamped at the access behind.
abbrev pub IsTaken : Env → World → World → Type 0
IsTaken e c v = v ≡ store_lease e (set_state slot_busy c)

-- A claim of a free slot: its second access saw the state FREE, and behind the advance of the
-- generation the state was still FREE at the access that set it to BUSY.
abbrev pub WonFree : Env → World → World → Type 0
WonFree e w v =
    let s = look e (look e w) in
    let c = look e (bump e s) in
    (s.cell.header.state ≡ slot_free) × ((c.cell.header.state ≡ slot_free) × IsTaken e c v)

-- The theft of an abandoned slot: its second access saw a state that may be stolen, its third one no
-- thread that waits; at the advance of the generation this was what the first access had seen, and
-- the state what the second one had seen at the access that set it to BUSY.
abbrev pub WonStolen : Env → World → World → Type 0
WonStolen e w v =
    let g = look e w in
    let s = look e g in
    let a = look e s in
    let c = look e (bump e a) in
    (is_stealable s.cell.header.state ≡ true)
    × ((a.cell.active_wait ≡ false)
        × (((look e a).cell.header.gen ≡ g.cell.header.gen)
            × ((c.cell.header.state ≡ s.cell.header.state) × IsTaken e c v)))

-- A claim that began at `w` and was won.
abbrev pub Won : Env → World → World → Type 0
Won e w v = WonFree e w v ⊎ WonStolen e w v

abbrev Claims : Env → ℕ → World → Bool × World → Type 0
Claims e current w =
    Ends (λ v. ((look e w).cell.header.state ≡ current) × IsTaken e (look e w) v)
      (λ v. v ≡ look e w)

claim_state-Claims :
    (e : Env) (current : ℕ) (w : World) → Claims e current w (claim_state e current w)
unfolding claim_state cas_state
claim_state-Claims e current w = elim (Bool-cases ((look e w).cell.header.state == current)) [
  | inl same ↦ rw same (ground arith, refl)
  | inr other ↦ rw other refl
]

-- An exchange of the generation that succeeds is an advance of it.
pub cas_gen-won :
    (e : Env) (gen : ℕ) (w : World)
    → ((look e w).cell.header.gen == gen) ≡ true
    → cas_gen e gen w ≡ (true, bump e w)
unfolding cas_gen
cas_gen-won e gen w same =
    let k : gen ≡ (look e w).cell.header.gen = ground (arith, same) in
    rw same (ap (λ g. (true, with_header (λ h. record h { gen = add64 g 1 }) (look e w))) k)

pub cas_gen-lost :
    (e : Env) (gen : ℕ) (w : World)
    → ((look e w).cell.header.gen == gen) ≡ false
    → cas_gen e gen w ≡ (false, look e w)
unfolding cas_gen
cas_gen-lost e gen w other = rw other refl

abbrev Steals : Env → ℕ → ℕ → World → Bool × World → Type 0
Steals e gen current w =
    Ends
      (λ v.
        ((look e w).cell.header.gen ≡ gen)
        × (((look e (bump e w)).cell.header.state ≡ current) × IsTaken e (look e (bump e w)) v))
      (Reaches e w)

reached : {e : Env} {w u v : World} → Reaches e w u → v ≡ u → Reaches e w v
reached {e} {w} r q = subst (Reaches e w) (sym q) r

steal-Steals :
    (e : Env) (gen current : ℕ) (w : World) → Steals e gen current w (steal e gen current w)
unfolding steal
steal-Steals e gen current w = elim (Bool-cases ((look e w).cell.header.gen == gen)) [
  | inl same ↦ rw (cas_gen-won e gen w same) (
      Ends-map (λ v p. (ground (arith, same), p)) (λ v q. reached (loads (bumps starts)) q)
        (claim_state e current (bump e w)) (claim_state-Claims e current (bump e w)))
  | inr other ↦ rw (cas_gen-lost e gen w other) (loads starts)
]

-- However the others interfere: a claim that answers true was won, and one that answers false reached
-- its end by loads and advances of the generation.
abbrev pub TriesClaim : Env → World → Bool × World → Type 0
TriesClaim e w = Ends (Won e w) (Reaches e w)

pub lost-Reaches :
    (e : Env) (u : World) (r : Bool × World) → TriesClaim e u r → r.0 ≡ false → Reaches e u r.1
lost-Reaches e u (true, v) h q = absurd cc
lost-Reaches e u (false, v) h q = h

module _ (e : Env) (w : World) where
  abbrev g : World
  g = look e w

  abbrev s : World
  s = look e g

  steal_if_idle-TriesClaim :
      is_stealable s.cell.header.state ≡ true
      → TriesClaim e w (steal_if_idle e g.cell.header.gen s.cell.header.state (look e s))
  unfolding steal_if_idle
  steal_if_idle-TriesClaim loose =
      if-cases (TriesClaim e w) (not (look e s).cell.active_wait) _ _
        (λ idle.
          Ends-map (λ v p. inr (loose, (ground (arith, idle), p)))
            (λ v q. Reaches-trans (loads (loads (loads starts))) q)
            (steal e g.cell.header.gen s.cell.header.state (look e s))
            (steal-Steals e g.cell.header.gen s.cell.header.state (look e s)))
        (λ waits. loads (loads (loads starts)))

  claim_free-TriesClaim : s.cell.header.state ≡ slot_free → TriesClaim e w (claim_free e s)
  unfolding claim_free
  claim_free-TriesClaim free =
      Ends-map (λ v p. inl (free, p)) (λ v q. reached (loads (bumps (loads (loads starts)))) q)
        (claim_state e slot_free (bump e s)) (claim_state-Claims e slot_free (bump e s))

-- However the others interfere, a call of `tryClaimSlot` that answers true took the slot itself: the
-- access that set it to BUSY saw it FREE behind an advance of the generation, or saw the state that
-- may be stolen and that the call had loaded, behind an exchange of the generation that it had loaded
-- before and with no thread seen to wait; and it stamped the lease with the time right behind. A call
-- that answers false made nothing but loads and advances of the generation.
pub try_claim_slot-TriesClaim : (e : Env) (w : World) → TriesClaim e w (try_claim_slot e w)
unfolding try_claim_slot claim_observed
try_claim_slot-TriesClaim e w =
    let s = look e (look e w) in
    if-cases (TriesClaim e w) (s.cell.header.state == slot_free) _ _
      (λ free. claim_free-TriesClaim e w (ground (arith, free)))
      (λ other.
        if-cases (TriesClaim e w) (is_stealable s.cell.header.state) _ _
          (λ loose. steal_if_idle-TriesClaim e w loose) (λ guarded. loads (loads starts)))

-- Surroundings in which nobody interferes.
abbrev pub quiet : (ℕ → ℕ) → Env
quiet clock = record { peers = λ t c. c; clock = clock }

-- A slot that a claim may take: it is free, or in a state that may be stolen with no thread of the
-- host waiting on it.
abbrev pub is_claimable : Cell → Bool
is_claimable c = (c.header.state == slot_free) || (is_stealable c.header.state && not c.active_wait)

-- The cell once it is claimed at time `t`.
abbrev pub claimed : ℕ → Cell → Cell
claimed t c = record c {
  header = record c.header { state = slot_busy; lease = t; gen = add64 c.header.gen 1 };
}

-- The answer of an exact test-and-claim on a cell.
abbrev pub Takes : (ℕ → ℕ) → Cell → Bool × World → Type 0
Takes clock c (true, v) = (is_claimable c ≡ true) × ((t : ℕ) × (v.cell ≡ claimed (clock t) c))
Takes clock c (false, v) = (is_claimable c ≡ false) × (v.cell ≡ c)

module _ (clock : ℕ → ℕ) where
  -- The world behind the exchange of a claim that is won.
  abbrev taken : World → World
  taken w = store_lease (quiet clock) (set_state slot_busy (look (quiet clock) w))

  claim_state-quiet :
      (current : ℕ) (w : World)
      → (w.cell.header.state == current) ≡ true
      → claim_state (quiet clock) current w ≡ (true, taken w)
  unfolding claim_state cas_state
  claim_state-quiet current w h = rw h refl

  steal-quiet :
      (gen current : ℕ) (w : World)
      → (w.cell.header.gen == gen) ≡ true
      → (w.cell.header.state == current) ≡ true
      → steal (quiet clock) gen current w
        ≡ (true, taken (with_header (λ h. record h { gen = add64 gen 1 }) (look (quiet clock) w)))
  unfolding steal cas_gen
  steal-quiet gen current w g h = rw g (
      claim_state-quiet current
        (with_header (λ h. record h { gen = add64 gen 1 }) (look (quiet clock) w)) h)

  -- A test that says whether the cell is claimable decides between a claim that is won and none.
  Takes-if :
      (c : Cell) (test : Bool) (r : Bool × World) (v w : World) (t : ℕ)
      → is_claimable c ≡ test
      → r ≡ (true, v)
      → v.cell ≡ claimed (clock t) c
      → w.cell ≡ c
      → Takes clock c (if test then r else (false, w))
  Takes-if c true r v w t k won now same = rw won (k, (t, now))
  Takes-if c false r v w t k won now same = (k, same)

  steal_if_idle-quiet :
      (w : World)
      → is_stealable w.cell.header.state ≡ true
      → (w.cell.header.state == slot_free) ≡ false
      → Takes clock w.cell (steal_if_idle (quiet clock) w.cell.header.gen w.cell.header.state w)
  unfolding steal_if_idle
  steal_if_idle-quiet w loose other =
      let g = w.cell.header.gen in
      let v = with_header (λ h. record h { gen = add64 g 1 }) (look (quiet clock) w) in
      Takes-if w.cell (not w.cell.active_wait) (steal (quiet clock) g w.cell.header.state w)
        (taken v) w (w.tick + 1 + 1) (ground arith)
        (steal-quiet g w.cell.header.state w (ground arith) (ground arith)) refl refl

  claim_free-quiet :
      (w : World)
      → (w.cell.header.state == slot_free) ≡ true
      → Takes clock w.cell (claim_free (quiet clock) w)
  unfolding claim_free
  claim_free-quiet w free =
      let v = with_header (λ h. record h { gen = add64 h.gen 1 }) (look (quiet clock) w) in
      Takes-if w.cell true (claim_state (quiet clock) slot_free v) (taken v) w (w.tick + 1 + 1)
        (ground arith) (claim_state-quiet slot_free v free) refl refl

  claim_observed-quiet :
      (w : World) → Takes clock w.cell (claim_observed (quiet clock) w.cell.header.gen w)
  unfolding claim_observed
  claim_observed-quiet w =
      let g = w.cell.header.gen in
      let current = w.cell.header.state in
      if-cases (Takes clock w.cell) (current == slot_free) (claim_free (quiet clock) w)
        (if is_stealable current
          then steal_if_idle (quiet clock) g current (look (quiet clock) w)
          else (false, w))
        (λ free. claim_free-quiet w free)
        (λ other.
          if-cases (Takes clock w.cell) (is_stealable current)
            (steal_if_idle (quiet clock) g current (look (quiet clock) w)) (false, w)
            (λ loose. steal_if_idle-quiet (look (quiet clock) w) loose other)
            (λ guarded. (ground arith, refl)))

  -- When nobody interferes, `tryClaimSlot` answers whether the slot is claimable; it claims exactly
  -- such a slot, in a new generation and with a lease read from the clock, and leaves any other
  -- cell as it was. So it leaves a slot alone that is BUSY or DONE, or answered while its owner
  -- waits.
  pub try_claim_slot-quiet : (w : World) → Takes clock w.cell (try_claim_slot (quiet clock) w)
  unfolding try_claim_slot
  try_claim_slot-quiet w = claim_observed-quiet (look (quiet clock) (look (quiet clock) w))
