-- ===== src/Slot/Pool/Acquire/Outcome.antt =====
-- What `AcquireSlot` answers, whatever the others do to the slots.
use shm.Base.{
  ℕ, zero, suc, ◌%◌, ◌<◌, ◌≡◌, refl, Bool, true, false, ◌&&◌, Option, none, some, arith, ltb,
  if-cases,
}
use native.Mathlib.Nat.{mod-lt}
use shm.Slot.{Env, World, try_claim_slot, try_reclaim_abandoned_slot}
use shm.Slot.Claim.{Reaches, Won, TriesClaim, lost-Reaches, try_claim_slot-TriesClaim}
use shm.Slot.Reclaim.{Freed, TriesReclaim, try_reclaim_abandoned_slot-TriesReclaim}
use shm.Slot.Pool.{Pool, world_at, with_world}
use shm.Slot.Pool.Acquire.{
  Acquired, claim_at, is_wrap, next_idx, after_miss, reclaim_from, acquire_from, acquire_by_hint,
  acquire_cached, acquire_slot,
}

-- The slots that a call reaches from `p`: it moves the hint, passes a slot by loads and by advances of
-- its generation, and frees an abandoned slot by a reclaim that is won.
pub data ReachesPool (e : ℕ → Env) (threshold : ℕ) (p : Pool) : Pool → Type 0 where
  begins : ReachesPool e threshold p p
  hints :
      {q : Pool} (n : ℕ)
      → ReachesPool e threshold p q
      → ReachesPool e threshold p (record q { next_slot = n })
  passes :
      {q : Pool} (i : ℕ) (v : World)
      → ReachesPool e threshold p q
      → Reaches (e i) (world_at i q) v
      → ReachesPool e threshold p (with_world i q v)
  frees :
      {q : Pool} (i : ℕ) (v : World)
      → ReachesPool e threshold p q
      → Freed (e i) threshold (world_at i q) v
      → ReachesPool e threshold p (with_world i q v)

-- From slots that the call reached, slot `i` was taken by a claim that was won, and no other slot was
-- touched by it.
abbrev pub Took : (ℕ → Env) → ℕ → ℕ → Pool → Pool → Type 0
Took e threshold i p t =
    (q : Pool) × ((v : World) × (ReachesPool e threshold p q
        × (Won (e i) (world_at i q) v × (t ≡ with_world i q v))))

-- What a call answers, by its slot, and with the thread's index and the slots that it leaves.
abbrev pub AnswersSlot : (ℕ → Env) → ℕ → Bool → ℕ → Pool → Option ℕ → ℕ → Pool → Type 0
AnswersSlot e threshold running num_slots p none c q = (running ≡ false) × (q ≡ p)
AnswersSlot e threshold running num_slots p (some i) c q =
    (running ≡ true) × ((i < num_slots) × ((c ≡ i) × Took e threshold i p q))

abbrev pub TakesAny : (ℕ → Env) → ℕ → Bool → ℕ → Pool → Option Acquired → Type 0
TakesAny e threshold running num_slots p none = Unit
TakesAny e threshold running num_slots p (some a) =
    AnswersSlot e threshold running num_slots p a.slot a.cached a.pool

module _ (e : ℕ → Env) (threshold num_slots : ℕ) (p : Pool) where
  abbrev Here : Pool → Type 0
  Here = ReachesPool e threshold p

  took :
      (i : ℕ) (q : Pool)
      → Here q
      → (claim_at e i q).0 ≡ true
      → Took e threshold i p (claim_at e i q).1
  unfolding claim_at
  took i q r won =
      of (try_claim_slot (e i) (world_at i q)) (try_claim_slot-TriesClaim (e i) (world_at i q)) won
    where
      of :
          (a : Bool × World)
          → TriesClaim (e i) (world_at i q) a
          → a.0 ≡ true
          → Took e threshold i p (with_world i q a.1)
      of (true, v) h g = (q, (v, (r, (h, refl))))
      of (false, v) h g = absurd cc

  passed : (i : ℕ) (q : Pool) → Here q → (claim_at e i q).0 ≡ false → Here (claim_at e i q).1
  unfolding claim_at
  passed i q r lost = passes i (try_claim_slot (e i) (world_at i q)).1 r (
      lost-Reaches (e i) (world_at i q) (try_claim_slot (e i) (world_at i q))
        (try_claim_slot-TriesClaim (e i) (world_at i q)) lost)

  reclaim_from-Here : (i k : ℕ) (q : Pool) → Here q → Here (reclaim_from e threshold i k q)
  unfolding reclaim_from
  reclaim_from-Here i zero q r = r
  reclaim_from-Here i (suc k) q r =
      reclaim_from-Here (suc i) k
        (with_world i q (try_reclaim_abandoned_slot (e i) threshold (world_at i q)).1)
        (of (try_reclaim_abandoned_slot (e i) threshold (world_at i q))
          (try_reclaim_abandoned_slot-TriesReclaim (e i) threshold (world_at i q)))
    where
      of :
          (a : Bool × World)
          → TriesReclaim (e i) threshold (world_at i q) a
          → Here (with_world i q a.1)
      of (true, v) h = frees i v r h
      of (false, v) h = passes i v r h

  after_miss-Here : (idx : ℕ) (q : Pool) → Here q → Here (after_miss e threshold num_slots idx q)
  unfolding after_miss
  after_miss-Here idx q r =
      if-cases Here (is_wrap num_slots idx && ltb 0 threshold) _ _
        (λ on. reclaim_from-Here 0 num_slots q r) (λ off. r)

  acquire_from-TakesAny :
      (fuel idx : ℕ) (q : Pool)
      → idx < num_slots
      → Here q
      → TakesAny e threshold true num_slots p (acquire_from e threshold num_slots fuel idx q)
  unfolding acquire_from
  acquire_from-TakesAny zero idx q l r = tt
  acquire_from-TakesAny (suc fuel) idx q l r =
      if-cases (TakesAny e threshold true num_slots p) (claim_at e idx q).0 _ _
        (λ won. (refl, (l, (refl, took idx q r won))))
        (λ lost.
          acquire_from-TakesAny fuel (next_idx num_slots idx) _ (ground (arith, l))
            (after_miss-Here idx (claim_at e idx q).1 (passed idx q r lost)))

  acquire_by_hint-TakesAny :
      (fuel : ℕ) (q : Pool)
      → 0 < num_slots
      → Here q
      → TakesAny e threshold true num_slots p (acquire_by_hint e threshold num_slots fuel q)
  unfolding acquire_by_hint
  acquire_by_hint-TakesAny fuel q l r =
      acquire_from-TakesAny fuel (q.next_slot % num_slots) _ (mod-lt q.next_slot l) (hints _ r)

-- Whatever the others do, an answer of `AcquireSlot` means what it should.
pub acquire_slot-TakesAny :
    (e : ℕ → Env) (threshold : ℕ) (running : Bool) (num_slots fuel cached : ℕ) (p : Pool)
    → 0 < num_slots
    → TakesAny e threshold running num_slots p
        (acquire_slot e threshold running num_slots fuel cached p)
unfolding acquire_slot acquire_cached
acquire_slot-TakesAny e threshold false num_slots fuel cached p l = (refl, refl)
acquire_slot-TakesAny e threshold true num_slots fuel cached p l =
    if-cases (TakesAny e threshold true num_slots p) (ltb cached num_slots) _ _
      (λ known.
        if-cases (TakesAny e threshold true num_slots p) (claim_at e cached p).0 _ _
          (λ won. (
            refl,
            (ground (arith, known), (refl, took e threshold num_slots p cached p begins won)),
          ))
          (λ lost.
            acquire_by_hint-TakesAny e threshold num_slots p fuel (claim_at e cached p).1 l
              (passed e threshold num_slots p cached p begins lost)))
      (λ unknown. acquire_by_hint-TakesAny e threshold num_slots p fuel p l begins)
