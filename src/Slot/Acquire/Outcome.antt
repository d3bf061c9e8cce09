-- ===== src/Slot/Acquire/Outcome.antt =====
-- What `AcquireSpecificSlot` answers, whatever the others do to the slot.
use shm.Base.{
  ℕ, zero, suc, ◌≤◌, ◌<◌, ◌≡◌, ◌≢◌, ◌⊎◌, inl, inr, refl, Bool, true, false, not, ◌&&◌, Option, none,
  some, arith, leb, ◌==◌, if-cases, add64, Bool-cases,
}
use shm.Slot.{
  slot_free, Env, World, look, with_header, cas_state, cas_gen, claim_state, claim_free, steal,
  steal_if_idle, claim_observed, try_claim_slot, is_stealable,
}
use shm.Slot.Claim.{
  Reaches, starts, Reaches-trans, Won, TriesClaim, lost-Reaches, try_claim_slot-TriesClaim,
}
use shm.Slot.Exchange.{Slot, infinite, elapsed_ms, effective_timeout, is_foreign}
use shm.Slot.Acquire.{
  start_of, is_timed, next_retries, next_start, acquire_loop, acquire_specific_slot,
}

-- At an access behind number `t`.
abbrev pub After : ℕ → Bool × World → Type 0
After t r = t < r.1.tick

claim_state-After :
    (e : Env) (current t : ℕ) (w : World) → t ≤ w.tick → After t (claim_state e current w)
unfolding claim_state cas_state
claim_state-After e current t w l = elim (Bool-cases ((look e w).cell.header.state == current)) [
  | inl same ↦ rw same (omega (arith, l))
  | inr other ↦ rw other (omega (arith, l))
]

steal-After :
    (e : Env) (gen current t : ℕ) (w : World) → t ≤ w.tick → After t (steal e gen current w)
unfolding steal cas_gen
steal-After e gen current t w l = elim (Bool-cases ((look e w).cell.header.gen == gen)) [
  | inl same ↦ rw same (
      claim_state-After e current t (with_header (λ h. record h { gen = add64 gen 1 }) (look e w))
        (omega (arith, l)))
  | inr other ↦ rw other (omega (arith, l))
]

claim_observed-After :
    (e : Env) (gen t : ℕ) (w : World) → t < w.tick → After t (claim_observed e gen w)
unfolding claim_observed claim_free steal_if_idle
claim_observed-After e gen t w l =
    let current = w.cell.header.state in
    if-cases (After t) (current == slot_free) _ _
      (λ free.
        claim_state-After e slot_free t
          (with_header (λ h. record h { gen = add64 h.gen 1 }) (look e w)) (omega (arith, l)))
      (λ other.
        if-cases (After t) (is_stealable current) _ _
          (λ loose.
            if-cases (After t) (not (look e w).cell.active_wait) _ _
              (λ idle. steal-After e gen current t (look e w) (omega (arith, l)))
              (λ waiting. omega (arith, l)))
          (λ guarded. l))

pub try_claim_slot-After : (e : Env) (w : World) → After w.tick (try_claim_slot e w)
unfolding try_claim_slot
try_claim_slot-After e w =
    claim_observed-After e (look e w).cell.header.gen w.tick (look e (look e w)) (omega arith)

-- The time was over: between two readings of the clock behind access `t` lies the timeout.
abbrev pub Expired : Env → ℕ → ℕ → World → Type 0
Expired e timeout_ms t v =
    (timeout_ms ≢ infinite)
    × ((s : ℕ) × ((t ≤ s) × ((s ≤ v.tick) × (timeout_ms ≤ elapsed_ms e (e.clock s) v))))

-- A `start` that was taken behind access `t`, if it was.
abbrev Started : Env → ℕ → World → Option ℕ → Type 0
Started e t w none = Unit
Started e t w (some start) = (s : ℕ) × ((start ≡ e.clock s) × ((t ≤ s) × (s ≤ w.tick)))

-- The slot was taken by a claim that was won, and that began where the call had come by loads and
-- advances of the generation.
abbrev pub TookFrom : Env → World → World → Type 0
TookFrom e w v = (u : World) × (Reaches e w u × Won e u v)

-- The answer of a loop of a call that began at `w`.
abbrev Loops : Env → ℕ → World → Option (Bool × World) → Type 0
Loops e timeout_ms w none = Unit
Loops e timeout_ms w (some (true, v)) = TookFrom e w v
Loops e timeout_ms w (some (false, v)) = Reaches e w v × Expired e timeout_ms w.tick v

loop_taken :
    (e : Env) (timeout_ms : ℕ) (w u : World) (r : Bool × World)
    → Reaches e w u
    → TriesClaim e u r
    → r.0 ≡ true
    → Loops e timeout_ms w (some r)
loop_taken e timeout_ms w u (true, v) p h q = (u, (p, h))
loop_taken e timeout_ms w u (false, v) p h q = absurd cc

start_of-Started :
    (e : Env) (t : ℕ) (w v : World) (start : Option ℕ)
    → Started e t w start
    → t ≤ v.tick
    → w.tick ≤ v.tick
    → Started e t v (some (start_of e start v))
start_of-Started e t w v none h l m = (v.tick, (refl, (l, omega arith)))
start_of-Started e t w v (some start) (s, (q, (a, b))) l m = (s, (q, (a, omega (arith, b, m))))

keep-Started :
    (e : Env) (t : ℕ) (w v : World) (start : Option ℕ)
    → Started e t w start
    → w.tick ≤ v.tick
    → Started e t v start
keep-Started e t w v none h m = tt
keep-Started e t w v (some start) (s, (q, (a, b))) m = (s, (q, (a, omega (arith, b, m))))

loop_expires :
    (e : Env) (timeout_ms retries t start : ℕ) (v : World)
    → Started e t v (some start)
    → (is_timed timeout_ms retries && leb timeout_ms (elapsed_ms e start v)) ≡ true
    → Expired e timeout_ms t v
loop_expires e timeout_ms retries t start v (s, (q, (a, b))) late =
    let k : timeout_ms ≤ elapsed_ms e start v = ground (arith, late) in
    ((λ i. ground (arith, late)), (s, (a, (b, (rw q at k)))))

acquire_loop-Loops :
    (e : Env) (timeout_ms fuel retries : ℕ) (start : Option ℕ) (w0 w : World)
    → Reaches e w0 w
    → w0.tick ≤ w.tick
    → Started e w0.tick w start
    → Loops e timeout_ms w0 (acquire_loop e timeout_ms fuel retries start w)
unfolding acquire_loop
acquire_loop-Loops e timeout_ms zero retries start w0 w p l h = tt
acquire_loop-Loops e timeout_ms (suc fuel) retries start w0 w p l h =
    let t = w0.tick in
    let r = try_claim_slot e w in
    let a = try_claim_slot-After e w in
    let c = try_claim_slot-TriesClaim e w in
    let began = start_of-Started e t w r.1 start h (omega (arith, a, l)) (omega (arith, a)) in
    if-cases (Loops e timeout_ms w0) r.0 _ _ (λ won. loop_taken e timeout_ms w0 w r p c won)
      (λ lost.
        let q = Reaches-trans p (lost-Reaches e w r c lost) in
        if-cases (Loops e timeout_ms w0)
          (is_timed timeout_ms retries && leb timeout_ms (elapsed_ms e (start_of e start r.1) r.1))
          _ _
          (λ late. (q, loop_expires e timeout_ms retries t (start_of e start r.1) r.1 began late))
          (λ early.
            acquire_loop-Loops e timeout_ms fuel (next_retries retries)
              (next_start e timeout_ms retries start r.1) w0 r.1 q (omega (arith, a, l))
              (if-cases (Started e t r.1) (is_timed timeout_ms retries) _ _ (λ timed. began)
                (λ fast. keep-Started e t w r.1 start h (omega (arith, a))))))

-- What a call answers.
abbrev pub Acquires : Env → Bool → Slot → ℕ → ℕ → World → Option (Bool × World) → Type 0
Acquires e running s slot_idx timeout_ms w none = Unit
Acquires e running s slot_idx timeout_ms w (some (true, v)) =
    (running ≡ true) × ((is_foreign s slot_idx ≡ false) × TookFrom e w v)
Acquires e running s slot_idx timeout_ms w (some (false, v)) =
    (((running ≡ false) ⊎ (is_foreign s slot_idx ≡ true)) × (v ≡ w))
    ⊎ (Reaches e w v × Expired e (effective_timeout s timeout_ms) w.tick v)

of_loop :
    (e : Env) (s : Slot) (slot_idx timeout_ms : ℕ) (w : World) (o : Option (Bool × World))
    → is_foreign s slot_idx ≡ false
    → Loops e (effective_timeout s timeout_ms) w o
    → Acquires e true s slot_idx timeout_ms w o
of_loop e s slot_idx timeout_ms w none f h = tt
of_loop e s slot_idx timeout_ms w (some (true, v)) f h = (refl, (f, h))
of_loop e s slot_idx timeout_ms w (some (false, v)) f h = inr h

-- Whatever the others do, an answer of `AcquireSpecificSlot` means what it should.
pub acquire_specific_slot-Acquires :
    (e : Env) (fuel : ℕ) (running : Bool) (s : Slot) (slot_idx timeout_ms : ℕ) (w : World)
    → Acquires e running s slot_idx timeout_ms w
        (acquire_specific_slot e fuel running s slot_idx timeout_ms w)
unfolding acquire_specific_slot
acquire_specific_slot-Acquires e fuel false s slot_idx timeout_ms w = inl (inl refl, refl)
acquire_specific_slot-Acquires e fuel true s slot_idx timeout_ms w =
    if-cases (Acquires e true s slot_idx timeout_ms w) (is_foreign s slot_idx) _ _
      (λ foreign. inl (inr foreign, refl))
      (λ own. of_loop e s slot_idx timeout_ms w _ own (
        acquire_loop-Loops e (effective_timeout s timeout_ms) fuel 0 none w w starts (omega arith)
          tt))
