-- ===== src/GuestCall/Batch.antt =====
-- A batch of guest calls: its limit, and that without one every pending request is answered.
use shm.Base.{
  ℕ, suc, ◌+◌, ◌≤◌, ◌<◌, ◌≡◌, ◌≢◌, refl, Bool, true, false, ◌&&◌, List, [], ◌∷◌, arith, length, ltb,
  leb, if-cases, All,
}
use shm.Slot.{slot_req_ready, World}
use shm.Slot.Claim.{quiet}
use shm.GuestCall.{
  Handler, GuestSlot, Processed, bump, process_slot, process_from, process_guest_calls,
}
use shm.GuestCall.Answer.{IsAnswered, reply_to, Processes, process_slot-Processes}

-- What a batch of limit `limit` may do from a count of `processed`.
abbrev pub IsWithin : ℕ → ℕ → List GuestSlot → Processed → Type 0
IsWithin limit processed gs p =
    (processed ≤ p.count)
    × (p.count ≤ processed + length gs)
    × (length p.slots ≡ length gs)
    × (0 < limit → p.count ≤ limit)

bump-le : (b : Bool) (n : ℕ) → (n ≤ bump b n) × (bump b n ≤ suc n)
bump-le true n = omega arith
bump-le false n = omega arith

process_from-IsWithin :
    (handler : Handler) (fast_claim : Bool) (limit processed : ℕ) (gs : List GuestSlot)
    → (0 < limit → processed ≤ limit)
    → IsWithin limit processed gs (process_from handler fast_claim limit processed gs)
unfolding process_from
process_from-IsWithin handler fast_claim limit processed [] l = (omega arith, omega arith, refl, l)
process_from-IsWithin handler fast_claim limit processed (g ∷ gs) l =
    let r = process_slot g.env fast_claim g.slot handler g.world in
    let b = bump-le r.0 processed in
    let rest = process_from handler fast_claim limit (bump r.0 processed) gs in
    if-cases (IsWithin limit processed (g ∷ gs)) (ltb 0 limit && leb limit processed)
      (record { count = processed; slots = g ∷ gs })
      (record { count = rest.count; slots = record g { world = r.1 } ∷ rest.slots })
      (λ full. (omega arith, omega arith, refl, l))
      (λ room.
        let (more, few, same, capped) =
          process_from-IsWithin handler fast_claim limit (bump r.0 processed) gs
            (λ p. ground (arith, l p, b)) in
        (omega arith, omega arith, omega arith, capped))

process_guest_calls-IsWithin :
    (handler : Handler) (fast_claim : Bool) (limit : ℕ) (gs : List GuestSlot)
    → IsWithin limit 0 gs (process_guest_calls true handler fast_claim limit gs)
unfolding process_guest_calls
process_guest_calls-IsWithin handler fast_claim limit gs =
    process_from-IsWithin handler fast_claim limit 0 gs (λ p. omega arith)

-- A guest slot before and after a batch: a pending request is answered, another cell is left alone.
abbrev pub IsServed : Handler → GuestSlot → GuestSlot → Type 0
IsServed handler g h =
    (g.world.cell.header.state ≡ slot_req_ready
      → IsAnswered g.world.cell (reply_to g.slot handler g.world.cell) h.world.cell)
    × (g.world.cell.header.state ≢ slot_req_ready → h.world.cell ≡ g.world.cell)

abbrev pub AreServed : Handler → List GuestSlot → List GuestSlot → Type 0
AreServed handler [] [] = Unit
AreServed handler (g ∷ gs) (h ∷ hs) = IsServed handler g h × AreServed handler gs hs
AreServed handler _ _ = ⊥

Processes-IsServed :
    (clock : ℕ → ℕ) (handler : Handler) (g : GuestSlot) (r : Bool × World)
    → Processes clock g.slot handler g.world.cell r
    → IsServed handler g (record g { world = r.1 })
Processes-IsServed clock handler g (true, v) p = ((λ h. p.1), (λ h. absurd (h p.0)))
Processes-IsServed clock handler g (false, v) p = ((λ h. absurd (p.0 h)), (λ h. p.1))

process_from-AreServed :
    (clock : ℕ → ℕ) (handler : Handler) (fast_claim : Bool) (processed : ℕ) (gs : List GuestSlot)
    → All (λ g. g.env ≡ quiet clock) gs
    → AreServed handler gs (process_from handler fast_claim 0 processed gs).slots
unfolding process_from
process_from-AreServed clock handler fast_claim processed [] q = tt
process_from-AreServed clock handler fast_claim processed (g ∷ gs) (q, qs) =
    let r = process_slot g.env fast_claim g.slot handler g.world in
    (
      Processes-IsServed clock handler g r
          (rw q (process_slot-Processes clock fast_claim g.slot handler g.world)),
      process_from-AreServed clock handler fast_claim (bump r.0 processed) gs qs,
    )

process_guest_calls-AreServed :
    (clock : ℕ → ℕ) (handler : Handler) (fast_claim : Bool) (gs : List GuestSlot)
    → All (λ g. g.env ≡ quiet clock) gs
    → AreServed handler gs (process_guest_calls true handler fast_claim 0 gs).slots
unfolding process_guest_calls
process_guest_calls-AreServed clock handler fast_claim gs q =
    process_from-AreServed clock handler fast_claim 0 gs q

-- When nobody interferes, a call of `ProcessGuestCalls` on a running host without a limit answers
-- every request that is pending on a guest slot, and leaves the other slots as they were. However the
-- other parties behave, such a call with any limit counts at most one request for each guest slot,
-- and at most as many as the limit if that is positive.
pub process_guest_calls-Serves :
    (clock : ℕ → ℕ) (handler : Handler) (fast_claim : Bool) (gs : List GuestSlot) (limit : ℕ)
    (hs : List GuestSlot)
    → All (λ g. g.env ≡ quiet clock) gs
    → AreServed handler gs (process_guest_calls true handler fast_claim 0 gs).slots
      × IsWithin limit 0 hs (process_guest_calls true handler fast_claim limit hs)
process_guest_calls-Serves clock handler fast_claim gs limit hs q = (
  process_guest_calls-AreServed clock handler fast_claim gs q,
  process_guest_calls-IsWithin handler fast_claim limit hs,
)
