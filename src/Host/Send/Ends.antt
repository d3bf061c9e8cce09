-- ===== src/Host/Send/Ends.antt =====
-- How `SendToSlot` and `Send` end, whatever the other parties do to the slots, and where the request
-- lies.
use shm.Base.{
  ℕ, ◌≤◌, ◌<◌, ◌≡◌, ◌≢◌, ◌⊎◌, inl, inr, refl, Bool, true, false, not, Option, none, some, List,
  arith, length, ltb, ◌==◌, if-cases,
}
use shm.WaitStrategy.Laws.{Returns}
use shm.Slot.{slot_free, Env, World}
use shm.Slot.Claim.{Reaches}
use shm.Slot.Exchange.{
  timeout, buffer_too_small, invalid_args, not_connected, resource_exhausted, internal_error,
  protocol_violation, SendResult, success, failure, Slot, Sent, abs_size, is_foreign,
  effective_timeout,
}
use shm.Slot.Exchange.Outcome.{EndsWith, Ended, send_acquired-Ended}
use shm.Slot.Acquire.{acquire_specific_slot}
use shm.Slot.Acquire.Outcome.{TookFrom, Acquires, Expired, acquire_specific_slot-Acquires}
use shm.Host.Send.{Request, submit_bytes, submit, submit_acquired, send_to_slot, put_request}

-- Where each result of a call leaves a slot that it acquired.
abbrev pub Leaves : Slot → Request → SendResult → World → Type 0
Leaves s q (success bytes) v = (length bytes ≤ s.max_resp_size) × (v.cell.header.state ≡ slot_free)
Leaves s q (failure timeout) v = v.cell.active_wait ≡ false
Leaves s q (failure buffer_too_small) v =
    (s.max_req_size < abs_size q.size) × (v.cell.header.state ≡ slot_free)
Leaves s q (failure invalid_args) v =
    (q.bytes ≡ none) × ((q.size ≢ 0) × (v.cell.header.state ≡ slot_free))
Leaves s q (failure protocol_violation) v = v.cell.header.state ≡ slot_free
Leaves s q (failure internal_error) v = v.cell.header.state ≡ slot_free
Leaves s q (failure not_connected) v = ⊥
Leaves s q (failure resource_exhausted) v = ⊥

of_EndsWith :
    (s : Slot) (slot_idx : ℕ) (q : Request) (w v : World) (r : SendResult)
    → is_foreign s slot_idx ≡ false
    → EndsWith s slot_idx q.size w r v
    → Leaves s q r v
of_EndsWith s i q w v (success bytes) f h = h
of_EndsWith s i q w v (failure timeout) f h = h
of_EndsWith s i q w v (failure buffer_too_small) f h = (h.0, h.1)
of_EndsWith s i q w v (failure invalid_args) f h = absurd cc
of_EndsWith s i q w v (failure protocol_violation) f h = h
of_EndsWith s i q w v (failure internal_error) f h = h
of_EndsWith s i q w v (failure not_connected) f h = h
of_EndsWith s i q w v (failure resource_exhausted) f h = h

abbrev pub LeavesIt : Slot → Request → Option Sent → Type 0
LeavesIt s q = Returns (λ r. Leaves s q r.result r.world)

of_Ended :
    (s : Slot) (slot_idx : ℕ) (q : Request) (w : World) (o : Option Sent)
    → is_foreign s slot_idx ≡ false
    → Ended s slot_idx q.size w o
    → LeavesIt s q o
of_Ended s i q w none f h = tt
of_Ended s i q w (some r) f h = of_EndsWith s i q w r.world r.result f h

submit_bytes-Leaves :
    (e : Env) (fuel : ℕ) (s : Slot) (slot_idx : ℕ) (q : Request) (w : World) (b : Option (List ℕ))
    → q.bytes ≡ b
    → q.size ≢ 0
    → is_foreign s slot_idx ≡ false
    → LeavesIt s q (submit_bytes e fuel s slot_idx q b w)
unfolding submit_bytes
submit_bytes-Leaves e fuel s i q w none g z f = (g, (z, refl))
submit_bytes-Leaves e fuel s i q w (some bytes) g z f =
    if-cases (LeavesIt s q) (ltb s.max_req_size (abs_size q.size)) _ _
      (λ large. (ground (arith, large), refl))
      (λ fits. of_Ended s i q _ _ f (
        send_acquired-Ended e fuel s i q.size q.msg_type q.timeout_ms
          (put_request e s.max_req_size q.size bytes w)))

pub submit-Leaves :
    (e : Env) (fuel : ℕ) (s : Slot) (slot_idx : ℕ) (q : Request) (w : World)
    → is_foreign s slot_idx ≡ false
    → LeavesIt s q (submit e fuel s slot_idx q w)
unfolding submit
submit-Leaves e fuel s i q w f =
    if-cases (LeavesIt s q) (not (q.size == 0)) _ _
      (λ more. submit_bytes-Leaves e fuel s i q w q.bytes refl (ground (arith, more)) f)
      (λ nothing.
        of_Ended s i q w _ f (send_acquired-Ended e fuel s i q.size q.msg_type q.timeout_ms w))

-- The end of a call of `SendToSlot` that began at `w`: it took the slot by a claim that was won, went on
-- from there with the request to its end, and left the slot as its result says; or it had no slot.
abbrev pub EndsOn : Env → ℕ → Bool → Slot → ℕ → Request → World → Option Sent → Type 0
EndsOn e fuel running s slot_idx q w = Returns (λ r.
    ((v : World) × (TookFrom e w v
        × ((submit e fuel s slot_idx q v ≡ some r) × Leaves s q r.result r.world)))
    ⊎ ((r.result ≡ failure resource_exhausted)
        × ((((running ≡ false) ⊎ (is_foreign s slot_idx ≡ true)) × (r.world ≡ w))
            ⊎ (Reaches e w r.world × Expired e (effective_timeout s q.timeout_ms) w.tick r.world))))

of_Leaves :
    (e : Env) (fuel : ℕ) (running : Bool) (s : Slot) (slot_idx : ℕ) (q : Request) (w v : World)
    (o : Option Sent)
    → TookFrom e w v
    → submit e fuel s slot_idx q v ≡ o
    → LeavesIt s q o
    → EndsOn e fuel running s slot_idx q w o
of_Leaves e fuel running s i q w v none won back h = tt
of_Leaves e fuel running s i q w v (some r) won back h = inl (v, (won, (back, h)))

submit_acquired-EndsOn :
    (e : Env) (fuel : ℕ) (running : Bool) (s : Slot) (slot_idx : ℕ) (q : Request) (w : World)
    (o : Option (Bool × World))
    → Acquires e running s slot_idx q.timeout_ms w o
    → EndsOn e fuel running s slot_idx q w (submit_acquired e fuel s slot_idx q o)
unfolding submit_acquired
submit_acquired-EndsOn e fuel running s i q w none h = tt
submit_acquired-EndsOn e fuel running s i q w (some (false, v)) h = inr (refl, h)
submit_acquired-EndsOn e fuel running s i q w (some (true, v)) (on, (f, won)) =
    of_Leaves e fuel running s i q w v _ won refl (submit-Leaves e fuel s i q v f)

-- However the other parties behave, a call of `SendToSlot` that returns has taken the slot by a claim
-- that was won: from its start it made only loads and advances of the generation, up to an access that
-- saw the slot free or as the claim had loaded it, and set it to BUSY. From there the request went out,
-- and the call leaves the slot FREE after a response, of which it hands out no more than the capacity,
-- after a violation or an error of the peer, and after it refused a request that has no data or is too
-- large; after a timeout it leaves the flag down. Or the call is refused for want of a slot: the host is
-- not running or the index is no host slot's, and nothing changed, or its finite timeout passed before
-- it had the slot, and it made only loads and advances of the generation.
pub send_to_slot-EndsOn :
    (e : Env) (fuel : ℕ) (running : Bool) (s : Slot) (slot_idx : ℕ) (q : Request) (w : World)
    → EndsOn e fuel running s slot_idx q w (send_to_slot e fuel running s slot_idx q w)
unfolding send_to_slot
send_to_slot-EndsOn e fuel running s i q w =
    submit_acquired-EndsOn e fuel running s i q w
      (acquire_specific_slot e fuel running s i q.timeout_ms w)
      (acquire_specific_slot-Acquires e fuel running s i q.timeout_ms w)
