-- ===== src/Host/Send/Any.antt =====
-- How `Send` ends, on whichever slot of the host it goes out.
use shm.Base.{ℕ, ◌^◌, ◌<◌, ◌≡◌, ◌⊎◌, inl, inr, refl, ap, Bool, false, Option, none, some, arith}
use shm.WaitStrategy.Laws.{Returns}
use shm.Slot.{Env, World}
use shm.Slot.Exchange.{
  timeout, buffer_too_small, invalid_args, not_connected, resource_exhausted, internal_error,
  protocol_violation, SendResult, success, failure, Slot, Sent, is_foreign,
}
use shm.Slot.Pool.{Pool, world_at, with_world}
use shm.Slot.Pool.Cells.{put_cell_self}
use shm.Slot.Pool.Acquire.{Acquired}
use shm.Slot.Pool.Acquire.Outcome.{TakesAny, AnswersSlot, Took, acquire_slot-TakesAny}
use shm.Host.Send.{Request, SentAny, on_pool, submit_on, submit_any, submit, send}
use shm.Host.Send.Ends.{Leaves, LeavesIt, submit-Leaves}

-- The end of a call of `Send` that began at `p`: it took a slot by a claim that was won, went on from
-- there with the request to its end, and left the slot as its result says; or it had no slot.
abbrev pub EndsAny :
    (ℕ → Env) → ℕ → ℕ → Bool → ℕ → (ℕ → Slot) → Request → Pool → Option SentAny → Type 0
EndsAny e fuel threshold running num_slots slots q p = Returns (λ r.
    ((i : ℕ) × ((i < num_slots)
        × ((t : Pool) × (Took e threshold i p t
              × ((on_pool r.cached i slots t (submit (e i) fuel (slots i) i q (world_at i t))
                    ≡ some r)
                  × Leaves (slots i) q r.result (world_at i r.pool))))))
    ⊎ ((r.result ≡ failure resource_exhausted) × ((running ≡ false) × (r.pool ≡ p))))

-- What a result says is about the cell.
Leaves-cell :
    (s : Slot) (q : Request) (r : SendResult) (v v' : World)
    → v'.cell ≡ v.cell
    → Leaves s q r v
    → Leaves s q r v'
Leaves-cell s q (success bytes) v v' e h = rw e h
Leaves-cell s q (failure timeout) v v' e h = rw e h
Leaves-cell s q (failure buffer_too_small) v v' e h = rw e h
Leaves-cell s q (failure invalid_args) v v' e h = rw e h
Leaves-cell s q (failure protocol_violation) v v' e h = rw e h
Leaves-cell s q (failure internal_error) v v' e h = rw e h
Leaves-cell s q (failure not_connected) v v' e h = h
Leaves-cell s q (failure resource_exhausted) v v' e h = h

module _ (e : ℕ → Env) (fuel threshold : ℕ) (running : Bool) (num_slots : ℕ) (slots : ℕ → Slot)
    (q : Request) (p : Pool) where
  on_pool-EndsAny :
      (cached i : ℕ) (t : Pool) (o : Option Sent)
      → i < num_slots
      → Took e threshold i p t
      → submit (e i) fuel (slots i) i q (world_at i t) ≡ o
      → LeavesIt (slots i) q o
      → EndsAny e fuel threshold running num_slots slots q p (on_pool cached i slots t o)
  on_pool-EndsAny cached i t none l k back h = tt
  on_pool-EndsAny cached i t (some r) l k back h = inl (
    i,
    (
      l,
      (
        t,
        (
          k,
          (
            ap (on_pool cached i slots t) back,
            Leaves-cell (slots i) q r.result r.world (world_at i (with_world i t r.world))
                (put_cell_self t.cells i r.world.cell) h,
          ),
        ),
      ),
    ),
  )

  submit_on-EndsAny :
      (cached : ℕ) (t : Pool) (slot : Option ℕ)
      → ((i : ℕ) → (slots i).num_slots ≡ num_slots)
      → num_slots < 2 ^ 31
      → AnswersSlot e threshold running num_slots p slot cached t
      → EndsAny e fuel threshold running num_slots slots q p
          (submit_on e fuel slots q cached t slot)
  unfolding submit_on
  submit_on-EndsAny cached t none sized small h = inr (refl, h)
  submit_on-EndsAny cached t (some i) sized small (on, (l, (c, k))) =
      let mine : is_foreign (slots i) i ≡ false = ground (arith, sized i, l, small) in
      on_pool-EndsAny cached i t _ l k refl
        (submit-Leaves (e i) fuel (slots i) i q (world_at i t) mine)

  submit_any-EndsAny :
      (o : Option Acquired)
      → ((i : ℕ) → (slots i).num_slots ≡ num_slots)
      → num_slots < 2 ^ 31
      → TakesAny e threshold running num_slots p o
      → EndsAny e fuel threshold running num_slots slots q p (submit_any e fuel slots q o)
  unfolding submit_any
  submit_any-EndsAny none sized small h = tt
  submit_any-EndsAny (some a) sized small h = submit_on-EndsAny a.cached a.pool a.slot sized small h

  -- However the other parties behave, a call of `Send` on a host of at least one and less than 2^31
  -- slots that returns has taken one of them by a claim that was won: from its start it made loads,
  -- advances of generations and of the hint, and reclaims that were won, up to an access that saw the
  -- slot free or as the claim had loaded it, and set it to BUSY. From there the request went out, and the call leaves
  -- the slot FREE after a response, of which it hands out no more than the capacity, after a violation
  -- or an error of the peer, and after it refused a request that has no data or is too large; after a
  -- timeout it leaves the flag down. Or the call is refused for want of a slot because the host is not
  -- running, and nothing changed.
  pub send-EndsAny :
      (cached : ℕ)
      → 0 < num_slots
      → num_slots < 2 ^ 31
      → ((i : ℕ) → (slots i).num_slots ≡ num_slots)
      → EndsAny e fuel threshold running num_slots slots q p
          (send e fuel threshold running num_slots cached slots q p)
  unfolding send
  send-EndsAny cached some_slots small sized =
      submit_any-EndsAny _ sized small
        (acquire_slot-TakesAny e threshold running num_slots fuel cached p some_slots)
