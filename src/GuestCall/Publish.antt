-- ===== src/GuestCall/Publish.antt =====
-- The publication of a response, whatever the others do: nothing is written to a slot that is not
-- locked, and what is published fits the slot.
use shm.Base.{
  ℕ, ◌≤◌, ◌≡◌, ◌≢◌, ◌⊎◌, refl, Bool, true, false, arith, ltb, ◌==◌, if◌then◌else◌, Bool-cases, inl,
  inr, if-cases,
}
use shm.Slot.{slot_resp_ready, slot_done, slot_busy, Env, World, look, cas_state}
use shm.Slot.Claim.{set_state, Ends}
use shm.Slot.Exchange.{Slot, abs_size}
use shm.GuestCall.{
  Handled, Handler, lock_for_publish, signal_caller, publish_response, write_response, respond,
  respond_handled, run_handler, with_resp_buffer, answer_request,
}

-- The world behind the lock with the header written, at the access that publishes; `w` is the world
-- before the lock is tried.
abbrev pub written : Env → ℕ → Bool → World → World
written e resp_size is_error w =
    look e (write_response e resp_size is_error (set_state slot_done (look e w)))

-- A response of at most `max_resp_size` bytes that is published: the access that took the lock saw
-- BUSY, the header was written behind it, and the access that made it RESP_READY still saw the lock.
abbrev pub PublishedFrom : Env → ℕ → World → World → Type 0
PublishedFrom e max_resp_size w v =
    (resp_size : ℕ) × ((is_error : Bool) × (((look e w).cell.header.state ≡ slot_busy)
        × ((abs_size resp_size ≤ max_resp_size)
            × (((written e resp_size is_error w).cell.header.state ≡ slot_done)
                × (v
                    ≡ signal_caller e
                        (set_state slot_resp_ready (written e resp_size is_error w)))))))

-- A response that is dropped: the access that tried the lock did not see BUSY, and nothing was stored;
-- or the header was written under the lock, and the lock was gone at the access that publishes.
abbrev pub DroppedFrom : Env → World → World → Type 0
DroppedFrom e w v =
    (((look e w).cell.header.state ≢ slot_busy) × (v ≡ look e w))
    ⊎ ((resp_size : ℕ) × ((is_error : Bool) × (((look e w).cell.header.state ≡ slot_busy)
            × (((written e resp_size is_error w).cell.header.state ≢ slot_done)
                × (v ≡ written e resp_size is_error w)))))

abbrev pub Responds : Env → ℕ → World → Bool × World → Type 0
Responds e max_resp_size w = Ends (PublishedFrom e max_resp_size w) (DroppedFrom e w)

publish_response-Responds :
    (e : Env) (max_resp_size resp_size : ℕ) (is_error : Bool) (w : World)
    → (look e w).cell.header.state ≡ slot_busy
    → abs_size resp_size ≤ max_resp_size
    → Responds e max_resp_size w
        (publish_response e (write_response e resp_size is_error (set_state slot_done (look e w))))
unfolding publish_response cas_state
publish_response-Responds e m n b w busy l =
    elim (Bool-cases ((written e n b w).cell.header.state == slot_done)) [
      | inl held ↦ rw held (n, (b, (busy, (l, (ground (arith, held), refl)))))
      | inr lost ↦ rw lost (inr (n, (b, (busy, (λ h. absurd (ground (arith, lost, h)), refl)))))
    ]

respond-Responds :
    (e : Env) (max_resp_size resp_size : ℕ) (is_error : Bool) (w : World)
    → abs_size resp_size ≤ max_resp_size
    → Responds e max_resp_size w (respond e resp_size is_error w)
unfolding respond lock_for_publish cas_state
respond-Responds e m n b w l = elim (Bool-cases ((look e w).cell.header.state == slot_busy)) [
  | inl held ↦ rw held (publish_response-Responds e m n b w (ground (arith, held)) l)
  | inr lost ↦ rw lost (inl (λ h. absurd (ground (arith, lost, h)), refl))
]

respond_handled-Responds :
    (e : Env) (s : Slot) (h : Handled) (w : World)
    → Responds e s.max_resp_size w (respond_handled e s h w)
respond_handled-Responds e s h w =
    respond-Responds e s.max_resp_size
      (if ltb s.max_resp_size (abs_size h.resp_size) then 0 else h.resp_size)
      (ltb s.max_resp_size (abs_size h.resp_size)) w (bounded s.max_resp_size h.resp_size)
  where
    bounded : (m n : ℕ) → abs_size (if ltb m (abs_size n) then 0 else n) ≤ m
    bounded m n =
        if-cases (λ k. abs_size k ≤ m) (ltb m (abs_size n)) 0 n (λ h. omega arith)
          (λ h. ground arith)

-- The world in which a response is written: the request's, with the bytes of the handler if it ran.
abbrev pub handled : Slot → Handler → World → World
handled s handler w =
    if ltb s.max_req_size (abs_size w.cell.header.req_size)
    then w
    else with_resp_buffer (run_handler handler s w).resp_buffer w

-- Whatever the request, the handler and the other parties do, a response that `ProcessGuestCalls`
-- publishes is at most as large as the slot; the access that took the publish lock, the next one of the
-- call, saw the slot BUSY; the header was written behind it; and the access that made the response
-- ready still saw the lock. A response that it does not publish is dropped before anything is stored,
-- if the slot was not BUSY at the lock, or behind the header, if the lock was gone at the publication.
pub answer_request-Responds :
    (e : Env) (s : Slot) (handler : Handler) (w : World)
    → Responds e s.max_resp_size (handled s handler w) (answer_request e s handler w)
unfolding answer_request
answer_request-Responds e s handler w =
    let h = run_handler handler s w in
    elim (Bool-cases (ltb s.max_req_size (abs_size w.cell.header.req_size))) [
      | inl large ↦ rw large (respond-Responds e s.max_resp_size 0 true w (omega arith))
      | inr fits ↦ rw fits (respond_handled-Responds e s h (with_resp_buffer h.resp_buffer w))
    ]

-- If the slot is no longer BUSY when the lock is tried, because it was reclaimed while the handler
-- ran, then the response is dropped: no header field is written, and nobody is signalled.
pub respond-dropped :
    (e : Env) (resp_size : ℕ) (is_error : Bool) (w : World)
    → (look e w).cell.header.state ≢ slot_busy
    → respond e resp_size is_error w ≡ (false, look e w)
unfolding respond lock_for_publish cas_state
respond-dropped e n b w ne =
    let lost : ((look e w).cell.header.state == slot_busy) ≡ false = ground arith in rw lost refl
