-- ===== src/GuestCall/Wait/Return.antt =====
-- `WaitForRequest` returns, and with what.
use shm.Base.{ℕ, ◌≡◌, ◌≢◌, refl, Bool, true, false, Option, none, some, ◌==◌, if-cases}
use shm.WaitStrategy.{Waited, spin, check_again, wait, shrink}
use shm.WaitStrategy.Laws.{InWindow, Returns}
use shm.Slot.{Env}
use shm.Slot.Pool.{Pool}
use shm.GuestCall.Wait.{
  Allocator, System, Worker, any_request_ready, announce, unpark, park, check_slept, check_waited,
  guest_request_event, wait_doorbell, wait_on, wait_for_request,
}
use shm.GuestCall.Wait.Gate.{KeepsHost}
use shm.GuestCall.Wait.Report.{base_of, count_of, Reported, wait_on-Reported}

module _ (sys : System) (e : ℕ → Env) (timeout_ms : ℕ)
    (wakes : (t : ℕ) → sys.wait_event timeout_ms t ≢ none) where
  unpark-returns :
      (base count : ℕ) (p : Pool) (o : Option ℕ) → o ≢ none → unpark e base count p o ≢ none
  unfolding unpark
  unpark-returns base count p none h = λ q. h refl
  unpark-returns base count p (some t) h = λ q. cc

  park-returns : (base count : ℕ) (p : Pool) → park sys e timeout_ms base count p ≢ none
  unfolding park
  park-returns base count p =
      let r = announce e base count p in
      if-cases (λ o. o ≢ none) r.0 _ _ (λ t h. cc)
        (λ t. unpark-returns base count r.1 (sys.wait_event timeout_ms r.1.tick) (wakes r.1.tick))

  check_slept-returns :
      (base count limit : ℕ) (o : Option Pool) → o ≢ none → check_slept e base count limit o ≢ none
  unfolding check_slept
  check_slept-returns base count limit none h = λ q. h refl
  check_slept-returns base count limit (some p) h = λ q. cc

  check_waited-returns :
      (base count : ℕ) (o : Option (Waited Pool)) → o ≢ none → check_waited e base count o ≢ none
  unfolding check_waited
  check_waited-returns base count none h = λ q. h refl
  check_waited-returns base count (some w) h = λ q. cc

  check_again-returns :
      (condition : Pool → Bool × Pool) (limit : ℕ) (o : Option Pool)
      → o ≢ none
      → check_again condition (park sys e timeout_ms 0 0) limit o ≢ none
  unfolding check_again
  check_again-returns condition limit none h = λ q. h refl
  check_again-returns condition limit (some p) h = λ q. cc

  wait-returns :
      (base count limit : ℕ) (p : Pool)
      → wait (any_request_ready e base count) (park sys e timeout_ms base count) limit p ≢ none
  unfolding wait check_again
  wait-returns base count limit p =
      let r = spin (any_request_ready e base count) (park sys e timeout_ms base count) limit p in
      if-cases (λ o. o ≢ none) r.0 _ _ (λ t h. cc)
        (λ t.
          check_again-returns (any_request_ready e base count) (shrink limit)
            (park sys e timeout_ms base count r.1) (park-returns base count r.1))

  wait_doorbell-returns :
      (spinning : Bool) (base count limit : ℕ) (p : Pool)
      → wait_doorbell sys e spinning limit timeout_ms base count p ≢ none
  unfolding wait_doorbell
  wait_doorbell-returns true base count limit p =
      check_waited-returns base count
        (wait (any_request_ready e base count) (park sys e timeout_ms base count) limit p)
        (wait-returns base count limit p)
  wait_doorbell-returns false base count limit p =
      check_slept-returns base count limit (park sys e timeout_ms base count p)
        (park-returns base count p)

  pub wait_on-returns :
      (spinning : Bool) (limit : ℕ) (p : Pool) (alloc : Option Allocator)
      → wait_on sys e spinning limit timeout_ms p alloc ≢ none
  unfolding wait_on
  wait_on-returns spinning limit p none = λ q. cc
  wait_on-returns spinning limit p (some a) =
      if-cases (λ o. o ≢ none) (a.num_guest_slots == 0) _ _ (λ t h. cc)
        (λ t.
          if-cases (λ o. o ≢ none) (guest_request_event (some a)) _ _
            (λ h. wait_doorbell-returns spinning a.num_slots a.num_guest_slots limit p) (λ h q. cc))

  some_of :
      {A : Type 0} (P : A → Type 0) (o : Option A)
      → o ≢ none
      → Returns P o
      → (x : A) × ((o ≡ some x) × P x)
  some_of P none h p = absurd (h refl)
  some_of P (some x) h p = (x, (refl, p))

  -- If a wait of this timeout on the event ends, and only the host writes its state on the guest slots,
  -- then a call of `WaitForRequest` returns, with an allocator or without, with guest slots or without,
  -- with an event or without, and with the spin or without; and whatever else the others do, it
  -- answers true with a guest slot READY and false with none READY at its last check, keeps the spin
  -- window within its limits, and leaves ACTIVE on the guest slots if they were ACTIVE.
  pub wait_for_request-returns :
      (w : Worker) (p : Pool)
      → KeepsHost e
      → InWindow w.current_limit
      → (r : Waited Pool) × ((wait_for_request sys e w timeout_ms p ≡ some r)
          × Reported (base_of w.alloc) (count_of w.alloc) p r)
  wait_for_request-returns w p keeps l =
      some_of (Reported (base_of w.alloc) (count_of w.alloc) p)
        (wait_on sys e w.spin w.current_limit timeout_ms p w.alloc)
        (wait_on-returns w.spin w.current_limit p w.alloc)
        (wait_on-Reported e keeps sys w.spin w.current_limit timeout_ms p w.alloc l)
