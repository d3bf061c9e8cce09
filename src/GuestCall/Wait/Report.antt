-- ===== src/GuestCall/Wait/Report.antt =====
-- What `WaitForRequest` leaves when it returns.
use shm.Base.{
  ℕ, ◌≡◌, refl, Bool, true, false, Option, none, some, arith, ltb, ◌==◌, if-cases, ◌&&◌,
  if◌then◌else◌,
}
use shm.WaitStrategy.{Waited, wait}
use shm.WaitStrategy.Laws.{InWindow, Returns, Answers, Understands, wait-Answers}
use shm.Slot.{host_state_active, Env}
use shm.Slot.Pool.{Pool}
use shm.GuestCall.Wait.{
  Allocator, System, any_request_ready, announce, unpark, park, check_now, check_slept,
  check_waited, fallback_poll_ms, sleep_only, poll, pause, guest_request_event, wait_doorbell,
  wait_on,
}
use shm.GuestCall.Wait.Gate.{
  Reports, AllHost, KeepsHost, any_request_ready-Reports, any_request_ready-AllHost,
  set_host_state-AllHost,
}

-- The guest slots: the first one and how many.
abbrev pub base_of : Option Allocator → ℕ
base_of none = 0
base_of (some a) = a.num_slots

abbrev pub count_of : Option Allocator → ℕ
count_of none = 0
count_of (some a) = a.num_guest_slots

-- The end of a wait on the guest slots: its answer is what its last check saw, the spin window is
-- within its limits, and every guest slot that said ACTIVE at its start says so again.
abbrev pub Reported : ℕ → ℕ → Pool → Waited Pool → Type 0
Reported base count p r =
    Reports base count (r.ready, r.state)
    × InWindow r.current_limit
    × (AllHost host_state_active base count p → AllHost host_state_active base count r.state)

module _ (e : ℕ → Env) (keeps : KeepsHost e) where
  module _ (base count : ℕ) where
    abbrev IsActive : Pool → Type 0
    IsActive = AllHost host_state_active base count

    check_now-Reported :
        (limit : ℕ) (p q : Pool)
        → InWindow limit
        → (IsActive p → IsActive q)
        → Reported base count p (check_now e base count limit q)
    check_now-Reported limit p q w a = (
      any_request_ready-Reports e base count q,
      w,
      λ h. any_request_ready-AllHost e host_state_active base count base count q keeps (a h),
    )

    unpark-IsActive : (p : Pool) (o : Option ℕ) → Returns IsActive (unpark e base count p o)
    unfolding unpark
    unpark-IsActive p none = tt
    unpark-IsActive p (some t) =
        set_host_state-AllHost e host_state_active base count (record p { tick = t })

    -- Whatever the sleep began with, every guest slot says ACTIVE behind it.
    park-IsActive :
        (sys : System) (timeout_ms : ℕ) (p : Pool)
        → Returns IsActive (park sys e timeout_ms base count p)
    unfolding park
    park-IsActive sys timeout_ms p =
        let r = announce e base count p in
        if-cases (Returns IsActive) r.0 _ _
          (λ t. set_host_state-AllHost e host_state_active base count r.1)
          (λ t. unpark-IsActive r.1 (sys.wait_event timeout_ms r.1.tick))

    check_slept-Reported :
        (limit : ℕ) (p : Pool) (o : Option Pool)
        → InWindow limit
        → Returns IsActive o
        → Returns (Reported base count p) (check_slept e base count limit o)
    unfolding check_slept
    check_slept-Reported limit p none w a = tt
    check_slept-Reported limit p (some q) w a = check_now-Reported limit p q w (λ h. a)

    check_waited-Reported :
        (p : Pool) (o : Option (Waited Pool))
        → Returns (λ w. InWindow w.current_limit × (IsActive p → IsActive w.state)) o
        → Returns (Reported base count p) (check_waited e base count o)
    unfolding check_waited
    check_waited-Reported p none a = tt
    check_waited-Reported p (some w) (l, a) = check_now-Reported w.current_limit p w.state l a

    park-Understands :
        (sys : System) (timeout_ms : ℕ) (p : Pool)
        → Understands
            (any_request_ready e base count)
            (park sys e timeout_ms base count)
            (λ q. Unit)
            (λ q. IsActive p → IsActive q)
    park-Understands sys timeout_ms p = record {
      seen = λ q a t. tt;
      kept = λ q a h.
          any_request_ready-AllHost e host_state_active base count base count q keeps (a h);
      slept = λ q a. whatever (park sys e timeout_ms base count q) (park-IsActive sys timeout_ms q);
    }
      where
        whatever : (o : Option Pool) → Returns IsActive o → Returns (λ r. IsActive p → IsActive r) o
        whatever none h = tt
        whatever (some r) h = λ a. h

    drop_ready :
        (p : Pool) (o : Option (Waited Pool))
        → Answers
            (any_request_ready e base count)
            (λ q. none)
            (λ q. Unit)
            (λ q. IsActive p → IsActive q)
            o
        → Returns (λ w. InWindow w.current_limit × (IsActive p → IsActive w.state)) o
    drop_ready p none a = tt
    drop_ready p (some w) (l, a, b) = (l, a)

    wait_doorbell-Reported :
        (sys : System) (spinning : Bool) (limit timeout_ms : ℕ) (p : Pool)
        → InWindow limit
        → Returns
            (Reported base count p)
            (wait_doorbell sys e spinning limit timeout_ms base count p)
    unfolding wait_doorbell
    wait_doorbell-Reported sys true limit timeout_ms p w =
        check_waited-Reported p
          (wait (any_request_ready e base count) (park sys e timeout_ms base count) limit p)
          (drop_ready p
            (wait (any_request_ready e base count) (park sys e timeout_ms base count) limit p)
            (wait-Answers (any_request_ready e base count) (park sys e timeout_ms base count) limit
              p (park-Understands sys timeout_ms p) w (λ h. h)))
    wait_doorbell-Reported sys false limit timeout_ms p w =
        check_slept-Reported limit p (park sys e timeout_ms base count p) w
          (park-IsActive sys timeout_ms p)

  sleep_only-Reported :
      (sys : System) (base count limit timeout_ms : ℕ) (p : Pool)
      → count ≡ 0
      → InWindow limit
      → Reported base count p (sleep_only sys limit timeout_ms p)
  sleep_only-Reported sys base count limit timeout_ms p z w =
      (λ k a b. absurd (omega (arith, z, a, b)), w, λ h k a b. absurd (omega (arith, z, a, b)))

  poll-Reported :
      (sys : System) (base count limit timeout_ms : ℕ) (p : Pool)
      → InWindow limit
      → Reported base count p (poll sys e limit timeout_ms base count p)
  poll-Reported sys base count limit timeout_ms p w =
      let ms =
        if ltb 0 timeout_ms && ltb timeout_ms fallback_poll_ms
        then timeout_ms
        else fallback_poll_ms in
      check_now-Reported base count limit p (pause sys ms p) w (λ h. h)

  pub wait_on-Reported :
      (sys : System) (spinning : Bool) (limit timeout_ms : ℕ) (p : Pool) (alloc : Option Allocator)
      → InWindow limit
      → Returns
          (Reported (base_of alloc) (count_of alloc) p)
          (wait_on sys e spinning limit timeout_ms p alloc)
  unfolding wait_on
  wait_on-Reported sys spinning limit timeout_ms p none w =
      sleep_only-Reported sys 0 0 limit timeout_ms p refl w
  wait_on-Reported sys spinning limit timeout_ms p (some a) w =
      if-cases (Returns (Reported a.num_slots a.num_guest_slots p)) (a.num_guest_slots == 0) _ _
        (λ t.
          sleep_only-Reported sys a.num_slots a.num_guest_slots limit timeout_ms p
            (ground (arith, t)) w)
        (λ t.
          if-cases (Returns (Reported a.num_slots a.num_guest_slots p))
            (guest_request_event (some a)) _ _
            (λ h.
              wait_doorbell-Reported a.num_slots a.num_guest_slots sys spinning limit timeout_ms p
                w)
            (λ h. poll-Reported sys a.num_slots a.num_guest_slots limit timeout_ms p w))
