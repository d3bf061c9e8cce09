-- ===== src/GuestCall/Thread/Return.antt =====
-- The worker's thread ends once its flag is down.
use shm.Base.{
  ℕ, zero, suc, ◌+◌, ◌≡◌, ◌≢◌, refl, Bool, false, Option, none, some, List, arith, if-cases,
}
use shm.WaitStrategy.{Waited}
use shm.Slot.{Env}
use shm.Slot.Pool.{Pool}
use shm.GuestCall.Wait.{System, Worker, wait_for_request}
use shm.GuestCall.Wait.Return.{wait_on-returns}
use shm.GuestCall.Thread.{
  park_ms, and_then, with_limit, guest_worker_loop, no_thread, stop, Call, calls,
}
use shm.GuestCall.Thread.Matches.{Matches, rests, stop-Matches, calls-Matches}

and_then-returns :
    (o : Option (Waited Pool)) (f : Waited Pool → Option Pool)
    → o ≢ none
    → ((r : Waited Pool) → f r ≢ none)
    → and_then o f ≢ none
and_then-returns none f h g = λ q. h refl
and_then-returns (some r) f h g = g r

module _ (sys : System) (e : ℕ → Env) (wakes : (t : ℕ) → sys.wait_event park_ms t ≢ none)
    (flag : ℕ → Bool) (process : Pool → Pool) where
  -- Whatever the others do: if each park ends and load number `k + n` sees the flag down, then `n`
  -- rounds and one more load end the loop.
  pub guest_worker_loop-returns :
      (n k : ℕ) (w : Worker) (p : Pool)
      → flag (k + n) ≡ false
      → guest_worker_loop sys e flag process k (suc n) w p ≢ none
  unfolding guest_worker_loop
  guest_worker_loop-returns zero k w p down =
      if-cases (λ o. o ≢ none) (flag k) _ _
        (λ up. let here : k + 0 ≡ k = omega arith in let q = rw here at down in absurd cc)
        (λ d q. cc)
  guest_worker_loop-returns (suc n) k w p down =
      if-cases (λ o. o ≢ none) (flag k) _ _
        (λ up.
          let next : k + suc n ≡ suc k + n = omega arith in
          and_then-returns (wait_for_request sys e w park_ms p)
            (λ r.
              guest_worker_loop sys e flag process (suc k) (suc n) (with_limit r.current_limit w)
                (process r.state))
            (wait_on-returns sys e park_ms wakes w.spin w.current_limit p w.alloc)
            (λ r.
              guest_worker_loop-returns n (suc k) (with_limit r.current_limit w) (process r.state)
                (rw next at down)))
        (λ d q. cc)

  -- Whatever the others do: if each park ends and load number `n` of its flag sees it down, then
  -- `GuestWorkerLoop` ends within `n` rounds. And no sequence of `Start` and `Stop` on a new worker
  -- leaves more than one thread: one runs the loop, and is joinable, exactly while the flag is up;
  -- after a `Stop` at the end there is none.
  pub worker-stops :
      (n : ℕ) (w : Worker) (p : Pool) (num_guest_slots : ℕ) (cs : List Call)
      → flag n ≡ false
      → (guest_worker_loop sys e flag process 0 (suc n) w p ≢ none)
        × (Matches (calls w.alloc num_guest_slots cs (no_thread, p)).0
            × ((stop w.alloc
                  (calls w.alloc num_guest_slots cs (no_thread, p)).0
                  (calls w.alloc num_guest_slots cs (no_thread, p)).1).0
                ≡ no_thread))
  worker-stops n w p num_guest_slots cs down =
      let m = calls-Matches w.alloc num_guest_slots cs (no_thread, p) rests in
      let zero_first : n ≡ 0 + n = omega arith in
      let s = calls w.alloc num_guest_slots cs (no_thread, p) in
      (
        guest_worker_loop-returns n 0 w p (rw zero_first at down),
        (m, (stop-Matches w.alloc num_guest_slots s.0 s.1 m).1),
      )
