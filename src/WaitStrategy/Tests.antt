-- ===== src/WaitStrategy/Tests.antt =====
-- A wait for a counter that each check moves on.
use shm.Base.{ℕ, suc, ◌+◌, ◌≤◌, ◌<◌, ◌≡◌, refl, Bool, true, Option, some, arith, leb}
use shm.WaitStrategy.{spin, check_again, wait, grow, shrink}
use shm.WaitStrategy.Laws.{Understands, Answers, wait-Answers}

abbrev counts : ℕ → Bool × ℕ
counts n = (leb 150 n, suc n)

abbrev sleeps : ℕ → Option ℕ
sleeps n = some (n + 50)

wait-sleeps :
    wait counts sleeps 100 0 ≡ some (record { ready = true; current_limit = 100; state = 151 })
unfolding wait spin check_again shrink
wait-sleeps = refl

wait-spins :
    wait counts sleeps 200 0 ≡ some (record { ready = true; current_limit = 5200; state = 151 })
unfolding wait spin grow
wait-spins = refl

counts-Understands : Understands counts sleeps (λ n. 150 < n) (λ n. 0 ≤ n)
counts-Understands = record {
  seen = λ s a h. ground arith;
  kept = λ s a. omega arith;
  slept = λ s a. omega arith;
}

wait-Answers_example : Answers counts sleeps (λ n. 150 < n) (λ n. 0 ≤ n) (wait counts sleeps 100 0)
wait-Answers_example =
    wait-Answers counts sleeps 100 0 counts-Understands (omega arith) (omega arith)
