-- ===== src/WaitStrategy.antt =====
-- include/shm/WaitStrategy.h: the adaptive wait of every slot. The condition and the sleep are
-- parameters of the wait, as they are in the source: a check may move the state on, since other
-- threads run in between, and a sleep may not return.
pub mod Laws
mod Tests
use shm.Base.{ℕ, zero, suc, ◌+◌, ◌-◌, Bool, true, false, Option, none, some, ltb, if◌then◌else◌}

abbrev pub min_spin : ℕ
min_spin = 100

abbrev pub max_spin : ℕ
max_spin = 50000

abbrev pub inc_step : ℕ
inc_step = 5000

abbrev pub dec_step : ℕ
dec_step = 1000

-- `currentLimit` after a spin that saw the condition.
unfoldable pub grow : ℕ → ℕ
grow limit =
    if ltb limit max_spin
    then (let l = limit + inc_step in if ltb max_spin l then max_spin else l)
    else limit

-- `currentLimit` after a spin that did not. The difference is one of ints in the source, and
-- negative where this one is 0: both are below `min_spin`.
unfoldable pub shrink : ℕ → ℕ
shrink limit =
    if ltb min_spin limit
    then (let l = limit - dec_step in if ltb l min_spin then min_spin else l)
    else limit

-- The end of a wait.
pub record Waited (S : Type 0) : Type 0 where
  pub ready : Bool
  pub current_limit : ℕ
  pub state : S

module _ {S : Type 0} (condition : S → Bool × S) (sleep_action : S → Option S) where
  -- The spin loop: at most `limit` checks.
  unfoldable pub spin : ℕ → S → Bool × S
  spin zero s = (false, s)
  spin (suc limit) s = let r = condition s in let rest = spin limit r.1 in if r.0 then r else rest

  -- The last check, after the sleep.
  unfoldable pub check_again : ℕ → Option S → Option (Waited S)
  check_again limit none = none
  check_again limit (some s) =
      let r = condition s in some (record { ready = r.0; current_limit = limit; state = r.1 })

  -- `Wait`, with `none` for a sleep that does not return.
  unfoldable pub wait : ℕ → S → Option (Waited S)
  unfolding spin check_again grow shrink
  wait limit s =
      let r = spin limit s in
      if r.0
      then some (record { ready = true; current_limit = grow limit; state = r.1 })
      else check_again (shrink limit) (sleep_action r.1)
