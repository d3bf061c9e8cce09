-- ===== src/Host/Life/Agrees.antt =====
-- What a host tells the guest about the automatic reclaim is what it does.
use shm.Base.{
  ℕ, ◌≡◌, ◌≢◌, ◌⊎◌, inl, inr, refl, true, false, not, Option, none, some, List, [], ◌∷◌, ◌==◌,
  if-cases, Bool-cases,
}
use mathlib.Core.Path.{subst}
use shm.WaitStrategy.Laws.{Returns}
use shm.Host.{Os, HostConfig, all_events, total_slots}
use shm.Host.Life.{
  Base, unmapped, mapped, dangling, Life, close, shut_down, map_shm, init_life, publish_fast_path,
  with_base, new_life, set_auto_reclaim_timeout_ns, LifeCall, inits, shuts_down, sets_auto_reclaim,
  life_call, and_calls, life_calls,
}

-- The header allows the fast path exactly if the automatic reclaim is off.
abbrev pub AgreesOn : Base → ℕ → Type 0
AgreesOn unmapped ns = Unit
AgreesOn (mapped b) ns = b ≡ (ns == 0)
AgreesOn dangling ns = Unit

-- And a host that runs has no address of a mapping that was closed.
pub record Agrees (l : Life) : Type 0 where
  pub told : AgreesOn l.shm_base l.auto_reclaim_timeout_ns
  pub open_base : l.running ≡ true → l.shm_base ≢ dangling

close-Agrees : (l : Life) (b : Base) → b ≡ l.shm_base → Agrees (close l b)
close-Agrees l unmapped e = record {
  told = subst (λ b. AgreesOn b l.auto_reclaim_timeout_ns) e tt;
  open_base = λ r. absurd cc;
}
close-Agrees l (mapped b) e = record { told = tt; open_base = λ r. absurd cc }
close-Agrees l dangling e = record { told = tt; open_base = λ r. absurd cc }

shut_down-Agrees : (l : Life) → Agrees l → Agrees (shut_down l)
shut_down-Agrees l a =
    if-cases Agrees (not l.running) l _ (λ t. a) (λ t. close-Agrees l l.shm_base refl)

map_shm-Agrees : (l : Life) → Agrees (map_shm l)
map_shm-Agrees l = record { told = refl; open_base = λ r q. cc }

init_life-Agrees : (os : Os) (c : HostConfig) (l : Life) → Agrees (init_life os c l)
init_life-Agrees os c l =
    let lost : Agrees (record l { shm_base = unmapped }) = record {
      told = tt;
      open_base = λ r q. cc;
    } in
    if-cases Agrees (not os.creates_shm) _ _ (λ t. lost)
      (λ t.
        if-cases Agrees (not os.locks_shm) _ _ (λ h. lost)
          (λ h.
            if-cases Agrees (all_events os 0 (total_slots c)) (map_shm l) _ (λ g. map_shm-Agrees l)
              (λ g. shut_down-Agrees (map_shm l) (map_shm-Agrees l))))

with_base-Agrees :
    (ns : ℕ) (l : Life) (b : Base) → Returns Agrees (with_base ns l (publish_fast_path ns b))
with_base-Agrees ns l unmapped = record { told = tt; open_base = λ r q. cc }
with_base-Agrees ns l (mapped b) = record { told = refl; open_base = λ r q. cc }
with_base-Agrees ns l dangling = tt

-- Every call keeps it, however the operating system answers.
life_call-Agrees : (c : LifeCall) (l : Life) → Agrees l → Returns Agrees (life_call c l)
unfolding life_call
life_call-Agrees (inits os c) l a = init_life-Agrees os c l
life_call-Agrees shuts_down l a = shut_down-Agrees l a
life_call-Agrees (sets_auto_reclaim ns) l a = with_base-Agrees ns l l.shm_base

and_calls-Agrees :
    (o : Option Life) (f : Life → Option Life)
    → Returns Agrees o
    → ((l : Life) → Agrees l → Returns Agrees (f l))
    → Returns Agrees (and_calls o f)
and_calls-Agrees none f a h = tt
and_calls-Agrees (some l) f a h = h l a

life_calls-keep : (cs : List LifeCall) (l : Life) → Agrees l → Returns Agrees (life_calls cs l)
unfolding life_calls
life_calls-keep [] l a = a
life_calls-keep (c ∷ cs) l a =
    and_calls-Agrees (life_call c l) (λ m. life_calls cs m) (life_call-Agrees c l a)
      (λ m b. life_calls-keep cs m b)

set_auto_reclaim_timeout_ns-ne :
    (ns : ℕ) (l : Life) (b : Base) → b ≢ dangling → with_base ns l (publish_fast_path ns b) ≢ none
set_auto_reclaim_timeout_ns-ne ns l unmapped h = λ q. cc
set_auto_reclaim_timeout_ns-ne ns l (mapped b) h = λ q. cc
set_auto_reclaim_timeout_ns-ne ns l dangling h = λ q. h refl

-- Safe calls: the header agrees, and a running host may set the timeout.
abbrev pub IsSafe : Life → Type 0
IsSafe l =
    AgreesOn l.shm_base l.auto_reclaim_timeout_ns
    × ((l.running ≡ false) ⊎ ((ns : ℕ) → set_auto_reclaim_timeout_ns ns l ≢ none))

IsSafe-of : (o : Option Life) → Returns Agrees o → Returns IsSafe o
IsSafe-of none a = tt
IsSafe-of (some l) a = (
  a.told,
  elim (Bool-cases l.running) [
    | inl runs ↦ inr (λ ns. set_auto_reclaim_timeout_ns-ne ns l l.shm_base (a.open_base runs))
    | inr stopped ↦ inl stopped
  ],
)

-- Whatever sequence of `Init`, `Shutdown` and `SetAutoReclaimTimeoutNs` a program calls on a new host,
-- and however the operating system answers: if none of them stores to a mapping that was closed, then
-- a host that has its mapping allows the fast path in its header exactly if its automatic reclaim is
-- off; and while it runs, `SetAutoReclaimTimeoutNs` does not store to a closed mapping.
pub life_calls-IsSafe : (cs : List LifeCall) → Returns IsSafe (life_calls cs new_life)
life_calls-IsSafe cs =
    IsSafe-of (life_calls cs new_life)
      (life_calls-keep cs new_life (record { told = tt; open_base = λ r q. cc }))
