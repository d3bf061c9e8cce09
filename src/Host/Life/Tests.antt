-- ===== src/Host/Life/Tests.antt =====
-- Hosts that are shut down, and that are set up twice.
use shm.Base.{◌≡◌, refl, true, false, none, some, List, [], ◌∷◌}
use shm.WaitStrategy.Laws.{Returns}
use shm.Host.{Os, HostConfig, all_events}
use shm.Host.Life.{
  new_life, shut_down, init_life, set_auto_reclaim_timeout_ns, unmapped, mapped, LifeCall, inits,
  shuts_down, sets_auto_reclaim, life_call, life_calls,
}
use shm.Host.Life.Agrees.{IsSafe, life_calls-IsSafe}

abbrev grants : Os
grants = record { creates_shm = true; locks_shm = true; creates_events = λ i. true }

abbrev refuses_lock : Os
refuses_lock = record grants { locks_shm = false }

abbrev config : HostConfig
config = record { num_host_slots = 2; num_guest_slots = 1; payload_size = 300 }

-- Behind a shutdown the store goes to a mapping that was closed.
set_auto_reclaim_timeout_ns-shut_down :
    set_auto_reclaim_timeout_ns 5 (shut_down (init_life grants config new_life)) ≡ none
unfolding all_events
set_auto_reclaim_timeout_ns-shut_down = refl

-- A second `Init` that is refused the lock leaves a running host without its mapping, and its shutdown
-- keeps the lock.
shut_down-init_life :
    shut_down (init_life refuses_lock config (init_life grants config new_life))
    ≡ record { running = false; shm_base = unmapped; auto_reclaim_timeout_ns = 0; locks = 1 }
unfolding all_events
shut_down-init_life = refl

-- Two sessions, with the reclaim switched on and off.
abbrev sessions : List LifeCall
sessions =
    inits grants config
    ∷ sets_auto_reclaim 5
    ∷ shuts_down
    ∷ inits grants config
    ∷ sets_auto_reclaim 0
    ∷ []

life_calls-sessions :
    life_calls sessions new_life
    ≡ some
        (record { running = true; shm_base = mapped true; auto_reclaim_timeout_ns = 0; locks = 1 })
unfolding life_calls life_call all_events
life_calls-sessions = refl

life_calls-IsSafe_example : Returns IsSafe (life_calls sessions new_life)
life_calls-IsSafe_example = life_calls-IsSafe sessions
