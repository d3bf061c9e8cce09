-- ===== src/Host/Life.antt =====
-- include/shm/DirectHost.h: the life of a host, over `Init`, `Shutdown` and `SetAutoReclaimTimeoutNs`,
-- and `SendShutdown`. The mapping is what `shmBase` points at.
pub mod Agrees
mod Tests
use shm.Base.{
  ℕ, zero, suc, ◌-◌, Bool, true, false, not, Option, none, some, List, [], ◌∷◌, ◌==◌, if◌then◌else◌,
}
use shm.Wire.{shutdown}
use shm.Slot.{Env}
use shm.Slot.Exchange.{Slot}
use shm.Slot.Pool.{Pool, world_at}
use shm.Host.{Os, HostConfig, total_slots, all_events}
use shm.Host.Send.{Request, SentAny, on_pool, send_to_slot}

-- `shmBase`: null, a mapping with the `fastPathAllowed` of its header, or the address of a mapping
-- that was closed.
pub data Base : Type 0 where
  unmapped : Base
  mapped : Bool → Base
  dangling : Base

-- A host's own state: `running`, `shmBase`, `autoReclaimTimeoutNs`, and how many locks of names it
-- has taken and not given back.
pub record Life : Type 0 where
  pub running : Bool
  pub shm_base : Base
  pub auto_reclaim_timeout_ns : ℕ
  pub locks : ℕ

-- The default constructor
abbrev pub new_life : Life
new_life = record { running = false; shm_base = unmapped; auto_reclaim_timeout_ns = 0; locks = 0 }

-- The end of `Shutdown`: the lock is given back and the mapping closed, if there is one.
abbrev pub close : Life → Base → Life
close l unmapped = record l { running = false }
close l _ = record l { running = false; shm_base = dangling; locks = l.locks - 1 }

-- `Shutdown`
abbrev pub shut_down : Life → Life
shut_down l = if not l.running then l else close l l.shm_base

abbrev pub map_shm : Life → Life
map_shm l = record l {
  running = true;
  shm_base = mapped (l.auto_reclaim_timeout_ns == 0);
  locks = suc l.locks;
}

-- `Init`, as far as it changes this state: on no mapping or no lock, `shmBase` is null and `running` as
-- it was; when an event cannot be created, the host is shut down again.
abbrev pub init_life : Os → HostConfig → Life → Life
init_life os c l =
    if not os.creates_shm
    then record l { shm_base = unmapped }
    else if not os.locks_shm
    then record l { shm_base = unmapped }
    else if all_events os 0 (total_slots c)
    then map_shm l
    else shut_down (map_shm l)

-- The store to the header; `none` is a store to a mapping that was closed.
abbrev pub publish_fast_path : ℕ → Base → Option Base
publish_fast_path ns unmapped = some unmapped
publish_fast_path ns (mapped b) = some (mapped (ns == 0))
publish_fast_path ns dangling = none

abbrev pub with_base : ℕ → Life → Option Base → Option Life
with_base ns l none = none
with_base ns l (some b) = some (record l { auto_reclaim_timeout_ns = ns; shm_base = b })

-- `SetAutoReclaimTimeoutNs`
abbrev pub set_auto_reclaim_timeout_ns : ℕ → Life → Option Life
set_auto_reclaim_timeout_ns ns l = with_base ns l (publish_fast_path ns l.shm_base)

-- What a program calls.
pub data LifeCall : Type 0 where
  inits : Os → HostConfig → LifeCall
  shuts_down : LifeCall
  sets_auto_reclaim : ℕ → LifeCall

unfoldable pub life_call : LifeCall → Life → Option Life
life_call (inits os c) l = some (init_life os c l)
life_call shuts_down l = some (shut_down l)
life_call (sets_auto_reclaim ns) l = set_auto_reclaim_timeout_ns ns l

-- A sequence of calls, which ends at a fault.
abbrev pub and_calls : Option Life → (Life → Option Life) → Option Life
and_calls none f = none
and_calls (some l) f = f l

unfoldable pub life_calls : List LifeCall → Life → Option Life
unfolding life_call
life_calls [] l = some l
life_calls (c ∷ cs) l = and_calls (life_call c l) (λ m. life_calls cs m)

-- The request of `SendShutdown`
abbrev pub shutdown_request : Request
shutdown_request = record { bytes = none; size = 0; msg_type = shutdown; timeout_ms = 1000 }

-- A call of `SendToSlot` on a slot of the pool.
abbrev pub send_on : (ℕ → Env) → ℕ → (ℕ → Slot) → ℕ → Pool → Option SentAny
send_on e fuel slots i p =
    on_pool 0 i slots p (send_to_slot (e i) fuel true (slots i) i shutdown_request (world_at i p))

-- A call that returned is followed by the next.
abbrev pub then_next :
    Option SentAny → ((ℕ → Slot) → Pool → Option ((ℕ → Slot) × Pool)) → Option ((ℕ → Slot) × Pool)
then_next none f = none
then_next (some r) f = f r.slots r.pool

-- The loop of `SendShutdown` from slot `i` on, with `k` slots to go.
unfoldable pub send_shutdown_from :
    (ℕ → Env) → ℕ → ℕ → ℕ → (ℕ → Slot) → Pool → Option ((ℕ → Slot) × Pool)
send_shutdown_from e fuel i zero slots p = some (slots, p)
send_shutdown_from e fuel i (suc k) slots p =
    then_next (send_on e fuel slots i p) (λ s q. send_shutdown_from e fuel (suc i) k s q)

-- `SendShutdown`
unfoldable pub send_shutdown :
    (ℕ → Env) → ℕ → Bool → ℕ → (ℕ → Slot) → Pool → Option ((ℕ → Slot) × Pool)
unfolding send_shutdown_from
send_shutdown e fuel running num_slots slots p =
    if not running then some (slots, p) else send_shutdown_from e fuel 0 num_slots slots p
