-- ===== src/Slot.antt =====
-- include/shm/SlotAllocator.h and `SlotHeader` of include/shm/IPCUtils.h: the state machine of one
-- slot, as the host drives it. The slot's memory is shared with the guest and with the other threads
-- of the host, so between any two accesses of an operation the others may have changed it: they are
-- a parameter, `peers`, which `look` applies before each access. An int32_t is its 32-bit word.
pub mod Claim
pub mod Reclaim
pub mod Exchange
pub mod Acquire
pub mod Pool
pub mod Access
mod Tests
use shm.Base.{
  ℕ, ◌+◌, ◌-◌, ◌%◌, ◌^◌, Bool, true, false, not, ◌&&◌, ◌||◌, List, ltb, ◌==◌, if◌then◌else◌, add64,
}
use shm.Wire.{MsgType}

-- `enum SlotState`
abbrev pub slot_free : ℕ
slot_free = 0

abbrev pub slot_req_ready : ℕ
slot_req_ready = 1

abbrev pub slot_resp_ready : ℕ
slot_resp_ready = 2

abbrev pub slot_done : ℕ
slot_done = 3

abbrev pub slot_busy : ℕ
slot_busy = 4

abbrev pub slot_guest_busy : ℕ
slot_guest_busy = 5

-- `HOST_STATE_ACTIVE`, `HOST_STATE_WAITING` and `GUEST_STATE_WAITING`
abbrev pub host_state_active : ℕ
host_state_active = 0

abbrev pub host_state_waiting : ℕ
host_state_waiting = 1

abbrev pub guest_state_waiting : ℕ
guest_state_waiting = 1

-- `struct SlotHeader`
pub record SlotHeader : Type 0 where
  pub state : ℕ
  pub host_state : ℕ
  pub guest_state : ℕ
  pub msg_seq : ℕ
  pub msg_type : MsgType
  pub req_size : ℕ
  pub resp_size : ℕ
  pub lease : ℕ
  pub gen : ℕ

-- The part of a slot that the other parties reach: the mapping, and the flag that the host's threads
-- share.
pub record Cell : Type 0 where
  pub header : SlotHeader
  pub req_buffer : List ℕ
  pub resp_buffer : List ℕ
  pub active_wait : Bool

-- The surroundings of an operation: what the others do to the cell before its access number `t`, and
-- the monotonic clock in nanoseconds at that access.
pub record Env : Type 0 where
  pub peers : ℕ → Cell → Cell
  pub clock : ℕ → ℕ

-- A cell in the middle of an operation: how many accesses were made, and how often the request event
-- was signalled.
pub record World : Type 0 where
  pub tick : ℕ
  pub signals : ℕ
  pub cell : Cell

-- The others have their turn, and the next access sees what they left.
abbrev pub look : Env → World → World
look e w = record w { tick = w.tick + 1; cell = e.peers w.tick w.cell }

abbrev pub with_header : (SlotHeader → SlotHeader) → World → World
with_header f w = record w { cell = record w.cell { header = f w.cell.header } }

-- The stores of the operations. Each is an access.
abbrev pub store_state : Env → ℕ → World → World
store_state e x w = with_header (λ h. record h { state = x }) (look e w)

abbrev pub store_lease : Env → World → World
store_lease e w = with_header (λ h. record h { lease = e.clock w.tick }) (look e w)

abbrev pub store_host_state : Env → ℕ → World → World
store_host_state e x w = with_header (λ h. record h { host_state = x }) (look e w)

abbrev pub store_active_wait : Env → Bool → World → World
store_active_wait e b w = let v = look e w in record v { cell = record v.cell { active_wait = b } }

-- `compare_exchange_strong` on the state.
unfoldable pub cas_state : Env → ℕ → ℕ → World → Bool × World
cas_state e expected desired w =
    let v = look e w in
    if v.cell.header.state == expected
    then (true, with_header (λ h. record h { state = desired }) v)
    else (false, v)

-- `compare_exchange_strong` on the generation, to the next one.
unfoldable pub cas_gen : Env → ℕ → World → Bool × World
cas_gen e expected w =
    let v = look e w in
    if v.cell.header.gen == expected
    then (true, with_header (λ h. record h { gen = add64 expected 1 }) v)
    else (false, v)

-- A state that a claim may steal.
abbrev pub is_stealable : ℕ → Bool
is_stealable s = (s == slot_resp_ready) || ((s == slot_req_ready) || (s == slot_guest_busy))

-- The end of a claim: the state exchange, and the lease if it was won.
unfoldable pub claim_state : Env → ℕ → World → Bool × World
unfolding cas_state
claim_state e current w =
    let r = cas_state e current slot_busy w in if r.0 then (true, store_lease e r.1) else r

-- The claim of a free slot: the generation is advanced without a handshake.
unfoldable pub claim_free : Env → World → Bool × World
unfolding claim_state
claim_free e w =
    claim_state e slot_free (with_header (λ h. record h { gen = add64 h.gen 1 }) (look e w))

-- The theft of an abandoned slot, behind the generation handshake.
unfoldable pub steal : Env → ℕ → ℕ → World → Bool × World
unfolding cas_gen claim_state
steal e gen_observed current w =
    let r = cas_gen e gen_observed w in if r.0 then claim_state e current r.1 else r

-- A slot in a stealable state is left alone while a thread of the host waits on it; `w` is the world
-- at the load of the flag.
unfoldable pub steal_if_idle : Env → ℕ → ℕ → World → Bool × World
unfolding steal
steal_if_idle e gen_observed current w =
    if not w.cell.active_wait then steal e gen_observed current w else (false, w)

-- `tryClaimSlot` once the generation and the state are read; `w` is the world at the load of the
-- state.
unfoldable pub claim_observed : Env → ℕ → World → Bool × World
unfolding claim_free steal_if_idle
claim_observed e gen_observed w =
    let current = w.cell.header.state in
    if current == slot_free
    then claim_free e w
    else if is_stealable current
    then steal_if_idle e gen_observed current (look e w)
    else (false, w)

-- `tryClaimSlot`
unfoldable pub try_claim_slot : Env → World → Bool × World
unfolding claim_observed
try_claim_slot e w = let v = look e w in claim_observed e v.cell.header.gen (look e v)

-- The handshake of `TryReclaimAbandonedSlot`, behind its tests of the lease.
unfoldable pub reclaim : Env → ℕ → ℕ → World → Bool × World
unfolding cas_gen cas_state
reclaim e gen_observed current w =
    let r = cas_gen e gen_observed w in if r.0 then cas_state e current slot_free r.1 else r

-- A lease that was written, and that is older than the tolerated age.
abbrev pub is_abandoned : ℕ → ℕ → ℕ → Bool
is_abandoned now lease max_lease_age =
    not (lease == 0) && (ltb lease now && ltb max_lease_age (now - lease))

-- The second load of the lease, which must agree with the first.
unfoldable pub reclaim_if_same : Env → ℕ → ℕ → ℕ → World → Bool × World
unfolding reclaim
reclaim_if_same e lease gen_observed current w =
    if w.cell.header.lease == lease then reclaim e gen_observed current w else (false, w)

-- The tests of the lease; `w` is the world at its load.
unfoldable pub reclaim_observed : Env → ℕ → ℕ → ℕ → World → Bool × World
unfolding reclaim_if_same
reclaim_observed e max_lease_age gen_observed current w =
    let lease = w.cell.header.lease in
    if is_abandoned (e.clock w.tick) lease max_lease_age
    then reclaim_if_same e lease gen_observed current (look e w)
    else (false, w)

-- `TryReclaimAbandonedSlot`, on a slot whose index is in range.
unfoldable pub try_reclaim_abandoned_slot : Env → ℕ → World → Bool × World
unfolding reclaim_observed
try_reclaim_abandoned_slot e max_lease_age w =
    let v = look e w in
    let u = look e v in
    if u.cell.header.state == slot_free
    then (false, u)
    else reclaim_observed e max_lease_age v.cell.header.gen u.cell.header.state (look e u)
