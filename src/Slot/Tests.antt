-- ===== src/Slot/Tests.antt =====
-- Claims and reclaims of one slot, and two threads of the host that race for it.
use shm.Base.{ℕ, ◌+◌, ◌≡◌, refl, true, false, [], ◌∷◌, ◌==◌, if◌then◌else◌}
use shm.Wire.{normal}
use shm.Slot.{
  slot_resp_ready, slot_busy, Cell, Env, World, cas_state, cas_gen, claim_state, steal,
  steal_if_idle, claim_observed, try_claim_slot, try_reclaim_abandoned_slot,
}
use shm.Slot.Claim.{TriesClaim, Takes, quiet, try_claim_slot-TriesClaim, try_claim_slot-quiet}
use shm.Slot.Reclaim.{TriesReclaim, Reclaims, try_reclaim_abandoned_slot-Reclaims}
use shm.Slot.Exchange.{Slot, publish, arm}

-- An answer that nobody waits for, in generation 3.
abbrev zombie : Cell
zombie = record {
  header = record {
    state = slot_resp_ready;
    host_state = 0;
    guest_state = 1;
    msg_seq = 5;
    msg_type = normal;
    req_size = 2;
    resp_size = 3;
    lease = 10;
    gen = 3;
  };
  req_buffer = 1 ∷ 2 ∷ 0 ∷ 0 ∷ [];
  resp_buffer = 0 ∷ 0 ∷ 0 ∷ 0 ∷ [];
  active_wait = false;
}

abbrev at_start : Cell → World
at_start c = record { tick = 0; signals = 0; cell = c }

abbrev clock : ℕ → ℕ
clock t = 100 + t

try_claim_slot-zombie : try_claim_slot (quiet clock) (at_start zombie) ≡ (
  true,
  record {
    tick = 6;
    signals = 0;
    cell = record zombie {
      header = record zombie.header { state = slot_busy; lease = 105; gen = 4 };
    };
  },
)
unfolding try_claim_slot claim_observed steal_if_idle steal cas_gen claim_state cas_state
try_claim_slot-zombie = refl

try_claim_slot-quiet_example : Takes clock zombie (try_claim_slot (quiet clock) (at_start zombie))
try_claim_slot-quiet_example = try_claim_slot-quiet clock (at_start zombie)

try_reclaim_abandoned_slot-Reclaims_example :
    TriesReclaim
      (quiet clock)
      50
      (at_start zombie)
      (try_reclaim_abandoned_slot (quiet clock) 50 (at_start zombie))
    × Reclaims 103 50 zombie (try_reclaim_abandoned_slot (quiet clock) 50 (at_start zombie))
try_reclaim_abandoned_slot-Reclaims_example =
    try_reclaim_abandoned_slot-Reclaims (quiet clock) clock 50 (at_start zombie)

abbrev rival_slot : Slot
rival_slot = record {
  max_req_size = 4;
  max_resp_size = 4;
  msg_seq = 8;
  current_limit = 100;
  msg_seq_stride = 2;
  response_timeout_ms = 10;
  num_slots = 1;
}

-- What another thread does to the slot when it steals it first: it claims it, publishes a request
-- with the number 8, and the guest answers.
abbrev rival : Cell → Cell
rival c =
    let w = (try_claim_slot (quiet clock) (at_start c)).1 in
    let d = (publish (quiet clock) (arm (quiet clock) rival_slot 2 normal w)).cell in
    record d { header = record d.header { state = slot_resp_ready } }

-- The rival runs between the two exchanges of a theft.
abbrev racing : Env
racing = record { peers = λ t c. if t == 4 then rival c else c; clock = clock }

-- The generation was won before the rival came, and the state is what it was: the claim answers true
-- on the rival's transaction, which is answered and waited for.
try_claim_slot-racing :
    let r = try_claim_slot racing (at_start zombie) in
    (r.0 ≡ true)
    × (r.1.cell.header.state ≡ slot_busy)
    × (r.1.cell.header.msg_seq ≡ 8)
    × (r.1.cell.active_wait ≡ true)
unfolding try_claim_slot claim_observed steal_if_idle steal cas_gen claim_state cas_state publish
try_claim_slot-racing = (refl, refl, refl, refl)

try_claim_slot-TriesClaim_example :
    TriesClaim racing (at_start zombie) (try_claim_slot racing (at_start zombie))
try_claim_slot-TriesClaim_example = try_claim_slot-TriesClaim racing (at_start zombie)
