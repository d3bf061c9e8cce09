-- ===== src/Slot/Acquire/Tests.antt =====
-- Acquisitions of a slot that is free at once, and of one that stays busy.
use shm.Base.{◌*◌, ◌≡◌, refl, true, false, some, [], arith, ◌==◌, if◌then◌else◌, Bool}
use shm.Wire.{normal}
use shm.Slot.{
  slot_busy, slot_resp_ready, Env, World, cas_state, cas_gen, claim_state, steal, steal_if_idle,
  claim_observed, try_claim_slot,
}
use shm.Slot.Exchange.{Slot}
use shm.Slot.Acquire.{acquire_loop, acquire_specific_slot}
use shm.Slot.Acquire.Outcome.{Acquires}
use shm.Slot.Acquire.Return.{acquire_specific_slot-returns}

-- A busy slot that its owner leaves with an answer behind the first four accesses.
abbrev busy : World
busy = record {
  tick = 0;
  signals = 0;
  cell = record {
    header = record {
      state = slot_busy;
      host_state = 0;
      guest_state = 1;
      msg_seq = 5;
      msg_type = normal;
      req_size = 2;
      resp_size = 3;
      lease = 10;
      gen = 3;
    };
    req_buffer = [];
    resp_buffer = [];
    active_wait = false;
  };
}

abbrev slot : Slot
slot = record {
  max_req_size = 4;
  max_resp_size = 4;
  msg_seq = 8;
  current_limit = 100;
  msg_seq_stride = 2;
  response_timeout_ms = 10;
  num_slots = 1;
}

abbrev leaving : Env
leaving = record {
  peers = λ t c.
      if t == 4 then record c { header = record c.header { state = slot_resp_ready } } else c;
  clock = λ t. t * 1000000;
}

-- Two tries find the slot busy, and the third one takes it.
acquire_specific_slot-leaving :
    acquire_specific_slot leaving 5 true slot 0 50 busy
    ≡ some (
      true,
      record {
        tick = 10;
        signals = 0;
        cell = record busy.cell {
          header = record busy.cell.header { state = slot_busy; lease = 9000000; gen = 4 };
        };
      },
    )
unfolding acquire_specific_slot acquire_loop try_claim_slot claim_observed steal_if_idle steal
    cas_gen claim_state cas_state
acquire_specific_slot-leaving = refl

acquire_specific_slot-returns_example :
    (r : Bool × World) × ((acquire_specific_slot leaving 2060 true slot 0 50 busy ≡ some r)
      × Acquires leaving true slot 0 50 busy (some r))
acquire_specific_slot-returns_example =
    acquire_specific_slot-returns leaving 2060 50 true slot 0 50 busy (λ h. absurd (omega arith))
      (λ s t l. omega arith) (omega arith)
