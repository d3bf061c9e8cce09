-- ===== src/GuestCall/Tests.antt =====
-- A guest slot with a request of two bytes, and a handler that turns it round.
use shm.Base.{ℕ, ◌+◌, ◌≡◌, refl, true, false, List, [], ◌∷◌}
use shm.Wire.{normal}
use shm.Slot.{slot_req_ready, slot_free, Cell, World, cas_state}
use shm.Slot.Claim.{quiet}
use shm.Slot.Exchange.{Slot}
use shm.GuestCall.{
  Handler, GuestSlot, answer_request, respond, process_slot, process_from, process_guest_calls,
  claim_request, lock_for_publish, publish_response,
}
use shm.GuestCall.Publish.{Responds, handled, answer_request-Responds}
use shm.GuestCall.Answer.{Processes, process_slot-Processes}
use shm.GuestCall.Batch.{IsWithin, AreServed, process_guest_calls-Serves}

abbrev slot : Slot
slot = record {
  max_req_size = 4;
  max_resp_size = 4;
  msg_seq = 1;
  current_limit = 100;
  msg_seq_stride = 2;
  response_timeout_ms = 10;
  num_slots = 1;
}

abbrev request : Cell
request = record {
  header = record {
    state = slot_req_ready;
    host_state = 0;
    guest_state = 1;
    msg_seq = 5;
    msg_type = normal;
    req_size = 2;
    resp_size = 0;
    lease = 10;
    gen = 3;
  };
  req_buffer = 1 ∷ 2 ∷ 0 ∷ 0 ∷ [];
  resp_buffer = 0 ∷ 0 ∷ 0 ∷ 0 ∷ [];
  active_wait = false;
}

abbrev at_start : Cell → World
at_start c = record { tick = 0; signals = 0; cell = c }

abbrev clock : ℕ → ℕ
clock t = 100 + t

abbrev swap : Handler
swap (x ∷ y ∷ []) buf n t = record { resp_size = 2; resp_buffer = y ∷ x ∷ 0 ∷ 0 ∷ [] }
swap _ buf n t = record { resp_size = 0; resp_buffer = buf }

abbrev guest_slot : Cell → GuestSlot
guest_slot c = record { env = quiet clock; slot = slot; world = at_start c }

abbrev idle : Cell
idle = record request { header = record request.header { state = slot_free } }

abbrev batch : List GuestSlot
batch = guest_slot request ∷ guest_slot idle ∷ guest_slot request ∷ []

count-batch :
    ((process_guest_calls true swap true 0 batch).count ≡ 2)
    × ((process_guest_calls true swap true 1 batch).count ≡ 1)
    × ((process_guest_calls false swap true 0 batch).count ≡ 0)
unfolding process_guest_calls process_from process_slot claim_request answer_request respond
    lock_for_publish publish_response cas_state
count-batch = (refl, refl, refl)

answer_request-Responds_example :
    Responds
      (quiet clock)
      4
      (handled slot swap (at_start request))
      (answer_request (quiet clock) slot swap (at_start request))
answer_request-Responds_example = answer_request-Responds (quiet clock) slot swap (at_start request)

process_slot-Processes_example :
    Processes clock slot swap request (process_slot (quiet clock) true slot swap (at_start request))
process_slot-Processes_example = process_slot-Processes clock true slot swap (at_start request)

process_guest_calls-Serves_example :
    AreServed swap batch (process_guest_calls true swap false 0 batch).slots
    × IsWithin 1 0 batch (process_guest_calls true swap false 1 batch)
process_guest_calls-Serves_example =
    process_guest_calls-Serves clock swap false batch 1 batch (refl, (refl, (refl, tt)))
