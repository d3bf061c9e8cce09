-- ===== src/Slot/Exchange/Tests.antt =====
-- A slot with a guest that answers.
use shm.Base.{
  ℕ, ◌*◌, ◌≡◌, ◌≢◌, refl, true, false, ◌&&◌, none, some, [], ◌∷◌, arith, ◌==◌, if◌then◌else◌,
}
use shm.Wire.{normal}
use shm.WaitStrategy.{wait, spin, grow}
use shm.WaitStrategy.Laws.{InWindow}
use shm.Slot.{slot_free, slot_req_ready, slot_resp_ready, slot_busy, SlotHeader, Cell, Env, World}
use shm.Slot.Claim.{quiet}
use shm.Slot.Exchange.{
  success, Slot, send_acquired, send_held, wait_for_slot, complete, consume, finish_wait, publish,
  read_response, wait_for_resp_ready, next_seq, infinite,
}
use shm.Slot.Exchange.Flight.{Response, IsPolite, InFlight}
use shm.Slot.Exchange.Answer.{AnsweredSent, send_acquired-Answered, held_and_async-Answered}
use shm.Slot.Exchange.Outcome.{Ended, send_acquired-Ended}
use shm.Slot.Exchange.Return.{sends-return}

abbrev free_header : SlotHeader
free_header = record {
  state = slot_free;
  host_state = 0;
  guest_state = 1;
  msg_seq = 0;
  msg_type = normal;
  req_size = 0;
  resp_size = 0;
  lease = 0;
  gen = 0;
}

abbrev free_cell : Cell
free_cell = record {
  header = free_header;
  req_buffer = 1 ∷ 2 ∷ 0 ∷ 0 ∷ [];
  resp_buffer = 0 ∷ 0 ∷ 0 ∷ 0 ∷ [];
  active_wait = false;
}

abbrev held_cell : Cell
held_cell = record free_cell { header = record free_header { state = slot_busy } }

abbrev at_start : Cell → World
at_start c = record { tick = 0; signals = 0; cell = c }

-- A guest that answers each published request with the bytes 7, 8 and 9.
abbrev reply : Cell → Cell
reply c = record c {
  header = record c.header { state = slot_resp_ready; resp_size = 3 };
  resp_buffer = 7 ∷ 8 ∷ 9 ∷ 0 ∷ [];
}

abbrev guest : ℕ → Cell → Cell
guest t c = if (c.header.state == slot_req_ready) && c.active_wait then reply c else c

abbrev with_guest : Env
with_guest = record { peers = guest; clock = λ t. t * 1000000 }

abbrev slot : Slot
slot = record {
  max_req_size = 4;
  max_resp_size = 4;
  msg_seq = 5;
  current_limit = 100;
  msg_seq_stride = 2;
  response_timeout_ms = 10;
  num_slots = 1;
}

send_acquired-replies :
    (send_acquired with_guest 12 slot 0 2 normal infinite (at_start held_cell))
    ≡ some (record {
      result = success (7 ∷ 8 ∷ 9 ∷ []);
      slot = record slot { msg_seq = 7; current_limit = 5100 };
      world = record {
        tick = 13;
        signals = 1;
        cell = record held_cell {
          header = record free_header { msg_seq = 5; req_size = 2; resp_size = 3 };
          resp_buffer = 7 ∷ 8 ∷ 9 ∷ 0 ∷ [];
        };
      };
    })
unfolding send_acquired complete consume finish_wait publish read_response wait_for_resp_ready wait
    spin grow
send_acquired-replies = refl

abbrev Expected : Response → Type 0
Expected q = q.resp_buffer ≡ 7 ∷ 8 ∷ 9 ∷ 0 ∷ []

guest-IsPolite : IsPolite with_guest Expected
guest-IsPolite = record {
  parked = λ t c h. ground arith;
  answered = λ t c h a. ground arith;
  waited = λ t c a. ground arith;
  published = λ t c a ne h. ground arith;
}

slot-InWindow : InWindow slot.current_limit
slot-InWindow = omega arith

send_acquired-Answered_example :
    AnsweredSent with_guest Expected 4 5
      (send_acquired with_guest 12 slot 0 2 normal infinite (at_start held_cell))
send_acquired-Answered_example =
    send_acquired-Answered with_guest Expected 12 slot 0 2 normal infinite (at_start held_cell)
      guest-IsPolite slot-InWindow

-- The request that `SendAcquiredAsync` has published.
abbrev async_cell : Cell
async_cell = record held_cell {
  header = record free_header { state = slot_req_ready; msg_seq = 5; req_size = 2 };
  active_wait = true;
}

async-InFlight : InFlight with_guest Expected (at_start async_cell)
async-InFlight = record { waits = refl; answer = λ h. absurd (ground arith) }

held_and_async-Answered_example :
    AnsweredSent with_guest Expected 4 7
      (send_held with_guest 12 (next_seq slot) 0 2 normal infinite (at_start held_cell))
    × AnsweredSent with_guest Expected 4 5
        (wait_for_slot with_guest 12 (next_seq slot) 0 infinite (at_start async_cell))
held_and_async-Answered_example =
    held_and_async-Answered with_guest Expected 12 (next_seq slot) 0 2 normal infinite
      (at_start held_cell) (at_start async_cell) guest-IsPolite slot-InWindow async-InFlight

-- Nobody answers, and the call gives up.
send_acquired-Ended_example :
    Ended slot 0 2
      (at_start held_cell)
      (send_acquired (quiet (λ t. t * 1000000)) 12 slot 0 2 normal infinite (at_start held_cell))
send_acquired-Ended_example =
    send_acquired-Ended (quiet (λ t. t * 1000000)) 12 slot 0 2 normal infinite (at_start held_cell)

sends-return_example :
    (send_acquired (quiet (λ t. t * 1000000)) 12 slot 0 2 normal infinite (at_start held_cell)
      ≢ none)
    × (send_held (quiet (λ t. t * 1000000)) 12 slot 0 2 normal infinite (at_start held_cell) ≢ none)
sends-return_example =
    sends-return (quiet (λ t. t * 1000000)) 12 10 slot 0 2 normal infinite (at_start held_cell)
      (λ h. absurd (omega arith)) (λ s t l. omega arith) (omega arith)
