-- ===== src/Host/ZeroCopy/Tests.antt =====
-- A zero-copy handle on a slot with a guest that answers with three bytes.
use shm.Base.{
  ◌-◌, ◌*◌, ◌^◌, ◌≡◌, refl, true, false, ◌&&◌, none, some, [], ◌∷◌, arith, ◌==◌, if◌then◌else◌,
}
use shm.Wire.{normal, flatbuffer}
use shm.WaitStrategy.{wait, spin, grow}
use shm.Slot.{slot_req_ready, slot_resp_ready, slot_busy, Cell, Env, World}
use shm.Slot.Exchange.{Slot, infinite, finish_wait, publish, wait_for_resp_ready}
use shm.Slot.Exchange.Flight.{Response, IsPolite}
use shm.Host.Handle.{Handle, handle_on}
use shm.Host.ZeroCopy.{
  ZeroCopySent, check_response, conclude, send_zero_copy, send_flat_buffer, neg32, get_resp_size,
  get_resp_buffer,
}
use shm.Host.ZeroCopy.Receives.{ReceivesSent, read_views, zero_copy_sends-Receive}

abbrev busy_cell : Cell
busy_cell = record {
  header = record {
    state = slot_busy;
    host_state = 0;
    guest_state = 1;
    msg_seq = 0;
    msg_type = normal;
    req_size = 0;
    resp_size = 0;
    lease = 10;
    gen = 3;
  };
  req_buffer = 1 ∷ 2 ∷ 0 ∷ 0 ∷ [];
  resp_buffer = 0 ∷ 0 ∷ 0 ∷ 0 ∷ [];
  active_wait = false;
}

abbrev at_start : World
at_start = record { tick = 0; signals = 0; cell = busy_cell }

-- The answer lies at the end of the buffer.
abbrev answers : Env
answers = record {
  peers = λ t c.
      if (c.header.state == slot_req_ready) && c.active_wait
      then record c {
        header = record c.header { state = slot_resp_ready; resp_size = 2 ^ 32 - 3 };
        resp_buffer = 0 ∷ 7 ∷ 8 ∷ 9 ∷ [];
      }
      else c;
  clock = λ t. t * 1000000;
}

abbrev slot : Slot
slot = record {
  max_req_size = 4;
  max_resp_size = 4;
  msg_seq = 5;
  current_limit = 100;
  msg_seq_stride = 2;
  response_timeout_ms = 10;
  num_slots = 1;
}

abbrev handle : Handle
handle = handle_on (some 0)

-- The owner reads the three bytes.
send_zero_copy-replies :
    (r : ZeroCopySent) × ((send_zero_copy answers 12 true handle slot 2 normal infinite at_start
        ≡ some r)
      × ((r.error ≡ none) × (read_views answers true r.handle r.slot r.world ≡ 7 ∷ 8 ∷ 9 ∷ [])))
unfolding send_zero_copy conclude check_response finish_wait publish wait_for_resp_ready wait spin
    grow get_resp_size get_resp_buffer
send_zero_copy-replies = (_, (refl, (refl, refl)))

abbrev Expected : Response → Type 0
Expected q = q.resp_buffer ≡ 0 ∷ 7 ∷ 8 ∷ 9 ∷ []

answers-IsPolite : IsPolite answers Expected
answers-IsPolite = record {
  parked = λ t c h. ground arith;
  answered = λ t c h a. ground arith;
  waited = λ t c a. ground arith;
  published = λ t c a ne h. ground arith;
}

zero_copy_sends-Receive_example :
    ReceivesSent answers Expected slot 2 true handle at_start
      (send_zero_copy answers 12 true handle slot 2 normal infinite at_start)
    × (send_flat_buffer answers 12 true handle slot 3 infinite at_start
        ≡ send_zero_copy answers 12 true handle slot (neg32 3) flatbuffer infinite at_start)
zero_copy_sends-Receive_example =
    zero_copy_sends-Receive answers Expected 12 true handle slot 2 3 normal infinite at_start
      answers-IsPolite (omega arith) (omega arith)
