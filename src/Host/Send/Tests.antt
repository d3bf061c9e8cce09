-- ===== src/Host/Send/Tests.antt =====
-- Requests on a free slot with nobody to answer, and their bytes in the buffer.
use shm.Base.{ℕ, ◌*◌, ◌^◌, ◌-◌, ◌≡◌, refl, true, false, none, some, [], ◌∷◌, arith}
use shm.Wire.{normal}
use shm.Slot.{
  slot_free, Cell, World, cas_state, claim_state, claim_free, claim_observed, try_claim_slot,
}
use shm.Slot.Claim.{quiet}
use shm.Slot.Exchange.{Slot, invalid_args, failure, Sent}
use shm.Slot.Acquire.{acquire_loop, acquire_specific_slot}
use shm.Slot.Pool.{Pool}
use shm.GuestCall.{read_request}
use shm.Host.Send.{Request, send_to_slot, send, submit_acquired, submit, submit_bytes, copy_request}
use shm.Host.Send.Ends.{EndsOn, send_to_slot-EndsOn}
use shm.Host.Send.Any.{EndsAny, send-EndsAny}
use shm.Host.Send.Copy.{read_request-copy_request}

abbrev free_cell : Cell
free_cell = record {
  header = record {
    state = slot_free;
    host_state = 0;
    guest_state = 1;
    msg_seq = 5;
    msg_type = normal;
    req_size = 0;
    resp_size = 0;
    lease = 10;
    gen = 3;
  };
  req_buffer = 0 ∷ 0 ∷ 0 ∷ 0 ∷ [];
  resp_buffer = 0 ∷ 0 ∷ 0 ∷ 0 ∷ [];
  active_wait = false;
}

abbrev at_start : World
at_start = record { tick = 0; signals = 0; cell = free_cell }

abbrev slot : Slot
slot = record {
  max_req_size = 4;
  max_resp_size = 4;
  msg_seq = 8;
  current_limit = 100;
  msg_seq_stride = 2;
  response_timeout_ms = 10;
  num_slots = 1;
}

abbrev clock : ℕ → ℕ
clock t = t * 1000000

-- Two bytes for the end of the buffer.
abbrev request : Request
request = record { bytes = some (7 ∷ 8 ∷ []); size = 2 ^ 32 - 2; msg_type = normal; timeout_ms = 3 }

-- A null pointer frees the slot again.
send_to_slot-null :
    (r : Sent) × ((send_to_slot
          (quiet clock)
          9
          true
          slot
          0
          (record request { bytes = none })
          at_start
        ≡ some r)
      × ((r.result ≡ failure invalid_args) × (r.world.cell.header.state ≡ slot_free)))
unfolding send_to_slot acquire_specific_slot acquire_loop submit_acquired submit submit_bytes
    try_claim_slot claim_observed claim_free claim_state cas_state
send_to_slot-null = (_, (refl, (refl, refl)))

send_to_slot-EndsOn_example :
    EndsOn
      (quiet clock)
      9
      true
      slot
      0
      request
      at_start
      (send_to_slot (quiet clock) 9 true slot 0 request at_start)
send_to_slot-EndsOn_example = send_to_slot-EndsOn (quiet clock) 9 true slot 0 request at_start

abbrev pool : Pool
pool = record { tick = 0; signals = 0; cells = λ i. free_cell; next_slot = 0 }

send-EndsAny_example :
    EndsAny
      (λ i. quiet clock)
      9
      0
      true
      1
      (λ i. slot)
      request
      pool
      (send (λ i. quiet clock) 9 0 true 1 0 (λ i. slot) request pool)
send-EndsAny_example =
    send-EndsAny (λ i. quiet clock) 9 0 true 1 (λ i. slot) request pool 0 (omega arith)
      (omega arith) (λ i. refl)

read_request-copy_request_example :
    read_request 4 (2 ^ 32 - 2) (copy_request 4 (2 ^ 32 - 2) (7 ∷ 8 ∷ []) free_cell.req_buffer)
    ≡ 7 ∷ 8 ∷ []
read_request-copy_request_example =
    read_request-copy_request 4 (2 ^ 32 - 2) (7 ∷ 8 ∷ []) free_cell.req_buffer refl (omega arith)
      refl
