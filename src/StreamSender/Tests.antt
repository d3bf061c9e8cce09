-- ===== src/StreamSender/Tests.antt =====
-- A stream of eight bytes over slots of 30, two at a time, and one that an error breaks off.
use shm.Base.{ℕ, ◌+◌, ◌%◌, ◌≡◌, ◌≢◌, refl, true, none, some, [], ◌∷◌, arith, ltb, if◌then◌else◌}
use shm.Slot.Exchange.{timeout}
use shm.Reassembler.{
  Reassembler, Env, default_config, prune, prune_streams, construct, config_is_valid,
}
use shm.Reassembler.Valid.{construct-IsValid}
use shm.Reassembler.Trace.{deliveries}
use shm.Reassembler.Session.{IsAcceptable}
use shm.StreamSender.{
  SenderHost, StreamSender, StreamData, done, failed, acquire, send, send_chunks, fill, fill_with,
  post, drain_one, drain_all, round, end_round, start_on, after_start,
}
use shm.StreamSender.Recording.{Recorded, recorded, recording}
use shm.StreamSender.Plan.{cut}
use shm.StreamSender.Post.{IsUniform}
use shm.StreamSender.Sends.{Sends, send-Sends}
use shm.StreamSender.Return.{Ends, Answers, send-returns}
use shm.StreamSender.Deliver.{Delivers, arriving, delivered, send-Delivers, send-succeeds}

-- A host of three slots that counts the calls of `AcquireSlot` and `WaitForSlot`. From the call
-- `limit` on a wait is in vain.
abbrev counting : ℕ → SenderHost ℕ
counting limit = record {
  acquire_slot = λ w. (some (w % 3), w + 1);
  acquire_specific_slot = λ i w. (some i, w + 1);
  max_req_size = λ i. 30;
  write_req = λ slot bytes w. w;
  send_acquired = λ slot size msg_type w. (none, w);
  send_acquired_async = λ slot size msg_type w. (none, w);
  wait_for_slot = λ slot time w. (if ltb w limit then none else some timeout, w + 1);
}

abbrev steady : SenderHost ℕ
steady = record (counting 0) { wait_for_slot = λ slot time w. (none, w + 1) }

abbrev sender : StreamSender
sender = record { max_in_flight = 2; base_slot = none }

abbrev stream : StreamData
stream = record { stream_id = 7; app_msg_type = 9; bytes = 1 ∷ 2 ∷ 3 ∷ 4 ∷ 5 ∷ 6 ∷ 7 ∷ 8 ∷ [] }

steady-IsUniform : IsUniform steady sender stream 30
steady-IsUniform = record { same = λ i. refl; large = omega arith; word = omega arith }

counting-IsUniform : (limit : ℕ) → IsUniform (counting limit) sender stream 30
counting-IsUniform limit = record { same = λ i. refl; large = omega arith; word = omega arith }

steady-Answers : Answers steady sender ⊥
unfolding acquire
steady-Answers = record {
  asked = λ rr w q. cc;
  starts = λ slot n m w e q. cc;
  sends = λ slot n m w e q. cc;
  waits = λ slot time w e q. cc;
}

-- The first wait fails, and the chunk that is still out is waited for all the same.
send-breaks :
    (w : Recorded ℕ) × ((send (recording (counting 3)) sender stream true true 9 (recorded 0)
        ≡ failed timeout w)
      × (w.waited ≡ 1 ∷ 2 ∷ []))
unfolding send acquire start_on after_start send_chunks round end_round drain_all drain_one fill
    fill_with post
send-breaks = (_, (refl, refl))

send-Sends_example :
    Sends
      (counting 3)
      sender
      stream
      30
      (send (recording (counting 3)) sender stream true true 9 (recorded 0))
send-Sends_example = send-Sends (counting 3) sender stream 30 (counting-IsUniform 3) true true 9 0

counting-asked : (limit rr w : ℕ) → (acquire (counting limit) sender rr w).slot ≢ none
unfolding acquire
counting-asked limit rr w = λ q. cc

send-returns_example : Ends Unit (send (counting 3) sender stream true true 9 0)
send-returns_example =
    send-returns (counting 3) sender stream 30 (counting-IsUniform 3) (counting-asked 3)
      (omega arith) true true 9 0 (omega arith)

abbrev env : Env
env = record { now = 5; buf_allocates = true; park_allocates = true }

abbrev fresh : Reassembler
fresh = record { config = default_config; streams = [] }

fresh-IsAcceptable : IsAcceptable 7 (cut 6 stream.bytes) 9 env fresh
unfolding prune prune_streams cut construct config_is_valid
fresh-IsAcceptable = record {
  valid = construct-IsValid default_config;
  expressible = record { id_fits = omega arith; size_fits = omega arith; count_fits = omega arith };
  tag_fits = omega arith;
  size_fits = omega arith;
  count_fits = omega arith;
  place_free = omega arith;
  allocates = refl;
}

send-Delivers_example :
    Delivers steady sender stream 30 steady-IsUniform env fresh-IsAcceptable
      (send (recording steady) sender stream true true 9 (recorded 0))
send-Delivers_example =
    send-Delivers steady sender stream 30 steady-IsUniform env fresh-IsAcceptable true true 9 0

send-succeeds_example :
    (w : Recorded ℕ) × ((send (recording steady) sender stream true true 9 (recorded 0) ≡ done w)
      × (deliveries fresh (arriving env w.packets) ≡ delivered stream))
send-succeeds_example =
    send-succeeds steady sender stream 30 steady-IsUniform env fresh-IsAcceptable steady-Answers
      (omega arith) 9 0 (omega arith)
