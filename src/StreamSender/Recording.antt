-- ===== src/StreamSender/Recording.antt =====
-- A host that writes down what a sender hands to it, whatever the host below it answers.
use shm.Base.{ℕ, Option, none, some, List, [], ◌∷◌, ◌++◌, if◌then◌else◌, ◌==◌, take}
use shm.Wire.{MsgType}
use shm.Slot.Exchange.{Error}
use shm.StreamSender.{SenderHost}

-- A message that was handed over.
pub record Packet : Type 0 where
  pub msg_type : MsgType
  pub req : List ℕ

-- The host below, the bytes at the start of each request buffer, the messages in the order in which
-- they were sent, and the slots that were sent on without waiting and those that were waited for.
pub record Recorded (S : Type 0) : Type 0 where
  pub inner : S
  pub req : ℕ → List ℕ
  pub packets : List Packet
  pub posted : List ℕ
  pub waited : List ℕ

module _ {S : Type 0} where
  abbrev pub recorded : S → Recorded S
  recorded w = record { inner = w; req = λ i. []; packets = []; posted = []; waited = [] }

  abbrev pub packet_of : Recorded S → ℕ → ℕ → MsgType → Packet
  packet_of w slot size msg_type = record { msg_type = msg_type; req = take size (w.req slot) }

  -- A message is sent by a call of `SendAcquired` whatever it answers, and by a call of
  -- `SendAcquiredAsync` that answers no error.
  abbrev pub note_posted : Recorded S → ℕ → Packet → Option Error → Recorded S
  note_posted w slot p none = record w {
    packets = w.packets ++ (p ∷ []);
    posted = w.posted ++ (slot ∷ []);
  }
  note_posted w slot p (some e) = w

  abbrev pub recording : SenderHost S → SenderHost (Recorded S)
  recording h = record {
    acquire_slot = λ w. let r = h.acquire_slot w.inner in (r.0, record w { inner = r.1 });
    acquire_specific_slot =
        λ i w. let r = h.acquire_specific_slot i w.inner in (r.0, record w { inner = r.1 });
    max_req_size = h.max_req_size;
    write_req = λ slot bytes w. record w {
      inner = h.write_req slot bytes w.inner;
      req = λ j. if j == slot then bytes else w.req j;
    };
    send_acquired = λ slot size msg_type w.
        let r = h.send_acquired slot size msg_type w.inner in
        (
          r.0,
          record w { inner = r.1; packets = w.packets ++ (packet_of w slot size msg_type ∷ []) },
        );
    send_acquired_async = λ slot size msg_type w.
        let r = h.send_acquired_async slot size msg_type w.inner in
        (r.0, note_posted (record w { inner = r.1 }) slot (packet_of w slot size msg_type) r.0);
    wait_for_slot = λ slot timeout w.
        let r = h.wait_for_slot slot timeout w.inner in
        (r.0, record w { inner = r.1; waited = w.waited ++ (slot ∷ []) });
  }
