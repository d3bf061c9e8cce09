-- ===== src/StreamSender.antt =====
-- include/shm/Stream.h: `StreamSender::Send`, over any host. The host's operations are an interface,
-- so the calls keep their order and their answers are the host's.
pub mod Recording
pub mod Plan
pub mod Post
pub mod Rounds
pub mod Sends
pub mod Return
pub mod Deliver
mod Tests
use shm.Base.{
  ℕ, zero, suc, ◌+◌, ◌-◌, ◌/◌, ◌%◌, ◌^◌, Bool, true, false, not, ◌&&◌, ◌||◌, Option, none, some,
  List, [], ◌∷◌, ◌++◌, ltb, leb, ◌==◌, if◌then◌else◌, length, take, drop, add32, sub64,
}
use shm.Wire.{
  MsgType, stream_start, stream_chunk, system_error, max_stream_size, stream_header_size,
  chunk_header_size, StreamHeader, ChunkHeader, encode_stream_header, encode_chunk_header,
}
use shm.Slot.Exchange.{Error, invalid_args, buffer_too_small, resource_exhausted}

-- What the sender calls of `DirectHost`, on a state of its own. A slot index is `none` for -1, a
-- result is its error or `none`, and a timeout `none` is the default one. `write_req` is the `memcpy`
-- of a message to the start of a request buffer.
pub record SenderHost (S : Type 0) : Type 0 where
  pub acquire_slot : S → Option ℕ × S
  pub acquire_specific_slot : ℕ → S → Option ℕ × S
  pub max_req_size : ℕ → ℕ
  pub write_req : ℕ → List ℕ → S → S
  pub send_acquired : ℕ → ℕ → MsgType → S → Option Error × S
  pub send_acquired_async : ℕ → ℕ → MsgType → S → Option Error × S
  pub wait_for_slot : ℕ → Option ℕ → S → Option Error × S

-- `base_slot` is `none` for the shared pool.
pub record StreamSender : Type 0 where
  pub max_in_flight : ℕ
  pub base_slot : Option ℕ

-- The stream of a call: its number, its type and its bytes.
pub record StreamData : Type 0 where
  pub stream_id : ℕ
  pub app_msg_type : ℕ
  pub bytes : List ℕ

-- The locals of `Send`, with the state of the host: `src` is what is left of the data.
pub record Pipeline (S : Type 0) : Type 0 where
  pub host : S
  pub rr : ℕ
  pub src : List ℕ
  pub chunk_index : ℕ
  pub pending : List ℕ

-- `acquireSlot`: the slot, the rotation, and the host.
pub record Got (S : Type 0) : Type 0 where
  pub slot : Option ℕ
  pub rr : ℕ
  pub host : S

-- What a step of the loop leaves: it goes on, or an error ends the call.
pub data Progress (S : Type 0) : Type 0 where
  goes : Pipeline S → Progress S
  breaks : Error → Pipeline S → Progress S

-- A call that succeeded, one that failed, and one that its fuel did not end.
pub data StreamResult (S : Type 0) : Type 0 where
  done : S → StreamResult S
  failed : Error → S → StreamResult S
  spins : S → StreamResult S

abbrev pub advance_rr : ℕ → Option ℕ → ℕ
advance_rr rr none = rr
advance_rr rr (some slot) = add32 rr 1

-- `maxPayload` of a slot with `max_req` bytes, as a size_t
abbrev pub max_payload : ℕ → ℕ
max_payload max_req = sub64 max_req chunk_header_size

-- `totalChunks`
abbrev pub total_chunks_of : ℕ → ℕ → ℕ
total_chunks_of size max_req =
    if size == 0 then 0 else ((size + max_payload max_req - 1) / max_payload max_req) % 2 ^ 32

-- `currentChunkSize`
abbrev pub chunk_size : ℕ → ℕ → ℕ
chunk_size remaining max_req =
    if ltb (max_payload max_req) remaining then max_payload max_req % 2 ^ 32 else remaining % 2 ^ 32

abbrev pub opening : StreamData → ℕ → StreamHeader
opening t max_req = record {
  stream_id = t.stream_id;
  total_size = length t.bytes;
  total_chunks = total_chunks_of (length t.bytes) max_req;
  app_msg_type = t.app_msg_type;
}

-- The header of the next chunk, of `n` bytes.
abbrev pub next_header : {S : Type 0} → StreamData → Pipeline S → ℕ → ChunkHeader
next_header t p n = record {
  stream_id = t.stream_id;
  chunk_index = p.chunk_index;
  payload_size = n;
  dst_offset = (length t.bytes - length p.src) % 2 ^ 32;
}

-- Behind a call of the host: `q` if it answered without an error, else `p`.
abbrev pub on_answer : {S : Type 0} → Option Error → Pipeline S → Pipeline S → Progress S
on_answer none q p = goes q
on_answer (some e) q p = breaks e p

abbrev pub then_goes : {S : Type 0} → (Pipeline S → Progress S) → Progress S → Progress S
then_goes k (goes p) = k p
then_goes k (breaks e p) = breaks e p

abbrev pub is_finished : {S : Type 0} → Pipeline S → Bool
is_finished p = (length p.src == 0) && (length p.pending == 0)

module _ {S : Type 0} (h : SenderHost S) (s : StreamSender) where
  acquire_at : Option ℕ → ℕ → S → Got S
  acquire_at none rr w = let r = h.acquire_slot w in record { slot = r.0; rr = rr; host = r.1 }
  acquire_at (some base) rr w =
      let r = h.acquire_specific_slot (base + rr % s.max_in_flight) w in
      record { slot = r.0; rr = advance_rr rr r.0; host = r.1 }

  -- `acquireSlot`
  unfoldable pub acquire : ℕ → S → Got S
  unfolding acquire_at
  acquire rr w = acquire_at s.base_slot rr w

  module _ (t : StreamData) where
    -- Puts the next chunk of `n` bytes into a slot and sends it.
    unfoldable pub post : ℕ → ℕ → Pipeline S → Progress S
    post slot n p =
        let w = h.write_req slot (encode_chunk_header (next_header t p n) ++ take n p.src) p.host in
        let r = h.send_acquired_async slot (chunk_header_size + n) stream_chunk w in
        on_answer r.0
          (record p {
            host = r.1;
            src = drop n p.src;
            chunk_index = add32 p.chunk_index 1;
            pending = p.pending ++ (slot ∷ []);
          })
          (record p { host = r.1 })

    -- The body of the fill loop once a slot was asked for.
    unfoldable pub fill_with : (Pipeline S → Progress S) → Pipeline S → Option ℕ → Progress S
    unfolding post
    fill_with again p none = goes p
    fill_with again p (some slot) =
        then_goes again (post slot (chunk_size (length p.src) (h.max_req_size slot)) p)

    -- "Fill pipeline", with `room` places left in it.
    unfoldable pub fill : ℕ → Pipeline S → Progress S
    unfolding fill_with acquire
    fill zero p = goes p
    fill (suc room) p =
        let g = acquire p.rr p.host in
        if length p.src == 0
        then goes p
        else fill_with (fill room) (record p { rr = g.rr; host = g.host }) g.slot

    drain_pending : List ℕ → Pipeline S → Progress S
    drain_pending [] p = goes p
    drain_pending (slot ∷ rest) p =
        let r = h.wait_for_slot slot none p.host in
        let q = record p { host = r.1; pending = rest } in on_answer r.0 q q

    -- "Drain one if pending"
    unfoldable pub drain_one : Pipeline S → Progress S
    unfolding drain_pending
    drain_one p = drain_pending p.pending p

    -- The clean-up of the pending slots behind an error.
    unfoldable pub drain_all : List ℕ → S → S
    drain_all [] w = w
    drain_all (slot ∷ rest) w = drain_all rest (h.wait_for_slot slot (some 1) w).1

    -- One round of the loop.
    unfoldable pub round : Pipeline S → Progress S
    unfolding fill drain_one
    round p = then_goes drain_one (fill (s.max_in_flight - length p.pending) p)

    unfoldable pub end_round : (Pipeline S → StreamResult S) → Progress S → StreamResult S
    unfolding drain_all
    end_round again (goes p) = again p
    end_round again (breaks e p) = failed e (drain_all p.pending p.host)

    -- "Send Chunks (Pipelined)"
    unfoldable pub send_chunks : ℕ → Pipeline S → StreamResult S
    unfolding round end_round
    send_chunks zero p = if is_finished p then done p.host else spins p.host
    send_chunks (suc fuel) p =
        let rest = end_round (send_chunks fuel) (round p) in
        if is_finished p then done p.host else rest

    -- The abort of a stream whose slots are too small.
    abbrev pub abort : ℕ → S → StreamResult S
    abort slot w =
        failed buffer_too_small
          (h.wait_for_slot slot none (h.send_acquired_async slot 0 system_error w).1).1

    -- What is left of the call behind the answer to its start.
    unfoldable pub after_start : ℕ → ℕ → Option Error × S → StreamResult S
    unfolding send_chunks
    after_start fuel rr (none, w) =
        send_chunks fuel
          (record { host = w; rr = rr; src = t.bytes; chunk_index = 0; pending = [] })
    after_start fuel rr (some e, w) = failed e w

    unfoldable pub start_on : ℕ → Option ℕ → ℕ → S → StreamResult S
    unfolding after_start
    start_on fuel none rr w = failed resource_exhausted w
    start_on fuel (some slot) rr w =
        let max_req = h.max_req_size slot in
        if leb max_req chunk_header_size
        then abort slot w
        else after_start fuel rr (
            h.send_acquired slot stream_header_size stream_start
              (h.write_req slot (encode_stream_header (opening t max_req)) w))

    -- `Send`. The first test is that of the two pointers.
    unfoldable pub send : Bool → Bool → ℕ → S → StreamResult S
    unfolding start_on acquire
    send has_host has_data fuel w =
        let g = acquire 0 w in
        if not has_host || not has_data
        then failed invalid_args w
        else if ltb max_stream_size (length t.bytes)
        then failed invalid_args w
        else start_on fuel g.slot g.rr g.host
