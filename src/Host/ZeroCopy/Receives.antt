-- ===== src/Host/ZeroCopy/Receives.antt =====
-- What a transaction of a `ZeroCopySlot` leaves: the handle, the slot and the views of the response.
use shm.Base.{
  ℕ, ◌+◌, ◌-◌, ◌^◌, ◌<◌, ◌≡◌, ◌≢◌, inl, inr, refl, Bool, true, false, not, min, Option, none, some,
  List, [], arith, take, drop, ltb, ◌==◌, if◌then◌else◌, Bool-cases,
}
use shm.Wire.{MsgType, system_error, flatbuffer}
use shm.WaitStrategy.{Waited}
use shm.WaitStrategy.Laws.{InWindow, Returns}
use shm.Slot.{slot_free, slot_busy, Env, World, look}
use shm.Slot.Exchange.{
  Error, timeout, buffer_too_small, invalid_args, not_connected, resource_exhausted, internal_error,
  protocol_violation, Slot, abs_size, is_negative, finish_wait, wait_response, arm,
  effective_timeout, next_seq, read_response, publish,
}
use shm.Slot.Exchange.Flight.{Response, response_of, IsPolite, publish-InFlight}
use shm.Slot.Exchange.Answer.{Returned, wait-Returned, finish_wait-answer}
use shm.Slot.Exchange.Outcome.{finish_wait-released}
use shm.Host.Handle.{Handle, is_valid, after_send}
use shm.Host.ZeroCopy.{
  ZeroCopySent, check_response, conclude, send_zero_copy, resp_length, resp_offset, get_resp_size,
  get_resp_buffer, send_flat_buffer, neg32,
}
use shm.Host.ZeroCopy.FlatBuffer.{send_flat_buffer-same}

-- The bytes that a caller finds at a pointer with a size.
abbrev pub bytes_at : Option ℕ → ℕ → List ℕ → List ℕ
bytes_at none n b = []
bytes_at (some o) n b = take n (drop o b)

-- What a caller reads: it asks for the size, then for the pointer, and then reads the bytes.
abbrev pub read_views : Env → Bool → Handle → Slot → World → List ℕ
read_views e alive h s w =
    let n = get_resp_size e alive h s w in
    let o = get_resp_buffer e alive h s n.1 in bytes_at o.0 n.0 (look e o.1).cell.resp_buffer

resp_length-min : (s : Slot) (size : ℕ) → resp_length s size ≡ min (abs_size size) s.max_resp_size
resp_length-min s size = ground arith

-- The views are the response that an owner who copies it out is given.
view-read_response :
    (s : Slot) (size : ℕ) (b : List ℕ)
    → take (resp_length s size) (drop (resp_offset s size) b) ≡ read_response s.max_resp_size size b
unfolding read_response
view-read_response s size b = view (resp_length s size) (resp_length-min s size)
  where
    view :
        (n : ℕ)
        → n ≡ min (abs_size size) s.max_resp_size
        → take n (drop (if not (is_negative size) then 0 else s.max_resp_size - n) b)
          ≡ read_response s.max_resp_size size b
    view n same = rw same (elim (Bool-cases (is_negative size)) [
      | inl from_end ↦ rw from_end refl
      | inr from_start ↦ rw from_start refl
    ])

module _ (e : Env) (Q : Response → Type 0) where
  -- What each answer of a call that began at `w` says of the slot.
  abbrev pub Receives : Slot → ℕ → ℕ → Bool → Handle → World → Option Error → World → Type 0
  Receives s seq size alive h w none v =
      (v.cell.header.state ≡ slot_busy)
      × ((q : Response) × (Q q
            × ((q.msg_seq ≡ seq)
                × ((q.msg_type ≢ system_error)
                    × (read_views e alive h s v
                        ≡ read_response s.max_resp_size q.resp_size q.resp_buffer)))))
  Receives s seq size alive h w (some timeout) v = v.cell.active_wait ≡ false
  Receives s seq size alive h w (some protocol_violation) v =
      (v.cell.header.state ≡ slot_free) × ((q : Response) × (Q q × (q.msg_seq ≢ seq)))
  Receives s seq size alive h w (some internal_error) v =
      (v.cell.header.state ≡ slot_free) × ((q : Response) × (Q q × (q.msg_type ≡ system_error)))
  Receives s seq size alive h w (some buffer_too_small) v =
      (s.max_req_size < abs_size size) × (v ≡ w)
  Receives s seq size alive h w (some invalid_args) v = (is_valid alive h ≡ false) × (v ≡ w)
  Receives s seq size alive h w (some not_connected) v = ⊥
  Receives s seq size alive h w (some resource_exhausted) v = ⊥

  abbrev pub ReceivesSent : Slot → ℕ → Bool → Handle → World → Option ZeroCopySent → Type 0
  ReceivesSent s size alive h w = Returns (λ r.
      Receives s s.msg_seq size alive h w r.error r.world × (r.handle ≡ after_send alive h r.error))

  module _ (p : IsPolite e Q) (s : Slot) (size : ℕ) (alive : Bool) (h : Handle)
      (valid : is_valid alive h ≡ true) (u : World) where
    size-Parked :
        (v : World)
        → v.cell.header.state ≡ slot_busy
        → get_resp_size e alive h s v
          ≡ (resp_length s v.cell.header.resp_size, record v { tick = v.tick + 1 })
    unfolding get_resp_size
    size-Parked v b = let still = p.parked v.tick v.cell b in rw (valid, still) refl

    buffer-Parked :
        (v : World)
        → v.cell.header.state ≡ slot_busy
        → get_resp_buffer e alive h s v
          ≡ (some (resp_offset s v.cell.header.resp_size), record v { tick = v.tick + 1 })
    unfolding get_resp_buffer
    buffer-Parked v b = let still = p.parked v.tick v.cell b in rw (valid, still) refl

    views-read_response :
        (v : World)
        → v.cell.header.state ≡ slot_busy
        → read_views e alive h s v
          ≡ read_response s.max_resp_size v.cell.header.resp_size v.cell.resp_buffer
    views-read_response v b =
        let later : World = record v { tick = v.tick + 1 } in
        let still = p.parked (v.tick + 1 + 1) v.cell b in
        rw (size-Parked v b, buffer-Parked later b, still)
          (view-read_response s v.cell.header.resp_size v.cell.resp_buffer)

    check_response-Receives :
        (t : Slot) (v : World)
        → v.cell.header.state ≡ slot_busy
        → Q (response_of v.cell)
        → ReceivesSent s size alive h u (some (check_response e s.msg_seq h t v))
    unfolding check_response
    check_response-Receives t v b q =
        let still : (k : ℕ) → e.peers k v.cell ≡ v.cell = λ k. p.parked k v.cell b in
        rw (still v.tick, still (v.tick + 1))
          (elim (Bool-cases (v.cell.header.msg_seq == s.msg_seq)) [
            | inr foreign ↦
                rw (foreign, valid)
                  (
                    (refl, (response_of v.cell, (q, λ g. absurd (ground (arith, foreign, g))))),
                    refl,
                  )
            | inl same ↦ elim (Bool-cases (v.cell.header.msg_type == system_error)) [
              | inl refused ↦
                  rw (same, refused, valid)
                    ((refl, (response_of v.cell, (q, ground (arith, refused)))), refl)
              | inr fine ↦
                  rw (same, fine)
                    (
                      (
                        b,
                        (
                          response_of v.cell,
                          (
                            q,
                            (
                              ground (arith, same),
                              (
                                λ g. absurd (ground (arith, fine, g)),
                                views-read_response (record v { tick = v.tick + 1 + 1 }) b,
                              ),
                            ),
                          ),
                        ),
                      ),
                      refl,
                    )
            ]
          ])

    conclude-Receives :
        (t : Slot) (o : Option (Waited World))
        → Returned e Q o
        → ReceivesSent s size alive h u (conclude e s.msg_seq h t o)
    unfolding conclude
    conclude-Receives t none f = tt
    conclude-Receives t (some r) (f, there) = elim (Bool-cases r.ready) [
      | inr late ↦ let down = finish_wait-released e false r.state in rw (late, valid) (down, refl)
      | inl ready ↦
          let (parked, q) = finish_wait-answer e Q p r.state f (there ready) in
          rw ready (
            check_response-Receives (record t { current_limit = r.current_limit })
              (finish_wait e true r.state) parked q)
    ]

  send_zero_copy-Receives :
      (fuel : ℕ) (alive : Bool) (h : Handle) (s : Slot) (size : ℕ) (msg_type : MsgType)
      (timeout_ms : ℕ) (w : World)
      → IsPolite e Q
      → InWindow s.current_limit
      → ReceivesSent s size alive h w (send_zero_copy e fuel alive h s size msg_type timeout_ms w)
  unfolding send_zero_copy
  send_zero_copy-Receives fuel alive h s size msg_type timeout_ms w p k =
      elim (Bool-cases (is_valid alive h)) [
        | inr gone ↦ rw gone ((gone, refl), rw gone refl)
        | inl valid ↦ elim (Bool-cases (ltb s.max_req_size (abs_size size))) [
          | inl large ↦ rw (valid, large) ((ground (arith, large), refl), rw valid refl)
          | inr fits ↦
              rw (valid, fits)
                (conclude-Receives p s size alive h valid w (next_seq s)
                  (wait_response e fuel s (effective_timeout s timeout_ms)
                    (arm e s size msg_type w))
                  (wait-Returned e Q p fuel s.current_limit (effective_timeout s timeout_ms)
                    (publish e (arm e s size msg_type w)) k
                    (publish-InFlight e Q p (arm e s size msg_type w))))
        ]
      ]

  -- While the others are polite, a call of `ZeroCopySlot::Send` that returns says how it ended. On
  -- success the handle keeps the slot, which is BUSY, and the bytes that `GetRespBuffer` and
  -- `GetRespSize` show are those of a response that was published for the request: with its sequence
  -- number, no system error, and cut to the capacity of the slot. A protocol violation is a published
  -- response with another number, and an internal error one that is a system error: both leave the
  -- slot FREE, and the handle without it. A timeout leaves the flag down and the handle without its
  -- slot. A request that is too large, or a handle that is not valid, changes nothing. And a call of
  -- `SendFlatBuffer` with a size that is not negative ends as one of `Send` with its negation and the
  -- type of a FlatBuffer.
  pub zero_copy_sends-Receive :
      (fuel : ℕ) (alive : Bool) (h : Handle) (s : Slot) (size flat_size : ℕ) (msg_type : MsgType)
      (timeout_ms : ℕ) (w : World)
      → IsPolite e Q
      → InWindow s.current_limit
      → flat_size < 2 ^ 31
      → ReceivesSent s size alive h w (send_zero_copy e fuel alive h s size msg_type timeout_ms w)
        × (send_flat_buffer e fuel alive h s flat_size timeout_ms w
            ≡ send_zero_copy e fuel alive h s (neg32 flat_size) flatbuffer timeout_ms w)
  zero_copy_sends-Receive fuel alive h s size flat_size msg_type timeout_ms w p k l = (
    send_zero_copy-Receives fuel alive h s size msg_type timeout_ms w p k,
    send_flat_buffer-same e fuel alive h s flat_size timeout_ms w l,
  )
