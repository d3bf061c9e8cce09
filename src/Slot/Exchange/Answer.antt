-- ===== src/Slot/Exchange/Answer.antt =====
-- The response that a transaction hands out is one that was published for it, when the other parties
-- keep to the protocol.
use shm.Base.{
  ℕ, ◌+◌, ◌-◌, ◌%◌, ◌^◌, ◌≡◌, ◌≢◌, inl, inr, refl, true, Option, none, some, arith, ltb, ◌==◌,
  Bool-cases,
}
use shm.Wire.{MsgType, system_error}
use shm.WaitStrategy.{Waited}
use shm.WaitStrategy.Laws.{InWindow, Returns, Answers}
use shm.Slot.{
  slot_free, slot_resp_ready, slot_busy, host_state_active, Env, World, store_state, store_lease,
  store_host_state, store_active_wait,
}
use shm.Slot.Exchange.Flight.{
  Response, response_of, IsPolite, InFlight, look-InFlight, host_state-InFlight, wait-InFlight,
  publish-InFlight,
}
use shm.Slot.Exchange.{
  wait_response, internal_error, protocol_violation, SendResult, success, failure, Slot, abs_size,
  check_ready, sleep_action, wait_for_resp_ready, finish_wait, publish, read_response, consume,
  complete, Sent, send_acquired, send_held, wait_for_slot, is_foreign, arm, effective_timeout,
  next_seq,
}

module _ (e : Env) (Q : Response → Type 0) where
  -- What a result says of the response that was published.
  abbrev pub Answered : ℕ → ℕ → SendResult → Type 0
  Answered max_resp_size seq (success bytes) =
      (q : Response) × (Q q
        × (q.msg_seq ≡ seq)
        × (q.msg_type ≢ system_error)
        × (bytes ≡ read_response max_resp_size q.resp_size q.resp_buffer))
  Answered max_resp_size seq (failure protocol_violation) =
      (q : Response) × (Q q × (q.msg_seq ≢ seq))
  Answered max_resp_size seq (failure internal_error) =
      (q : Response) × (Q q × (q.msg_type ≡ system_error))
  Answered max_resp_size seq (failure _) = Unit

  abbrev pub AnsweredSent : ℕ → ℕ → Option Sent → Type 0
  AnsweredSent max_resp_size seq = Returns (λ r. Answered max_resp_size seq r.result)

  consume-Answered :
      IsPolite e Q
      → (release : World → World) (seq : ℕ) (s : Slot) (w : World) → w.cell.header.state ≡ slot_busy
      → Q (response_of w.cell)
      → Answered s.max_resp_size seq (consume e release seq s w).result
  unfolding consume
  consume-Answered p release seq s w b q =
      let still : (t : ℕ) → e.peers t w.cell ≡ w.cell = λ t. p.parked t w.cell b in
      rw (still w.tick, still (w.tick + 1), still (w.tick + 1 + 1), still (w.tick + 1 + 1 + 1))
        (elim (Bool-cases (w.cell.header.msg_seq == seq)) [
          | inr foreign ↦ rw foreign (response_of w.cell, (q, λ h. absurd (ground arith)))
          | inl same ↦ elim (Bool-cases (w.cell.header.msg_type == system_error)) [
            | inl refused ↦ rw (same, refused) (response_of w.cell, (q, ground arith))
            | inr fine ↦
                rw (same, fine)
                  (response_of w.cell, (q, ground arith, (λ h. absurd (ground arith)), refl))
          ]
        ])

  -- The consume-claim leaves the response as it was published.
  pub finish_wait-answer :
      IsPolite e Q
      → (w : World) → InFlight e Q w
      → w.cell.header.state ≡ slot_resp_ready
      → ((finish_wait e true w).cell.header.state ≡ slot_busy)
        × Q (response_of (finish_wait e true w).cell)
  unfolding finish_wait
  finish_wait-answer p w f there =
      let kept = p.answered w.tick w.cell there f.waits in
      let v = store_state e slot_busy w in
      let parked = p.parked v.tick v.cell refl in rw (parked, kept) (refl, f.answer there)

  complete-Answered :
      IsPolite e Q
      → (release : World → World) (seq : ℕ) (s : Slot) (o : Option (Waited World))
      → Returns
          (λ r.
            InFlight e Q r.state × (r.ready ≡ true → r.state.cell.header.state ≡ slot_resp_ready))
          o
      → AnsweredSent s.max_resp_size seq (complete e release seq s o)
  unfolding complete
  complete-Answered p release seq s none f = tt
  complete-Answered p release seq s (some r) (f, there) = elim (Bool-cases r.ready) [
    | inr late ↦ rw late tt
    | inl ready ↦
        let (parked, q) = finish_wait-answer p r.state f (there ready) in
        rw ready (
          consume-Answered p release seq (record s { current_limit = r.current_limit })
            (finish_wait e true r.state) parked q)
  ]

  abbrev pub Returned : Option (Waited World) → Type 0
  Returned =
      Returns
        (λ r. InFlight e Q r.state × (r.ready ≡ true → r.state.cell.header.state ≡ slot_resp_ready))

  pub wait-Returned :
      IsPolite e Q
      → (fuel limit timeout_ms : ℕ) (w : World) → InWindow limit
      → InFlight e Q w
      → Returned (wait_for_resp_ready e fuel limit timeout_ms w)
  wait-Returned p fuel limit timeout_ms w k f =
      drop_window (wait_for_resp_ready e fuel limit timeout_ms w)
        (wait-InFlight e Q p fuel limit timeout_ms w k f)
    where
      drop_window :
          (o : Option (Waited World))
          → Answers
              (check_ready e)
              (sleep_action e fuel timeout_ms)
              (λ v. v.cell.header.state ≡ slot_resp_ready)
              (InFlight e Q)
              o
          → Returned o
      drop_window none a = tt
      drop_window (some r) (k, f, there) = (f, there)

  -- While the others are polite, a call of `SendAcquired` that returns bytes returns those of a
  -- response that was published for it: with its sequence number, no system error, and cut to the
  -- capacity of the slot. A protocol violation is a published response with another number, and an
  -- internal error one that is a system error.
  pub send_acquired-Answered :
      (fuel : ℕ) (s : Slot) (slot_idx size : ℕ) (msg_type : MsgType) (timeout_ms : ℕ) (w : World)
      → IsPolite e Q
      → InWindow s.current_limit
      → AnsweredSent s.max_resp_size s.msg_seq
          (send_acquired e fuel s slot_idx size msg_type timeout_ms w)
  unfolding send_acquired
  send_acquired-Answered fuel s slot_idx size msg_type timeout_ms w p k =
      elim (Bool-cases (is_foreign s slot_idx)) [
        | inl foreign ↦ rw foreign tt
        | inr mine ↦ elim (Bool-cases (ltb s.max_req_size (abs_size size))) [
          | inl large ↦ rw (mine, large) tt
          | inr fits ↦
              rw (mine, fits)
                (complete-Answered p (store_state e slot_free) s.msg_seq (next_seq s)
                  (wait_response e fuel s (effective_timeout s timeout_ms)
                    (arm e s size msg_type w))
                  (wait-Returned p fuel s.current_limit (effective_timeout s timeout_ms)
                    (publish e (arm e s size msg_type w)) k
                    (publish-InFlight e Q p (arm e s size msg_type w))))
        ]
      ]

  send_held-Answered :
      (fuel : ℕ) (s : Slot) (slot_idx size : ℕ) (msg_type : MsgType) (timeout_ms : ℕ) (w : World)
      → IsPolite e Q
      → InWindow s.current_limit
      → AnsweredSent s.max_resp_size s.msg_seq
          (send_held e fuel s slot_idx size msg_type timeout_ms w)
  unfolding send_held
  send_held-Answered fuel s slot_idx size msg_type timeout_ms w p k =
      let v = store_lease e (arm e s size msg_type w) in
      elim (Bool-cases (is_foreign s slot_idx)) [
        | inl foreign ↦ rw foreign tt
        | inr mine ↦ elim (Bool-cases (ltb s.max_req_size (abs_size size))) [
          | inl large ↦ rw (mine, large) tt
          | inr fits ↦
              rw (mine, fits)
                (complete-Answered p (λ v. v) s.msg_seq (next_seq s)
                  (wait_response e fuel s (effective_timeout s timeout_ms) v)
                  (wait-Returned p fuel s.current_limit (effective_timeout s timeout_ms)
                    (publish e v) k (publish-InFlight e Q p v)))
        ]
      ]

  wait_for_slot-Answered :
      (fuel : ℕ) (s : Slot) (slot_idx timeout_ms : ℕ) (w : World)
      → IsPolite e Q
      → InWindow s.current_limit
      → InFlight e Q w
      → AnsweredSent s.max_resp_size
          ((s.msg_seq + 2 ^ 32 - s.msg_seq_stride) % 2 ^ 32)
          (wait_for_slot e fuel s slot_idx timeout_ms w)
  unfolding wait_for_slot
  wait_for_slot-Answered fuel s slot_idx timeout_ms w p k f =
      let t = effective_timeout s timeout_ms in
      let v = store_active_wait e true w in
      let g = look-InFlight e Q p w f in
      let armed =
        host_state-InFlight e Q p host_state_active v
          (record { waits = refl; answer = g.answer }) in
      let u = store_host_state e host_state_active v in
      elim (Bool-cases (is_foreign s slot_idx)) [
        | inl foreign ↦ rw foreign tt
        | inr mine ↦ rw mine (
            complete-Answered p (store_state e slot_free)
              ((s.msg_seq + 2 ^ 32 - s.msg_seq_stride) % 2 ^ 32) s
              (wait_for_resp_ready e fuel s.current_limit t u)
              (wait-Returned p fuel s.current_limit t u k armed))
      ]

  -- While the others are polite, a call of `SendHeld` that returns bytes returns those of a response
  -- that was published for it: with its sequence number, no system error, and cut to the capacity of
  -- the slot. A protocol violation is a published response with another number, and an internal
  -- error one that is a system error. The same holds of a call of `WaitForSlot` on a transaction in
  -- flight, with the sequence number before the stride.
  pub held_and_async-Answered :
      (fuel : ℕ) (s : Slot) (slot_idx size : ℕ) (msg_type : MsgType) (timeout_ms : ℕ) (w v : World)
      → IsPolite e Q
      → InWindow s.current_limit
      → InFlight e Q v
      → AnsweredSent s.max_resp_size s.msg_seq
          (send_held e fuel s slot_idx size msg_type timeout_ms w)
        × AnsweredSent s.max_resp_size
            ((s.msg_seq + 2 ^ 32 - s.msg_seq_stride) % 2 ^ 32)
            (wait_for_slot e fuel s slot_idx timeout_ms v)
  held_and_async-Answered fuel s slot_idx size msg_type timeout_ms w v p k f = (
    send_held-Answered fuel s slot_idx size msg_type timeout_ms w p k,
    wait_for_slot-Answered fuel s slot_idx timeout_ms v p k f,
  )
