-- ===== src/Slot/Exchange/Outcome.antt =====
-- How the transactions end, whatever the other parties do to the slot in between.
use shm.Base.{
  ℕ, zero, suc, ◌-◌, ◌≤◌, ◌<◌, ◌≡◌, inl, inr, refl, Bool, true, false, min, Option, none, some,
  List, [], ◌∷◌, arith, length, take, drop, ltb, ◌==◌, Bool-cases,
}
use shm.Wire.{MsgType, system_error}
use shm.WaitStrategy.{Waited}
use shm.WaitStrategy.Laws.{Returns}
use shm.Slot.{slot_free, Env, World, look, store_state}
use shm.Slot.Exchange.{
  wait_response, timeout, buffer_too_small, invalid_args, not_connected, resource_exhausted,
  internal_error, protocol_violation, SendResult, success, failure, Slot, abs_size, finish_wait,
  read_response, consume, complete, Sent, send_acquired, is_foreign, arm, effective_timeout,
  next_seq,
}

length-take_le : {A : Type 0} (n : ℕ) (xs : List A) → length (take n xs) ≤ n
length-take_le zero xs = omega arith
length-take_le (suc n) [] = omega arith
length-take_le (suc n) (x ∷ xs) = omega (arith, length-take_le n xs)

-- No more than the capacity of the slot is handed out, whatever size the responder wrote.
read_response-le :
    (max_resp_size resp_size : ℕ) (resp_buffer : List ℕ)
    → length (read_response max_resp_size resp_size resp_buffer) ≤ max_resp_size
unfolding read_response
read_response-le m r b = ground (
  arith,
  length-take_le (min (abs_size r) m) b,
  length-take_le (min (abs_size r) m) (drop (m - min (abs_size r) m) b),
)

-- What each result of a call on the slot says of where it leaves the slot.
abbrev pub EndsWith : Slot → ℕ → ℕ → World → SendResult → World → Type 0
EndsWith s slot_idx size w (success bytes) v =
    (length bytes ≤ s.max_resp_size) × (v.cell.header.state ≡ slot_free)
EndsWith s slot_idx size w (failure timeout) v = v.cell.active_wait ≡ false
EndsWith s slot_idx size w (failure buffer_too_small) v =
    (s.max_req_size < abs_size size) × (v.cell.header.state ≡ slot_free) × (v.signals ≡ w.signals)
EndsWith s slot_idx size w (failure protocol_violation) v = v.cell.header.state ≡ slot_free
EndsWith s slot_idx size w (failure internal_error) v = v.cell.header.state ≡ slot_free
EndsWith s slot_idx size w (failure invalid_args) v = (is_foreign s slot_idx ≡ true) × (v ≡ w)
EndsWith s slot_idx size w (failure not_connected) v = ⊥
EndsWith s slot_idx size w (failure resource_exhausted) v = ⊥

consume-EndsWith :
    (e : Env) (seq : ℕ) (s t : Slot) (slot_idx size : ℕ) (u w : World)
    → t.max_resp_size ≡ s.max_resp_size
    → let r = consume e (store_state e slot_free) seq t w in
      EndsWith s slot_idx size u r.result r.world
unfolding consume
consume-EndsWith e seq s t slot_idx size u w l =
    let a = look e w in
    let b = look e a in
    elim (Bool-cases (a.cell.header.msg_seq == seq)) [
      | inr foreign ↦ rw foreign refl
      | inl same ↦ elim (Bool-cases (b.cell.header.msg_type == system_error)) [
        | inl refused ↦ rw (same, refused) refl
        | inr fine ↦
            rw (same, fine)
              (
                omega (
                  arith,
                  l,
                  read_response-le t.max_resp_size (look e b).cell.header.resp_size
                      (look e (look e b)).cell.resp_buffer,
                ),
                refl,
              )
      ]
    ]

-- No wait leaves the flag up.
pub finish_wait-released :
    (e : Env) (ready : Bool) (w : World) → (finish_wait e ready w).cell.active_wait ≡ false
unfolding finish_wait
finish_wait-released e ready w = refl

abbrev pub Ended : Slot → ℕ → ℕ → World → Option Sent → Type 0
Ended s slot_idx size w = Returns (λ r. EndsWith s slot_idx size w r.result r.world)

complete-Ended :
    (e : Env) (seq : ℕ) (s t : Slot) (slot_idx size : ℕ) (u : World) (o : Option (Waited World))
    → t.max_resp_size ≡ s.max_resp_size
    → Ended s slot_idx size u (complete e (store_state e slot_free) seq t o)
unfolding complete
complete-Ended e seq s t slot_idx size u none l = tt
complete-Ended e seq s t slot_idx size u (some r) l = elim (Bool-cases r.ready) [
  | inr late ↦ rw late (finish_wait-released e false r.state)
  | inl ready ↦ rw ready (
      consume-EndsWith e seq s (record t { current_limit = r.current_limit }) slot_idx size u
        (finish_wait e true r.state) l)
]

-- However the other parties behave, a call of `SendAcquired` that returns leaves the slot free after a
-- response, a violation or an error of the peer, and hands out no more than the capacity of the
-- slot; it drops the flag after a timeout; a request that is too large frees the slot and signals
-- nobody; and a foreign index changes nothing.
pub send_acquired-Ended :
    (e : Env) (fuel : ℕ) (s : Slot) (slot_idx size : ℕ) (msg_type : MsgType) (timeout_ms : ℕ)
    (w : World)
    → Ended s slot_idx size w (send_acquired e fuel s slot_idx size msg_type timeout_ms w)
unfolding send_acquired
send_acquired-Ended e fuel s slot_idx size msg_type timeout_ms w =
    elim (Bool-cases (is_foreign s slot_idx)) [
      | inl foreign ↦ rw foreign (foreign, refl)
      | inr mine ↦ elim (Bool-cases (ltb s.max_req_size (abs_size size))) [
        | inl large ↦ rw (mine, large) (ground arith, refl, refl)
        | inr fits ↦
            rw (mine, fits)
              (complete-Ended e s.msg_seq s (next_seq s) slot_idx size w
                (wait_response e fuel s (effective_timeout s timeout_ms) (arm e s size msg_type w))
                refl)
      ]
    ]
