-- ===== src/GuestCall/Wait/Gate.antt =====
-- The two loops of `WaitForRequest` over the guest slots, and the gate that stands before a park.
use shm.Base.{
  ℕ, zero, suc, ◌+◌, ◌≤◌, ◌<◌, ◌≡◌, ◌≢◌, inl, inr, refl, Bool, true, false, arith, ◌∙◌, ap,
  Bool-cases, ◌==◌, if-cases,
}
use shm.Slot.{slot_req_ready, host_state_waiting, Cell, Env, look, store_host_state}
use shm.Slot.Pool.{Pool, world_at, with_world}
use shm.Slot.Pool.Cells.{put_cell_other, put_cell_self}
use shm.GuestCall.Wait.{any_request_ready, set_host_state, announce}

-- What a check of the slots from `i` on answers: one of them that is READY, or that none is.
abbrev pub Reports : ℕ → ℕ → Bool × Pool → Type 0
Reports i n (true, q) =
    (k : ℕ) × ((i ≤ k) × ((k < i + n) × ((q.cells k).header.state ≡ slot_req_ready)))
Reports i n (false, q) = (k : ℕ) → i ≤ k → k < i + n → (q.cells k).header.state ≢ slot_req_ready

-- The host's state on the slots from `i` on.
abbrev pub AllHost : ℕ → ℕ → ℕ → Pool → Type 0
AllHost v i n p = (k : ℕ) → i ≤ k → k < i + n → (p.cells k).header.host_state ≡ v

-- The others do not write the host's state.
abbrev pub KeepsHost : (ℕ → Env) → Type 0
KeepsHost e = (k t : ℕ) (c : Cell) → ((e k).peers t c).header.host_state ≡ c.header.host_state

module _ (e : ℕ → Env) where
  any_request_ready-before :
      (i n k : ℕ) (p : Pool) → k < i → (any_request_ready e i n p).1.cells k ≡ p.cells k
  unfolding any_request_ready
  any_request_ready-before i zero k p l = refl
  any_request_ready-before i (suc n) k p l =
      let w = look (e i) (world_at i p) in
      let same = put_cell_other p.cells i k w.cell (λ h. omega (arith, h)) in
      if-cases (λ (r : Bool × Pool). r.1.cells k ≡ p.cells k)
        (w.cell.header.state == slot_req_ready) _ _ (λ t. same)
        (λ t. any_request_ready-before (suc i) n k (with_world i p w) (omega arith) ∙ same)

  set_host_state-before :
      (v i n k : ℕ) (p : Pool) → k < i → (set_host_state e v i n p).cells k ≡ p.cells k
  unfolding set_host_state
  set_host_state-before v i zero k p l = refl
  set_host_state-before v i (suc n) k p l =
      let w = store_host_state (e i) v (world_at i p) in
      set_host_state-before v (suc i) n k (with_world i p w) (omega arith)
      ∙ put_cell_other p.cells i k w.cell (λ h. omega (arith, h))

  -- A slot that is not READY stands before those that were checked.
  one_more :
      (i n : ℕ) (r : Bool × Pool)
      → (r.1.cells i).header.state ≢ slot_req_ready
      → Reports (suc i) n r
      → Reports i (suc n) r
  one_more i n (true, q) h (k, (a, (b, there))) = (k, (omega arith, (omega arith, there)))
  one_more i n (false, q) h none_of = λ k a b. elim (Bool-cases (k == i)) [
    | inl same ↦ let o : k ≡ i = ground (arith, same) in rw o h
    | inr other ↦ none_of k (ground (arith, other, a)) (omega arith)
  ]

  pub any_request_ready-Reports : (i n : ℕ) (p : Pool) → Reports i n (any_request_ready e i n p)
  unfolding any_request_ready
  any_request_ready-Reports i zero p = λ k a b. absurd (omega arith)
  any_request_ready-Reports i (suc n) p =
      let w = look (e i) (world_at i p) in
      let q = with_world i p w in
      let self = put_cell_self p.cells i w.cell in
      if-cases (Reports i (suc n)) (w.cell.header.state == slot_req_ready) (true, q)
        (any_request_ready e (suc i) n q)
        (λ t. (i, (omega arith, (omega arith, rw self (ground (arith, t))))))
        (λ t.
          one_more i n (any_request_ready e (suc i) n q)
            (rw (any_request_ready-before (suc i) n i q (omega arith) ∙ self)
              (λ h. absurd (ground (arith, t, h))))
            (any_request_ready-Reports (suc i) n q))

  pub set_host_state-AllHost : (v i n : ℕ) (p : Pool) → AllHost v i n (set_host_state e v i n p)
  unfolding set_host_state
  set_host_state-AllHost v i zero p k a b = absurd (omega arith)
  set_host_state-AllHost v i (suc n) p k a b =
      let w = store_host_state (e i) v (world_at i p) in
      elim (Bool-cases (k == i)) [
        | inl same ↦
            let o : k ≡ i = ground (arith, same) in
            rw o (
              ap (λ c. c.header.host_state)
                (set_host_state-before v (suc i) n i (with_world i p w) (omega arith)
                  ∙ put_cell_self p.cells i w.cell))
        | inr other ↦
            set_host_state-AllHost v (suc i) n (with_world i p w) k (ground (arith, other, a))
              (omega arith)
      ]

  pub any_request_ready-AllHost :
      (v base count i n : ℕ) (p : Pool)
      → KeepsHost e
      → AllHost v base count p
      → AllHost v base count (any_request_ready e i n p).1
  unfolding any_request_ready
  any_request_ready-AllHost v base count i zero p keeps h = h
  any_request_ready-AllHost v base count i (suc n) p keeps h =
      let w = look (e i) (world_at i p) in
      if-cases (λ (r : Bool × Pool). AllHost v base count r.1)
        (w.cell.header.state == slot_req_ready) _ _ (λ t. looked)
        (λ t. any_request_ready-AllHost v base count (suc i) n (with_world i p w) keeps looked)
    where
      looked : AllHost v base count (with_world i p (look (e i) (world_at i p)))
      looked k a b = elim (Bool-cases (k == i)) [
        | inl same ↦
            let o : k ≡ i = ground (arith, same) in
            rw o (
              ap (λ c. c.header.host_state)
                (put_cell_self p.cells i ((e i).peers p.tick (p.cells i)))
              ∙ (keeps i p.tick (p.cells i) ∙ h i (rw o at a) (rw o at b)))
        | inr other ↦
            ap (λ c. c.header.host_state)
              (put_cell_other p.cells i k ((e i).peers p.tick (p.cells i))
                (λ o. absurd (ground (arith, other, o))))
            ∙ h k a b
      ]

  -- While only the host writes its state, whatever else the others do: behind the last check before a
  -- park, every guest slot says that the host is WAITING, and the check answers true with a guest slot
  -- READY, and false with none of them READY.
  pub announce-Reports :
      (base count : ℕ) (p : Pool)
      → KeepsHost e
      → AllHost host_state_waiting base count (announce e base count p).1
        × Reports base count (announce e base count p)
  unfolding announce
  announce-Reports base count p keeps =
      let q = set_host_state e host_state_waiting base count p in
      (
        any_request_ready-AllHost host_state_waiting base count base count q keeps
            (set_host_state-AllHost host_state_waiting base count p),
        any_request_ready-Reports base count q,
      )
