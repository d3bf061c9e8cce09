-- ===== src/Host/Layout.antt =====
-- The slots lie in the mapping one behind the other, each with room for its requests and responses.
use native.Mathlib.Nat.{suc-mul, mul_comm, mul-le-mul_right}
use shm.Base.{
  ℕ, zero, suc, ◌+◌, ◌*◌, ◌%◌, ◌^◌, ◌≤◌, ◌<◌, ◌≡◌, refl, ◌∙◌, ap, inl, inr, Bool, some, arith,
  length, get_elem?, Bool-cases,
}
use shm.Slot.{slot_free}
use shm.Host.{
  exchange_header_size, slot_header_size, HostConfig, half_size, slot_size, total_slots,
  per_slot_total, total_size, SlotLayout, slot_at, slots_from, Os, all_events, InitResult, ready,
  failed, set_up, init,
}

-- The halves of a slot, for every payload size that a uint32_t holds.
pub half_size-bounds :
    (payload_size : ℕ)
    → payload_size < 2 ^ 32
    → (64 ≤ half_size payload_size)
      × (half_size payload_size % 64 ≡ 0)
      × (half_size payload_size + half_size payload_size ≤ slot_size payload_size)
      × (slot_size payload_size < 2 ^ 32)
      × (payload_size ≤ slot_size payload_size)
unfolding half_size slot_size
half_size-bounds p l = (ground arith, ground arith, ground arith, ground arith, ground arith)

same_slot :
    (payload_size : ℕ) {i j p q : ℕ}
    → i ≡ j
    → p ≡ q
    → some (slot_at payload_size i p) ≡ some (slot_at payload_size j q)
same_slot payload_size e f = λ x. some (slot_at payload_size (e x) (f x))

slots_from-get :
    (payload_size i n ptr k : ℕ)
    → k < n
    → get_elem? (slots_from payload_size i n ptr) k
      ≡ some (slot_at payload_size (i + k) (ptr + k * per_slot_total payload_size))
unfolding slots_from
slots_from-get p i zero ptr k l = absurd (omega arith)
slots_from-get p i (suc n) ptr zero l = same_slot p (omega arith) (omega arith)
slots_from-get p i (suc n) ptr (suc k) l =
    slots_from-get p (suc i) n (ptr + per_slot_total p) k (omega arith)
    ∙ same_slot p (omega arith) (omega (arith, suc-mul k (per_slot_total p)))

length-slots_from : (payload_size i n ptr : ℕ) → length (slots_from payload_size i n ptr) ≡ n
unfolding slots_from
length-slots_from p i zero ptr = refl
length-slots_from p i (suc n) ptr = ap suc (length-slots_from p (suc i) n (ptr + per_slot_total p))

-- Slot `k` of a mapping: it begins where the slot before it ends, its header, its requests and its
-- responses lie behind one another without overlap, and it ends inside the mapping.
pub record IsPlaced (c : HostConfig) (k : ℕ) (s : SlotLayout) : Type 0 where
  pub begins : s.header_at ≡ exchange_header_size + k * per_slot_total c.payload_size
  pub req_behind_header : s.header_at + slot_header_size ≡ s.req_at
  pub resp_behind_req : s.req_at + s.max_req_size ≤ s.resp_at
  pub ends :
      s.resp_at + s.max_resp_size ≡ exchange_header_size + suc k * per_slot_total c.payload_size
  pub inside : s.resp_at + s.max_resp_size ≤ total_size c
  pub req_room : 64 ≤ s.max_req_size
  pub resp_room : s.max_req_size ≤ s.max_resp_size
  pub starts_free : s.header.state ≡ slot_free
  pub seq : s.msg_seq ≡ suc k

-- The size of the mapping is expressible: neither the number of slots nor the size wraps.
pub record IsExpressible (c : HostConfig) : Type 0 where
  pub payload_fits : c.payload_size < 2 ^ 32
  pub count_fits : c.num_host_slots + c.num_guest_slots < 2 ^ 32
  pub size_fits :
      exchange_header_size + per_slot_total c.payload_size * (c.num_host_slots + c.num_guest_slots)
      < 2 ^ 64

per_slot_total-sum :
    (payload_size : ℕ)
    → slot_size payload_size < 2 ^ 32
    → per_slot_total payload_size ≡ slot_header_size + slot_size payload_size
unfolding per_slot_total
per_slot_total-sum p l = omega arith

total_size-sum :
    (c : HostConfig)
    → IsExpressible c
    → total_size c
      ≡ exchange_header_size
        + per_slot_total c.payload_size * (c.num_host_slots + c.num_guest_slots)
unfolding total_size
total_size-sum c x = rw (count, wraps) (omega (arith, x.size_fits))
  where
    count : total_slots c ≡ c.num_host_slots + c.num_guest_slots
    count = omega (arith, x.count_fits)

    wraps :
        (per_slot_total c.payload_size * (c.num_host_slots + c.num_guest_slots)) % 2 ^ 64
        ≡ per_slot_total c.payload_size * (c.num_host_slots + c.num_guest_slots)
    wraps = omega (arith, x.size_fits)

slot_at-IsPlaced :
    (c : HostConfig) (k : ℕ)
    → IsExpressible c
    → k < total_slots c
    → IsPlaced c k
        (slot_at c.payload_size k (exchange_header_size + k * per_slot_total c.payload_size))
slot_at-IsPlaced c k x l =
    let per = per_slot_total c.payload_size in
    let n = c.num_host_slots + c.num_guest_slots in
    let (low, aligned, halves, small, large) = half_size-bounds c.payload_size x.payload_fits in
    let sum = per_slot_total-sum c.payload_size small in
    let below : suc k ≤ n = omega (arith, x.count_fits) in
    let last : suc k * per ≤ n * per = mul-le-mul_right per below in
    record {
      begins = refl;
      req_behind_header = refl;
      resp_behind_req = omega arith;
      ends = omega (arith, suc-mul k per, sum, halves);
      inside = omega (arith, suc-mul k per, sum, halves, last, mul_comm n per, total_size-sum c x);
      req_room = low;
      resp_room = omega (arith, halves);
      starts_free = refl;
      seq = omega (arith, below, x.count_fits);
    }

-- What `Init` answers.
abbrev pub SetsUp : Bool → HostConfig → InitResult → Type 0
SetsUp auto_reclaim c (failed x) = Unit
SetsUp auto_reclaim c (ready h) =
    (length h.slots ≡ c.num_host_slots + c.num_guest_slots)
    × ((k : ℕ)
        → k < c.num_host_slots + c.num_guest_slots
        → (s : SlotLayout) × ((get_elem? h.slots k ≡ some s) × IsPlaced c k s))

set_up-SetsUp :
    (auto_reclaim : Bool) (c : HostConfig)
    → IsExpressible c
    → SetsUp auto_reclaim c (ready (set_up auto_reclaim c))
set_up-SetsUp auto_reclaim c x =
    let count : total_slots c ≡ c.num_host_slots + c.num_guest_slots =
      omega (arith, x.count_fits) in
    (
      length-slots_from c.payload_size 0 (total_slots c) exchange_header_size ∙ count,
      λ k l.
          let m : k < total_slots c = omega (arith, count) in
          (
            slot_at c.payload_size k (exchange_header_size + k * per_slot_total c.payload_size),
            (
              slots_from-get c.payload_size 0 (total_slots c) exchange_header_size k m
                  ∙ same_slot c.payload_size (omega arith) refl,
              slot_at-IsPlaced c k x m,
            ),
          ),
    )

-- For a configuration whose mapping has an expressible size, a host that `Init` sets up has as many
-- slots as configured. Slot `k` begins where the slot before it ends, its header, its requests of at
-- least 64 bytes and its responses of at least as many lie behind one another without overlap, it
-- ends inside the mapping, it is free, and its first sequence number is `k + 1`.
pub init-SetsUp :
    (os : Os) (auto_reclaim : Bool) (c : HostConfig)
    → IsExpressible c
    → SetsUp auto_reclaim c (init os auto_reclaim c)
unfolding init
init-SetsUp os auto_reclaim c x = elim (Bool-cases os.creates_shm) [
  | inr no_shm ↦ rw no_shm tt
  | inl mapped ↦ elim (Bool-cases os.locks_shm) [
    | inr taken ↦ rw (mapped, taken) tt
    | inl locked ↦ elim (Bool-cases (all_events os 0 (total_slots c))) [
      | inr no_event ↦ rw (mapped, locked, no_event) tt
      | inl granted ↦ rw (mapped, locked, granted) (set_up-SetsUp auto_reclaim c x)
    ]
  ]
]
