-- ===== src/Slot/Pool.antt =====
-- include/shm/SlotAllocator.h: `TryAcquireSlot`, one round-robin sweep over the host's slots. The
-- others act on a slot before each access to it.
pub mod Cells
pub mod Sweep
pub mod Acquire
mod Tests
use shm.Base.{
  ℕ, zero, suc, ◌+◌, ◌%◌, Bool, true, false, not, ◌||◌, Option, none, some, ◌==◌, if◌then◌else◌,
  add32,
}
use shm.Slot.{Cell, Env, World, try_claim_slot}

-- `slots` by their indices, and the round-robin hint `nextSlot`.
pub record Pool : Type 0 where
  pub tick : ℕ
  pub signals : ℕ
  pub cells : ℕ → Cell
  pub next_slot : ℕ

abbrev pub put_cell : (ℕ → Cell) → ℕ → Cell → ℕ → Cell
put_cell cells i c j = if j == i then c else cells j

abbrev pub world_at : ℕ → Pool → World
world_at i p = record { tick = p.tick; signals = p.signals; cell = p.cells i }

abbrev pub with_world : ℕ → Pool → World → Pool
with_world i p w = record p {
  tick = w.tick;
  signals = w.signals;
  cells = put_cell p.cells i w.cell;
}

-- The index of step `n` of the sweep from `start`.
abbrev pub sweep_idx : ℕ → ℕ → ℕ → ℕ
sweep_idx num_slots start n = add32 start n % num_slots

-- The loop over the slots from step `n` on, with `k` steps to go; `none` is -1.
unfoldable pub sweep : (ℕ → Env) → ℕ → ℕ → ℕ → ℕ → Pool → Option ℕ × Pool
sweep e num_slots start n zero p = (none, p)
sweep e num_slots start n (suc k) p =
    let i = sweep_idx num_slots start n in
    let r = try_claim_slot (e i) (world_at i p) in
    let q = with_world i p r.1 in
    let rest = sweep e num_slots start (suc n) k q in if r.0 then (some i, q) else rest

-- `TryAcquireSlot`. The hint is advanced in one access, and reduced to an index.
unfoldable pub try_acquire_slot : (ℕ → Env) → Bool → ℕ → Pool → Option ℕ × Pool
unfolding sweep
try_acquire_slot e running num_slots p =
    let q = record p { next_slot = add32 p.next_slot 1 } in
    if not running || (num_slots == 0)
    then (none, p)
    else sweep e num_slots (p.next_slot % num_slots) 0 num_slots q
