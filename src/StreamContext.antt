-- ===== src/StreamContext.antt =====
-- include/shm/StreamReassembler.h: `StreamContext`, the reassembly state of one stream in flight,
-- and the guarded block of `Handle` that puts a chunk into it.
pub mod Parts
pub mod Valid
pub mod Place
pub mod Plan
pub mod Arrive
use shm.Base.{
  ℕ, zero, suc, ◌-◌, Bool, true, false, ◌&&◌, ◌||◌, Option, none, some, List, ltb, leb, ◌==◌,
  if◌then◌else◌, length, add32, add64, sub64,
}
use shm.Base.Bytes.{memcpy_to}
use shm.Base.Dict.{Dict, find, erase, emplace}
use shm.Wire.{ChunkHeader}

-- `StreamContext::Placed`: where an ahead-of-cursor chunk was put.
pub record Placed : Type 0 where
  pub dst_offset : ℕ
  pub size : ℕ

-- `StreamContext`; `start_time` is in nanoseconds.
pub record StreamContext : Type 0 where
  pub total_size : ℕ
  pub total_chunks : ℕ
  pub app_msg_type : ℕ
  pub next : ℕ
  pub offset : ℕ
  pub ooo_bytes : ℕ
  pub buf : List ℕ
  pub ooo : Dict Placed
  pub start_time : ℕ

-- What the guarded block makes of a context. `overruns` is a `memcpy` past the end of `buf`, and
-- `spins` a drain that its fuel did not finish.
pub data Placement : Type 0 where
  kept : StreamContext → Placement
  corrupt : Placement
  overruns : Placement
  spins : Placement

-- An index that is assembled or parked.
abbrev pub has_chunk : StreamContext → ℕ → Bool
has_chunk c i = ltb i c.next || elim (find i c.ooo) [ none ↦ false | some _ ↦ true ]

-- `Fits`
unfoldable pub fits : StreamContext → ℕ → Bool
fits c n = leb (add64 (add64 c.offset c.ooo_bytes) n) c.total_size

-- `InBounds`
unfoldable pub in_bounds : StreamContext → ℕ → ℕ → Bool
in_bounds c dst n = if ltb c.total_size dst then false else leb n (c.total_size - dst)

-- `Write`: a copy of no bytes is not made.
unfoldable pub write : StreamContext → ℕ → List ℕ → Option (List ℕ)
write c dst payload = if ltb 0 (length payload) then memcpy_to c.buf dst payload else some c.buf

-- `AccountInOrder`
unfoldable pub account_in_order : StreamContext → ℕ → StreamContext
account_in_order c n = record c { offset = add64 c.offset n; next = add32 c.next 1 }

-- `NotePlaced`, with `none` for its `false` and for an allocation that throws.
unfoldable pub note_placed : Bool → StreamContext → ℕ → Placed → ℕ → Option StreamContext
note_placed allocates c index p max_parked =
    if leb max_parked (length c.ooo)
    then none
    else if allocates
    then some (record c { ooo = emplace index p c.ooo; ooo_bytes = add64 c.ooo_bytes p.size })
    else none

-- The context after one round of the drain loop has taken `p` out of the map.
abbrev pub unpark : StreamContext → Placed → StreamContext
unpark c p = record c { ooo = erase c.next c.ooo; ooo_bytes = sub64 c.ooo_bytes p.size }

-- The drain loop, on fuel.
unfoldable pub drain : ℕ → StreamContext → Placement
unfolding account_in_order
drain zero c = spins
drain (suc fuel) c = elim (find c.next c.ooo) [
  | none ↦ kept c
  | some p ↦
      let rest = drain fuel (account_in_order (unpark c p) p.size) in
      if p.dst_offset == c.offset then rest else corrupt
]

-- A chunk ahead of the cursor.
unfoldable pub park : Bool → ℕ → StreamContext → ChunkHeader → Placement
unfolding note_placed
park allocates max_parked c h =
    elim (note_placed allocates c h.chunk_index
      (record { dst_offset = h.dst_offset; size = h.payload_size }) max_parked) [
        | none ↦ corrupt
        | some c' ↦ kept c'
      ]

-- A chunk at the cursor, and the drain of those that it lets through.
unfoldable pub advance : StreamContext → ChunkHeader → Placement
unfolding drain
advance c h =
    if h.dst_offset == c.offset
    then drain (suc (length c.ooo)) (account_in_order c h.payload_size)
    else corrupt

-- The guarded block: the bounds, the copy, the bookkeeping.
unfoldable pub place : Bool → ℕ → StreamContext → ChunkHeader → List ℕ → Placement
unfolding fits in_bounds write advance park
place allocates max_parked c h payload =
    if fits c h.payload_size && in_bounds c h.dst_offset h.payload_size
    then elim (write c h.dst_offset payload) [
      | none ↦ overruns
      | some buf ↦
          let c' = record c { buf = buf } in
          if h.chunk_index == c.next then advance c' h else park allocates max_parked c' h
    ]
    else corrupt
