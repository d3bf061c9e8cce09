-- ===== src/Reassembler/Expiry.antt =====
-- How streams that are too old make room: `Prune`, and `Handle` of include/shm/StreamReassembler.h on
-- a STREAM_START message.
use shm.Base.{
  ap, ◌∙◌, ℕ, ◌+◌, ◌*◌, ◌≤◌, ◌<◌, ◌≡◌, ◌≢◌, ◌⊎◌, refl, inl, inr, true, false, ◌||◌, Option, none,
  some, List, [], ◌∷◌, arith, leb, ltb, ◌==◌, length, Bool-cases, Option-cases,
}
use shm.Base.Dict.{Dict, find, insert, find-insert}
use shm.Wire.{normal, stream_start, stream_header_size, StreamHeader, decode_stream_header}
use shm.StreamContext.{StreamContext}
use shm.Reassembler.{
  Config, Reassembler, Env, Outcome, unhandled, replied, overrun, diverges, is_timed_out,
  prune_streams, prune, open_context, admit, start, handle_start, handle,
}
use shm.Reassembler.Valid.{IsValid, find-prune, length-prune_streams}

-- The first nanosecond at which a stream is too old: a full millisecond past the configured age.
abbrev pub deadline : Config → StreamContext → ℕ
deadline cfg c = c.start_time + (cfg.stream_timeout_ms + 1) * 1000000

-- What has become of a stream: it is there as it was before its deadline, and gone from it on.
abbrev pub Aged : Config → ℕ → Option StreamContext → Option StreamContext → Type 0
Aged cfg now none after = after ≡ none
Aged cfg now (some c) after =
    ((now < deadline cfg c) × (after ≡ some c)) ⊎ ((deadline cfg c ≤ now) × (after ≡ none))

-- The new stream is open and empty, and the others are those that are not too old.
abbrev pub Admits : Env → Reassembler → StreamHeader → Outcome → Type 0
Admits e r h unhandled = ⊥
Admits e r h (replied t (some d) r') = ⊥
Admits e r h (replied t none r') =
    (t ≡ normal)
    × ((find h.stream_id r'.streams ≡ some (open_context e.now h))
        × ((k : ℕ) → k ≢ h.stream_id → Aged r.config e.now (find k r.streams) (find k r'.streams)))
Admits e r h overrun = ⊥
Admits e r h diverges = ⊥

is_timed_out-late :
    (cfg : Config) (now : ℕ) (c : StreamContext)
    → deadline cfg c ≤ now
    → is_timed_out cfg now c ≡ true
is_timed_out-late cfg now c l = ground arith

is_timed_out-early :
    (cfg : Config) (now : ℕ) (c : StreamContext)
    → now < deadline cfg c
    → is_timed_out cfg now c ≡ false
is_timed_out-early cfg now c l = ground arith

prune-Aged :
    {r : Reassembler} (now id : ℕ)
    → IsValid r
    → Aged r.config now (find id r.streams) (find id (prune now r).streams)
unfolding prune
prune-Aged {r} now id v = elim (Option-cases (find id r.streams)) [
  | inl unknown ↦ rw (find-prune now id v, unknown) refl
  | inr (c, known) ↦ elim (Bool-cases (ltb now (deadline r.config c))) [
    | inl early ↦
        let l : now < deadline r.config c = ground arith in
        rw (find-prune now id v, known, is_timed_out-early r.config now c l) (inl (l, refl))
    | inr late ↦
        let l : deadline r.config c ≤ now = ground arith in
        rw (find-prune now id v, known, is_timed_out-late r.config now c l) (inr (l, refl))
  ]
]

length-prune_streams-lt :
    (cfg : Config) (now id : ℕ) (m : Dict StreamContext) {c : StreamContext}
    → find id m ≡ some c
    → is_timed_out cfg now c ≡ true
    → length (prune_streams cfg now m) < length m
unfolding find prune_streams
length-prune_streams-lt cfg now id [] f l = absurd (ground (arith, f))
length-prune_streams-lt cfg now id ((j, d) ∷ m) {c} f l = elim (Bool-cases (j == id)) [
  | inl here ↦
      let same : d ≡ c = ground (arith, f, here) in
      ground (arith, length-prune_streams cfg now m, ap (is_timed_out cfg now) same ∙ l)
  | inr there ↦
      let deeper : find id m ≡ some c = ground (arith, f, there) in
      ground (arith, length-prune_streams-lt cfg now id m deeper l)
]

admit-Admits :
    (e : Env) {r : Reassembler} (h : StreamHeader)
    → IsValid r
    → length (prune e.now r).streams < r.config.max_streams
    → e.buf_allocates ≡ true
    → Admits e r h (admit e (prune e.now r) h)
unfolding admit prune
admit-Admits e {r} h v room allocates =
    let id = h.stream_id in
    let below : leb r.config.max_streams (length (prune e.now r).streams) ≡ false = ground arith in
    rw (below, allocates, Admits)
      (
        refl,
        (
          ground (arith, find-insert id id (open_context e.now h) (prune e.now r).streams),
          λ k ne.
              let kept : find k (insert id (open_context e.now h) (prune e.now r).streams)
                  ≡ find k (prune e.now r).streams =
                ground (arith, find-insert id k (open_context e.now h) (prune e.now r).streams) in
              rw kept (prune-Aged e.now k v),
        ),
      )

-- In a valid reassembler, however full, in which some stream has reached its deadline, a
-- STREAM_START message that is long enough for its header, whose sizes are in the configured limits,
-- that announces at least one chunk and whose buffer is allocated is acknowledged: its stream is open
-- and empty, and each other stream is as it was before its deadline, and gone from it on. The
-- deadline is a full millisecond past the configured age.
pub handle-Admits :
    (e : Env) {r : Reassembler} (req : List ℕ) (j : ℕ) {old : StreamContext}
    → IsValid r
    → find j r.streams ≡ some old
    → deadline r.config old ≤ e.now
    → stream_header_size ≤ length req
    → (decode_stream_header req).total_size ≤ r.config.max_stream_size
    → (decode_stream_header req).total_chunks ≤ r.config.max_stream_chunks
    → (decode_stream_header req).total_chunks ≢ 0
    → e.buf_allocates ≡ true
    → Admits e r (decode_stream_header req) (handle e r stream_start req)
unfolding handle handle_start start prune
handle-Admits e {r} req j {old} v known late long size count some_sent allocates =
    let h = decode_stream_header req in
    let whole : ltb (length req) stream_header_size ≡ false = ground arith in
    let fine : (ltb r.config.max_stream_size h.total_size
          || ltb r.config.max_stream_chunks h.total_chunks)
        ≡ false =
      ground arith in
    let nonzero : (h.total_chunks == 0) ≡ false = ground arith in
    let shorter =
      length-prune_streams-lt r.config e.now j r.streams known
        (is_timed_out-late r.config e.now old late) in
    rw (whole, fine, nonzero) (admit-Admits e h v (omega (arith, shorter, v.capped)) allocates)
