-- ===== src/Reassembler/Completion.antt =====
-- Liveness: once every part of a stream has come, in any order and with any repetition, the stream
-- is delivered, by the call that brings the last part and by no call before it.
use shm.Base.{
  ℕ, ◌<◌, ◌≡◌, ◌≢◌, ◌⊎◌, refl, ◌∙◌, ap, Bool, true, false, ◌||◌, none, some, List, [], ◌∷◌, arith,
  length, leb, ◌==◌,
}
use shm.Base.Dict.{find, erase, insert, find-insert}
use shm.Wire.{normal, stream_chunk, ChunkHeader}
use shm.StreamContext.{StreamContext, Placement, kept, corrupt, overruns, spins, has_chunk, place}
use shm.StreamContext.Parts.{joined, part, offset_of-le}
use shm.StreamContext.Valid.{IsSettled, Ensures}
use shm.StreamContext.Place.{IsNew}
use shm.StreamContext.Plan.{Agrees, IsPart, buf-eq_joined, offset-eq_total}
use shm.StreamContext.Arrive.{Arrived, place-Arrived, place-ne-corrupt}
use shm.Reassembler.{Reassembler, Env, Delivery, replied, settle, chunk}
use shm.Reassembler.Valid.{IsValid, InFlight}
use shm.Reassembler.Safety.{chunk-IsNew, handle-IsValid}
use shm.Reassembler.Trace.{
  Message, receive, chunk_header, chunk_message, IsExpressible, handle-chunk_message,
}

-- A placement that is good and not refused keeps a context.
kept-of :
    {P : StreamContext → Type 0} (p : Placement)
    → Ensures P p
    → p ≢ corrupt
    → (d : StreamContext) × (p ≡ kept d) × P d
kept-of (kept d) h ne = (d, refl, h)
kept-of corrupt h ne = absurd (ne refl)
kept-of overruns h ne = absurd h
kept-of spins h ne = absurd h

abbrev pub elem : ℕ → List ℕ → Bool
elem k [] = false
elem k (x ∷ xs) = (k == x) || elem k xs

module _ (id : ℕ) (parts : List (List ℕ)) (e : Env) where
  abbrev pub send : ℕ → Message
  send k = record { env = e; msg_type = stream_chunk; req = chunk_message id parts k }

  abbrev pub sends : List ℕ → List Message
  sends [] = []
  sends (k ∷ ks) = send k ∷ sends ks

  abbrev pub finished : StreamContext → Delivery
  finished c = record { stream_id = id; app_msg_type = c.app_msg_type; bytes = joined parts }

  -- A reassembler that holds the context `c` for the stream, as far as the plan has come.
  pub record Holds (r : Reassembler) (c : StreamContext) : Type 0 where
    pub expressible : IsExpressible id parts
    pub valid : IsValid r
    pub known : find id r.streams ≡ some c
    pub agrees : Agrees parts c

  module _ {r : Reassembler} {c : StreamContext} (w : Holds r c) where
    pub flight : InFlight r.config.max_parked_chunks c
    flight = w.valid.in_flight id c w.known

    -- A part that has come already is acknowledged, and changes nothing.
    pub receive-again :
        (k : ℕ)
        → k < length parts
        → has_chunk c k ≡ true
        → receive r (send k) ≡ replied normal none r
    unfolding chunk
    receive-again k l h =
        let inside : leb c.total_chunks k ≡ false = ground (arith, w.agrees.count) in
        rw (handle-chunk_message e r k w.expressible l) (rw (w.known, chunk, inside, h) refl)

    abbrev placed : ℕ → Placement
    placed k =
        place e.park_allocates r.config.max_parked_chunks c (chunk_header id parts k) (part parts k)

    -- A new part reaches the guarded block.
    receive-placed :
        (k : ℕ)
        → k < length parts
        → has_chunk c k ≡ false
        → receive r (send k) ≡ settle r id (placed k)
    unfolding chunk
    receive-placed k l h =
        let inside : leb c.total_chunks k ≡ false = ground (arith, w.agrees.count) in
        rw (handle-chunk_message e r k w.expressible l) (rw (w.known, chunk, inside, h) refl)

    -- A new part for which there is room extends the context.
    pub receive-new :
        (k : ℕ)
        → k < length parts
        → has_chunk c k ≡ false
        → ((k ≡ c.next) ⊎ ((length c.ooo < r.config.max_parked_chunks) × (e.park_allocates ≡ true)))
        → (d : StreamContext) × (receive r (send k) ≡ settle r id (kept d))
          × IsSettled d
          × Arrived parts c k d
    receive-new k l h room =
        let (d, keeps, good) =
          kept-of (placed k) (place-Arrived parts flight.settled w.agrees n q alloc cap)
            (place-ne-corrupt parts flight.settled w.agrees n q alloc cap room) in
        (d, receive-placed k l h ∙ ap (settle r id) keeps, good.0, good.1)
      where
        head : ChunkHeader
        head = chunk_header id parts k

        cap : ℕ
        cap = r.config.max_parked_chunks

        alloc : Bool
        alloc = e.park_allocates

        q : IsPart parts head
        q = record { in_range = l; sized = refl; at = refl }

        n : IsNew c head (part parts k)
        n =
            chunk-IsNew c head (part parts k) refl
              (omega (arith, w.expressible, offset_of-le parts k l))
              (ground (arith, w.agrees.count)) h

    -- While a part is missing, the context that a new part leaves is stored and nothing delivered.
    pub receive-missing :
        (k j : ℕ) (d : StreamContext)
        → receive r (send k) ≡ settle r id (kept d)
        → IsSettled d
        → Arrived parts c k d
        → j < length parts
        → has_chunk d j ≡ false
        → let r' = record r { streams = insert id d r.streams } in
          (receive r (send k) ≡ replied normal none r') × Holds r' d
    unfolding settle
    receive-missing k j d o s a l h =
        let waits : (d.next == d.total_chunks) ≡ false = ground (arith, a.agrees.count) in
        let reply : receive r (send k)
            ≡ replied normal none (record r { streams = insert id d r.streams }) =
          o ∙ rw waits refl in
        (
          reply,
          record {
            expressible = w.expressible;
            valid =
                (rw reply at (handle-IsValid e stream_chunk (chunk_message id parts k) w.valid)).0;
            known = ground (arith, find-insert id id d r.streams);
            agrees = a.agrees;
          },
        )

    -- When no part is missing, the stream is delivered.
    pub receive-last :
        (k : ℕ) (d : StreamContext)
        → receive r (send k) ≡ settle r id (kept d)
        → IsSettled d
        → Arrived parts c k d
        → ((j : ℕ) → j < length parts → has_chunk d j ≡ true)
        → receive r (send k)
          ≡ replied normal (some (finished c)) (record r { streams = erase id r.streams })
    unfolding settle
    receive-last k d o s a h =
        let last : d.next ≡ d.total_chunks =
          ground (arith, h d.next, s.drained, s.valid.behind, a.agrees.count) in
        let ends : (d.next == d.total_chunks) ≡ true = ground arith in
        let full : (d.offset == d.total_size) ≡ true =
          ground (arith, offset-eq_total parts a.agrees last) in
        o ∙ rw (ends, full, buf-eq_joined parts s a.agrees last, a.same.app_msg_type) refl
