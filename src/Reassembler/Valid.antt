-- ===== src/Reassembler/Valid.antt =====
-- The invariant of a reassembler: its streams wait for an index, park no more than they may, and are
-- no more than configured. The constructor makes it true, and the changes of the table keep it.
use shm.Base.{
  ℕ, ◌^◌, ◌≤◌, ◌<◌, ◌≡◌, refl, Option, none, some, [], ◌∷◌, arith, if◌then◌else◌, length,
}
use shm.Base.Dict.{
  Dict, Distinct, Distinct-erase, Distinct-insert, find, erase, insert, find-erase, find-insert,
  length-erase-le,
}
use shm.StreamContext.{StreamContext}
use shm.StreamContext.Valid.{IsSettled}
use shm.Reassembler.{
  Config, Reassembler, construct, config_is_valid, prune_streams, prune, is_timed_out,
}

-- A stream in the table waits for an index.
pub record InFlight (max_parked : ℕ) (c : StreamContext) : Type 0 where
  pub settled : IsSettled c
  pub waiting : c.next < c.total_chunks
  pub parked : length c.ooo ≤ max_parked

pub record IsValid (r : Reassembler) : Type 0 where
  pub clamped : r.config.max_stream_size ≤ 2 ^ 30
  pub capped : length r.streams ≤ r.config.max_streams
  pub distinct : Distinct r.streams
  pub in_flight :
      (id : ℕ) (c : StreamContext)
      → find id r.streams ≡ some c
      → InFlight r.config.max_parked_chunks c

pub construct-IsValid : (cfg : Config) → IsValid (construct cfg)
unfolding construct config_is_valid find
construct-IsValid cfg = record {
  clamped = ground arith;
  capped = ground arith;
  distinct = tt;
  in_flight = λ id c h. cc;
}

-- What a lookup finds once the streams that are too old are gone.
abbrev pub unless_timed_out : Config → ℕ → Option StreamContext → Option StreamContext
unless_timed_out cfg now none = none
unless_timed_out cfg now (some c) = if is_timed_out cfg now c then none else some c

find-prune_streams :
    (cfg : Config) (now id : ℕ) (m : Dict StreamContext)
    → Distinct m
    → find id (prune_streams cfg now m) ≡ unless_timed_out cfg now (find id m)
unfolding find prune_streams
find-prune_streams cfg now id [] d = refl
find-prune_streams cfg now id ((j, c) ∷ m) d =
    ground (arith, find-prune_streams cfg now id m d.1, find-prune_streams cfg now j m d.1)

pub length-prune_streams :
    (cfg : Config) (now : ℕ) (m : Dict StreamContext) → length (prune_streams cfg now m) ≤ length m
unfolding prune_streams
length-prune_streams cfg now [] = omega arith
length-prune_streams cfg now ((j, c) ∷ m) = ground (arith, length-prune_streams cfg now m)

Distinct-prune_streams :
    (cfg : Config) (now : ℕ) (m : Dict StreamContext)
    → Distinct m
    → Distinct (prune_streams cfg now m)
unfolding prune_streams
Distinct-prune_streams cfg now [] d = tt
Distinct-prune_streams cfg now ((j, c) ∷ m) d =
    ground (arith, Distinct-prune_streams cfg now m d.1, find-prune_streams cfg now j m d.1)

pub find-prune :
    {r : Reassembler} (now id : ℕ)
    → IsValid r
    → find id (prune now r).streams ≡ unless_timed_out r.config now (find id r.streams)
unfolding prune
find-prune {r} now id v = find-prune_streams r.config now id r.streams v.distinct

pub prune-IsValid : {r : Reassembler} (now : ℕ) → IsValid r → IsValid (prune now r)
unfolding prune
prune-IsValid {r} now v = record {
  clamped = v.clamped;
  capped = omega (arith, v.capped, length-prune_streams r.config now r.streams);
  distinct = Distinct-prune_streams r.config now r.streams v.distinct;
  in_flight = λ id c h.
      ground (arith, find-prune_streams r.config now id r.streams v.distinct, v.in_flight id c);
}

pub erase-IsValid :
    {r : Reassembler} (id : ℕ) → IsValid r → IsValid (record r { streams = erase id r.streams })
erase-IsValid {r} id v = record {
  clamped = v.clamped;
  capped = omega (arith, v.capped, length-erase-le id r.streams);
  distinct = Distinct-erase id r.streams v.distinct;
  in_flight = λ j c h. ground (arith, find-erase id j r.streams, v.in_flight j c);
}

pub insert-IsValid :
    {r : Reassembler} (id : ℕ) (c : StreamContext)
    → IsValid r
    → length (erase id r.streams) < r.config.max_streams
    → InFlight r.config.max_parked_chunks c
    → IsValid (record r { streams = insert id c r.streams })
unfolding insert
insert-IsValid {r} id c v l f = record {
  clamped = v.clamped;
  capped = l;
  distinct = Distinct-insert id c r.streams v.distinct;
  in_flight = λ j d h. ground (arith, find-insert id j c r.streams, v.in_flight j d);
}
