-- ===== src/RingBuffer/Tests.antt =====
-- A ring of four bytes and a guest that has read all but one byte whenever a round begins.
use shm.Base.{◌+◌, ◌-◌, ◌≡◌, refl, some, [], ◌∷◌, ◌++◌, arith, leb, if◌then◌else◌}
use shm.RingBuffer.{returned, write, Ring, Reader, put, copy_in, write_loop}
use shm.RingBuffer.Stream.{Holds, IsReader}
use shm.RingBuffer.Write.{Writes, write-Writes, write-sends}

abbrev ring : Ring
ring = record { write_offset = 0; read_offset = 0; buf = 0 ∷ 0 ∷ 0 ∷ 0 ∷ []; capacity = 4 }

-- The guest reads up to the last byte written.
abbrev reader : Reader
reader t r = if leb (r.read_offset + 1) r.write_offset then r.write_offset - 1 else r.read_offset

write_loop-ring :
    write_loop reader 0 6 ring (1 ∷ 2 ∷ 3 ∷ 4 ∷ 5 ∷ 6 ∷ [])
    ≡ some (record { write_offset = 6; read_offset = 3; buf = 5 ∷ 6 ∷ 3 ∷ 4 ∷ []; capacity = 4 })
unfolding write_loop put copy_in
write_loop-ring = refl

ring-Holds : Holds [] ring
ring-Holds = record {
  sized = refl;
  has_room = omega arith;
  written = refl;
  read = omega arith;
  unread = omega arith;
  stands = λ p a b. absurd (omega (arith, b));
}

reader-IsReader : IsReader reader
reader-IsReader = record { forward = λ t r l. ground arith; behind = λ t r l. ground arith }

write-Writes_example :
    Writes reader-IsReader
      ([] ++ (1 ∷ 2 ∷ 3 ∷ 4 ∷ 5 ∷ 6 ∷ []))
      (some ring)
      (write reader 6 (some ring) (1 ∷ 2 ∷ 3 ∷ 4 ∷ 5 ∷ 6 ∷ []))
write-Writes_example =
    write-Writes reader-IsReader 6 (some ring) [] (1 ∷ 2 ∷ 3 ∷ 4 ∷ 5 ∷ 6 ∷ [])
      (λ r e. ground (arith, ring-Holds)) (omega arith)

-- A guest that has read everything whenever a round begins.
abbrev eager : Reader
eager t r = r.write_offset

eager-IsReader : IsReader eager
eager-IsReader = record { forward = λ t r l. l; behind = λ t r l. omega arith }

write-sends_example :
    (r' : Ring) × ((write eager 6 (some ring) (1 ∷ 2 ∷ 3 ∷ 4 ∷ 5 ∷ 6 ∷ []) ≡ returned r')
      × Holds ([] ++ (1 ∷ 2 ∷ 3 ∷ 4 ∷ 5 ∷ 6 ∷ [])) r')
write-sends_example =
    write-sends eager-IsReader 6 ring [] (1 ∷ 2 ∷ 3 ∷ 4 ∷ 5 ∷ 6 ∷ []) (λ t r l c. omega (arith, c))
      ring-Holds (omega arith) (omega arith)
