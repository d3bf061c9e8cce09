-- ===== src/Processors/Tests.antt =====
-- One core with two logical processors, and an entry that is cut off.
use shm.Base.{ℕ, ◌≡◌, ◌≢◌, refl, none, some, List, [], ◌∷◌, ◌++◌, arith}
use shm.Base.Bytes.{encode_le, decode_le}
use shm.Processors.{
  Reply, enumerate_smt_pairs, enumerate_ccx_masks, walk, smt_entry, read, count_bits,
}
use shm.Processors.Reads.{enumerations-return}

abbrev zeros : ℕ → List ℕ
zeros n = encode_le n 0

-- Its mask has the bits 2 and 3.
abbrev core : List ℕ
core =
    encode_le 4 0
    ++ (encode_le 4 48 ++ ((1 ∷ zeros 21) ++ (encode_le 2 1 ++ (encode_le 8 12 ++ zeros 8))))

abbrev reply : Reply
reply = record { buffer = core ++ (encode_le 4 0 ++ encode_le 4 48); need = 56 }

enumerate_smt_pairs-core :
    enumerate_smt_pairs (some reply) ≡ some (record { host = 4; guest = 8 } ∷ [])
unfolding walk smt_entry read count_bits encode_le decode_le
enumerate_smt_pairs-core = refl

enumerations-return_example :
    (enumerate_ccx_masks (some reply) ≢ none) × (enumerate_smt_pairs (some reply) ≢ none)
unfolding encode_le
enumerations-return_example = enumerations-return reply (omega arith)
