-- ===== src/ProtobufUtil/Tests.antt =====
-- Runs of the streams, and their theorem at a concrete input.
use gamesdk.Prelude.{ℕ, ◌≡◌, refl, Bool, true, false, none, some, List, [], ◌∷◌, arith}
use gamesdk.ProtobufUtil.{byte_read, serialization_dealloc}
use gamesdk.ProtobufUtil.Reads.{read_all, pieces}
use gamesdk.ProtobufUtil.Writes.{write_all, joined, read_all-write_all}

abbrev chunks : List (List ℕ)
chunks = (1 ∷ 2 ∷ []) ∷ [] ∷ (3 ∷ 4 ∷ 5 ∷ []) ∷ []

-- One byte, three bytes that are skipped, and one more.
abbrev reads : List (Bool × ℕ)
reads = (true, 1) ∷ (false, 3) ∷ (true, 1) ∷ []

read_bytes : pieces reads (joined chunks) ≡ 1 ∷ 5 ∷ []
read_bytes = refl

read_all-write_all_example :
    read_all reads (write_all chunks (record { vec = []; it = 0 }))
    ≡ (pieces reads (joined chunks), true)
read_all-write_all_example = read_all-write_all chunks reads (omega arith) (omega arith)

read_block :
    (byte_read (record { vec = some (1 ∷ 2 ∷ 3 ∷ []); size = 2; it = 1 }) true 2).1 ≡ 2 ∷ []
unfolding byte_read
read_block = refl

freed : serialization_dealloc (some (1 ∷ []), 1) ≡ (none, 0)
unfolding serialization_dealloc
freed = refl
