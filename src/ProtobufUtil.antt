-- ===== src/ProtobufUtil.antt =====
-- tuningfork/protobuf_util.cpp with include/tuningfork/protobuf_util.h: the streams that nanopb reads and writes
-- through. `buf` of a read is whether there is a buffer; the bytes that are copied to it are among the results. `buf`
-- of a write is the bytes, or none for the null pointer.
pub mod Reads
pub mod Writes
mod Tests
use gamesdk.Prelude.{
  ℕ, ◌+◌, ◌-◌, ◌%◌, Bool, true, false, Option, none, some, List, [], ◌∷◌, ◌++◌, ltb, ◌==◌,
  if◌then◌else◌, length, take, drop, min, u64,
}

-- The difference of two values of size_t.
abbrev pub sub_size : ℕ → ℕ → ℕ
sub_size a b = (a + u64 - b) % u64

-- `vec` is the vector that the stream points to.
pub record VectorStream : Type 0 where
  pub vec : List ℕ
  pub it : ℕ

unfoldable pub vector_read : VectorStream → Bool → ℕ → VectorStream × List ℕ × Bool
vector_read s false count =
    if ltb (sub_size (length s.vec) s.it) count
    then (record s { it = length s.vec }, [], false)
    else (record s { it = s.it + count }, [], true)
vector_read s true count =
    let n = min count (sub_size (length s.vec) s.it) in
    (record s { it = s.it + n }, take n (drop s.it s.vec), n == count)

unfoldable pub vector_write : VectorStream → Option (List ℕ) → VectorStream × Bool
vector_write s none = (s, true)
vector_write s (some buf) = (record s { vec = s.vec ++ buf }, true)

-- `vec` is the block of memory, which can be longer than `size`; none is the null pointer.
pub record ByteStream : Type 0 where
  pub vec : Option (List ℕ)
  pub size : ℕ
  pub it : ℕ

abbrev pub block : ByteStream → List ℕ
block s = elim s.vec [ none ↦ [] | some bytes ↦ bytes ]

unfoldable pub byte_read : ByteStream → Bool → ℕ → ByteStream × List ℕ × Bool
byte_read s false count =
    if ltb (sub_size s.size s.it) count
    then (record s { it = s.size }, [], false)
    else (record s { it = s.it + count }, [], true)
byte_read s true count =
    let n = min count (sub_size s.size s.it) in
    (record s { it = s.it + n }, take n (drop s.it (block s)), n == count)

-- The first `size` bytes of the block that realloc or malloc gives; those of malloc are `garbage`.
abbrev pub kept : List ℕ → ByteStream → List ℕ
kept garbage s = elim s.vec [ none ↦ take s.size garbage | some bytes ↦ take s.size bytes ]

unfoldable pub byte_write : List ℕ → ByteStream → Option (List ℕ) → ByteStream × Bool
byte_write garbage s none = (s, true)
byte_write garbage s (some []) = (s, true)
byte_write garbage s (some (b ∷ buf)) = (record s { vec = some (kept garbage s ++ b ∷ buf) }, true)

-- `CProtobufSerialization_Dealloc`, on the bytes and their number.
unfoldable pub serialization_dealloc : Option (List ℕ) × ℕ → Option (List ℕ) × ℕ
serialization_dealloc (none, size) = (none, size)
serialization_dealloc (some bytes, size) = (none, 0)
