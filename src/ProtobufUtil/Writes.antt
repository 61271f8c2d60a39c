-- ===== src/ProtobufUtil/Writes.antt =====
-- tuningfork/protobuf_util.cpp: what is written to a stream, and read again.
use gamesdk.Prelude.{
  ℕ, ◌<◌, ◌≤◌, ◌≡◌, refl, Bool, true, none, some, List, [], ◌∷◌, ◌++◌, length, u64, arith, ap, ◌∙◌,
  sym,
}
use mathlib.Core.List.{append_assoc, append-nil}
use gamesdk.ProtobufUtil.{VectorStream, vector_write, ByteStream, byte_write}
use gamesdk.ProtobufUtil.Reads.{read_all, total, pieces, read_all-pieces}

-- The writes of a message.
abbrev pub write_all : List (List ℕ) → VectorStream → VectorStream
write_all [] s = s
write_all (chunk ∷ chunks) s = write_all chunks (vector_write s (some chunk)).0

abbrev pub joined : List (List ℕ) → List ℕ
joined [] = []
joined (chunk ∷ chunks) = chunk ++ joined chunks

write_all-joined :
    (chunks : List (List ℕ)) (s : VectorStream)
    → write_all chunks s ≡ record s { vec = s.vec ++ joined chunks }
unfolding vector_write
write_all-joined [] s = ap (λ (v : List ℕ). record s { vec = v }) (sym (append-nil s.vec))
write_all-joined (chunk ∷ chunks) s =
    write_all-joined chunks (record s { vec = s.vec ++ chunk })
    ∙ ap (λ (v : List ℕ). record s { vec = v }) (append_assoc s.vec chunk (joined chunks))

-- What is written to an empty VectorStream in any chunks can be read in any other pieces: reads of no more than there
-- is succeed, and each gives the bytes at its place, where a read without a buffer skips them. The bytes must be
-- fewer than 2^64.
pub read_all-write_all :
    (chunks : List (List ℕ)) (reads : List (Bool × ℕ))
    → total reads ≤ length (joined chunks)
    → length (joined chunks) < u64
    → read_all reads (write_all chunks (record { vec = []; it = 0 }))
      ≡ (pieces reads (joined chunks), true)
read_all-write_all chunks reads h fits =
    ap (read_all reads) (write_all-joined chunks (record { vec = []; it = 0 }))
    ∙ read_all-pieces reads (record { vec = joined chunks; it = 0 }) (omega (arith, h)) fits

module _ (garbage : List ℕ) where
  abbrev pub byte_write_all : List (List ℕ) → ByteStream → ByteStream
  byte_write_all [] s = s
  byte_write_all (chunk ∷ chunks) s = byte_write_all chunks (byte_write garbage s (some chunk)).0

  -- A stream whose size is 0 keeps that size.
  byte_write_all_size :
      (chunks : List (List ℕ)) (s : ByteStream) → s.size ≡ 0 → (byte_write_all chunks s).size ≡ 0
  unfolding byte_write
  byte_write_all_size [] s e = e
  byte_write_all_size ([] ∷ chunks) s e = byte_write_all_size chunks s e
  byte_write_all_size ((b ∷ buf) ∷ chunks) s e =
      byte_write_all_size chunks (byte_write garbage s (some (b ∷ buf))).0 e

  byte_write_alone :
      (s : ByteStream) (b : ℕ) (buf : List ℕ)
      → s.size ≡ 0
      → (byte_write garbage s (some (b ∷ buf))).0.vec ≡ some (b ∷ buf)
  unfolding byte_write
  byte_write_alone s b buf e = ground (arith, e)

  byte_write_all-append :
      (chunks : List (List ℕ)) (last : List ℕ) (s : ByteStream)
      → byte_write_all (chunks ++ last ∷ []) s
        ≡ (byte_write garbage (byte_write_all chunks s) (some last)).0
  byte_write_all-append [] last s = refl
  byte_write_all-append (chunk ∷ chunks) last s =
      byte_write_all-append chunks last (byte_write garbage s (some chunk)).0

  -- The stream that the documentation allows, a null pointer and the size 0, loses what is written: after any chunks
  -- and a last one that is not empty, the block has the last chunk alone, and the size is 0.
  byte_write_loses :
      (chunks : List (List ℕ)) (b : ℕ) (buf : List ℕ)
      → let s =
          byte_write_all (chunks ++ (b ∷ buf) ∷ []) (record { vec = none; size = 0; it = 0 }) in
        (s.vec ≡ some (b ∷ buf)) × (s.size ≡ 0)
  byte_write_loses chunks b buf =
      let empty : ByteStream = record { vec = none; size = 0; it = 0 } in
      (
        ap (λ (s : ByteStream). s.vec) (byte_write_all-append chunks (b ∷ buf) empty)
            ∙ byte_write_alone (byte_write_all chunks empty) b buf
                (byte_write_all_size chunks empty refl),
        byte_write_all_size (chunks ++ (b ∷ buf) ∷ []) empty refl,
      )
