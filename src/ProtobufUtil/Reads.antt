-- ===== src/ProtobufUtil/Reads.antt =====
-- tuningfork/protobuf_util.cpp: what is read from a stream.
use gamesdk.Prelude.{
  ℕ, zero, suc, ◌+◌, ◌-◌, ◌<◌, ◌≤◌, ◌≡◌, refl, Bool, true, false, List, [], ◌∷◌, ◌++◌, ◌==◌,
  if◌then◌else◌, length, take, drop, min, u64, arith, drop_add, sym, ap, length-drop, subst,
}
use gamesdk.ProtobufUtil.{VectorStream, sub_size, vector_read}

sub_size-le : (a b : ℕ) → b ≤ a → a < u64 → sub_size a b ≡ a - b
sub_size-le a b h fits = omega (arith, h, fits)

-- The reads of one message, in order, until one fails: the bytes that they give, and whether all succeed.
abbrev pub read_all : List (Bool × ℕ) → VectorStream → List ℕ × Bool
read_all [] s = ([], true)
read_all ((buf, count) ∷ reads) s =
    let (s', bytes, fine) = vector_read s buf count in
    let (more, rest_fine) = read_all reads s' in (bytes ++ more, if fine then rest_fine else false)

abbrev pub total : List (Bool × ℕ) → ℕ
total [] = 0
total ((buf, count) ∷ reads) = count + total reads

-- The bytes at the places of the reads that have a buffer.
abbrev pub pieces : List (Bool × ℕ) → List ℕ → List ℕ
pieces [] bytes = []
pieces ((true, count) ∷ reads) bytes = take count bytes ++ pieces reads (drop count bytes)
pieces ((false, count) ∷ reads) bytes = pieces reads (drop count bytes)

-- A read that has enough bytes.
vector_read_enough :
    (s : VectorStream) (buf : Bool) (count : ℕ)
    → s.it + count ≤ length s.vec
    → length s.vec < u64
    → vector_read s buf count
      ≡ (record s { it = s.it + count }, (if buf then take count (drop s.it s.vec) else []), true)
unfolding vector_read
vector_read_enough s false count h fits = ground (arith, sub_size-le (length s.vec) s.it)
vector_read_enough s true count h fits =
    let whole : min count (sub_size (length s.vec) s.it) ≡ count =
      omega (arith, h, sub_size-le (length s.vec) s.it (omega (arith, h)) fits) in
    subst
      (λ (n : ℕ).
        ◌≡◌ {A = VectorStream × List ℕ × Bool}
          (record s { it = s.it + n }, take n (drop s.it s.vec), n == count)
          (record s { it = s.it + count }, take count (drop s.it s.vec), true))
      (sym whole) (ground arith)

read_all_step :
    (buf : Bool) (count : ℕ) (reads : List (Bool × ℕ)) (s : VectorStream)
    → s.it + count ≤ length s.vec
    → length s.vec < u64
    → read_all reads (record s { it = s.it + count })
      ≡ (pieces reads (drop (s.it + count) s.vec), true)
    → read_all ((buf, count) ∷ reads) s ≡ (pieces ((buf, count) ∷ reads) (drop s.it s.vec), true)
read_all_step true count reads s h fits rest =
    rw (vector_read_enough s true count h fits, rest, drop_add s.vec s.it count) refl
read_all_step false count reads s h fits rest =
    rw (vector_read_enough s false count h fits, rest, drop_add s.vec s.it count) refl

pub read_all-pieces :
    (reads : List (Bool × ℕ)) (s : VectorStream)
    → s.it + total reads ≤ length s.vec
    → length s.vec < u64
    → read_all reads s ≡ (pieces reads (drop s.it s.vec), true)
read_all-pieces [] s h fits = refl
read_all-pieces ((true, count) ∷ reads) s h fits =
    read_all_step true count reads s (omega (arith, h)) fits
      (read_all-pieces reads (record s { it = s.it + count }) (omega (arith, h)) fits)
read_all-pieces ((false, count) ∷ reads) s h fits =
    read_all_step false count reads s (omega (arith, h)) fits
      (read_all-pieces reads (record s { it = s.it + count }) (omega (arith, h)) fits)

take_all : (n : ℕ) (xs : List ℕ) → length xs ≤ n → take n xs ≡ xs
take_all zero [] h = refl
take_all zero (x ∷ xs) h = ground (arith, h)
take_all (suc n) [] h = refl
take_all (suc n) (x ∷ xs) h = ap (λ l. x ∷ l) (take_all n xs (omega (arith, h)))

-- A read of more than there is fails and uses up the stream; with a buffer it gives what there is.
pub vector_read_short :
    (s : VectorStream) (buf : Bool) (count : ℕ)
    → s.it ≤ length s.vec
    → length s.vec < s.it + count
    → length s.vec < u64
    → vector_read s buf count
      ≡ (record s { it = length s.vec }, (if buf then drop s.it s.vec else []), false)
unfolding vector_read
vector_read_short s false count inside h fits = ground (arith, sub_size-le (length s.vec) s.it)
vector_read_short s true count inside h fits =
    let rest : min count (sub_size (length s.vec) s.it) ≡ length s.vec - s.it =
      omega (arith, h, sub_size-le (length s.vec) s.it inside fits) in
    let end : s.it + (length s.vec - s.it) ≡ length s.vec = omega (arith, inside) in
    let all : take (length s.vec - s.it) (drop s.it s.vec) ≡ drop s.it s.vec =
      take_all (length s.vec - s.it) (drop s.it s.vec) (omega (arith, length-drop s.it s.vec)) in
    rw (rest, end, all) (ground (arith, h, inside))
