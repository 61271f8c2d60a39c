-- ===== src/ClearcutSerializer/Frames.antt =====
-- tuningfork/clearcutserializer.cpp: reading numbers and messages in messages back, with a reader of nanopb.
use mathlib.Core.List.{append_assoc}
use gamesdk.Prelude.{
  ℕ, zero, suc, ◌<◌, ◌≡◌, refl, ap, ◌∙◌, Option, none, some, List, [], ◌∷◌, ◌++◌, length, take,
  drop, All, u32, ◌>>=◌, arith, length-append, drop-append,
}
use gamesdk.ClearcutSerializer.{Nanopb, packed, frame}

-- What is used of nanopb: the varint of a number below 2^32 has a byte, and pb_decode_varint reads back what
-- pb_encode_varint wrote.
pub record Reader (pb : Nanopb) : Type 0 where
  pub read_varint : List ℕ → Option (ℕ × List ℕ)
  pub reads :
      (n : ℕ) (after : List ℕ) → n < u32 → read_varint (pb.varint n ++ after) ≡ some (n, after)
  pub nonempty : (n : ℕ) → n < u32 → 0 < length (pb.varint n)

module _ (pb : Nanopb) (r : Reader pb) where
  -- The numbers of a packed field; the fuel is above their number.
  abbrev pub numbers : ℕ → List ℕ → Option (List ℕ)
  numbers zero bytes = none
  numbers (suc fuel) [] = some []
  numbers (suc fuel) (b ∷ bytes) =
      r.read_varint (b ∷ bytes) >>= λ (n, after). numbers fuel after >>= λ ns. some (n ∷ ns)

  -- The messages of a repeated field whose tags have `skip` bytes; the fuel is above their number.
  abbrev pub messages : ℕ → ℕ → List ℕ → Option (List (List ℕ))
  messages zero skip bytes = none
  messages (suc fuel) skip [] = some []
  messages (suc fuel) skip (b ∷ bytes) = r.read_varint (drop skip (b ∷ bytes)) >>= λ (n, after).
      messages fuel skip (drop n after) >>= λ ms. some (take n after ∷ ms)

  numbers_nonempty :
      (fuel : ℕ) (bytes : List ℕ)
      → 0 < length bytes
      → numbers (suc fuel) bytes
        ≡ (r.read_varint bytes >>= λ (n, after). numbers fuel after >>= λ ns. some (n ∷ ns))
  numbers_nonempty fuel [] h = ground (arith, h)
  numbers_nonempty fuel (b ∷ bytes) h = refl

  messages_nonempty :
      (fuel skip : ℕ) (bytes : List ℕ)
      → 0 < length bytes
      → messages (suc fuel) skip bytes ≡ (
          r.read_varint (drop skip bytes) >>= λ (n, after).
          messages fuel skip (drop n after) >>= λ ms. some (take n after ∷ ms))
  messages_nonempty fuel skip [] h = ground (arith, h)
  messages_nonempty fuel skip (b ∷ bytes) h = refl

  longer : (xs ys : List ℕ) → 0 < length xs → 0 < length (xs ++ ys)
  longer xs ys h = omega (arith, h, length-append xs ys)

  numbers_more :
      (fuel n : ℕ) (after : List ℕ)
      → n < u32
      → numbers (suc fuel) (pb.varint n ++ after) ≡ (numbers fuel after >>= λ ns. some (n ∷ ns))
  numbers_more fuel n after h =
      numbers_nonempty fuel (pb.varint n ++ after) (longer (pb.varint n) after (r.nonempty n h))
      ∙ ap
          (λ (o : Option (ℕ × List ℕ)).
            o >>= λ (n, after). numbers fuel after >>= λ ns. some (n ∷ ns))
          (r.reads n after h)

  pub numbers-packed :
      (fuel : ℕ) (counts : List ℕ)
      → length counts < fuel
      → All (λ n. n < u32) counts
      → numbers fuel (packed pb counts) ≡ some counts
  unfolding packed
  numbers-packed zero counts enough small = ground (arith, enough)
  numbers-packed (suc fuel) [] enough small = refl
  numbers-packed (suc fuel) (n ∷ counts) enough (h, small) =
      numbers_more fuel n (packed pb counts) h
      ∙ ap (λ (o : Option (List ℕ)). o >>= λ ns. some (n ∷ ns))
          (numbers-packed fuel counts (omega (arith, enough)) small)

  pub take_append : (xs ys : List ℕ) → take (length xs) (xs ++ ys) ≡ xs
  take_append [] ys = refl
  take_append (x ∷ xs) ys = ground (arith, take_append xs ys)

  pub messages_more :
      (fuel : ℕ) (tag message after : List ℕ)
      → length message < u32
      → messages (suc fuel) (length tag) (frame pb tag message ++ after)
        ≡ (messages fuel (length tag) after >>= λ ms. some (message ∷ ms))
  messages_more fuel tag message after h =
      let size = pb.varint (length message) in
      let rest = size ++ (message ++ after) in
      let split : frame pb tag message ++ after ≡ tag ++ rest =
        append_assoc (tag ++ size) message after ∙ append_assoc tag size (message ++ after) in
      let some_bytes : 0 < length (tag ++ rest) = omega (
        arith,
        r.nonempty (length message) h,
        length-append tag rest,
        length-append size (message ++ after),
      ) in
      rw
        (
          split,
          messages_nonempty fuel (length tag) (tag ++ rest) some_bytes,
          drop-append tag rest,
          r.reads (length message) (message ++ after) h,
          take_append message after,
          drop-append message after,
        )
        refl
