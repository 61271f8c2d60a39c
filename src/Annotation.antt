-- ===== src/Annotation.antt =====
-- tuningfork/annotation_util.cpp: annotations, which are serialized messages of enum fields, and the
-- mixed-radix numbers that stand for them. `Annotation.Base128` has the integers of the byte stream.
pub mod Base128
pub mod Fields
pub mod Message
pub mod RoundTrip
mod Tests
use Prim.Native.Nat.{bit_and}
use mathlib.Core.Option
use gamesdk.Prelude.{
  ℕ, zero, suc, ◌+◌, ◌-◌, ◌*◌, ◌/◌, ◌%◌, ◌^◌, Bool, ◌&&◌, ◌||◌, true, false, List, [], ◌∷◌, ◌++◌,
  Option, none, some, ltb, leb, ◌==◌, not, if◌then◌else◌, length, get_elem?, get_or, u64, u32,
  add_u64, mul_u64, mul_u32, add_u32,
}
use Base128.{stream_error, get_base128, write_base128}

-- `kAnnotationError`, which is (uint64_t)-1.
abbrev pub annotation_error : ℕ
annotation_error = 2 ^ 64 - 1

-- `kKeyError` is `none`; the number is the 1-based index of a field.
unfoldable pub get_key_index : ℕ → Option ℕ
get_key_index b = if not (bit_and b 0x7 == 0) then none else some (b / 2 ^ 3)

-- The tests of a value that was read, and what it adds to the result.
unfoldable pub decode_value : List ℕ → ℕ → ℕ → ℕ → Option (ℕ × ℕ)
decode_value radix_mult key value last =
    if value == stream_error
    then none
    else if value == 0 || leb (get_or radix_mult key 0) value
    then none
    else if ltb 0xff value
    then none
    else if ltb 0 key
    then some (mul_u64 (get_or radix_mult (key - 1) 0) value, last)
    else some (value, last)

-- `--key`, which `key >= radix_mult.size()` reads as a size_t, and the tests before the value is read.
unfoldable pub decode_key : List ℕ → List ℕ → ℕ → ℕ → Option (ℕ × ℕ)
decode_key ser radix_mult i index =
    let key = (index + u64 - 1) % u64 in
    let (value, last) = get_base128 ser (i + 1) in
    if leb (length radix_mult) key
    then none
    else if leb (length ser) (i + 1)
    then none
    else decode_value radix_mult key value last

-- One round of the loop of `DecodeAnnotationSerialization` at the index `i`: what it adds to the
-- result, and the index of the last byte that it read. `none` is `return kAnnotationError`.
unfoldable pub decode_field : List ℕ → List ℕ → ℕ → Option (ℕ × ℕ)
decode_field ser radix_mult i = elim (get_key_index (get_or ser i 0)) [
  | none ↦ none
  | some index ↦ decode_key ser radix_mult i index
]

-- The loop; `none` means that the fuel ran out.
unfoldable pub decode_loop : ℕ → List ℕ → List ℕ → ℕ → ℕ → Option ℕ
unfolding decode_field
decode_loop zero ser radix_mult i result = none
decode_loop (suc fuel) ser radix_mult i result = elim (ltb i (length ser)) [
  | false ↦ some result
  | true ↦ elim (decode_field ser radix_mult i) [
    | none ↦ some annotation_error
    | some (added, last) ↦ decode_loop fuel ser radix_mult (last + 1) (add_u64 result added)
  ]
]

-- Each round takes a byte at least, so the number of bytes bounds the rounds.
unfoldable pub decode : List ℕ → List ℕ → ℕ
unfolding decode_loop
decode ser radix_mult =
    Option.get_or (decode_loop (suc (length ser)) ser radix_mult 0 0) annotation_error

-- `::lldiv` of the bit patterns of two long longs, the second of them positive: the quotient and the
-- remainder, as bit patterns, of a division that rounds towards zero.
unfoldable pub lldiv : ℕ → ℕ → ℕ × ℕ
lldiv x y =
    if ltb x (2 ^ 63)
    then (x / y, x % y)
    else ((u64 - (u64 - x) / y) % u64, (u64 - (u64 - x) % y) % u64)

-- The loop of `SerializeAnnotationId` over `radix_mult[i..)`. `none`: a radix of 0, a division by zero.
-- `int value` is the remainder's low word, and it is positive if its sign bit is clear.
unfoldable pub serialize_loop : List ℕ → ℕ → ℕ → List ℕ → Option (List ℕ)
unfolding lldiv
serialize_loop [] i x ser = some ser
serialize_loop (radix ∷ radixes) i x ser =
    let (quot, rem) = lldiv x radix in
    let value = rem % u32 in
    let written = write_base128 value (ser ++ ((i + 1) * 2 ^ 3 % 2 ^ 8 ∷ [])) in
    let rest =
      serialize_loop radixes (i + 1) quot
        (if ltb 0 value && ltb value (2 ^ 31) then written else ser) in
    if radix == 0 then none else rest

unfoldable pub serialize : ℕ → List ℕ → List ℕ → Option (List ℕ)
unfolding serialize_loop
serialize id ser radix_mult = serialize_loop radix_mult 0 id ser

-- The loop of `SetUpAnnotationRadixes` over the sizes that are left; `r` wraps at 32 bits.
unfoldable pub radixes_loop : ℕ → List ℕ → List ℕ
radixes_loop r [] = []
radixes_loop r (size ∷ sizes) = let r' = mul_u32 r (add_u32 size 1) in r' ∷ radixes_loop r' sizes

unfoldable pub set_up_radixes : List ℕ → List ℕ
unfolding radixes_loop
set_up_radixes [] = 1 ∷ []
set_up_radixes (size ∷ sizes) = radixes_loop 1 (size ∷ sizes)
