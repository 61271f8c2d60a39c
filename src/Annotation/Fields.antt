-- ===== src/Annotation/Fields.antt =====
-- `DecodeAnnotationSerialization` against a description of what it reads: a message is a list of
-- fields, each the index of an enum with a value, and it stands for a sum in mixed radix.
use Prim.Native.Nat.{bit_and, bit_or}
use mathlib.Core.List.{append_assoc}
use gamesdk.Prelude.{
  ℕ, ◌+◌, ◌-◌, ◌*◌, ◌%◌, ◌^◌, ◌≤◌, ◌<◌, ◌≡◌, List, [], ◌∷◌, ◌++◌, none, some, ltb, if◌then◌else◌,
  length, length-append, get_or, get_or-append_here, drop, u64, arith, ◌⊎◌,
}
use gamesdk.Prelude.Bits.{bit_and_mask}
use gamesdk.Annotation.Base128.{read_loop, get_base128}
use gamesdk.Annotation.Base128.Laws.{base128, base128-nonempty, get_base128-base128}
use gamesdk.Annotation.{get_key_index, decode_value, decode_key, decode_field}

-- The reader never goes back.
read_loop-ge : (bs : List ℕ) (index m r : ℕ) → index ≤ (read_loop bs index m r).1
unfolding read_loop
read_loop-ge [] index m r = omega arith
read_loop-ge (b ∷ bs) index m r =
    ground (arith, read_loop-ge bs (index + 1) (m + 7) (bit_or r (bit_and b 0x7f * 2 ^ m % u64)))

get_base128-ge : (bs : List ℕ) (index : ℕ) → index ≤ (get_base128 bs index).1
unfolding get_base128
get_base128-ge bs index = read_loop-ge (drop index bs) index 0 0

pub decode_field-lt :
    (ser radix_mult : List ℕ) (i added last : ℕ)
    → decode_field ser radix_mult i ≡ some (added, last)
    → i < last
unfolding decode_field decode_key decode_value get_key_index
decode_field-lt ser radix_mult i added last e = ground (arith, get_base128-ge ser (i + 1))

-- A field of a message: the 0-based index of an enum, and its value.
pub record Field : Type 0 where
  pub key : ℕ
  pub value : ℕ

abbrev pub field_bytes : Field → List ℕ
field_bytes f = (f.key + 1) * 2 ^ 3 ∷ base128 9 f.value

abbrev pub message : List Field → List ℕ
message [] = []
message (f ∷ fs) = field_bytes f ++ message fs

-- What one unit of an enum's value counts.
abbrev pub place : List ℕ → ℕ → ℕ
place radix_mult key = if ltb 0 key then get_or radix_mult (key - 1) 0 else 1

abbrev pub number : List ℕ → List Field → ℕ
number radix_mult [] = 0
number radix_mult (f ∷ fs) = place radix_mult f.key * f.value + number radix_mult fs

-- The fields that the decoder can take: the tag fits a byte, and the value is in range.
pub record IsField (radix_mult : List ℕ) (f : Field) : Type 0 where
  pub known : f.key < length radix_mult
  pub one_byte : f.key < 31
  pub present : 0 < f.value
  pub in_range : f.value < get_or radix_mult f.key 0
  pub small : f.value ≤ 255

tag-masked : (k : ℕ) → bit_and ((k + 1) * 2 ^ 3) 0x7 ≡ 0
tag-masked k = omega (arith, bit_and_mask 3 ((k + 1) * 2 ^ 3))

get_key_index-tag : (k : ℕ) → get_key_index ((k + 1) * 2 ^ 3) ≡ some (k + 1)
unfolding get_key_index
get_key_index-tag k = ground (arith, tag-masked k)

module _ (before : List ℕ) (f : Field) (after : List ℕ) where
  abbrev pub stream : List ℕ
  stream = before ++ (field_bytes f ++ after)

  stream-tag : get_or stream (length before) 0 ≡ (f.key + 1) * 2 ^ 3
  stream-tag = get_or-append_here before (base128 9 f.value ++ after) _ 0

  pub key_index-stream : get_key_index (get_or stream (length before) 0) ≡ some (f.key + 1)
  key_index-stream = rw stream-tag (get_key_index-tag f.key)

  pub stream-value :
      f.value < 2 ^ 63
      → get_base128 stream (length before + 1)
        ≡ (f.value, length before + length (base128 9 f.value))
  stream-value h = ground (
    arith,
    append_assoc before (((f.key + 1) * 2 ^ 3) ∷ []) (base128 9 f.value ++ after),
    length-append before (((f.key + 1) * 2 ^ 3) ∷ []),
    base128-nonempty 8 f.value,
    get_base128-base128 f.value (before ++ (((f.key + 1) * 2 ^ 3) ∷ [])) after,
  )

  pub length-stream : length before + length (base128 9 f.value) + 1 ≤ length stream
  length-stream = omega (
    arith,
    length-append before (field_bytes f ++ after),
    length-append (base128 9 f.value) after,
  )

decode_value-field :
    (radix_mult : List ℕ) (f : Field) (last : ℕ)
    → IsField radix_mult f
    → decode_value radix_mult f.key f.value last
      ≡ some (place radix_mult f.key * f.value % u64, last)
unfolding decode_value
decode_value-field radix_mult f last v = ground arith

-- A field that the decoder takes adds its value times its place.
pub decode_field-field :
    (radix_mult before : List ℕ) (f : Field) (after : List ℕ)
    → IsField radix_mult f
    → decode_field (stream before f after) radix_mult (length before)
      ≡ some (place radix_mult f.key * f.value % u64, length before + length (base128 9 f.value))
unfolding decode_field decode_key
decode_field-field radix_mult before f after v =
    rw (key_index-stream before f after, decode_field)
      (ground (
        arith,
        stream-value before f after (omega arith),
        length-stream before f after,
        base128-nonempty 8 f.value,
        decode_value-field radix_mult f (length before + length (base128 9 f.value)) v,
      ))

-- A known field whose value is 0, not below its radix or above 255 is an error.
pub record IsBadField (radix_mult : List ℕ) (f : Field) : Type 0 where
  pub one_byte : f.key < 31
  pub word : f.value < 2 ^ 63
  pub bad :
      (length radix_mult ≤ f.key)
      ⊎ ((f.value ≡ 0) ⊎ ((get_or radix_mult f.key 0 ≤ f.value) ⊎ (255 < f.value)))

pub decode_field-bad :
    (radix_mult before : List ℕ) (f : Field) (after : List ℕ)
    → IsBadField radix_mult f
    → decode_field (stream before f after) radix_mult (length before) ≡ none
unfolding decode_field decode_key decode_value
decode_field-bad radix_mult before f after v =
    ground (arith, key_index-stream before f after, stream-value before f after v.word)
