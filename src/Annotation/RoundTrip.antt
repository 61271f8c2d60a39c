-- ===== src/Annotation/RoundTrip.antt =====
-- `SerializeAnnotationId`: what it writes, and whether `DecodeAnnotationSerialization` reads it back.
use mathlib.Core.List.{append_assoc, append-nil}
use native.Mathlib.Nat.{
  mod-eq_of_lt, mod-lt, div-add-mod, mul_assoc, one-mul, mul-le-mul, div-le_self, mul-le-mul_left,
}
use gamesdk.Prelude.{
  ℕ, ◌+◌, ◌*◌, ◌/◌, ◌%◌, ◌^◌, ◌≤◌, ◌<◌, ◌≡◌, refl, sym, ap, ◌∙◌, List, [], ◌∷◌, ◌++◌, some, ◌==◌,
  if◌then◌else◌, length, u32, u64, add_u32, mul_u32, arith, All,
}
use gamesdk.Annotation.Base128.Laws.{base128, write_base128-base128}
use gamesdk.Annotation.{decode, lldiv, serialize_loop, serialize, radixes_loop, set_up_radixes}
use gamesdk.Annotation.Fields.{Field, IsField, field_bytes, message, number}
use gamesdk.Annotation.Message.{decode-message}

-- The digits that are not 0, each as a field: the remainders of repeated division by the radixes.
abbrev pub digits : List ℕ → ℕ → ℕ → List Field
digits [] i x = []
digits (radix ∷ radixes) i x =
    let rest = digits radixes (i + 1) (x / radix) in
    if x % radix == 0 then rest else record { key = i; value = x % radix } ∷ rest

serialize_loop-digits :
    (radixes : List ℕ) (i x : ℕ) (ser : List ℕ)
    → All (λ r. 0 < r) radixes
    → x < 2 ^ 31
    → i + length radixes ≤ 31
    → serialize_loop radixes i x ser ≡ some (ser ++ message (digits radixes i x))
unfolding serialize_loop lldiv
serialize_loop-digits [] i x ser p hx hi = ap some (sym (append-nil ser))
serialize_loop-digits (radix ∷ radixes) i x ser (p, ps) hx hi = ground (
  arith,
  write_base128-base128 (x % radix) (ser ++ ((i + 1) * 2 ^ 3 ∷ [])),
  serialize_loop-digits radixes (i + 1) (x / radix) ser ps,
  serialize_loop-digits radixes (i + 1) (x / radix)
      (ser ++ field_bytes (record { key = i; value = x % radix })) ps,
  append_assoc ser ((i + 1) * 2 ^ 3 ∷ []) (base128 9 (x % radix)),
  append_assoc ser (field_bytes (record { key = i; value = x % radix }))
      (message (digits radixes (i + 1) (x / radix))),
)

-- For at most 31 radixes, none of them 0, and an id below 2^31, `SerializeAnnotationId` succeeds and
-- writes the message of the id's digits, each the remainder of a division by the ACCUMULATED radix.
pub serialize-digits :
    (radix_mult : List ℕ) (id : ℕ)
    → All (λ r. 0 < r) radix_mult
    → length radix_mult ≤ 31
    → id < 2 ^ 31
    → serialize id [] radix_mult ≡ some (message (digits radix_mult 0 id))
unfolding serialize
serialize-digits radix_mult id p h hx = serialize_loop-digits radix_mult 0 id [] p hx (omega arith)

-- The number of annotations: each enum has one value more than its size, for a missing field.
abbrev pub annotations : List ℕ → ℕ
annotations [] = 1
annotations (size ∷ sizes) = (size + 1) * annotations sizes

abbrev pub products : ℕ → List ℕ → List ℕ
products r [] = []
products r (size ∷ sizes) = r * (size + 1) ∷ products (r * (size + 1)) sizes

annotations-pos : (sizes : List ℕ) → 0 < annotations sizes
annotations-pos [] = omega arith
annotations-pos (size ∷ sizes) = grind (arith, annotations-pos sizes)

first_fits : (r size total : ℕ) → 0 < total → r * ((size + 1) * total) < u32 → r * (size + 1) < u32
first_fits r size total p h =
    let grows : r * (size + 1) * 1 ≤ r * (size + 1) * total = mul-le-mul_left (r * (size + 1)) p in
    omega (arith, mul_assoc r (size + 1) total)

times-ge : (r n : ℕ) → 0 < r → n ≤ r * n
times-ge r n h = grind arith

times-ge' : (r n : ℕ) → 0 < n → r ≤ r * n
times-ge' r n h = grind arith

radixes_loop_step :
    (r size : ℕ) → 0 < r → r * (size + 1) < u32 → mul_u32 r (add_u32 size 1) ≡ r * (size + 1)
radixes_loop_step r size p h =
    ap (λ (t : ℕ). r * t % u32)
      (mod-eq_of_lt {n = size + 1} {m = u32} (omega (arith, times-ge r (size + 1) p)))
    ∙ mod-eq_of_lt h

radixes_loop-products :
    (r : ℕ) (sizes : List ℕ)
    → 0 < r
    → r * annotations sizes < u32
    → radixes_loop r sizes ≡ products r sizes
unfolding radixes_loop
radixes_loop-products r [] p h = refl
radixes_loop-products r (size ∷ sizes) p h =
    rw
      (radixes_loop_step r size p (first_fits r size (annotations sizes) (annotations-pos sizes) h))
      (ap (λ t. r * (size + 1) ∷ t)
        (radixes_loop-products (r * (size + 1)) sizes (omega (arith, times-ge r (size + 1) p))
          (omega (arith, mul_assoc r (size + 1) (annotations sizes)))))

-- While the number of annotations fits a uint32_t, `SetUpAnnotationRadixes` computes the running
-- products of the enum sizes, each increased by one for a missing field.
set_up_radixes-products :
    (size : ℕ) (sizes : List ℕ)
    → annotations (size ∷ sizes) < u32
    → set_up_radixes (size ∷ sizes) ≡ products 1 (size ∷ sizes)
unfolding set_up_radixes
set_up_radixes-products size sizes h =
    radixes_loop-products 1 (size ∷ sizes) (omega arith) (omega arith)

-- The third digit of an id that needs it, under the accumulated radixes.
module _ (a c d id : ℕ) (ha : 1 < a) (low : a * c ≤ id) (hid : id < d) (pc : 0 < c) where
  third-pos : 0 < id / a / c
  third-pos = grind (arith, div-add-mod, mod-lt)

  third-lt : id / a / c < d
  third-lt = omega (arith, div-le_self id a, div-le_self (id / a) c)

  third_small : d ≤ c * 256 → id / a / c ≤ 255
  third_small h = grind (arith, div-add-mod, div-le_self)

  third_double : c * (id / a / c) + 1 ≤ a * (c * (id / a / c))
  third_double = grind (arith, third-pos)

  third_split : id ≡ id % a + a * (id / a % c) + a * (c * (id / a / c))
  third_split = grind (arith, div-add-mod)

  -- With three radixes the digits are valid fields, and they add up to less than the id.
  digits_three :
      a ≤ 256
      → c ≤ 256
      → d ≤ c * 256
      → All (IsField (a ∷ c ∷ d ∷ [])) (digits (a ∷ c ∷ d ∷ []) 0 id)
        × (number (a ∷ c ∷ d ∷ []) (digits (a ∷ c ∷ d ∷ []) 0 id) < id)
  digits_three ha' hc hd = ground (
    arith,
    mod-lt id {m = a} (omega arith),
    mod-lt (id / a) {m = c} pc,
    mod-eq_of_lt third-lt,
    third-pos,
    third_small hd,
    third_double,
    third_split,
  )

  decode-serialize_triple :
      a ≤ 256
      → c ≤ 256
      → d ≤ c * 256
      → (ser : List ℕ) × (serialize id [] (a ∷ c ∷ d ∷ []) ≡ some ser)
        × (decode ser (a ∷ c ∷ d ∷ []) < id)
  decode-serialize_triple ha' hc hd =
      let valid = digits_three ha' hc hd in
      (
        message (digits (a ∷ c ∷ d ∷ []) 0 id),
        serialize-digits (a ∷ c ∷ d ∷ []) id (omega arith) (omega arith) (omega arith),
        rw (decode-message (a ∷ c ∷ d ∷ []) (digits (a ∷ c ∷ d ∷ []) 0 id) valid.0) (
            rw
              (mod-eq_of_lt {n = number (a ∷ c ∷ d ∷ []) (digits (a ∷ c ∷ d ∷ []) 0 id)} {m = u64}
                (omega arith))
              valid.1),
      )

radixes_three :
    (a b c : ℕ)
    → (a + 1) * (b + 1) ≤ 256
    → c ≤ 255
    → set_up_radixes (a ∷ b ∷ c ∷ [])
      ≡ (a + 1) ∷ (a + 1) * (b + 1) ∷ (a + 1) * (b + 1) * (c + 1) ∷ []
radixes_three a b c h hc =
    set_up_radixes-products a (b ∷ c ∷ []) volume
    ∙ ap (λ t. t ∷ t * (b + 1) ∷ t * (b + 1) * (c + 1) ∷ []) (one-mul (a + 1))
  where
    volume : (a + 1) * ((b + 1) * ((c + 1) * 1)) < u32
    volume = omega (
      arith,
      mul_assoc (a + 1) (b + 1) (c + 1),
      mul-le-mul {n₁ = (a + 1) * (b + 1)} {m₁ = c + 1} {n₂ = 256} {m₂ = 256} h (omega arith),
    )

-- With three enums the id is not read back: of every id that needs the third enum and lies above the
-- product of the first two accumulated radixes, `SerializeAnnotationId` writes a message that
-- `DecodeAnnotationSerialization` reads as a smaller id.
decode-serialize_three :
    (a b c id : ℕ)
    → 1 ≤ a
    → (a + 1) * (b + 1) ≤ 256
    → c ≤ 255
    → (a + 1) * ((a + 1) * (b + 1)) ≤ id
    → id < (a + 1) * (b + 1) * (c + 1)
    → (ser : List ℕ) × (serialize id [] (set_up_radixes (a ∷ b ∷ c ∷ [])) ≡ some ser)
      × (decode ser (set_up_radixes (a ∷ b ∷ c ∷ [])) < id)
decode-serialize_three a b c id pa hab hc low hid = rw (radixes_three a b c hab hc) (
    decode-serialize_triple (a + 1) ((a + 1) * (b + 1)) ((a + 1) * (b + 1) * (c + 1)) id
      (omega arith) low hid (grind arith) (omega (arith, times-ge' (a + 1) (b + 1) (omega arith)))
      hab (mul-le-mul_left ((a + 1) * (b + 1)) (omega arith)))
