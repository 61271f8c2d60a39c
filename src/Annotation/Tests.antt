-- ===== src/Annotation/Tests.antt =====
-- Runs of the annotation codec, and its theorems at concrete inputs.
use gamesdk.Prelude.{ℕ, ◌≡◌, refl, List, [], ◌∷◌, ◌++◌, some, arith, inl, inr}
use gamesdk.Annotation.Base128.{get_base128, write_base128}
use gamesdk.Annotation.Base128.Laws.{get_base128-write_base128}
use gamesdk.Annotation.{
  annotation_error, get_key_index, decode_value, decode_key, decode_field, decode_loop, decode,
  serialize, set_up_radixes,
}
use gamesdk.Annotation.Fields.{Field, IsBadField, message, field_bytes}
use gamesdk.Annotation.Message.{decode_total, decode-message, decode-message_bad}
use gamesdk.Annotation.RoundTrip.{serialize-digits}

-- The example of the comment in tuningfork.cpp: enums A, B and C with 3, 2 and 1 values.
abbrev sizes : List ℕ
sizes = 3 ∷ 2 ∷ 1 ∷ []

radixes_of_sizes : set_up_radixes sizes ≡ 4 ∷ 12 ∷ 24 ∷ []
unfolding set_up_radixes
radixes_of_sizes = refl

-- Field 2 with the value 1: `0x10 0x01`.
decode_b_1 : decode (0x10 ∷ 0x01 ∷ []) (4 ∷ 12 ∷ 24 ∷ []) ≡ 4
unfolding decode decode_field decode_key decode_value get_key_index get_base128
decode_b_1 = refl

-- A tag with a wire type is no key.
decode_wire_type : decode (0x16 ∷ 0x01 ∷ []) (4 ∷ 12 ∷ 24 ∷ []) ≡ annotation_error
unfolding decode decode_field decode_key decode_value get_key_index get_base128
decode_wire_type = refl

-- The value 3 of the enum B, which has two values, is accepted, and the id is out of range.
decode_b_3 : decode (0x10 ∷ 0x03 ∷ []) (4 ∷ 12 ∷ []) ≡ 12
unfolding decode decode_field decode_key decode_value get_key_index get_base128
decode_b_3 = refl

-- The id 12 stands for C_1, and it is written as the value 3 of B.
serialize_c_1 : serialize 12 [] (4 ∷ 12 ∷ 24 ∷ []) ≡ some (0x10 ∷ 0x03 ∷ [])
unfolding serialize write_base128
serialize_c_1 = refl

get_base128-write_base128_example :
    get_base128 (write_base128 300 (7 ∷ []) ++ (9 ∷ [])) 1 ≡ (300, 2)
unfolding write_base128
get_base128-write_base128_example = get_base128-write_base128 300 (7 ∷ []) (9 ∷ []) (omega arith)

decode_total_example :
    decode_loop 3 (0x10 ∷ 0x01 ∷ []) (4 ∷ 12 ∷ []) 0 0
    ≡ some (decode (0x10 ∷ 0x01 ∷ []) (4 ∷ 12 ∷ []))
decode_total_example = decode_total (0x10 ∷ 0x01 ∷ []) (4 ∷ 12 ∷ [])

abbrev a_3 : Field
a_3 = record { key = 0; value = 3 }

abbrev b_1 : Field
b_1 = record { key = 1; value = 1 }

abbrev b_12 : Field
b_12 = record { key = 1; value = 12 }

decode-message_example : decode (message (a_3 ∷ b_1 ∷ [])) (4 ∷ 12 ∷ []) ≡ 7
decode-message_example = decode-message (4 ∷ 12 ∷ []) (a_3 ∷ b_1 ∷ []) (omega arith)

b_12-IsBadField : IsBadField (4 ∷ 12 ∷ []) b_12
b_12-IsBadField = record {
  one_byte = omega arith;
  word = omega arith;
  bad = inr (inr (inl (omega arith)));
}

decode-message_bad_example :
    decode (message (a_3 ∷ []) ++ (field_bytes b_12 ++ (0x10 ∷ []))) (4 ∷ 12 ∷ [])
    ≡ annotation_error
decode-message_bad_example =
    decode-message_bad (4 ∷ 12 ∷ []) (a_3 ∷ []) b_12 (0x10 ∷ []) (omega arith) b_12-IsBadField

serialize-digits_example : serialize 7 [] (4 ∷ 12 ∷ []) ≡ some (message (a_3 ∷ b_1 ∷ []))
serialize-digits_example =
    serialize-digits (4 ∷ 12 ∷ []) 7 (omega arith) (omega arith) (omega arith)
