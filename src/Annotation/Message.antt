-- ===== src/Annotation/Message.antt =====
-- The loop of `DecodeAnnotationSerialization` on whole messages.
use mathlib.Core.List.{append_assoc, append-nil}
use mathlib.Core.Logic.{◌≢◌}
use gamesdk.Prelude.{
  ℕ, zero, suc, ◌+◌, ◌*◌, ◌%◌, ◌<◌, ◌≡◌, ap, ◌∙◌, List, [], ◌∷◌, ◌++◌, none, some, ltb, length,
  length-append, u64, arith, All, inl, inr, Bool-cases, ltb→lt, lt→ltb, Option-cases, add_u64,
}
use gamesdk.Annotation.Base128.Laws.{base128}
use gamesdk.Annotation.{annotation_error, decode_field, decode_loop, decode}
use gamesdk.Annotation.Fields.{
  Field, IsField, IsBadField, field_bytes, message, place, number, stream, length-stream,
  decode_field-lt, decode_field-field, decode_field-bad,
}

decode_loop-ne-none :
    (fuel : ℕ) (ser radix_mult : List ℕ) (i result : ℕ)
    → 0 < fuel
    → length ser < fuel + i
    → decode_loop fuel ser radix_mult i result ≢ none
unfolding decode_loop
decode_loop-ne-none zero ser radix_mult i result p h = elim p [ ]
decode_loop-ne-none (suc fuel) ser radix_mult i result p h =
    elim (Bool-cases (ltb i (length ser))) [
      | inl more ↦ elim (Option-cases (decode_field ser radix_mult i)) [
        | inl e ↦ rw (more, e, decode_loop) (λ q. cc)
        | inr ((added, last), e) ↦
            rw (more, e, decode_loop)
              (decode_loop-ne-none fuel ser radix_mult (last + 1) (add_u64 result added)
                (omega (arith, ltb→lt i (length ser) more))
                (omega (arith, decode_field-lt ser radix_mult i added last e)))
      ]
      | inr done ↦ rw (done, decode_loop) (λ q. cc)
    ]

-- `DecodeAnnotationSerialization` ends on every input: its loop needs no more rounds than there are
-- bytes, and one.
pub decode_total :
    (ser radix_mult : List ℕ)
    → decode_loop (suc (length ser)) ser radix_mult 0 0 ≡ some (decode ser radix_mult)
unfolding decode
decode_total ser radix_mult =
    elim (Option-cases (decode_loop (suc (length ser)) ser radix_mult 0 0)) [
      | inl e ↦
          absurd (
            decode_loop-ne-none (suc (length ser)) ser radix_mult 0 0 (omega arith) (omega arith) e)
      | inr (a, e) ↦ rw e
    ]

length-before_field :
    (before : List ℕ) (f : Field)
    → length (before ++ field_bytes f) ≡ length before + length (base128 9 f.value) + 1
length-before_field before f = omega (arith, length-append before (field_bytes f))

-- The loop over a field, from the result of its round.
decode_loop_field :
    (fuel i result added last : ℕ) (ser radix_mult : List ℕ)
    → i < length ser
    → decode_field ser radix_mult i ≡ some (added, last)
    → decode_loop (suc fuel) ser radix_mult i result
      ≡ decode_loop fuel ser radix_mult (last + 1) (add_u64 result added)
unfolding decode_loop
decode_loop_field fuel i result added last ser radix_mult h e = rw (lt→ltb i _ h, e, decode_loop)

decode_loop_error :
    (fuel i result : ℕ) (ser radix_mult : List ℕ)
    → i < length ser
    → decode_field ser radix_mult i ≡ none
    → decode_loop (suc fuel) ser radix_mult i result ≡ some annotation_error
unfolding decode_loop
decode_loop_error fuel i result ser radix_mult h e = rw (lt→ltb i _ h, e, decode_loop)

decode_loop_step :
    (fuel : ℕ) (radix_mult before : List ℕ) (f : Field) (after : List ℕ) (result : ℕ)
    → IsField radix_mult f
    → decode_loop (suc fuel) (before ++ (field_bytes f ++ after)) radix_mult (length before) result
      ≡ decode_loop fuel
          ((before ++ field_bytes f) ++ after)
          radix_mult
          (length (before ++ field_bytes f))
          (add_u64 result (place radix_mult f.key * f.value % u64))
decode_loop_step fuel radix_mult before f after result v =
    rw (length-before_field before f, append_assoc before (field_bytes f) after)
      (decode_loop_field fuel (length before) result _ _ (stream before f after) radix_mult
        (omega (arith, length-stream before f after))
        (decode_field-field radix_mult before f after v))

decode_loop-message :
    (fs : List Field) (fuel : ℕ) (radix_mult before : List ℕ) (result : ℕ)
    → All (IsField radix_mult) fs
    → result < u64
    → 0 < fuel
    → length (before ++ message fs) < fuel + length before
    → decode_loop fuel (before ++ message fs) radix_mult (length before) result
      ≡ some ((result + number radix_mult fs) % u64)
decode_loop-message fs zero radix_mult before result v r p h = elim p [ ]
decode_loop-message [] (suc fuel) radix_mult before result v r p h =
    rw (append-nil before) (unfold decode_loop in ground arith)
decode_loop-message (f ∷ fs) (suc fuel) radix_mult before result (v, vs) r p h =
    decode_loop_step fuel radix_mult before f (message fs) result v
    ∙ decode_loop-message fs fuel radix_mult (before ++ field_bytes f)
        (add_u64 result (place radix_mult f.key * f.value % u64)) vs (omega arith)
        (omega (arith, length-stream before f (message fs)))
        (omega (
          arith,
          length-before_field before f,
          ap (length {A = ℕ}) (append_assoc before (field_bytes f) (message fs)),
        ))
    ∙ ap some (omega arith)

decode_loop-message_bad :
    (fs : List Field) (f : Field) (after : List ℕ) (fuel : ℕ) (radix_mult before : List ℕ)
    (result : ℕ)
    → All (IsField radix_mult) fs
    → IsBadField radix_mult f
    → length (before ++ (message fs ++ (field_bytes f ++ after))) < fuel + length before
    → decode_loop fuel
        (before ++ (message fs ++ (field_bytes f ++ after)))
        radix_mult
        (length before)
        result
      ≡ some annotation_error
decode_loop-message_bad fs f after zero radix_mult before result v w h =
    absurd (omega (arith, length-append before (message fs ++ (field_bytes f ++ after))))
decode_loop-message_bad [] f after (suc fuel) radix_mult before result v w h =
    decode_loop_error fuel (length before) result _ radix_mult
      (omega (arith, length-stream before f after)) (decode_field-bad radix_mult before f after w)
decode_loop-message_bad (g ∷ fs) f after (suc fuel) radix_mult before result (v, vs) w h =
    ap (λ t. decode_loop (suc fuel) (before ++ t) radix_mult (length before) result)
      (append_assoc (field_bytes g) (message fs) (field_bytes f ++ after))
    ∙ decode_loop_step fuel radix_mult before g (message fs ++ (field_bytes f ++ after)) result v
    ∙ decode_loop-message_bad fs f after fuel radix_mult (before ++ field_bytes g) _ vs w (
        omega (
          arith,
          length-before_field before g,
          ap (length {A = ℕ})
              (append_assoc before (field_bytes g) (message fs ++ (field_bytes f ++ after))),
          ap (λ t. length {A = ℕ} (before ++ t))
              (append_assoc (field_bytes g) (message fs) (field_bytes f ++ after)),
        ))

-- `DecodeAnnotationSerialization` on a message of fields that are known, present, below their radix
-- and at most 255 returns the number that the fields stand for in mixed radix, as a uint64_t.
pub decode-message :
    (radix_mult : List ℕ) (fs : List Field)
    → All (IsField radix_mult) fs
    → decode (message fs) radix_mult ≡ number radix_mult fs % u64
unfolding decode
decode-message radix_mult fs v =
    rw
      (decode_loop-message fs (suc (length (message fs))) radix_mult [] 0 v (omega arith)
        (omega arith) (omega arith))
      (omega arith)

-- One field that is unknown, or whose value is 0, not below its radix or above 255, makes
-- `DecodeAnnotationSerialization` return `kAnnotationError`, whatever stands behind it.
pub decode-message_bad :
    (radix_mult : List ℕ) (fs : List Field) (f : Field) (after : List ℕ)
    → All (IsField radix_mult) fs
    → IsBadField radix_mult f
    → decode (message fs ++ (field_bytes f ++ after)) radix_mult ≡ annotation_error
unfolding decode
decode-message_bad radix_mult fs f after v w = rw (
    decode_loop-message_bad fs f after (suc (length (message fs ++ (field_bytes f ++ after))))
      radix_mult [] 0 v w (omega arith))
