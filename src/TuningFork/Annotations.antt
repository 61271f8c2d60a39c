-- ===== src/TuningFork/Annotations.antt =====
-- The annotations and the compound ids of tuningfork/tuningfork.cpp.
use mathlib.Core.Option
use gamesdk.Prelude.{
  ℕ, ◌+◌, ◌-◌, ◌*◌, ◌/◌, ◌^◌, ◌≤◌, ◌<◌, ◌≡◌, sym, ap, ◌∙◌, subst, some, List, length, length-set,
  get_elem?, get_or, mul_u64, add_u64, u64, arith, Option-cases, inl, inr,
}
use native.Mathlib.Nat.{div-add-mod, mod-lt, mod-eq_of_lt, mul-le-mul}
use gamesdk.Double.{Arith}
use gamesdk.Annotation.{annotation_error}
use gamesdk.Annotation
use gamesdk.Prong.{ProngCache, set_instrument_key, set_instrument_keys}
use gamesdk.Prong.Cache.{get_elem?-set_instrument_keys}
use gamesdk.TuningFork.{
  TuningFork, ok, decode_annotation, set_current_annotation, make_compound_id,
  get_or_create_instrument_key_index,
}
use gamesdk.TuningFork.Api.{api_set_current_annotation}
use gamesdk.TuningFork.Keys.{HasRoom, key_index-Holds}

error_times : (n : ℕ) → 0 < n → n ≤ 2 ^ 64 → mul_u64 annotation_error n ≡ 2 ^ 64 - n
error_times n low high = ground arith

-- With two to 2^32 - 1 instrument keys, setting an annotation that does not decode is not rejected: the call
-- of the API returns ok, and the current annotation id becomes 2^64 less the number of keys.
api_set_current_annotation_undetected :
    (a : Arith) (s : TuningFork a.Double) (ann : List ℕ)
    → Annotation.decode ann s.annotation_radix_mult ≡ annotation_error
    → 1 < s.settings.max_instrumentation_keys
    → s.settings.max_instrumentation_keys < 2 ^ 32
    → api_set_current_annotation a (some s) ann ≡ (
      some (record s {
        current_annotation = ann;
        current_annotation_id = 2 ^ 64 - s.settings.max_instrumentation_keys;
      }),
      ok,
    )
unfolding api_set_current_annotation set_current_annotation decode_annotation
api_set_current_annotation_undetected a s ann bad many few =
    ground (arith, bad, error_times s.settings.max_instrumentation_keys)

divided : (k n i : ℕ) → i < n → (k * n + i) / n ≡ k
divided k n i h = grind (arith, div-add-mod, mod-lt)

whole_rounds : (q n : ℕ) → 0 < n → q * n / n ≡ q
whole_rounds q n h = grind (arith, div-add-mod, mod-lt)

row_below : (k n q i : ℕ) → i < n → k < q → k * n + i < q * n
row_below k n q i h l =
    omega (arith, mul-le-mul {n₁ = k + 1} {m₁ = n} {n₂ = q} {m₂ = n} (omega arith) (omega arith))

module _ {D : Type 0} where
  made_from :
      (s s' : TuningFork D) (key id h : ℕ)
      → make_compound_id s key id ≡ (s', some h)
      → (i : ℕ) × (get_or_create_instrument_key_index s key ≡ (s', some i)) × (h ≡ add_u64 i id)
  unfolding make_compound_id
  made_from s s' key id h e = elim (Option-cases (get_or_create_instrument_key_index s key).1) [
    | inl none_e ↦ ground (arith, e, none_e)
    | inr (i, some_e) ↦ (i, ground (arith, e, some_e), ground (arith, e, some_e))
  ]

  length-ikeys :
      (s : TuningFork D) (key : ℕ)
      → length (get_or_create_instrument_key_index s key).0.ikeys ≡ length s.ikeys
  unfolding get_or_create_instrument_key_index
  length-ikeys s key = ground (arith, length-set s.ikeys s.next_ikey key)

  -- The compound id of an instrument key and of the annotation of index `k`, whose id is `k` times the
  -- number of keys, divided by that number gives `k` back. It is the id of a prong of a cache with `q` > `k`
  -- annotations, and setting the instrument keys of the state gives that prong the instrument key and
  -- changes nothing else of it. The keys fit the table, the cache has as many keys as the table, and its
  -- size is below 2^64.
  pub set_instrument_keys-make_compound_id :
      (s s' : TuningFork D) (c : ProngCache D) (key k q h : ℕ)
      → HasRoom s
      → c.max_num_instrumentation_keys ≡ length s.ikeys
      → length c.prongs ≡ q * length s.ikeys
      → k < q
      → q * length s.ikeys ≤ u64
      → make_compound_id s key (k * length s.ikeys) ≡ (s', some h)
      → (h / length s.ikeys ≡ k)
        × (h < length c.prongs)
        × (get_elem? (set_instrument_keys c s'.ikeys).prongs h
            ≡ Option.map (set_instrument_key key) (get_elem? c.prongs h))
  set_instrument_keys-make_compound_id s s' c key k q h room max size below fits e =
      let (i, made, sum) = made_from s s' key (k * length s.ikeys) h e in
      let (room', used, holds, kept, again) = key_index-Holds s s' key i room made in
      let len : length s'.ikeys ≡ length s.ikeys =
        subst (λ r. length r.0.ikeys ≡ length s.ikeys) made (length-ikeys s key) in
      let small : i < length s.ikeys = omega (arith, room', used, len) in
      let inside = row_below k (length s.ikeys) q i small below in
      let exact : h ≡ k * length s.ikeys + i =
        sum ∙ mod-eq_of_lt {n = i + k * length s.ikeys} {m = u64} (omega arith) ∙ omega arith in
      (
        ap (λ (x : ℕ). x / length s.ikeys) exact ∙ divided k (length s.ikeys) i small,
        omega (arith, exact, inside),
        subst
              (λ (x : ℕ).
                get_elem? (set_instrument_keys c s'.ikeys).prongs x
                ≡ Option.map (set_instrument_key (get_or s'.ikeys i 0)) (get_elem? c.prongs x))
              (ap (λ (n : ℕ). k * n + i) max ∙ sym exact)
              (get_elem?-set_instrument_keys c s'.ikeys k i (len ∙ sym max) (omega arith) (
                subst (λ (x : ℕ). k < x)
                  (sym (
                    ap (λ (x : ℕ). x / c.max_num_instrumentation_keys)
                      (size ∙ ap (λ (n : ℕ). q * n) (sym max))
                    ∙ whole_rounds q c.max_num_instrumentation_keys (omega arith)))
                  below))
            ∙ ap (λ (x : ℕ). Option.map (set_instrument_key x) (get_elem? c.prongs h)) holds,
      )
