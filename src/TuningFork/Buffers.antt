-- ===== src/TuningFork/Buffers.antt =====
-- The two prong caches and the upload thread: what the application's calls write is never what the
-- upload thread reads. The calls and the rounds of the upload thread are steps, in any order.
use gamesdk.Prelude.{
  ℕ, ◌≡◌, refl, sym, ◌∙◌, subst, Option, none, some, List, arith, Option-cases, inl, inr, ◌⊎◌,
}
use gamesdk.Prelude.Int.{ℤ}
use gamesdk.Double.{Arith}
use gamesdk.Prong.{Prong, ProngCache, get, update, set_instrument_keys, clear_cache, tick, trace}
use gamesdk.TuningFork.{
  TuningFork, Which, first, second, other, cache, set_cache, ok, previous_upload_pending,
  get_or_create_instrument_key_index, make_compound_id, set_current_annotation, start_trace, submit,
  swap_caches, flush_at, flush, check_for_submit, tick_nanos, trace_nanos, submit_if_recorded,
}

-- The cache that the upload thread was given, if any, is not the one that is being filled.
abbrev pub IsApart : {D : Type 0} → TuningFork D → Type 0
IsApart s = (s.ready ≡ none) ⊎ (s.ready ≡ some (other s.current))

-- A change that keeps what the upload thread sees: which cache it was given, and what that cache holds.
abbrev pub Isolated : {D : Type 0} → TuningFork D → TuningFork D → Type 0
Isolated s s' =
    IsApart s' × ((w : Which) → s.ready ≡ some w → (s'.ready ≡ some w) × (cache s' w ≡ cache s w))

pub Isolated-refl : {D : Type 0} (s : TuningFork D) → IsApart s → Isolated s s
Isolated-refl s h = (h, λ w e. (e, refl))

pub Isolated-trans :
    {D : Type 0} (s t u : TuningFork D) → Isolated s t → Isolated t u → Isolated s u
Isolated-trans s t u (h, f) (k, g) =
    (k, λ w e. let (e', c) = f w e in let (e'', d) = g w e' in (e'', d ∙ c))

-- The four fields that the upload thread's view consists of.
pub record Same {D : Type 0} (s s' : TuningFork D) : Type 0 where
  pub cache_0 : s'.cache_0 ≡ s.cache_0
  pub cache_1 : s'.cache_1 ≡ s.cache_1
  pub current : s'.current ≡ s.current
  pub ready : s'.ready ≡ s.ready

module _ {D : Type 0} where
  pub cache-Same : (s s' : TuningFork D) (w : Which) → Same s s' → cache s' w ≡ cache s w
  cache-Same s s' first e = e.cache_0
  cache-Same s s' second e = e.cache_1

  pub Same-Isolated : (s s' : TuningFork D) → Same s s' → IsApart s → Isolated s s'
  Same-Isolated s s' e h =
      (ground (arith, h, e.current, e.ready), λ w f. (e.ready ∙ f, cache-Same s s' w e))

  pub set_cache-fields :
      (s : TuningFork D) (w : Which) (c : ProngCache D)
      → ((set_cache s w c).ready ≡ s.ready) × ((set_cache s w c).current ≡ s.current)
  set_cache-fields s first c = (refl, refl)
  set_cache-fields s second c = (refl, refl)

  cache-set_cache-other :
      (s : TuningFork D) (w : Which) (c : ProngCache D)
      → cache (set_cache s w c) (other w) ≡ cache s (other w)
  cache-set_cache-other s first c = refl
  cache-set_cache-other s second c = refl

  -- A write to the cache that is being filled.
  set_current-Isolated :
      (s : TuningFork D) (c : ProngCache D) → IsApart s → Isolated s (set_cache s s.current c)
  set_current-Isolated s c h =
      let (r, u) = set_cache-fields s s.current c in
      (
        ground (arith, h, r, u),
        λ w e. (
          r ∙ e,
          elim h [
            | inl idle ↦ cc
            | inr busy ↦
                subst (λ v. cache (set_cache s s.current c) v ≡ cache s v) {x = other s.current}
                  {y = w} (cc) (cache-set_cache-other s s.current c)
          ],
        ),
      )

  pub key_index-Same :
      (s : TuningFork D) (k : ℕ) → Same s (get_or_create_instrument_key_index s k).0
  unfolding get_or_create_instrument_key_index
  key_index-Same s k = ground arith

  pub make_compound_id-Same : (s : TuningFork D) (k id : ℕ) → Same s (make_compound_id s k id).0
  unfolding make_compound_id
  make_compound_id-Same s k id = key_index-Same s k

  pub set_current_annotation-Same :
      (s : TuningFork D) (ann : List ℕ) → Same s (set_current_annotation s ann).0
  unfolding set_current_annotation
  set_current_annotation-Same s ann = ground arith

  pub start_trace-Same : (s : TuningFork D) (key now : ℕ) → Same s (start_trace s key now).0
  unfolding start_trace
  start_trace-Same s key now = ground (arith, make_compound_id-Same s key s.current_annotation_id)

module _ (a : Arith) where
  open a use {Double}

  -- A change of no cache, or of the one that is being filled.
  abbrev pub Fills : TuningFork Double → TuningFork Double → Type 0
  Fills s s' = (s' ≡ s) ⊎ ((c : ProngCache Double) × (s' ≡ set_cache s s.current c))

  pub Fills-Isolated : (s s' : TuningFork Double) → IsApart s → Fills s s' → Isolated s s'
  Fills-Isolated s s' h (inl e) = subst (Isolated s) (sym e) (Isolated-refl s h)
  Fills-Isolated s s' h (inr (c, e)) = subst (Isolated s) (sym e) (set_current-Isolated s c h)

  pub tick_nanos-Fills : (s : TuningFork Double) (id t : ℕ) → Fills s (tick_nanos a s id t).0
  unfolding tick_nanos
  tick_nanos-Fills s id t = elim (Option-cases (get (cache s s.current) id)) [
    | inl e ↦ inl (rw (e, tick_nanos))
    | inr (p, e) ↦ inr (update (cache s s.current) id (tick a t), rw (e, tick_nanos))
  ]

  pub trace_nanos-Fills :
      (s : TuningFork Double) (id : ℕ) (dt : ℤ) → Fills s (trace_nanos a s id dt).0
  unfolding trace_nanos
  trace_nanos-Fills s id dt = elim (Option-cases (get (cache s s.current) id)) [
    | inl e ↦ inl (rw (e, trace_nanos))
    | inr (p, e) ↦ inr (update (cache s s.current) id (trace a dt), rw (e, trace_nanos))
  ]

  -- The cache that is being filled, with its instrument keys, and the state that a flush leaves.
  abbrev pub keyed : TuningFork Double → ProngCache Double
  keyed s = set_instrument_keys (cache s s.current) s.ikeys

  abbrev pub handed_over : TuningFork Double → ℕ → TuningFork Double
  handed_over s t =
      record (set_cache (set_cache s s.current (keyed s)) (other s.current)
        (clear_cache a (cache s (other s.current)))) {
          ready = some s.current;
          current = other s.current;
          last_submit_time_ns = t;
        }

  abbrev pub refused : TuningFork Double → ℕ → TuningFork Double
  refused s t = record (set_cache s s.current (keyed s)) { last_submit_time_ns = t }

  pub flush_at_idle :
      (s : TuningFork Double) (t : ℕ) → s.ready ≡ none → flush_at a s t ≡ (handed_over s t, ok)
  unfolding flush_at submit swap_caches
  flush_at_idle s t e =
      elim s.current as (λ w. s.current ≡ w → flush_at a s t ≡ (handed_over s t, ok)) [
        | first ↦ λ f. rw (f, e)
        | second ↦ λ f. rw (f, e)
      ]
        refl

  pub flush_at_busy :
      (s : TuningFork Double) (t : ℕ) (v : Which)
      → s.ready ≡ some v
      → flush_at a s t ≡ (refused s t, previous_upload_pending)
  unfolding flush_at submit
  flush_at_busy s t v e =
      elim s.current
          as (λ w. s.current ≡ w → flush_at a s t ≡ (refused s t, previous_upload_pending)) [
            | first ↦ λ f. rw (f, e)
            | second ↦ λ f. rw (f, e)
          ]
        refl

  handed_over-IsApart : (s : TuningFork Double) (t : ℕ) → IsApart (handed_over s t)
  handed_over-IsApart s t =
      elim s.current as (λ w. s.current ≡ w → IsApart (handed_over s t)) [
        | first ↦ λ f. inr (rw f)
        | second ↦ λ f. inr (rw f)
      ]
        refl

  refused-Isolated : (s : TuningFork Double) (t : ℕ) → IsApart s → Isolated s (refused s t)
  refused-Isolated s t h = set_current-Isolated s (keyed s) h

  flush_at-Isolated : (s : TuningFork Double) (t : ℕ) → IsApart s → Isolated s (flush_at a s t).0
  flush_at-Isolated s t h = elim (Option-cases s.ready) [
    | inl idle ↦
        subst (λ r. Isolated s r.0) (sym (flush_at_idle s t idle))
          (handed_over-IsApart s t, λ w e. cc)
    | inr (v, busy) ↦
        subst (λ r. Isolated s r.0) (sym (flush_at_busy s t v busy)) (refused-Isolated s t h)
  ]

  pub flush-Isolated : (s : TuningFork Double) (t : ℕ) → IsApart s → Isolated s (flush a s t).0
  unfolding flush
  flush-Isolated s t h = ground (arith, Isolated-refl s h, flush_at-Isolated s t h)

  check_for_submit-Isolated :
      (s : TuningFork Double) (t : ℕ) (p : Option (Prong Double))
      → IsApart s
      → Isolated s (check_for_submit a s t p).0
  unfolding check_for_submit
  check_for_submit-Isolated s t p h = ground (arith, Isolated-refl s h, flush_at-Isolated s t h)

  pub submit_if_recorded-Isolated :
      (r : TuningFork Double × Option (Prong Double)) (t : ℕ)
      → IsApart r.0
      → Isolated r.0 (submit_if_recorded a r t)
  unfolding submit_if_recorded
  submit_if_recorded-Isolated (s, none) t h = Isolated-refl s h
  submit_if_recorded-Isolated (s, some p) t h = check_for_submit-Isolated s t (some p) h
