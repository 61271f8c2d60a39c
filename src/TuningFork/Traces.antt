-- ===== src/TuningFork/Traces.antt =====
-- Traces of tuningfork/tuningfork.cpp: a started trace that is ended is one sample of its prong.
use mathlib.Core.Option
use gamesdk.Prelude.{
  ℕ, ◌<◌, ◌≡◌, refl, sym, ap, ◌∙◌, subst, Option, none, some, List, length, get_or, set,
  get_or-set_self, length-set, get_elem?-modify_self, length-modify, arith, Option-cases, inl, inr,
}
use gamesdk.Prelude.Int.{ℤ, sub_ℕ}
use gamesdk.Double.{Arith}
use gamesdk.Prong.{Prong, ProngCache, get, update, trace}
use gamesdk.TuningFork.{
  TuningFork, ok, invalid_trace_handle, Which, first, second, cache, set_cache,
  get_or_create_instrument_key_index, make_compound_id, start_trace, trace_nanos, end_trace,
}
use gamesdk.TuningFork.Reach.{end_trace_live, end_trace_dead}
use gamesdk.TuningFork.Submit.{cache-set_cache_self}
use gamesdk.TuningFork.Buffers.{set_cache-fields, start_trace-Same, cache-Same}

module _ {D : Type 0} where
  get-update :
      (c : ProngCache D) (id : ℕ) (f : Prong D → Prong D)
      → get (update c id f) id ≡ Option.map f (get c id)
  unfolding get update
  get-update c id f =
      ground (arith, length-modify c.prongs id f, get_elem?-modify_self c.prongs id f)

  live_traces-make_compound_id :
      (s : TuningFork D) (k id : ℕ) → (make_compound_id s k id).0.live_traces ≡ s.live_traces
  unfolding make_compound_id get_or_create_instrument_key_index
  live_traces-make_compound_id s k id = ground arith

  start_trace_made :
      (s : TuningFork D) (key now h : ℕ)
      → (make_compound_id s key s.current_annotation_id).1 ≡ some h
      → start_trace s key now ≡ (
        record (make_compound_id s key s.current_annotation_id).0 {
          live_traces =
              set (make_compound_id s key s.current_annotation_id).0.live_traces h (some now);
        },
        some h,
      )
  unfolding start_trace
  start_trace_made s key now h e = rw (e, start_trace)

  start_trace_handle :
      (s : TuningFork D) (key now : ℕ)
      → (start_trace s key now).1 ≡ (make_compound_id s key s.current_annotation_id).1
  unfolding start_trace
  start_trace_handle s key now = ground arith

  -- A started trace is live: its slot holds the time. The cache that is being filled is as it was.
  unfoldable pub Live : TuningFork D → ℕ → ℕ → TuningFork D → Type 0
  Live s h now s' =
      (get_or s'.live_traces h none ≡ some now)
      × (length s'.live_traces ≡ length s.live_traces)
      × (cache s' s'.current ≡ cache s s.current)

  pub start_trace-Live :
      (s : TuningFork D) (key now h : ℕ)
      → (start_trace s key now).1 ≡ some h
      → h < length s.live_traces
      → Live s h now (start_trace s key now).0
  unfolding Live
  start_trace-Live s key now h e inside =
      let made = live_traces-make_compound_id s key s.current_annotation_id in
      let same = start_trace-Same s key now in
      let eq = start_trace_made s key now h (sym (start_trace_handle s key now) ∙ e) in
      (
        ap (λ r. get_or r.0.live_traces h none) eq
            ∙ get_or-set_self (make_compound_id s key s.current_annotation_id).0.live_traces h
                (some now) none (subst (λ (l : List (Option ℕ)). h < length l) (sym made) inside),
        ap (λ r. length r.0.live_traces) eq
            ∙ length-set (make_compound_id s key s.current_annotation_id).0.live_traces h (some now)
            ∙ ap length made,
        ap (cache (start_trace s key now).0) same.current
            ∙ cache-Same s (start_trace s key now).0 s.current same,
      )

module _ (a : Arith) where
  open a use {Double}

  trace_nanos-none :
      (s : TuningFork Double) (id : ℕ) (dt : ℤ)
      → get (cache s s.current) id ≡ none
      → trace_nanos a s id dt ≡ (s, none)
  unfolding trace_nanos
  trace_nanos-none s id dt e = rw (e, trace_nanos)

  trace_nanos-some :
      (s : TuningFork Double) (id : ℕ) (dt : ℤ) (p : Prong Double)
      → get (cache s s.current) id ≡ some p
      → trace_nanos a s id dt
        ≡ (set_cache s s.current (update (cache s s.current) id (trace a dt)), some (trace a dt p))
  unfolding trace_nanos
  trace_nanos-some s id dt p e = rw (e, trace_nanos)

  set_cache-live_traces :
      (s : TuningFork Double) (w : Which) (c : ProngCache Double)
      → (set_cache s w c).live_traces ≡ s.live_traces
  set_cache-live_traces s first c = refl
  set_cache-live_traces s second c = refl

  -- The prong of the id after the call, which leaves the traces alone.
  Traced : TuningFork Double → ℕ → ℤ → TuningFork Double → Type 0
  Traced s id dt s' =
      (get (cache s' s'.current) id ≡ Option.map (trace a dt) (get (cache s s.current) id))
      × (s'.live_traces ≡ s.live_traces)

  trace_nanos-Traced :
      (s : TuningFork Double) (id : ℕ) (dt : ℤ) → Traced s id dt (trace_nanos a s id dt).0
  unfolding Traced
  trace_nanos-Traced s id dt = elim (Option-cases (get (cache s s.current) id)) [
    | inl e ↦
        subst (λ r. Traced s id dt r.0) (sym (trace_nanos-none s id dt e))
          (e ∙ ap (Option.map (trace a dt)) (sym e), refl)
    | inr (p, e) ↦
        let c = update (cache s s.current) id (trace a dt) in
        subst (λ r. Traced s id dt r.0) (sym (trace_nanos-some s id dt p e))
          (
            ap (λ w. get (cache (set_cache s s.current c) w) id) (set_cache-fields s s.current c).1
                ∙ ap (λ d. get d id) (cache-set_cache_self s s.current c)
                ∙ get-update (cache s s.current) id (trace a dt),
            set_cache-live_traces s s.current c,
          )
  ]

  -- StartTrace followed by EndTrace on its handle, with the handle in the range of the traces: EndTrace
  -- returns ok and records in the prong of the handle, if it has one, exactly one sample, the time between
  -- the two calls. The trace is dead after it, so that a second EndTrace is refused and changes nothing.
  pub end_trace-start_trace :
      (s : TuningFork Double) (key h now now' later : ℕ)
      → (start_trace s key now).1 ≡ some h
      → h < length s.live_traces
      → let s' = (start_trace s key now).0 in
        let s'' = (end_trace a s' h now').0 in
        ((end_trace a s' h now').1 ≡ ok)
        × (get (cache s'' s''.current) h
            ≡ Option.map (trace a (sub_ℕ now' now)) (get (cache s s.current) h))
        × (end_trace a s'' h later ≡ (s'', invalid_trace_handle))
  unfolding Live Traced
  end_trace-start_trace s key h now now' later e inside =
      let s' = (start_trace s key now).0 in
      let (slot, size, same) = start_trace-Live s key now h e inside in
      let inside' = subst (λ (n : ℕ). h < n) (sym size) inside in
      let live = end_trace_live a s' h now' now inside' slot in
      let (sample, kept) = trace_nanos-Traced s' h (sub_ℕ now' now) in
      (
        ap (λ r. r.1) live,
        ap (λ r. get (cache r.0 r.0.current) h) live
            ∙ sample
            ∙ ap (λ c. Option.map (trace a (sub_ℕ now' now)) (get c h)) same,
        end_trace_dead a (end_trace a s' h now').0 h later (
            ap (λ r. get_or r.0.live_traces h none) live
            ∙ get_or-set_self (trace_nanos a s' h (sub_ℕ now' now)).0.live_traces h none none
                (subst (λ (l : List (Option ℕ)). h < length l) (sym kept) inside')),
      )
