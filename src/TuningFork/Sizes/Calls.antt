-- ===== src/TuningFork/Sizes/Calls.antt =====
-- The calls of the application on tuningfork/tuningfork.cpp keep the sizes of its tables.
use native.Mathlib.Decide.{dec_lt}
use gamesdk.Prelude.{
  ℕ, ◌+◌, sym, ◌∙◌, subst, Bool, true, false, Option, none, some, ltb, if◌then◌else◌, length,
  get_or, arith, Option-cases, inl, inr,
}
use gamesdk.Prelude.Int.{ℤ, sub_ℕ}
use gamesdk.Double.{Arith}
use gamesdk.Prong.{Prong, ProngCache, get, update, clear_cache, tick, trace}
use gamesdk.Prong.Cache.{length-clear_cache}
use gamesdk.TuningFork.{
  TuningFork, ErrorCode, Which, other, cache, set_cache, make_compound_id, flush_at, flush,
  should_submit, check_for_submit, tick_nanos, trace_nanos, submit_if_recorded, end_trace,
  frame_tick, frame_delta_time_nanos,
}
use gamesdk.TuningFork.Buffers.{keyed, flush_at_idle, flush_at_busy}
use gamesdk.TuningFork.Reach.{
  Call, call_annotation, call_start, call_end, call_tick, call_delta, call_flush, Reach, done,
  then_call, then_upload, end_trace_out, end_trace_dead, end_trace_live,
}
use gamesdk.TuningFork.Sizes.{
  CacheSized, IsSized, cache-IsSized, set_cache-IsSized, update-CacheSized, keyed-CacheSized,
  compound-IsSized, annotation-IsSized, traced-IsSized, start_trace-IsSized, run_upload-IsSized,
}

module _ (a : Arith) (n size : ℕ) where
  open a use {Double}

  updated-IsSized :
      (s : TuningFork Double) (id : ℕ) (f : Prong Double → Prong Double)
      → IsSized n size s
      → IsSized n size (set_cache s s.current (update (cache s s.current) id f))
  updated-IsSized s id f z =
      set_cache-IsSized n size s s.current (update (cache s s.current) id f) z
        (update-CacheSized n size (cache s s.current) id f (cache-IsSized n size s s.current z))

  tick_nanos-IsSized :
      (s : TuningFork Double) (id t : ℕ) → IsSized n size s → IsSized n size (tick_nanos a s id t).0
  unfolding tick_nanos
  tick_nanos-IsSized s id t z = elim (Option-cases (get (cache s s.current) id)) [
    | inl e ↦ rw (e, tick_nanos) z
    | inr (p, e) ↦ rw (e, tick_nanos) (updated-IsSized s id (tick a t) z)
  ]

  trace_nanos-IsSized :
      (s : TuningFork Double) (id : ℕ) (dt : ℤ)
      → IsSized n size s
      → IsSized n size (trace_nanos a s id dt).0
  unfolding trace_nanos
  trace_nanos-IsSized s id dt z = elim (Option-cases (get (cache s s.current) id)) [
    | inl e ↦ rw (e, trace_nanos) z
    | inr (p, e) ↦ rw (e, trace_nanos) (updated-IsSized s id (trace a dt) z)
  ]

  keyed-IsSized :
      (s : TuningFork Double)
      → IsSized n size s
      → IsSized n size (set_cache s s.current (keyed a s))
  keyed-IsSized s z =
      set_cache-IsSized n size s s.current (keyed a s) z
        (keyed-CacheSized n size (cache s s.current) s.ikeys (cache-IsSized n size s s.current z))

  cleared-CacheSized :
      (c : ProngCache Double) → CacheSized n size c → CacheSized n size (clear_cache a c)
  unfolding clear_cache
  cleared-CacheSized c (m, l) = (m, length-clear_cache a c ∙ l)

  moved-IsSized :
      (s : TuningFork Double) (w : Which) (t : ℕ) (r : Option Which)
      → IsSized n size s
      → IsSized n size (record s { ready = r; current = w; last_submit_time_ns = t })
  moved-IsSized s w t r z = record {
    keys = z.keys;
    room = z.room;
    first_sized = z.first_sized;
    second_sized = z.second_sized;
    traces = z.traces;
  }

  flush_at-IsSized :
      (s : TuningFork Double) (t : ℕ) → IsSized n size s → IsSized n size (flush_at a s t).0
  flush_at-IsSized s t z = elim (Option-cases s.ready) [
    | inl idle ↦
        subst (λ r. IsSized n size r.0) (sym (flush_at_idle a s t idle))
          (moved-IsSized _ (other s.current) t (some s.current) (
            set_cache-IsSized n size (set_cache s s.current (keyed a s)) (other s.current) _
              (keyed-IsSized s z)
              (cleared-CacheSized (cache s (other s.current))
                (cache-IsSized n size s (other s.current) z))))
    | inr (v, busy) ↦
        subst (λ r. IsSized n size r.0) (sym (flush_at_busy a s t v busy))
          (moved-IsSized (set_cache s s.current (keyed a s))
            (set_cache s s.current (keyed a s)).current t (set_cache s s.current (keyed a s)).ready
            (keyed-IsSized s z))
  ]

  either-IsSized :
      (b : Bool) (r r' : TuningFork Double × ErrorCode)
      → IsSized n size r.0
      → IsSized n size r'.0
      → IsSized n size (if b then r else r').0
  either-IsSized true r r' z z' = z
  either-IsSized false r r' z z' = z'

  flush-IsSized :
      (s : TuningFork Double) (t : ℕ) → IsSized n size s → IsSized n size (flush a s t).0
  unfolding flush
  flush-IsSized s t z =
      either-IsSized (ltb (s.last_submit_time_ns + 60000000000) t) _ _ (flush_at-IsSized s t z) z

  check-IsSized :
      (s : TuningFork Double) (t : ℕ) (p : Option (Prong Double))
      → IsSized n size s
      → IsSized n size (check_for_submit a s t p).0
  unfolding check_for_submit
  check-IsSized s t p z = either-IsSized (should_submit a s t p) _ _ (flush_at-IsSized s t z) z

  submit-IsSized :
      (r : TuningFork Double × Option (Prong Double)) (t : ℕ)
      → IsSized n size r.0
      → IsSized n size (submit_if_recorded a r t)
  unfolding submit_if_recorded
  submit-IsSized (s, none) t z = z
  submit-IsSized (s, some p) t z = check-IsSized s t (some p) z

  end_trace-IsSized :
      (s : TuningFork Double) (h now : ℕ)
      → IsSized n size s
      → IsSized n size (end_trace a s h now).0
  end_trace-IsSized s h now z = elim (Option-cases (get_or s.live_traces h none)) [
    | inl dead ↦ subst (λ r. IsSized n size r.0) (sym (end_trace_dead a s h now dead)) z
    | inr (i, live) ↦ elim (dec_lt h (length s.live_traces)) [
      | yes inside ↦
          subst (λ r. IsSized n size r.0) (sym (end_trace_live a s h now i inside live))
            (traced-IsSized n size (trace_nanos a s h (sub_ℕ now i)).0 h none
              (trace_nanos-IsSized s h (sub_ℕ now i) z))
      | no out ↦ subst (λ r. IsSized n size r.0) (sym (end_trace_out a s h now (omega arith))) z
    ]
  ]

  frame_tick-IsSized :
      (s : TuningFork Double) (key t : ℕ)
      → IsSized n size s
      → IsSized n size (frame_tick a s key t).0
  unfolding frame_tick
  frame_tick-IsSized s key t z =
      let made = compound-IsSized n size s key s.current_annotation_id z in
      elim (Option-cases (make_compound_id s key s.current_annotation_id).1) [
        | inl e ↦ rw (e, frame_tick) made
        | inr (id, e) ↦
            rw (e, frame_tick)
              (submit-IsSized _ t
                (tick_nanos-IsSized (make_compound_id s key s.current_annotation_id).0 id t made))
      ]

  frame_delta-IsSized :
      (s : TuningFork Double) (key : ℕ) (dt : ℤ) (now : ℕ)
      → IsSized n size s
      → IsSized n size (frame_delta_time_nanos a s key dt now).0
  unfolding frame_delta_time_nanos
  frame_delta-IsSized s key dt now z =
      let made = compound-IsSized n size s key s.current_annotation_id z in
      elim (Option-cases (make_compound_id s key s.current_annotation_id).1) [
        | inl e ↦ rw (e, frame_delta_time_nanos) made
        | inr (id, e) ↦
            rw (e, frame_delta_time_nanos)
              (submit-IsSized _ now
                (trace_nanos-IsSized (make_compound_id s key s.current_annotation_id).0 id dt made))
      ]

  Call-IsSized : (s s' : TuningFork Double) → IsSized n size s → Call a s s' → IsSized n size s'
  Call-IsSized _ _ z (call_annotation s ann) = annotation-IsSized n size s ann z
  Call-IsSized _ _ z (call_start s key now) = start_trace-IsSized n size s key now z
  Call-IsSized _ _ z (call_end s i now) = end_trace-IsSized s i now z
  Call-IsSized _ _ z (call_tick s key t) = frame_tick-IsSized s key t z
  Call-IsSized _ _ z (call_delta s key dt now) = frame_delta-IsSized s key dt now z
  Call-IsSized _ _ z (call_flush s t) = flush-IsSized s t z

  pub Reach-IsSized :
      (s s' : TuningFork Double) → IsSized n size s → Reach a s s' → IsSized n size s'
  Reach-IsSized _ _ z (done s) = z
  Reach-IsSized _ _ z (then_call s t u r c) = Call-IsSized t u (Reach-IsSized s t z r) c
  Reach-IsSized _ _ z (then_upload s t r) = run_upload-IsSized n size t (Reach-IsSized s t z r)
