-- ===== src/TuningFork/Reach.antt =====
-- The application's calls of TuningForkImpl and the rounds of UploadThread::Run, in any order, as a step
-- relation (tuningfork/tuningfork.cpp, tuningfork/uploadthread.cpp).
use native.Mathlib.Decide.{dec_lt}
use gamesdk.Prelude.{
  ℕ, zero, suc, ◌+◌, ◌%◌, ◌^◌, ◌≤◌, ◌<◌, ◌≡◌, refl, sym, ap, subst, Option, none, some, List,
  length, get_or, set, arith, Option-cases, inl, inr,
}
use gamesdk.Prelude.Int.{ℤ, sub_ℕ}
use gamesdk.Double.{Arith}
use gamesdk.Prong.{Prong}
use gamesdk.TuningFork.{
  TuningFork, invalid_trace_handle, ok, Settings, Which, cache, make_compound_id,
  set_current_annotation, start_trace, run_upload, flush, tick_nanos, trace_nanos,
  submit_if_recorded, end_trace, frame_tick, frame_delta_time_nanos,
}
use gamesdk.TuningFork.Init.{new_tuning_fork, init_histograms, default_histogram, blank}
use gamesdk.TuningFork.Buffers.{
  IsApart, Isolated, Isolated-refl, Isolated-trans, Same-Isolated, Fills-Isolated,
  make_compound_id-Same, set_current_annotation-Same, start_trace-Same, tick_nanos-Fills,
  trace_nanos-Fills, flush-Isolated, submit_if_recorded-Isolated, key_index-Same,
}

module _ (a : Arith) where
  open a use {Double}

  -- A call of the application, with its arguments and the time.
  pub data Call : TuningFork Double → TuningFork Double → Type 0 where
    call_annotation :
        (s : TuningFork Double) (ann : List ℕ) → Call s (set_current_annotation s ann).0
    call_start : (s : TuningFork Double) (key now : ℕ) → Call s (start_trace s key now).0
    call_end : (s : TuningFork Double) (h now : ℕ) → Call s (end_trace a s h now).0
    call_tick : (s : TuningFork Double) (key t : ℕ) → Call s (frame_tick a s key t).0
    call_delta :
        (s : TuningFork Double) (key : ℕ) (dt : ℤ) (now : ℕ)
        → Call s (frame_delta_time_nanos a s key dt now).0
    call_flush : (s : TuningFork Double) (t : ℕ) → Call s (flush a s t).0

  -- Calls and rounds of the upload thread.
  pub data Reach : TuningFork Double → TuningFork Double → Type 0 where
    done : (s : TuningFork Double) → Reach s s
    then_call : (s t u : TuningFork Double) → Reach s t → Call t u → Reach s u
    then_upload : (s t : TuningFork Double) → Reach s t → Reach s (run_upload t).0

  -- Calls without a round of the upload thread between them.
  pub data Calls : TuningFork Double → TuningFork Double → Type 0 where
    no_call : (s : TuningFork Double) → Calls s s
    one_more : (s t u : TuningFork Double) → Calls s t → Call t u → Calls s u

  trace_ended-Isolated :
      (s s' : TuningFork Double) (l : List (Option ℕ))
      → Isolated s s'
      → Isolated s (record s' { live_traces = l })
  trace_ended-Isolated s s' l h =
      Isolated-trans s s' (record s' { live_traces = l }) h
        (Same-Isolated s' (record s' { live_traces = l })
          (record { cache_0 = refl; cache_1 = refl; current = refl; ready = refl }) h.0)

  record_and_submit-Isolated :
      (s s' : TuningFork Double) (r : TuningFork Double × Option (Prong Double)) (t : ℕ)
      → Isolated s s'
      → Isolated s' r.0
      → Isolated s (submit_if_recorded a r t)
  record_and_submit-Isolated s s' r t h g =
      Isolated-trans s s' (submit_if_recorded a r t) h
        (Isolated-trans s' r.0 (submit_if_recorded a r t) g (submit_if_recorded-Isolated a r t g.0))

  pub end_trace_out :
      (s : TuningFork Double) (h now : ℕ)
      → length s.live_traces ≤ h
      → end_trace a s h now ≡ (s, invalid_trace_handle)
  unfolding end_trace
  end_trace_out s h now out = ground arith

  pub end_trace_dead :
      (s : TuningFork Double) (h now : ℕ)
      → get_or s.live_traces h none ≡ none
      → end_trace a s h now ≡ (s, invalid_trace_handle)
  unfolding end_trace
  end_trace_dead s h now dead = ground (arith, dead)

  abbrev pub ended : TuningFork Double → ℕ → ℕ → ℕ → TuningFork Double
  ended s h now i =
      let s' = (trace_nanos a s h (sub_ℕ now i)).0 in
      record s' { live_traces = set s'.live_traces h none }

  pub end_trace_live :
      (s : TuningFork Double) (h now i : ℕ)
      → h < length s.live_traces
      → get_or s.live_traces h none ≡ some i
      → end_trace a s h now ≡ (ended s h now i, ok)
  unfolding end_trace
  end_trace_live s h now i inside live = rw (live, end_trace) (ground arith)

  end_trace-Isolated :
      (s : TuningFork Double) (h now : ℕ) → IsApart s → Isolated s (end_trace a s h now).0
  end_trace-Isolated s h now apart = elim (Option-cases (get_or s.live_traces h none)) [
    | inl dead ↦
        subst (λ r. Isolated s r.0) (sym (end_trace_dead s h now dead)) (Isolated-refl s apart)
    | inr (i, live) ↦ elim (dec_lt h (length s.live_traces)) [
      | yes inside ↦
          subst (λ r. Isolated s r.0) (sym (end_trace_live s h now i inside live))
            (trace_ended-Isolated s (trace_nanos a s h (sub_ℕ now i)).0
              (ended s h now i).live_traces
              (Fills-Isolated a s _ apart (trace_nanos-Fills a s h (sub_ℕ now i))))
      | no out ↦
          subst (λ r. Isolated s r.0) (sym (end_trace_out s h now (omega arith)))
            (Isolated-refl s apart)
    ]
  ]

  made-Isolated :
      (s : TuningFork Double) (key id : ℕ) → IsApart s → Isolated s (make_compound_id s key id).0
  made-Isolated s key id = Same-Isolated s _ (make_compound_id-Same s key id)

  frame_tick-Isolated :
      (s : TuningFork Double) (key t : ℕ) → IsApart s → Isolated s (frame_tick a s key t).0
  unfolding frame_tick
  frame_tick-Isolated s key t apart =
      let made = made-Isolated s key s.current_annotation_id apart in
      elim (Option-cases (make_compound_id s key s.current_annotation_id).1) [
        | inl e ↦
            subst (Isolated s) {x = (make_compound_id s key s.current_annotation_id).0}
              {y = (frame_tick a s key t).0} (sym (rw (e, frame_tick))) made
        | inr (id, e) ↦
            subst (Isolated s)
              {x = submit_if_recorded a
                (tick_nanos a (make_compound_id s key s.current_annotation_id).0 id t) t}
              {y = (frame_tick a s key t).0} (sym (rw (e, frame_tick)))
              (record_and_submit-Isolated s (make_compound_id s key s.current_annotation_id).0 _ t
                made
                (Fills-Isolated a _ _ made.0
                  (tick_nanos-Fills a (make_compound_id s key s.current_annotation_id).0 id t)))
      ]

  frame_delta-Isolated :
      (s : TuningFork Double) (key : ℕ) (dt : ℤ) (now : ℕ)
      → IsApart s
      → Isolated s (frame_delta_time_nanos a s key dt now).0
  unfolding frame_delta_time_nanos
  frame_delta-Isolated s key dt now apart =
      let made = made-Isolated s key s.current_annotation_id apart in
      elim (Option-cases (make_compound_id s key s.current_annotation_id).1) [
        | inl e ↦
            subst (Isolated s) {x = (make_compound_id s key s.current_annotation_id).0}
              {y = (frame_delta_time_nanos a s key dt now).0} (sym (rw (e, frame_delta_time_nanos)))
              made
        | inr (id, e) ↦
            subst (Isolated s)
              {x = submit_if_recorded a
                (trace_nanos a (make_compound_id s key s.current_annotation_id).0 id dt) now}
              {y = (frame_delta_time_nanos a s key dt now).0} (sym (rw (e, frame_delta_time_nanos)))
              (record_and_submit-Isolated s (make_compound_id s key s.current_annotation_id).0 _ now
                made
                (Fills-Isolated a _ _ made.0
                  (trace_nanos-Fills a (make_compound_id s key s.current_annotation_id).0 id dt)))
      ]

  Call-Isolated : (s s' : TuningFork Double) → IsApart s → Call s s' → Isolated s s'
  Call-Isolated _ _ h (call_annotation s ann) =
      Same-Isolated s _ (set_current_annotation-Same s ann) h
  Call-Isolated _ _ h (call_start s key now) = Same-Isolated s _ (start_trace-Same s key now) h
  Call-Isolated _ _ h (call_end s i now) = end_trace-Isolated s i now h
  Call-Isolated _ _ h (call_tick s key t) = frame_tick-Isolated s key t h
  Call-Isolated _ _ h (call_delta s key dt now) = frame_delta-Isolated s key dt now h
  Call-Isolated _ _ h (call_flush s t) = flush-Isolated a s t h

  Calls-Isolated : (s s' : TuningFork Double) → IsApart s → Calls s s' → Isolated s s'
  Calls-Isolated _ _ h (no_call s) = Isolated-refl s h
  Calls-Isolated _ _ h (one_more s t u r c) =
      let l = Calls-Isolated s t h r in Isolated-trans s t u l (Call-Isolated t u l.0 c)

  -- While a cache waits for the upload thread, and is not the one that is being filled, the application's
  -- calls, in any number and order, do not change what the next round of the upload thread takes: that cache
  -- as it was when the calls began.
  pub run_upload-Calls :
      (s s' : TuningFork Double) (w : Which)
      → IsApart s
      → s.ready ≡ some w
      → Calls s s'
      → (run_upload s').1 ≡ some (cache s w)
  unfolding run_upload
  run_upload-Calls s s' w h e r =
      let (e', c) = (Calls-Isolated s s' h r).1 w e in rw (e', run_upload) (ap some c)

  run_upload-idle : (s : TuningFork Double) → (run_upload s).0.ready ≡ none
  unfolding run_upload
  run_upload-idle s = ground arith

  init_histograms-idle :
      (n i : ℕ) (s : TuningFork Double) → s.ready ≡ none → (init_histograms a n i s).ready ≡ none
  unfolding init_histograms
  init_histograms-idle zero i s h = h
  init_histograms-idle (suc n) i s h =
      let key = (get_or s.settings.histograms i (default_histogram a)).instrument_key % 2 ^ 16 in
      init_histograms-idle n (i + 1) _ (ground (arith, (key_index-Same s key).ready))

  Reach-IsApart : (s s' : TuningFork Double) → IsApart s → Reach s s' → IsApart s'
  Reach-IsApart _ _ h (done s) = h
  Reach-IsApart _ _ h (then_call s t u r c) = (Call-Isolated t u (Reach-IsApart s t h r) c).0
  Reach-IsApart _ _ h (then_upload s t r) = inl (run_upload-idle t)

  -- From its construction on, whatever the application calls and whenever the upload thread runs, the cache
  -- that waits for the upload thread, if any, is never the one that is being filled.
  pub new_tuning_fork-IsApart :
      (settings : Settings Double) (now : ℕ) (s : TuningFork Double)
      → Reach (new_tuning_fork a settings now) s
      → IsApart s
  unfolding new_tuning_fork
  new_tuning_fork-IsApart settings now s r =
      Reach-IsApart (new_tuning_fork a settings now) s
        (inl (init_histograms-idle settings.max_instrumentation_keys 0 (blank a settings now) refl))
        r
