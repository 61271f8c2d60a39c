-- ===== src/TuningFork/Sizes.antt =====
-- The sizes of the tables and caches of tuningfork/tuningfork.cpp, which no call changes.
pub mod Calls
pub mod Built
use mathlib.Core.Option
use native.Mathlib.Decide.{dec_lt}
use gamesdk.Prelude.{
  ℕ, zero, suc, ◌+◌, ◌%◌, ◌^◌, ◌≤◌, ◌<◌, ◌≡◌, refl, sym, ap, ◌∙◌, subst, Bool, true, false, Option,
  none, some, List, [], ◌∷◌, ltb, leb, if◌then◌else◌, length, get_or, set, length-set,
  length-replicate, replicate, arith, Bool-cases, Option-cases, inl, inr, ◌⊎◌,
}
use gamesdk.Prelude.Int.{ℤ, sub_ℕ}
use gamesdk.Double.{Arith}
use gamesdk.Prong.{Prong, ProngCache, get, update, set_instrument_keys, clear_cache, tick, trace}
use gamesdk.Prong.Cache.{length-set_instrument_keys, length-update, length-clear_cache}
use gamesdk.TuningFork.{
  TuningFork, Settings, ErrorCode, Which, first, second, other, cache, set_cache,
  get_or_create_instrument_key_index, make_compound_id, set_current_annotation, start_trace,
  run_upload, flush_at, flush, should_submit, check_for_submit, tick_nanos, trace_nanos,
  submit_if_recorded, end_trace, frame_tick, frame_delta_time_nanos,
}
use gamesdk.Annotation.{set_up_radixes}
use gamesdk.TuningFork.Init.{
  new_tuning_fork, init_histograms, blank, max_num_prongs, serialize_id, default_histogram,
}
use gamesdk.Prong.Samples.{length-new_cache}
use gamesdk.TuningFork.Keys.{HasRoom}
use gamesdk.TuningFork.Buffers.{keyed, handed_over, refused, flush_at_idle, flush_at_busy}
use gamesdk.TuningFork.Reach.{
  Call, call_annotation, call_start, call_end, call_tick, call_delta, call_flush, Reach, done,
  then_call, then_upload, ended, end_trace_out, end_trace_dead, end_trace_live,
}

abbrev pub CacheSized : {D : Type 0} → ℕ → ℕ → ProngCache D → Type 0
CacheSized n size c = (c.max_num_instrumentation_keys ≡ n) × (length c.prongs ≡ size)

-- `n` instrument keys, and `size` prongs in each cache and traces.
pub record IsSized {D : Type 0} (n size : ℕ) (s : TuningFork D) : Type 0 where
  pub keys : length s.ikeys ≡ n
  pub room : s.next_ikey ≤ n
  pub first_sized : CacheSized n size s.cache_0
  pub second_sized : CacheSized n size s.cache_1
  pub traces : length s.live_traces ≡ size

module _ {D : Type 0} (n size : ℕ) where
  cache-IsSized : (s : TuningFork D) (w : Which) → IsSized n size s → CacheSized n size (cache s w)
  cache-IsSized s first z = z.first_sized
  cache-IsSized s second z = z.second_sized

  set_cache-IsSized :
      (s : TuningFork D) (w : Which) (c : ProngCache D)
      → IsSized n size s
      → CacheSized n size c
      → IsSized n size (set_cache s w c)
  set_cache-IsSized s first c z v = record {
    keys = z.keys;
    room = z.room;
    first_sized = v;
    second_sized = z.second_sized;
    traces = z.traces;
  }
  set_cache-IsSized s second c z v = record {
    keys = z.keys;
    room = z.room;
    first_sized = z.first_sized;
    second_sized = v;
    traces = z.traces;
  }

  update-CacheSized :
      (c : ProngCache D) (id : ℕ) (f : Prong D → Prong D)
      → CacheSized n size c
      → CacheSized n size (update c id f)
  unfolding update
  update-CacheSized c id f (m, l) = (m, length-update c id f ∙ l)

  keyed-CacheSized :
      (c : ProngCache D) (keys : List ℕ)
      → CacheSized n size c
      → CacheSized n size (set_instrument_keys c keys)
  unfolding set_instrument_keys
  keyed-CacheSized c keys (m, l) = (m, length-set_instrument_keys c keys ∙ l)

  key_index-IsSized :
      (s : TuningFork D) (k : ℕ)
      → IsSized n size s
      → IsSized n size (get_or_create_instrument_key_index s k).0
  unfolding get_or_create_instrument_key_index
  key_index-IsSized s k z = record {
    keys = ground (arith, z.keys, length-set s.ikeys s.next_ikey k);
    room = ground (arith, z.keys, z.room);
    first_sized = (ground (arith, z.first_sized.0), ground (arith, z.first_sized.1));
    second_sized = (ground (arith, z.second_sized.0), ground (arith, z.second_sized.1));
    traces = ground (arith, z.traces);
  }

  compound-IsSized :
      (s : TuningFork D) (k id : ℕ) → IsSized n size s → IsSized n size (make_compound_id s k id).0
  unfolding make_compound_id
  compound-IsSized s k id z = key_index-IsSized s k z

  annotation-IsSized :
      (s : TuningFork D) (ann : List ℕ)
      → IsSized n size s
      → IsSized n size (set_current_annotation s ann).0
  unfolding set_current_annotation
  annotation-IsSized s ann z = record {
    keys = ground (arith, z.keys);
    room = ground (arith, z.room);
    first_sized = (ground (arith, z.first_sized.0), ground (arith, z.first_sized.1));
    second_sized = (ground (arith, z.second_sized.0), ground (arith, z.second_sized.1));
    traces = ground (arith, z.traces);
  }

  traced-IsSized :
      (s : TuningFork D) (h : ℕ) (x : Option ℕ)
      → IsSized n size s
      → IsSized n size (record s { live_traces = set s.live_traces h x })
  traced-IsSized s h x z = record {
    keys = z.keys;
    room = z.room;
    first_sized = z.first_sized;
    second_sized = z.second_sized;
    traces = length-set s.live_traces h x ∙ z.traces;
  }

  start_trace-IsSized :
      (s : TuningFork D) (key now : ℕ) → IsSized n size s → IsSized n size (start_trace s key now).0
  unfolding start_trace
  start_trace-IsSized s key now z =
      let made = compound-IsSized s key s.current_annotation_id z in
      elim (Option-cases (make_compound_id s key s.current_annotation_id).1) [
        | inl e ↦ rw (e, start_trace) made
        | inr (h, e) ↦
            rw (e, start_trace)
              (traced-IsSized (make_compound_id s key s.current_annotation_id).0 h (some now) made)
      ]

  run_upload-IsSized : (s : TuningFork D) → IsSized n size s → IsSized n size (run_upload s).0
  unfolding run_upload
  run_upload-IsSized s z = record {
    keys = ground (arith, z.keys);
    room = ground (arith, z.room);
    first_sized = (ground (arith, z.first_sized.0), ground (arith, z.first_sized.1));
    second_sized = (ground (arith, z.second_sized.0), ground (arith, z.second_sized.1));
    traces = ground (arith, z.traces);
  }
