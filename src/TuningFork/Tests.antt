-- ===== src/TuningFork/Tests.antt =====
-- Runs of TuningForkImpl on whole numbers, and its theorems at concrete inputs.
use mathlib.Core.Option
use mathlib.Core.Logic.{◌≢◌}
use gamesdk.Prelude.{
  ◌*◌, ◌/◌, ◌<◌, ◌≡◌, refl, some, none, [], ◌∷◌, length, get_elem?, arith, inr, ◌⊎◌,
}
use gamesdk.Prelude.Int.{ℤ, pos, sub_ℕ}
use gamesdk.Double.{whole}
use gamesdk.Histogram.{TfHistogram}
use gamesdk.Histogram.Counts.{new_histogram-IsValid}
use gamesdk.Prong.{
  Prong, ProngCache, set_instrument_key, set_instrument_keys, get, new_prong, trace,
}
use gamesdk.Prong.Samples.{IsValidCache}
use gamesdk.TuningFork.{
  TuningFork, Settings, tick_based, ok, upload_too_frequent, previous_upload_pending,
  invalid_trace_handle, Which, first, second, cache, find_key, get_or_create_instrument_key_index,
  make_compound_id, start_trace, run_upload, flush, end_trace, frame_tick,
}
use gamesdk.TuningFork.Init.{new_tuning_fork}
use gamesdk.TuningFork.Keys.{Holds, key_index-Holds}
use gamesdk.TuningFork.Buffers.{IsApart}
use gamesdk.TuningFork.Reach.{
  no_call, one_more, call_tick, call_flush, done, then_call, run_upload-Calls,
  new_tuning_fork-IsApart,
}
use gamesdk.TuningFork.Submit.{HandsOver, histograms_of, flush-HandsOver, flush-keeps_samples}
use gamesdk.TuningFork.Traces.{end_trace-start_trace}
use gamesdk.TuningFork.Annotations.{set_instrument_keys-make_compound_id}

abbrev ranged : TfHistogram ℤ
ranged = record { instrument_key = 64000; bucket_min = pos 10; bucket_max = pos 40; n_buckets = 3 }

abbrev blank_prong : Prong ℤ
blank_prong = new_prong whole 0 [] ranged

abbrev four : ProngCache ℤ
four = record {
  prongs = blank_prong ∷ blank_prong ∷ blank_prong ∷ blank_prong ∷ [];
  max_num_instrumentation_keys = 2;
}

four-IsValid : IsValidCache four
unfolding new_prong
four-IsValid = let v = (new_histogram-IsValid whole ranged).0 in (v, (v, (v, (v, tt))))

-- One enum with one value, so two annotations, and two instrument keys.
abbrev choices : Settings ℤ
choices = record {
  method = tick_based;
  intervalms_or_count = 3;
  max_instrumentation_keys = 2;
  annotation_enum_size = 1 ∷ [];
  histograms = ranged ∷ [];
}

abbrev fork : TuningFork ℤ
fork = record {
  settings = choices;
  cache_0 = four;
  cache_1 = four;
  current = first;
  last_submit_time_ns = 1000;
  live_traces = none ∷ none ∷ none ∷ none ∷ [];
  ready = none;
  current_annotation = [];
  annotation_radix_mult = 2 ∷ [];
  current_annotation_id = 0;
  ikeys = 64000 ∷ 0 ∷ [];
  next_ikey = 1;
}

-- The second cache waits for the upload thread.
abbrev waiting : TuningFork ℤ
waiting = record fork { ready = some second }

run_upload-Calls_example :
    (run_upload (frame_tick whole waiting 64000 5000).0).1 ≡ some (cache waiting second)
run_upload-Calls_example =
    run_upload-Calls whole waiting (frame_tick whole waiting 64000 5000).0 second (inr refl) refl (
      one_more waiting waiting (frame_tick whole waiting 64000 5000).0 (no_call waiting)
        (call_tick waiting 64000 5000))

new_tuning_fork-IsApart_example :
    IsApart (flush whole (new_tuning_fork whole choices 7) 70000000000).0
new_tuning_fork-IsApart_example =
    new_tuning_fork-IsApart whole choices 7
      (flush whole (new_tuning_fork whole choices 7) 70000000000).0
      (then_call (new_tuning_fork whole choices 7) (new_tuning_fork whole choices 7)
        (flush whole (new_tuning_fork whole choices 7) 70000000000).0
        (done (new_tuning_fork whole choices 7))
        (call_flush (new_tuning_fork whole choices 7) 70000000000))

flush-HandsOver_example :
    ((flush whole fork 70000000000).1 ≡ ok)
    × HandsOver whole fork 70000000000 (flush whole fork 70000000000).0
flush-HandsOver_example = flush-HandsOver whole fork 70000000000 four-IsValid refl (omega arith)

too_early : (flush whole fork 2000).1 ≡ upload_too_frequent
unfolding flush
too_early = refl

early-fails : (flush whole fork 2000).1 ≢ ok
early-fails e = cc too_early

flush-keeps_samples_example :
    (((flush whole fork 2000).1 ≡ upload_too_frequent)
      ⊎ ((flush whole fork 2000).1 ≡ previous_upload_pending))
    × ((flush whole fork 2000).0.current ≡ first)
    × ((v : Which)
        → histograms_of (cache (flush whole fork 2000).0 v) ≡ histograms_of (cache fork v))
flush-keeps_samples_example = flush-keeps_samples whole fork 2000 early-fails

-- A second key is added behind the first.
abbrev two_keys : TuningFork ℤ
two_keys = record fork { ikeys = 64000 ∷ 64001 ∷ []; next_ikey = 2 }

second_key : get_or_create_instrument_key_index fork 64001 ≡ (two_keys, some 1)
unfolding get_or_create_instrument_key_index find_key
second_key = refl

key_index-Holds_example : Holds fork 64001 two_keys 1
key_index-Holds_example = key_index-Holds fork two_keys 64001 1 (omega arith) second_key

started : (start_trace fork 64000 5000).1 ≡ some 0
unfolding start_trace make_compound_id get_or_create_instrument_key_index find_key
started = refl

end_trace-start_trace_example :
    let s' = (start_trace fork 64000 5000).0 in
    let s'' = (end_trace whole s' 0 9000).0 in
    ((end_trace whole s' 0 9000).1 ≡ ok)
    × (get (cache s'' s''.current) 0
        ≡ Option.map (trace whole (sub_ℕ 9000 5000)) (get (cache fork first) 0))
    × (end_trace whole s'' 0 9500 ≡ (s'', invalid_trace_handle))
end_trace-start_trace_example =
    end_trace-start_trace whole fork 64000 0 5000 9000 9500 started (omega arith)

third_id : make_compound_id fork 64001 (1 * 2) ≡ (two_keys, some 3)
unfolding make_compound_id get_or_create_instrument_key_index find_key
third_id = refl

set_instrument_keys-make_compound_id_example :
    (3 / 2 ≡ 1)
    × (3 < length four.prongs)
    × (get_elem? (set_instrument_keys four (64000 ∷ 64001 ∷ [])).prongs 3
        ≡ Option.map (set_instrument_key 64001) (get_elem? four.prongs 3))
set_instrument_keys-make_compound_id_example =
    set_instrument_keys-make_compound_id fork two_keys four 64001 1 2 3 (omega arith) refl refl
      (omega arith) (omega arith) third_id
