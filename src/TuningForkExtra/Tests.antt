-- ===== src/TuningForkExtra/Tests.antt =====
-- Runs of the wrapper on whole numbers and of the download, and their theorems at concrete inputs.
use mathlib.Core.Option
use gamesdk.Prelude.{
  ℕ, ◌≡◌, refl, true, Option, none, some, List, [], ◌∷◌, arith, ◌==◌, if◌then◌else◌,
}
use gamesdk.Prelude.Int.{ℤ, pos}
use gamesdk.Double.{whole}
use gamesdk.Histogram.{TfHistogram}
use gamesdk.Prong.{ProngCache, new_prong}
use gamesdk.TuningFork.{
  TuningFork, Settings, tick_based, first, find_key, get_or_create_instrument_key_index,
  make_compound_id, start_trace, ok,
}
use gamesdk.TuningForkExtra.{TraceWrapper, init_with_swappy, tftick_swappy_swap_time}
use gamesdk.TuningForkExtra.Download.{Event, download}
use gamesdk.TuningForkExtra.Backoff.{Told, download_ends}

abbrev ranged : TfHistogram ℤ
ranged = record { instrument_key = 64003; bucket_min = pos 10; bucket_max = pos 40; n_buckets = 3 }

abbrev two : ProngCache ℤ
two = record {
  prongs = new_prong whole 0 [] ranged ∷ new_prong whole 0 [] ranged ∷ [];
  max_num_instrumentation_keys = 2;
}

abbrev choices : Settings ℤ
choices = record {
  method = tick_based;
  intervalms_or_count = 3;
  max_instrumentation_keys = 2;
  annotation_enum_size = [];
  histograms = ranged ∷ [];
}

-- No annotation; the key of system CPU ticks may have been used before.
abbrev with_keys : List ℕ → ℕ → TuningFork ℤ
with_keys keys next = record {
  settings = choices;
  cache_0 = two;
  cache_1 = two;
  current = first;
  last_submit_time_ns = 1000;
  live_traces = none ∷ none ∷ [];
  ready = none;
  current_annotation = [];
  annotation_radix_mult = [];
  current_annotation_id = 0;
  ikeys = keys;
  next_ikey = next;
}

abbrev ticked : TuningFork ℤ
ticked = with_keys (64000 ∷ 0 ∷ []) 1

abbrev fresh : TuningFork ℤ
fresh = with_keys (0 ∷ 0 ∷ []) 0

abbrev wrapper : TuningFork ℤ → TraceWrapper ℤ
wrapper s = record {
  impl = some s;
  wait_trace_handle = 0;
  swap_trace_handle = 0;
  frame_callbacks = 0;
}

initialised : init_with_swappy (some ticked) ok ≡ ((wrapper ticked, true), ok)
unfolding init_with_swappy
initialised = refl

started_fresh : (start_trace fresh tftick_swappy_swap_time 5000).1 ≡ some 0
unfolding start_trace make_compound_id get_or_create_instrument_key_index find_key
started_fresh = refl

-- The third attempt gives parameters.
abbrev third : ℕ → Option (List ℕ)
third n = if n == 2 then some (7 ∷ []) else none

download_ends_example :
    (events : List Event) × (download third (λ n. 3) (9 ∷ []) 100 101 10 ≡ some events)
    × Told third (λ n. 3) (9 ∷ []) 100 events
download_ends_example = download_ends third (λ n. 3) (9 ∷ []) 100 10 (omega arith)
