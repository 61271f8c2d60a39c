-- ===== src/TuningFork/Init.antt =====
-- The construction of a TuningForkImpl, `CopySettings` and `Init` of tuningfork/tuningfork.cpp.
use mathlib.Core.Option
use gamesdk.Prelude.{
  ℕ, zero, suc, ◌+◌, ◌-◌, ◌/◌, ◌%◌, ◌^◌, ◌||◌, none, List, [], ◌∷◌, ◌++◌, leb, ◌==◌, if◌then◌else◌,
  length, get_or, replicate, mul_u32,
}
use gamesdk.Double.{Arith}
use gamesdk.Annotation.{set_up_radixes}
use gamesdk.Annotation
use gamesdk.Histogram.{TfHistogram, default_num_buckets, of_ℕ}
use gamesdk.Prong.{ProngCache, new_cache}
use gamesdk.TuningFork.{
  TuningFork, Settings, Submission, tick_based, time_based, first,
  get_or_create_instrument_key_index,
}

-- `TFAggregationStrategy::method` as an integer: TICK_BASED is 2, anything else is TIME_BASED.
unfoldable pub copy_method : ℕ → Submission
copy_method m = if m == 2 then tick_based else time_based

-- `CopySettings`: the counted arrays of the C struct are lists.
unfoldable pub copy_settings : {D : Type 0} → ℕ → ℕ → ℕ → List ℕ → List (TfHistogram D) → Settings D
unfolding copy_method
copy_settings method interval max_keys sizes histograms = record {
  method = copy_method method;
  intervalms_or_count = interval;
  max_instrumentation_keys = max_keys;
  annotation_enum_size = sizes;
  histograms = histograms;
}

-- `annotation_radix_mult_.back()`; an empty vector, which has none, gives 0.
abbrev pub back : List ℕ → ℕ
back [] = 0
back (x ∷ []) = x
back (x ∷ y ∷ xs) = back (y ∷ xs)

-- `max_num_prongs_`; the product of an int and a uint32_t is a uint32_t.
unfoldable pub max_num_prongs : ℕ → List ℕ → ℕ
max_num_prongs max_ikeys radix_mult =
    if length radix_mult == 0 || max_ikeys == 0 then 0 else mul_u32 max_ikeys (back radix_mult)

-- `SerializeAnnotationId` of the class, for the id of a prong.
unfoldable pub serialize_id : ℕ → List ℕ → ℕ → List ℕ
serialize_id max_ikeys radix_mult id =
    Option.get_or (Annotation.serialize (id / max_ikeys) [] radix_mult) []

module _ (a : Arith) where
  open a use {Double}

  abbrev pub default_histogram : TfHistogram Double
  default_histogram = record {
    instrument_key = 2 ^ 32 - 1;
    bucket_min = of_ℕ a 10;
    bucket_max = of_ℕ a 40;
    n_buckets = default_num_buckets;
  }

  -- The loop of `InitHistogramSettings` from the index `i` on, with `n` keys left. The key of a histogram is
  -- converted to a uint16_t.
  unfoldable pub init_histograms : ℕ → ℕ → TuningFork Double → TuningFork Double
  init_histograms zero i s = s
  init_histograms (suc n) i s =
      let key = (get_or s.settings.histograms i default_histogram).instrument_key % 2 ^ 16 in
      let pushed = record s {
        settings = record s.settings {
          histograms = s.settings.histograms ++ default_histogram ∷ [];
        };
      } in
      init_histograms n (i + 1) (
        if leb (length s.settings.histograms) i
        then pushed
        else (get_or_create_instrument_key_index s key).0)

  abbrev pub no_cache : ProngCache Double
  no_cache = record { prongs = []; max_num_instrumentation_keys = 0 }

  -- The members as the initialiser list leaves them.
  abbrev pub blank : Settings Double → ℕ → TuningFork Double
  blank settings now = record {
    settings = settings;
    cache_0 = no_cache;
    cache_1 = no_cache;
    current = first;
    last_submit_time_ns = now;
    live_traces = [];
    ready = none;
    current_annotation = [];
    annotation_radix_mult = [];
    current_annotation_id = 0;
    ikeys = replicate settings.max_instrumentation_keys 0;
    next_ikey = 0;
  }

  -- The constructor's body.
  unfoldable pub new_tuning_fork : Settings Double → ℕ → TuningFork Double
  unfolding init_histograms
  new_tuning_fork settings now =
      let s = init_histograms settings.max_instrumentation_keys 0 (blank settings now) in
      let radix_mult = set_up_radixes settings.annotation_enum_size in
      let size = max_num_prongs settings.max_instrumentation_keys radix_mult in
      let c =
        new_cache a settings.max_instrumentation_keys s.settings.histograms default_histogram
          (serialize_id settings.max_instrumentation_keys radix_mult) size in
      record s {
        cache_0 = c;
        cache_1 = c;
        live_traces = replicate size none;
        annotation_radix_mult = radix_mult;
      }
