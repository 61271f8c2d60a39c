-- ===== src/Histogram.antt =====
-- tuningfork/histogram.h and histogram.cpp: a histogram of frame times, with fixed bucket ranges or with
-- ranges that are set once enough samples are there. A sample is a `double` of the parameter `Arith`.
-- `samples_.capacity()` is a field: `reserve(n)` on an empty vector makes it n, and a `push_back` on a full
-- vector doubles it.
pub mod Counts
mod Tests
use gamesdk.Prelude.{
  ℕ, zero, suc, ◌+◌, ◌-◌, ◌*◌, Bool, true, false, ◌&&◌, List, [], ◌∷◌, ◌++◌, ltb, leb, ◌==◌,
  if◌then◌else◌, length, get_or, set, replicate, add_u32, add_u64, max, map,
}
use gamesdk.Prelude.Int.{ℤ, pos, negsuc}
use gamesdk.Double.{Arith}

-- `TFHistogram`; the instrument key -1 is 2^32 - 1 and floats are widened.
pub record TfHistogram (D : Type 0) : Type 0 where
  pub instrument_key : ℕ
  pub bucket_min : D
  pub bucket_max : D
  pub n_buckets : ℕ

pub record Histogram (D : Type 0) : Type 0 where
  pub start_ms : D
  pub end_ms : D
  pub bucket_dt_ms : D
  pub num_buckets : ℕ
  pub buckets : List ℕ
  pub samples : List D
  pub capacity : ℕ
  pub auto_range : Bool
  pub count : ℕ

abbrev pub default_num_buckets : ℕ
default_num_buckets = 30

-- The capacity after a `push_back` on a vector of the given size.
abbrev pub push_capacity : ℕ → ℕ → ℕ
push_capacity size capacity = if ltb size capacity then capacity else max (size + 1) (2 * capacity)

-- The bucket that `Add` increments, once the ranges are set.
unfoldable pub bucket_index : ℕ → ℤ → ℕ
bucket_index num_buckets (negsuc i) = 0
bucket_index num_buckets (pos i) = if leb num_buckets (i + 1) then num_buckets - 1 else i + 1

unfoldable pub increment : List ℕ → ℕ → List ℕ
increment buckets i = set buckets i (add_u32 (get_or buckets i 0) 1)

module _ (a : Arith) where
  open a use {Double, of_ℤ, to_int, add, sub, mul, div, sqrt, lt, eq, tenth}

  abbrev pub of_ℕ : ℕ → Double
  of_ℕ n = of_ℤ (pos n)

  -- The constructor from a `TfHistogram`.
  unfoldable pub new_histogram : TfHistogram Double → Histogram Double
  new_histogram hs =
      let zeros = eq hs.bucket_min (of_ℕ 0) && eq hs.bucket_max (of_ℕ 0) in
      record {
        start_ms = hs.bucket_min;
        end_ms = hs.bucket_max;
        bucket_dt_ms = div (sub hs.bucket_max hs.bucket_min) (of_ℕ hs.n_buckets);
        num_buckets = hs.n_buckets + 2;
        buckets = replicate (hs.n_buckets + 2) 0;
        samples = [];
        capacity = if zeros then hs.n_buckets + 2 else 0;
        auto_range = zeros;
        count = 0;
      }

  -- `Add` where `auto_range_` is false.
  unfoldable pub add_ranged : Histogram Double → Double → Histogram Double
  add_ranged h dt_ms = record h {
    buckets =
        increment h.buckets
          (bucket_index h.num_buckets (to_int (div (sub dt_ms h.start_ms) h.bucket_dt_ms)));
    count = add_u64 h.count 1;
  }

  unfoldable pub add_all : Histogram Double → List Double → Histogram Double
  add_all h [] = h
  add_all h (d ∷ ds) = add_all (add_ranged h d) ds

  unfoldable pub sum_of : Double → List Double → Double
  sum_of acc [] = acc
  sum_of acc (d ∷ ds) = sum_of (add acc d) ds

  unfoldable pub sum_of_squares : Double → List Double → Double
  sum_of_squares acc [] = acc
  sum_of_squares acc (d ∷ ds) = sum_of_squares (add acc (mul d d)) ds

  unfoldable pub mean_of : List Double → Double
  mean_of ds = div (sum_of (of_ℕ 0) ds) (of_ℕ (length ds))

  unfoldable pub stddev_of : List Double → Double
  stddev_of ds =
      let var =
        sub (div (sum_of_squares (of_ℕ 0) ds) (of_ℕ (length ds))) (mul (mean_of ds) (mean_of ds)) in
      sqrt (if lt var (of_ℕ 0) then of_ℕ 0 else var)

  -- The ranges that `CalcBucketsFromSamples` sets: three standard deviations to each side of the mean,
  -- or buckets of the minimal width round it.
  unfoldable pub set_range : Histogram Double → Histogram Double
  set_range h =
      let mean = mean_of h.samples in
      let spread = mul (of_ℕ 3) (stddev_of h.samples) in
      let low = sub mean spread in
      let start = if lt low (of_ℕ 0) then of_ℕ 0 else low in
      let end = add mean spread in
      let width = div (sub end start) (of_ℕ (h.num_buckets - 2)) in
      let w = mul tenth (of_ℕ (h.num_buckets - 2)) in
      let narrow = lt width tenth in
      record h {
        start_ms = if narrow then sub mean (div w (of_ℕ 2)) else start;
        end_ms = if narrow then add mean (div w (of_ℕ 2)) else end;
        bucket_dt_ms = if narrow then tenth else width;
        auto_range = false;
      }

  -- `auto_range_` is false when the samples are added again.
  unfoldable pub calc_buckets_from_samples : Histogram Double → Histogram Double
  calc_buckets_from_samples h = add_all (set_range h) h.samples

  unfoldable pub add_sample : Histogram Double → Double → Histogram Double
  add_sample h dt_ms =
      let pushed = record h {
        samples = h.samples ++ dt_ms ∷ [];
        capacity = push_capacity (length h.samples) h.capacity;
      } in
      if h.auto_range
      then (if length h.samples + 1 == push_capacity (length h.samples) h.capacity
          then calc_buckets_from_samples pushed
          else pushed)
      else add_ranged h dt_ms

  unfoldable pub clear : Histogram Double → Bool → Histogram Double
  clear h autorange = record h {
    buckets = map (λ n. 0) h.buckets;
    samples = [];
    auto_range = autorange;
    count = 0;
  }
