-- ===== src/Histogram/Tests.antt =====
-- Runs of the histogram on whole numbers, and its theorems at concrete inputs.
use gamesdk.Prelude.{◌+◌, ◌≡◌, refl, [], ◌∷◌, arith}
use gamesdk.Prelude.Int.{ℤ, pos}
use gamesdk.Double.{whole}
use gamesdk.Histogram.{TfHistogram, new_histogram, add_ranged, increment, bucket_index, add_sample}
use gamesdk.Histogram.Counts.{IsValid, recorded, add_sample-IsValid, new_histogram-IsValid}

-- Ten to forty milliseconds in three buckets, and a histogram that sets its own ranges.
abbrev ranged : TfHistogram ℤ
ranged = record { instrument_key = 1; bucket_min = pos 10; bucket_max = pos 40; n_buckets = 3 }

buckets_of_samples :
    (add_sample whole
      (add_sample whole (add_sample whole (new_histogram whole ranged) (pos 25)) (pos 0))
      (pos 99)).buckets
    ≡ 1 ∷ 0 ∷ 1 ∷ 0 ∷ 1 ∷ []
unfolding add_sample new_histogram add_ranged increment bucket_index
buckets_of_samples = refl

add_sample-IsValid_example :
    IsValid (add_sample whole (new_histogram whole ranged) (pos 25))
    × (recorded (add_sample whole (new_histogram whole ranged) (pos 25))
        ≡ recorded (new_histogram whole ranged) + 1)
add_sample-IsValid_example =
    add_sample-IsValid whole (new_histogram whole ranged) (pos 25)
      (new_histogram-IsValid whole ranged).0 (omega (arith, (new_histogram-IsValid whole ranged).1))
