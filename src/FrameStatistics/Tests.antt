-- ===== src/FrameStatistics/Tests.antt =====
-- The theorem of the frame statistics at a concrete input.
use mathlib.Core.Option
use mathlib.Core.Logic.{◌≢◌}
use gamesdk.Prelude.{◌-◌, ◌/◌, ◌≡◌, get_elem?, add_u64, arith}
use gamesdk.FrameStatistics.{update_frames, no_buckets}
use gamesdk.FrameStatistics.Buckets.{update_frames_counts}

not_bucket : 0 ≢ (34000000 - 0) / 16666667
not_bucket e = omega arith

-- Two refresh periods and a little.
update_frames_counts_example :
    (get_elem? (update_frames 16666667 0 34000000 no_buckets) ((34000000 - 0) / 16666667)
      ≡ Option.map (λ n. add_u64 n 1) (get_elem? no_buckets ((34000000 - 0) / 16666667)))
    × (get_elem? (update_frames 16666667 0 34000000 no_buckets) 0 ≡ get_elem? no_buckets 0)
update_frames_counts_example =
    update_frames_counts 16666667 0 34000000 0 no_buckets (omega arith) (omega arith) (omega arith)
      not_bucket
