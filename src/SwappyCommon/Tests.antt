-- ===== src/SwappyCommon/Tests.antt =====
-- Runs of frame pacing, and its theorems at concrete inputs.
use gamesdk.Prelude.{ℕ, ◌≡◌, refl, true, false, some, none, List, [], ◌∷◌, replicate, arith}
use gamesdk.SwappyCommon.{
  SwappyCommon, FrameDuration, off, on, RefreshRate, no_duration, calculate_swap_interval,
}
use gamesdk.SwappyCommon.Refresh.{Better, shorter_period, find_better, update_swap_interval}
use gamesdk.SwappyCommon.Auto.{Fits, Settles, average, update_swap_interval-Fits}

-- A display of 60 Hz, and one of 90 Hz.
abbrev hz60 : RefreshRate
hz60 = record { period = 16666667; mode_id = 1 }

abbrev hz90 : RefreshRate
hz90 = record { period = 11111111; mode_id = 2 }

abbrev paced : SwappyCommon
paced = record {
  using_external_choreographer = false;
  current_frame_timestamp = 1000000000;
  current_frame = 7;
  swap_duration = 0;
  swap_time = 0;
  refresh_period = 16666667;
  frame_durations = [];
  frame_durations_sum = no_duration;
  auto_swap_interval_enabled = true;
  pipeline_mode_auto_mode = true;
  swap_interval_ns = 16666667;
  auto_swap_interval = 2;
  auto_swap_interval_threshold_ns = 50000000;
  swap_interval_for_new_refresh = 0;
  pipeline_mode_for_new_refresh = off;
  start_frame_time = 1000000000;
  target_frame = 9;
  presentation_time = 1033333334;
  presentation_time_needed = true;
  pipeline_mode = on;
  has_display_manager = true;
  next_mode_id = none;
  requested = [];
  supported_refresh_rates = some (hz90 ∷ hz60 ∷ []);
  next_timing_settings = record { refresh_period = 16666667; swap_interval_ns = 16666667 };
  timing_settings_need_update = false;
}

interval_of_20_ms : calculate_swap_interval 20000000 16666667 ≡ 2
unfolding calculate_swap_interval
interval_of_20_ms = refl

-- A full window of frames that take 40 ms of CPU time.
abbrev slow_frame : FrameDuration
slow_frame = record { cpu_time = 40000000; gpu_time = 10000000 }

abbrev slow : SwappyCommon
slow = record paced {
  frame_durations = replicate 300 slow_frame;
  frame_durations_sum = record { cpu_time = 12000000000; gpu_time = 3000000000 };
}

update_swap_interval-Fits_example :
    Fits (update_swap_interval slow).0 (average slow)
    × Settles slow (update_swap_interval slow).0 (update_swap_interval slow).1
update_swap_interval-Fits_example = update_swap_interval-Fits slow (omega arith) refl (omega arith)

-- An app that asks for 30 frames a second, at an interval of three refresh periods after slow frames.
abbrev asked_30 : SwappyCommon
asked_30 = record paced { swap_interval_ns = 33333333; auto_swap_interval = 3 }

abbrev light_frame : FrameDuration
light_frame = record { cpu_time = 8000000; gpu_time = 2000000 }

-- With 15 ms frames, two periods of 90 Hz are shorter than two of 60 Hz.
abbrev shorter : Better
shorter = record { config = hz90; swap_interval = 2 }

better_of_15_ms : find_better paced 15000000 ≡ some shorter
unfolding find_better shorter_period calculate_swap_interval
better_of_15_ms = refl

-- Two frames to the target and one late frame.
abbrev three_wakes : List ℕ
three_wakes = 1016666667 ∷ 1033333334 ∷ 1050000001 ∷ []
