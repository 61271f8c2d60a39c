-- ===== src/SwappyGl/Tests.antt =====
-- Runs of SwappyGL.
use gamesdk.Prelude.{true, false, none, some, [], ◌≡◌, refl}
use gamesdk.SwappyCommon.{SwappyCommon, off, no_duration}
use gamesdk.SwappyGl.{SwappyGl, enable_stats}

abbrev common : SwappyCommon
common = record {
  using_external_choreographer = false;
  current_frame_timestamp = 0;
  current_frame = 0;
  swap_duration = 0;
  swap_time = 0;
  refresh_period = 16666667;
  frame_durations = [];
  frame_durations_sum = no_duration;
  auto_swap_interval_enabled = true;
  pipeline_mode_auto_mode = true;
  swap_interval_ns = 0;
  auto_swap_interval = 1;
  auto_swap_interval_threshold_ns = 50000000;
  swap_interval_for_new_refresh = 0;
  pipeline_mode_for_new_refresh = off;
  start_frame_time = 0;
  target_frame = 0;
  presentation_time = 0;
  presentation_time_needed = false;
  pipeline_mode = off;
  has_display_manager = false;
  next_mode_id = none;
  requested = [];
  supported_refresh_rates = none;
  next_timing_settings = record { refresh_period = 0; swap_interval_ns = 0 };
  timing_settings_need_update = false;
}

abbrev gl : SwappyGl
gl = record {
  enable_swappy = true;
  common = common;
  fence_timeout_ns = 50000000;
  frame_statistics = none;
}

dropped : enable_stats (enable_stats (some gl) true true) true true ≡ some gl
unfolding enable_stats
dropped = refl

not_supported : enable_stats (some gl) false true ≡ some gl
unfolding enable_stats
not_supported = refl
