-- ===== src/Settings/Tests.antt =====
-- The settings at a concrete input: one SwappyCommon listens.
use gamesdk.Prelude.{ℕ, ◌+◌, ◌≡◌, refl, true, false, none, List, [], ◌∷◌, map}
use gamesdk.SwappyCommon.{SwappyCommon, off, no_duration}
use gamesdk.Settings.{
  Settings, default_values, notify_listeners, set_use_affinity, add_listener, get_instance,
}
use gamesdk.Settings.Effect.{listening}

abbrev common : SwappyCommon
common = record {
  using_external_choreographer = false;
  current_frame_timestamp = 0;
  current_frame = 0;
  swap_duration = 0;
  swap_time = 0;
  refresh_period = 16666667;
  frame_durations = [];
  frame_durations_sum = no_duration;
  auto_swap_interval_enabled = true;
  pipeline_mode_auto_mode = true;
  swap_interval_ns = 0;
  auto_swap_interval = 1;
  auto_swap_interval_threshold_ns = 50000000;
  swap_interval_for_new_refresh = 0;
  pipeline_mode_for_new_refresh = off;
  start_frame_time = 0;
  target_frame = 0;
  presentation_time = 0;
  presentation_time_needed = false;
  pipeline_mode = off;
  has_display_manager = false;
  next_mode_id = none;
  requested = [];
  supported_refresh_rates = none;
  next_timing_settings = record { refresh_period = 0; swap_interval_ns = 0 };
  timing_settings_need_update = true;
}

abbrev settings : Settings (List SwappyCommon)
settings = record { values = default_values; listeners = map listening (0 ∷ []) }

-- Listeners are called in the order of their registration, also those that were added last.
in_order :
    (set_use_affinity {S = ℕ} false
      (add_listener (λ v n. n + n) (add_listener (λ v n. n + 1) (get_instance none)))
      3).1
    ≡ 8
unfolding set_use_affinity add_listener get_instance notify_listeners
in_order = refl
