-- ===== src/SwappyCommon/Refresh.antt =====
-- swappy/common/SwappyCommon.cpp: the update of the swap interval, the choice of a refresh rate, and the
-- settings that change them.
use mathlib.Core.Option
use gamesdk.Prelude.{
  ℕ, ◌+◌, ◌-◌, ◌*◌, Bool, true, false, ◌&&◌, ◌||◌, not, Option, none, some, List, [], ◌∷◌, ltb, leb,
  ◌==◌, if◌then◌else◌, length,
}
use gamesdk.SwappyCommon.{
  SwappyCommon, off, on, FrameDuration, RefreshRate, TimingSettings, no_duration, get_time,
  div_duration, frame_margin, edge_hysteresis, frame_duration_samples, calculate_swap_interval,
  is_on, pipeline_mode_not_needed, swap_slower, swap_faster, is_same_duration, set_preferred_mode,
}

-- `betterRefreshConfig` and `betterRefreshSwapInterval`.
pub record Better : Type 0 where
  pub config : RefreshRate
  pub swap_interval : ℕ

-- The first loop: the rate with the shortest swap period that fits the frame time. `min_period` is
-- `minSwapPeriod`, and `found` the best so far.
unfoldable pub shorter_period : List RefreshRate → ℕ → ℕ → ℕ → Option Better → Option Better
shorter_period [] frame_time swap_ns min_period found = found
shorter_period (i ∷ rates) frame_time swap_ns min_period found =
    let n = calculate_swap_interval frame_time i.period in
    let duration = i.period * n in
    if ltb (frame_time + edge_hysteresis) duration
      && ltb duration min_period
      && leb swap_ns duration
    then shorter_period rates frame_time swap_ns duration
        (some (record { config = i; swap_interval = n }))
    else shorter_period rates frame_time swap_ns min_period found

-- The second loop: the last rate with about the same swap period and a longer refresh period.
unfoldable pub same_period : List RefreshRate → ℕ → ℕ → ℕ → Option Better → Option Better
same_period [] frame_time refresh interval found = found
same_period (i ∷ rates) frame_time refresh interval found =
    let n = calculate_swap_interval frame_time i.period in
    same_period rates frame_time refresh interval (
      if is_same_duration i.period n refresh interval && ltb refresh i.period
      then some (record { config = i; swap_interval = n })
      else found)

unfoldable pub find_better : SwappyCommon → ℕ → Option Better
find_better s frame_time = elim s.supported_refresh_rates [
  | none ↦ none
  | some rates ↦
      elim (shorter_period rates frame_time s.swap_interval_ns
        (s.refresh_period * s.auto_swap_interval) none) [
          | some b ↦ some b
          | none ↦ same_period rates frame_time s.refresh_period s.auto_swap_interval none
        ]
]

-- The three conditions of `updateSwapInterval` in turn: the changed configuration, or none.
unfoldable pub change_config : SwappyCommon → FrameDuration → Option SwappyCommon
change_config s average =
    let pipeline_time = get_time average on + frame_margin in
    let non_pipeline_time = get_time average off + frame_margin in
    let current_time = if is_on s.pipeline_mode then pipeline_time else non_pipeline_time in
    let new_interval = calculate_swap_interval pipeline_time s.refresh_period in
    let upper = s.refresh_period * s.auto_swap_interval in
    let shorter = s.refresh_period * (s.auto_swap_interval - 1) in
    if ltb upper current_time
    then some (swap_slower s average upper new_interval)
    else if leb s.swap_interval_ns shorter && ltb (pipeline_time + edge_hysteresis) shorter
    then some (swap_faster s average new_interval)
    else if is_on s.pipeline_mode && pipeline_mode_not_needed s non_pipeline_time upper
    then some (record s { pipeline_mode = off })
    else none

abbrev pub clear_window : SwappyCommon → SwappyCommon
clear_window s = record s { frame_durations = []; frame_durations_sum = no_duration }

-- What follows when a better refresh rate is found.
unfoldable pub apply_better : SwappyCommon → ℕ → Option Better → SwappyCommon
apply_better s non_pipeline_time none = s
apply_better s non_pipeline_time (some b) =
    let asked = set_preferred_mode s (some b.config.mode_id) in
    let upper = b.config.period * b.swap_interval in
    record asked {
      swap_interval_for_new_refresh = b.swap_interval;
      pipeline_mode_for_new_refresh =
          if pipeline_mode_not_needed s non_pipeline_time upper then off else on;
    }

-- The state after `updateSwapInterval`, and its result: whether the configuration has changed.
unfoldable pub update_swap_interval : SwappyCommon → SwappyCommon × Bool
update_swap_interval s =
    let average = div_duration s.frame_durations_sum (length s.frame_durations) in
    let changed = change_config s average in
    let s' : SwappyCommon = elim changed [ none ↦ s | some t ↦ clear_window t ] in
    let better = find_better s' (get_time average on + frame_margin) in
    if not s.auto_swap_interval_enabled || ltb (length s.frame_durations) frame_duration_samples
    then (s, false)
    else (
      apply_better s' (get_time average off + frame_margin) better,
      elim changed [ none ↦ false | some t ↦ true ],
    )

-- The loop of `setPreferredRefreshRate(nanoseconds)`, from the longest period to the shortest: the mode of the
-- shortest swap interval so far, and that interval.
unfoldable pub best_mode : List RefreshRate → ℕ → ℕ → Option ℕ → Option ℕ
best_mode [] frame_time shortest mode = mode
best_mode (i ∷ rates) frame_time shortest mode =
    let swap_ns = i.period * calculate_swap_interval frame_time i.period in
    if ltb swap_ns shortest
    then best_mode rates frame_time swap_ns (some i.mode_id)
    else best_mode rates frame_time shortest mode

-- The reverse order of the map.
abbrev pub reversed_onto : List RefreshRate → List RefreshRate → List RefreshRate
reversed_onto acc [] = acc
reversed_onto acc (i ∷ rates) = reversed_onto (i ∷ acc) rates

-- The frame time is raised to the swap interval of the app. Without a display manager nothing happens, and the
-- null pointer, which the source would dereference, is read as a map without entries.
unfoldable pub set_preferred_refresh_rate : SwappyCommon → ℕ → SwappyCommon
set_preferred_refresh_rate s frame_time =
    let raised = if ltb frame_time s.swap_interval_ns then s.swap_interval_ns else frame_time in
    if s.has_display_manager
    then set_preferred_mode s (
        best_mode (reversed_onto [] (Option.get_or s.supported_refresh_rates [])) raised 100000000
          none)
    else s

-- `setAutoSwapInterval` and `setAutoPipelineMode`.
unfoldable pub set_auto_swap_interval : SwappyCommon → Bool → SwappyCommon
set_auto_swap_interval s true = record s { auto_swap_interval_enabled = true }
set_auto_swap_interval s false = record s { auto_swap_interval_enabled = false; pipeline_mode = on }

unfoldable pub set_auto_pipeline_mode : SwappyCommon → Bool → SwappyCommon
set_auto_pipeline_mode s true = record s { pipeline_mode_auto_mode = true }
set_auto_pipeline_mode s false = record s { pipeline_mode_auto_mode = false; pipeline_mode = on }

abbrev pub same_settings : TimingSettings → TimingSettings → Bool
same_settings a b = a.refresh_period == b.refresh_period && a.swap_interval_ns == b.swap_interval_ns

-- `onSettingsChanged`, with the timings that the settings hold.
unfoldable pub on_settings_changed : SwappyCommon → TimingSettings → SwappyCommon
on_settings_changed s t =
    if same_settings t s.next_timing_settings
    then s
    else record s { next_timing_settings = t; timing_settings_need_update = true }

-- `updateDisplayTimings` from the assignment of the swap interval for the new refresh rate on.
unfoldable pub apply_timings : SwappyCommon → SwappyCommon
apply_timings s =
    let next = s.next_timing_settings in
    let interval = s.swap_interval_for_new_refresh in
    let valid = leb next.swap_interval_ns (next.refresh_period * interval) in
    let by_settings = not (s.swap_interval_ns == next.swap_interval_ns) in
    let moved = record s {
      auto_swap_interval = interval;
      pipeline_mode = s.pipeline_mode_for_new_refresh;
      swap_interval_for_new_refresh = 0;
      refresh_period = next.refresh_period;
      swap_interval_ns = next.swap_interval_ns;
    } in
    let reset =
      set_preferred_refresh_rate
        (record moved {
          auto_swap_interval = calculate_swap_interval next.swap_interval_ns next.refresh_period;
          pipeline_mode = if s.auto_swap_interval_enabled then off else on;
        })
        next.swap_interval_ns in
    let chosen =
      if not s.auto_swap_interval_enabled || by_settings || interval == 0 || not valid
      then reset
      else moved in
    clear_window (elim chosen.next_mode_id [
      | none ↦ set_preferred_refresh_rate chosen chosen.swap_interval_ns
      | some mode ↦ chosen
    ])

-- `updateDisplayTimings`; `rates` is what the display manager supports.
unfoldable pub update_display_timings : SwappyCommon → Option (List RefreshRate) → SwappyCommon
unfolding apply_timings
update_display_timings s rates =
    let s' = if s.has_display_manager then record s { supported_refresh_rates = rates } else s in
    let updated = record s' { timing_settings_need_update = false } in
    let current =
      same_settings
        (record { refresh_period = s.refresh_period; swap_interval_ns = s.swap_interval_ns })
        s.next_timing_settings in
    if not s.timing_settings_need_update
    then s'
    else if current
    then updated
    else apply_timings updated
