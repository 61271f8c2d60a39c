-- ===== src/SwappyCommon.antt =====
-- swappy/common/SwappyCommon.h and SwappyCommon.cpp: the state of frame pacing, the sliding window of frame
-- durations and the automatic swap interval. A duration or time point is a number of nanoseconds that is
-- not negative, and where the source compares with a difference the terms are moved to the other side. A
-- clock reading is an argument. Signed numbers do not overflow, which would be undefined in the source. Locks,
-- trace sections and log lines are left out, and so are the tracer callbacks of the application.
pub mod Refresh
pub mod Pacing
pub mod Interval
pub mod Window
pub mod Auto
pub mod Wait
pub mod Rates
mod Tests
use mathlib.Core.Option
use gamesdk.Prelude.{
  ℕ, zero, suc, ◌+◌, ◌-◌, ◌*◌, ◌/◌, ◌%◌, Bool, true, false, ◌&&◌, ◌||◌, not, Option, none, some,
  List, [], ◌∷◌, ◌++◌, ltb, leb, ◌==◌, if◌then◌else◌, length, min, max,
}

pub data PipelineMode : Type 0 where
  off on : PipelineMode

pub record FrameDuration : Type 0 where
  pub cpu_time : ℕ
  pub gpu_time : ℕ

-- The constructor of two times, which are cut at MAX_DURATION, 100 ms.
unfoldable pub frame_duration : ℕ → ℕ → FrameDuration
frame_duration cpu gpu = record { cpu_time = min cpu 100000000; gpu_time = min gpu 100000000 }

abbrev pub no_duration : FrameDuration
no_duration = record { cpu_time = 0; gpu_time = 0 }

unfoldable pub get_time : FrameDuration → PipelineMode → ℕ
get_time d on = max d.cpu_time d.gpu_time
get_time d off = d.cpu_time + d.gpu_time

-- `operator+=`, `operator-=` and `operator/`.
unfoldable pub add_duration : FrameDuration → FrameDuration → FrameDuration
add_duration a b = record { cpu_time = a.cpu_time + b.cpu_time; gpu_time = a.gpu_time + b.gpu_time }

unfoldable pub sub_duration : FrameDuration → FrameDuration → FrameDuration
sub_duration a b = record { cpu_time = a.cpu_time - b.cpu_time; gpu_time = a.gpu_time - b.gpu_time }

unfoldable pub div_duration : FrameDuration → ℕ → FrameDuration
div_duration a n = record { cpu_time = a.cpu_time / n; gpu_time = a.gpu_time / n }

pub record TimingSettings : Type 0 where
  pub refresh_period : ℕ
  pub swap_interval_ns : ℕ

-- A refresh rate of the display: its period and its mode id.
pub record RefreshRate : Type 0 where
  pub period : ℕ
  pub mode_id : ℕ

-- The fields are named as in the class, without the m. `supported_refresh_rates` is the map in the order of its
-- keys, and none is the null pointer. `requested` holds the mode ids that the display manager was asked for, last
-- first; `next_mode_id` is none for -1.
pub record SwappyCommon : Type 0 where
  pub using_external_choreographer : Bool
  pub current_frame_timestamp : ℕ
  pub current_frame : ℕ
  pub swap_duration : ℕ
  pub swap_time : ℕ
  pub refresh_period : ℕ
  pub frame_durations : List FrameDuration
  pub frame_durations_sum : FrameDuration
  pub auto_swap_interval_enabled : Bool
  pub pipeline_mode_auto_mode : Bool
  pub swap_interval_ns : ℕ
  pub auto_swap_interval : ℕ
  pub auto_swap_interval_threshold_ns : ℕ
  pub swap_interval_for_new_refresh : ℕ
  pub pipeline_mode_for_new_refresh : PipelineMode
  pub start_frame_time : ℕ
  pub target_frame : ℕ
  pub presentation_time : ℕ
  pub presentation_time_needed : Bool
  pub pipeline_mode : PipelineMode
  pub has_display_manager : Bool
  pub next_mode_id : Option ℕ
  pub requested : List ℕ
  pub supported_refresh_rates : Option (List RefreshRate)
  pub next_timing_settings : TimingSettings
  pub timing_settings_need_update : Bool

-- FRAME_MARGIN, EDGE_HYSTERESIS, REFRESH_RATE_MARGIN and mFrameDurationSamples.
abbrev pub frame_margin : ℕ
frame_margin = 3000000

abbrev pub edge_hysteresis : ℕ
edge_hysteresis = 4000000

abbrev pub refresh_rate_margin : ℕ
refresh_rate_margin = 500

abbrev pub frame_duration_samples : ℕ
frame_duration_samples = 300

-- The quotient is in the range of `int`.
unfoldable pub calculate_swap_interval : ℕ → ℕ → ℕ
calculate_swap_interval frame_time refresh_period =
    if ltb frame_time refresh_period
    then 1
    else frame_time / refresh_period
      + (if ltb refresh_rate_margin (frame_time % refresh_period) then 1 else 0)

-- `front()` and `erase(begin())`, which need an element.
abbrev pub front : List FrameDuration → FrameDuration
front [] = no_duration
front (d ∷ ds) = d

abbrev pub drop_front : List FrameDuration → List FrameDuration
drop_front [] = []
drop_front (d ∷ ds) = ds

unfoldable pub add_frame_duration : SwappyCommon → FrameDuration → SwappyCommon
add_frame_duration s duration =
    let full = length s.frame_durations == frame_duration_samples in
    let window = if full then drop_front s.frame_durations else s.frame_durations in
    let sum =
      if full
      then sub_duration s.frame_durations_sum (front s.frame_durations)
      else s.frame_durations_sum in
    record s {
      frame_durations = window ++ duration ∷ [];
      frame_durations_sum = add_duration sum duration;
    }

unfoldable pub pipeline_mode_not_needed : SwappyCommon → ℕ → ℕ → Bool
pipeline_mode_not_needed s average_frame_time upper_bound =
    s.pipeline_mode_auto_mode && ltb average_frame_time upper_bound

abbrev pub is_on : PipelineMode → Bool
is_on on = true
is_on off = false

-- The end of `swapSlower` and `swapFaster`: the new interval, and pipelining if it is needed with it.
unfoldable pub swap_faster : SwappyCommon → FrameDuration → ℕ → SwappyCommon
swap_faster s average new_swap_interval =
    let needed = not (
      pipeline_mode_not_needed s (get_time average off + frame_margin)
        (s.refresh_period * new_swap_interval)) in
    record s { auto_swap_interval = new_swap_interval; pipeline_mode = if needed then on else off }

unfoldable pub swap_slower : SwappyCommon → FrameDuration → ℕ → ℕ → SwappyCommon
unfolding swap_faster
swap_slower s average upper_bound new_swap_interval =
    if not (is_on s.pipeline_mode) && leb (get_time average on) upper_bound
    then record s { pipeline_mode = on }
    else swap_faster s average new_swap_interval

unfoldable pub is_same_duration : ℕ → ℕ → ℕ → ℕ → Bool
is_same_duration period1 interval1 period2 interval2 =
    let duration1 = period1 * interval1 in
    let duration2 = period2 * interval2 in
    ltb (max duration1 duration2 - min duration1 duration2) 1000000

abbrev pub is_mode : ℕ → Option ℕ → Bool
is_mode mode none = false
is_mode mode (some m) = m == mode

-- `setPreferredRefreshRate(int)`: -1 is none, and no mode id of a display is negative.
unfoldable pub set_preferred_mode : SwappyCommon → Option ℕ → SwappyCommon
set_preferred_mode s none = s
set_preferred_mode s (some mode) =
    if not s.has_display_manager || is_mode mode s.next_mode_id
    then s
    else record s { next_mode_id = some mode; requested = mode ∷ s.requested }
