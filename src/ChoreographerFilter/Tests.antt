-- ===== src/ChoreographerFilter/Tests.antt =====
-- The theorem of the Choreographer filter at a concrete input.
use gamesdk.Prelude.{◌+◌, ◌/◌, ◌≤◌, ◌<◌, ◌≡◌, true, ◌⊎◌}
use gamesdk.Prelude.Int.{pos}
use gamesdk.ChoreographerFilter.{Timer, add_timestamp}
use gamesdk.ChoreographerFilter.Smoothing.{add_timestamp_bounded}

abbrev timer : Timer
timer = record {
  refresh_period = 16;
  app_to_sf_delay = pos 3;
  base_time = 100;
  last_timestamp = 100;
  repeat_count = 0;
}

add_timestamp_bounded_example :
    ((add_timestamp timer 117).0.refresh_period ≤ 16 + 16 / 10)
    × (16 ≤ (add_timestamp timer 117).0.refresh_period + 16 / 10)
    × (((add_timestamp timer 117).1 ≡ true)
        ⊎ (117 ≡ timer.last_timestamp) × (5 < timer.repeat_count))
add_timestamp_bounded_example = add_timestamp_bounded timer 117
