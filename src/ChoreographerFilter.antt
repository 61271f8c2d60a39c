-- ===== src/ChoreographerFilter.antt =====
-- swappy/common/ChoreographerFilter.cpp: the timer that smooths the times of the Choreographer callbacks, and
-- what its two threads share. A time is a number of nanoseconds; the clock is an argument. `mRefreshPeriod * 1.5` is a double in the
-- source; the comparison is exact here, with both sides doubled.
pub mod Smoothing
mod Tests
use gamesdk.Prelude.Int.{ℤ, pos, negsuc}
use gamesdk.Prelude.{
  ℕ, zero, suc, ◌+◌, ◌-◌, ◌*◌, ◌/◌, Bool, true, false, ◌&&◌, ◌||◌, not, List, [], ◌∷◌, ltb, leb,
  ◌==◌, if◌then◌else◌,
}

pub record Timer : Type 0 where
  pub refresh_period : ℕ
  pub app_to_sf_delay : ℤ
  pub base_time : ℕ
  pub last_timestamp : ℕ
  pub repeat_count : ℕ

-- The loop of `addTimestamp` for a point that the delay is added to. Each round moves the base time by a
-- refresh period, which is positive, so that `point` rounds are enough.
unfoldable pub advance : ℕ → ℕ → ℕ → ℕ → ℕ
advance zero period point base = base
advance (suc fuel) period point base =
    let next = advance fuel period point (base + period) in
    if ltb (2 * base + 3 * period) (2 * point) then next else base

abbrev moved : Timer → ℕ → Timer
moved t period = record t { refresh_period = period; base_time = t.base_time + period }

abbrev same_flag : Bool → Bool → Bool
same_flag true b = b
same_flag false b = not b

-- The rest of `addTimestamp` after the loop: a difference to the expected time of at most half a period
-- changes the period by a fifth of it. The difference is signed; the two cases are its two signs.
unfoldable pub smooth : Timer → ℕ → Timer
smooth t point =
    let expected = t.base_time + t.refresh_period in
    let late = point - expected in
    let early = expected - point in
    if ltb (t.refresh_period / 2) early || ltb (t.refresh_period / 2) late
    then t
    else moved t (
        if ltb point expected
        then t.refresh_period - early * 2 / 10
        else t.refresh_period + late * 2 / 10)

-- A point of time that a signed delay is added to.
abbrev pub delayed : ℕ → ℤ → ℕ
delayed point (pos d) = point + d
delayed point (negsuc d) = point - suc d

unfoldable pub add_fresh : Timer → ℕ → Timer
unfolding advance smooth
add_fresh t point =
    let to = delayed point t.app_to_sf_delay in
    smooth
      (record t { last_timestamp = point; base_time = advance to t.refresh_period to t.base_time })
      to

-- `addTimestamp`: false after the same timestamp has been seen more than six times in a row.
unfoldable pub add_timestamp : Timer → ℕ → Timer × Bool
unfolding add_fresh
add_timestamp t point =
    if point == t.last_timestamp
    then (if ltb 5 t.repeat_count
        then (record t { repeat_count = t.repeat_count + 1 }, false)
        else (add_fresh (record t { repeat_count = t.repeat_count + 1 }) point, true))
    else (add_fresh (record t { repeat_count = 0 }) point, true)

-- The loop of `sleep`: the first target that is not before `now`. The period is positive.
unfoldable pub wake_time : ℕ → ℕ → ℕ → ℕ → ℕ
wake_time zero period now target = target
wake_time (suc fuel) period now target =
    let next = wake_time fuel period now (target + period) in
    if ltb target now then next else target

-- `sleep(-offset)`, which is how `threadMain` calls it: the time that it sleeps until. An offset of more
-- than half a period counts as none.
unfoldable pub sleep_until : Timer → ℕ → ℕ → ℕ
unfolding wake_time
sleep_until t offset now =
    let early = if ltb (t.refresh_period / 2) offset then 0 else offset in
    wake_time now t.refresh_period now (t.base_time + t.refresh_period - early)

-- What the threads of the filter share: the last work, and the settings.
pub record ChoreographerFilter : Type 0 where
  pub refresh_period : ℕ
  pub app_to_sf_delay : ℤ
  pub use_affinity : Bool
  pub is_running : Bool
  pub last_timestamp : ℕ
  pub sequence_number : ℕ
  pub last_work_run : ℕ
  pub work_duration : ℕ

-- `onChoreographer`.
unfoldable pub on_choreographer : ChoreographerFilter → ℕ → ChoreographerFilter
on_choreographer s now = record s { last_timestamp = now; sequence_number = s.sequence_number + 1 }

-- `onSettingsChanged`, and whether the threads are stopped and launched again.
unfoldable pub on_settings_changed : ChoreographerFilter → Bool → ℕ → ℤ → ChoreographerFilter × Bool
on_settings_changed s use_affinity refresh_period delay =
    if same_flag use_affinity s.use_affinity && s.refresh_period == refresh_period
    then (s, false)
    else (
      record s {
        use_affinity = use_affinity;
        refresh_period = refresh_period;
        app_to_sf_delay = delay;
        is_running = true;
      },
      true,
    )

-- The work of a thread after its sleep, at the time `now`: the worker, which returns `duration`, is called if
-- the last work was more than half a period ago.
unfoldable pub run_work : ChoreographerFilter → ℕ → ℕ → ChoreographerFilter × Bool
run_work s now duration =
    if ltb (s.refresh_period / 2) (now - s.last_work_run)
    then (record s { work_duration = duration; last_work_run = now }, true)
    else (s, false)
