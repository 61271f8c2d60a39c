-- ===== src/ChoreographerFilter/Smoothing.antt =====
-- The timer of swappy/common/ChoreographerFilter.cpp stays near the timestamps, and the work is done once.
use gamesdk.Prelude.{
  ℕ, zero, suc, ◌+◌, ◌-◌, ◌*◌, ◌/◌, ◌≤◌, ◌<◌, ◌≡◌, true, false, ltb, if◌then◌else◌, max, arith, ◌⊎◌,
}
use gamesdk.ChoreographerFilter.{
  Timer, advance, smooth, delayed, add_fresh, add_timestamp, wake_time, sleep_until,
  ChoreographerFilter, run_work,
}

-- With as much fuel as the point is far away, the loop ends where the base time is at most one and a half
-- periods before the point, and it never passes a base time at which it should have stopped.
advance_enough :
    (fuel period point base : ℕ)
    → 0 < period
    → point ≤ fuel + base
    → (2 * point ≤ 2 * advance fuel period point base + 3 * period)
      × (base ≤ advance fuel period point base)
      × (2 * advance fuel period point base ≤ max (2 * base) (2 * point))
unfolding advance
advance_enough zero period point base p h = (omega arith, omega arith, omega arith)
advance_enough (suc fuel) period point base p h =
    let (a, b, c) = advance_enough fuel period point (base + period) p (omega arith) in
    (ground (arith, a), ground (arith, b), ground (arith, c))

wake_time_enough :
    (fuel period now target : ℕ)
    → 0 < period
    → now ≤ fuel + target
    → (now ≤ wake_time fuel period now target)
      × (target ≤ wake_time fuel period now target)
      × (wake_time fuel period now target < max (target + 1) (now + period))
unfolding wake_time
wake_time_enough zero period now target p h = (omega arith, omega arith, omega arith)
wake_time_enough (suc fuel) period now target p h =
    let (a, b, c) = wake_time_enough fuel period now (target + period) p (omega arith) in
    (ground (arith, a), ground (arith, b), ground (arith, c))

-- A timestamp changes the refresh period by at most a tenth of it, whichever way it is off.
smooth_bounded :
    (t : Timer) (point : ℕ)
    → ((smooth t point).refresh_period ≤ t.refresh_period + t.refresh_period / 10)
      × (t.refresh_period ≤ (smooth t point).refresh_period + t.refresh_period / 10)
unfolding smooth
smooth_bounded t point = (ground arith, ground arith)

add_fresh_bounded :
    (t : Timer) (point : ℕ)
    → ((add_fresh t point).refresh_period ≤ t.refresh_period + t.refresh_period / 10)
      × (t.refresh_period ≤ (add_fresh t point).refresh_period + t.refresh_period / 10)
unfolding add_fresh
add_fresh_bounded t point =
    let to = delayed point t.app_to_sf_delay in
    smooth_bounded
      (record t { last_timestamp = point; base_time = advance to t.refresh_period to t.base_time })
      to

-- Whatever timestamp is added, and whether or not it is refused, the refresh period of the timer changes by at
-- most a tenth of its value. A timestamp is refused only when it repeats the last one and that one has been
-- repeated more than five times before.
pub add_timestamp_bounded :
    (t : Timer) (point : ℕ)
    → ((add_timestamp t point).0.refresh_period ≤ t.refresh_period + t.refresh_period / 10)
      × (t.refresh_period ≤ (add_timestamp t point).0.refresh_period + t.refresh_period / 10)
      × (((add_timestamp t point).1 ≡ true) ⊎ (point ≡ t.last_timestamp) × (5 < t.repeat_count))
unfolding add_timestamp
add_timestamp_bounded t point =
    let again = add_fresh_bounded (record t { repeat_count = t.repeat_count + 1 }) point in
    let anew = add_fresh_bounded (record t { repeat_count = 0 }) point in
    (ground (arith, again.0, anew.0), ground (arith, again.1, anew.1), ground arith)

-- The loop over the base time ends: with a positive refresh period it leaves a base time that is at most one
-- and a half periods before the point, and not after it unless it was so at the start.
pub advance_reaches :
    (period point base : ℕ)
    → 0 < period
    → (2 * point ≤ 2 * advance point period point base + 3 * period)
      × (base ≤ advance point period point base)
      × (2 * advance point period point base ≤ max (2 * base) (2 * point))
advance_reaches period point base p = advance_enough point period point base p (omega arith)

-- A thread sleeps until a time that is not before now, and that is at most the base time plus one refresh
-- period, or less than one refresh period after now. The refresh period must be positive.
sleep_until_bounded :
    (t : Timer) (offset now : ℕ)
    → 0 < t.refresh_period
    → (now ≤ sleep_until t offset now)
      × (sleep_until t offset now
          < max (t.base_time + t.refresh_period + 1) (now + t.refresh_period))
unfolding sleep_until
sleep_until_bounded t offset now p =
    let early = if ltb (t.refresh_period / 2) offset then 0 else offset in
    let (a, b, c) =
      wake_time_enough now t.refresh_period now (t.base_time + t.refresh_period - early) p
        (omega arith) in
    (a, omega (arith, c))

-- When a run of the work comes at most half a refresh period after the time of one that called the worker,
-- it does not call the worker and changes nothing.
pub run_work_once :
    (s : ChoreographerFilter) (now later duration again : ℕ)
    → (run_work s now duration).1 ≡ true
    → later ≤ now + s.refresh_period / 2
    → run_work (run_work s now duration).0 later again ≡ ((run_work s now duration).0, false)
unfolding run_work
run_work_once s now later duration again called soon = ground (arith, called)
