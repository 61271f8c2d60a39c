-- ===== src/SwappyCommon/Interval.antt =====
-- The swap interval that swappy/common/SwappyCommon.cpp calculates for a frame time.
use native.Mathlib.Nat.{div-add-mod, mod-lt}
use gamesdk.Prelude.{ℕ, ◌+◌, ◌*◌, ◌≤◌, ◌<◌, arith}
use gamesdk.SwappyCommon.{calculate_swap_interval, refresh_rate_margin}

-- The calculated swap interval fits the frame time: it is at least 1, and that many refresh periods last at
-- least the frame time, up to the margin of 500 ns for refresh rates that are not whole. The refresh period
-- must be positive.
pub calculate_swap_interval_fits :
    (frame_time period : ℕ)
    → 0 < period
    → (0 < calculate_swap_interval frame_time period)
      × (frame_time ≤ period * calculate_swap_interval frame_time period + refresh_rate_margin)
unfolding calculate_swap_interval
calculate_swap_interval_fits frame_time period p =
    (grind (arith, div-add-mod, mod-lt), grind (arith, div-add-mod, mod-lt))

-- The calculated swap interval is the least that fits: if a number of at least one refresh period lasts at
-- least the frame time, up to the margin of 500 ns, then it is not below the calculated interval. The
-- refresh period must be longer than the margin.
calculate_swap_interval_least :
    (frame_time period n : ℕ)
    → refresh_rate_margin < period
    → 0 < n
    → frame_time ≤ period * n + refresh_rate_margin
    → calculate_swap_interval frame_time period ≤ n
unfolding calculate_swap_interval
calculate_swap_interval_least frame_time period n p pn fits = grind (arith, div-add-mod, mod-lt)
