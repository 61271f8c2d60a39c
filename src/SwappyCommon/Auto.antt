-- ===== src/SwappyCommon/Auto.antt =====
-- The automatic swap interval of swappy/common/SwappyCommon.cpp: the configuration that is chosen fits the
-- frame time.
use mathlib.Core.Option
use native.Mathlib.Nat.{mul-le-mul}
use gamesdk.Prelude.{
  ℕ, ◌+◌, ◌-◌, ◌*◌, ◌≤◌, ◌<◌, ◌≡◌, refl, sym, subst, subst₂, Bool, true, false, ◌&&◌, Option, none,
  some, [], leb, ltb, if◌then◌else◌, length, arith, Bool-cases, Option-cases, inl, inr,
}
use gamesdk.SwappyCommon.{
  SwappyCommon, off, on, FrameDuration, no_duration, get_time, div_duration, frame_margin,
  edge_hysteresis, refresh_rate_margin, frame_duration_samples, calculate_swap_interval, is_on,
  pipeline_mode_not_needed, swap_slower, swap_faster, set_preferred_mode,
}
use gamesdk.SwappyCommon.Interval.{calculate_swap_interval_fits}
use gamesdk.SwappyCommon.Refresh.{
  Better, change_config, clear_window, apply_better, find_better, update_swap_interval,
}

-- The frame time in the pipeline mode of the state is at most the swap period, up to the margin of 500 ns.
abbrev pub Fits : SwappyCommon → FrameDuration → Type 0
Fits s d =
    get_time d s.pipeline_mode ≤ s.refresh_period * s.auto_swap_interval + refresh_rate_margin

abbrev chosen : SwappyCommon → FrameDuration → ℕ
chosen s d = calculate_swap_interval (get_time d on + frame_margin) s.refresh_period

swap_faster-Fits :
    (s : SwappyCommon) (d : FrameDuration)
    → 0 < s.refresh_period
    → Fits (swap_faster s d (chosen s d)) d
unfolding swap_faster pipeline_mode_not_needed
swap_faster-Fits s d p =
    ground
      (arith, (calculate_swap_interval_fits (get_time d on + frame_margin) s.refresh_period p).1)

swap_slower-Fits :
    (s : SwappyCommon) (d : FrameDuration)
    → 0 < s.refresh_period
    → Fits (swap_slower s d (s.refresh_period * s.auto_swap_interval) (chosen s d)) d
unfolding swap_slower
swap_slower-Fits s d p = ground (arith, swap_faster-Fits s d p)

-- The three tests of `updateSwapInterval`, in order.
abbrev is_slow : SwappyCommon → FrameDuration → Bool
is_slow s d =
    ltb (s.refresh_period * s.auto_swap_interval) (
      if is_on s.pipeline_mode then get_time d on + frame_margin else get_time d off + frame_margin)

abbrev is_fast : SwappyCommon → FrameDuration → Bool
is_fast s d =
    leb s.swap_interval_ns (s.refresh_period * (s.auto_swap_interval - 1))
    && ltb (get_time d on + frame_margin + edge_hysteresis)
        (s.refresh_period * (s.auto_swap_interval - 1))

abbrev is_calm : SwappyCommon → FrameDuration → Bool
is_calm s d =
    is_on s.pipeline_mode
    && pipeline_mode_not_needed s (get_time d off + frame_margin)
        (s.refresh_period * s.auto_swap_interval)

pub change_slow :
    (s : SwappyCommon) (d : FrameDuration)
    → is_slow s d ≡ true
    → change_config s d
      ≡ some (swap_slower s d (s.refresh_period * s.auto_swap_interval) (chosen s d))
unfolding change_config
change_slow s d slow = rw (slow, change_config) refl

pub change_fast :
    (s : SwappyCommon) (d : FrameDuration)
    → is_slow s d ≡ false
    → is_fast s d ≡ true
    → change_config s d ≡ some (swap_faster s d (chosen s d))
unfolding change_config
change_fast s d slow fast = rw (slow, fast, change_config) refl

change_calm :
    (s : SwappyCommon) (d : FrameDuration)
    → is_slow s d ≡ false
    → is_fast s d ≡ false
    → is_calm s d ≡ true
    → change_config s d ≡ some (record s { pipeline_mode = off })
unfolding change_config
change_calm s d slow fast calm = rw (slow, fast, calm, change_config) refl

change_not :
    (s : SwappyCommon) (d : FrameDuration)
    → is_slow s d ≡ false
    → is_fast s d ≡ false
    → is_calm s d ≡ false
    → change_config s d ≡ none
unfolding change_config
change_not s d slow fast calm = rw (slow, fast, calm, change_config) refl

calm-Fits :
    (s : SwappyCommon) (d : FrameDuration)
    → is_calm s d ≡ true
    → Fits (record s { pipeline_mode = off }) d
unfolding pipeline_mode_not_needed
calm-Fits s d calm = ground (arith, calm)

not_slow-Fits : (s : SwappyCommon) (d : FrameDuration) → is_slow s d ≡ false → Fits s d
not_slow-Fits s d slow =
    elim s.pipeline_mode as (λ m. s.pipeline_mode ≡ m → Fits s d) [
      | on ↦ λ e. ground (arith, slow, e)
      | off ↦ λ e. ground (arith, slow, e)
    ]
      refl

-- The configuration after the three tests.
abbrev configured : SwappyCommon → FrameDuration → SwappyCommon
configured s d = Option.get_or (change_config s d) s

configured-Fits :
    (s : SwappyCommon) (d : FrameDuration) → 0 < s.refresh_period → Fits (configured s d) d
configured-Fits s d p = elim (Bool-cases (is_slow s d)) [
  | inl slow ↦ subst Chosen (sym (change_slow s d slow)) (swap_slower-Fits s d p)
  | inr ok ↦ elim (Bool-cases (is_fast s d)) [
    | inl fast ↦ subst Chosen (sym (change_fast s d ok fast)) (swap_faster-Fits s d p)
    | inr even ↦ elim (Bool-cases (is_calm s d)) [
      | inl calm ↦ subst Chosen (sym (change_calm s d ok even calm)) (calm-Fits s d calm)
      | inr same ↦ subst Chosen (sym (change_not s d ok even same)) (not_slow-Fits s d ok)
    ]
  ]
]
  where
    Chosen : Option SwappyCommon → Type 0
    Chosen t = Fits (Option.get_or t s) d

-- A better refresh rate is asked for, and not yet used.
apply_better-Fits :
    (s : SwappyCommon) (t : ℕ) (b : Option Better) (d : FrameDuration)
    → Fits s d
    → Fits (apply_better s t b) d
unfolding apply_better set_preferred_mode
apply_better-Fits s t none d f = f
apply_better-Fits s t (some b) d f = ground (arith, f)

-- The mean of the window.
abbrev pub average : SwappyCommon → FrameDuration
average s = div_duration s.frame_durations_sum (length s.frame_durations)

-- The state that `updateSwapInterval` works on with a full window.
abbrev settled : SwappyCommon → Option SwappyCommon → SwappyCommon
settled s none = s
settled s (some t) = clear_window t

update_full :
    (s : SwappyCommon) (changed : Option SwappyCommon)
    → s.auto_swap_interval_enabled ≡ true
    → frame_duration_samples ≤ length s.frame_durations
    → change_config s (average s) ≡ changed
    → (b : Option Better) × ((update_swap_interval s).0
        ≡ apply_better (settled s changed) (get_time (average s) off + frame_margin) b)
      × ((update_swap_interval s).1 ≡ elim changed [ none ↦ false | some t ↦ true ])
unfolding update_swap_interval
update_full s none enabled full e = (
  find_better s (get_time (average s) on + frame_margin),
  rw (e, update_swap_interval, enabled) (ground arith),
  rw (e, update_swap_interval, enabled) (ground arith),
)
update_full s (some t) enabled full e = (
  find_better (clear_window t) (get_time (average s) on + frame_margin),
  rw (e, update_swap_interval, enabled) (ground arith),
  rw (e, update_swap_interval, enabled) (ground arith),
)

apply_better-window :
    (s : SwappyCommon) (t : ℕ) (b : Option Better)
    → ((apply_better s t b).frame_durations ≡ s.frame_durations)
      × ((apply_better s t b).frame_durations_sum ≡ s.frame_durations_sum)
      × ((apply_better s t b).pipeline_mode ≡ s.pipeline_mode)
      × ((apply_better s t b).auto_swap_interval ≡ s.auto_swap_interval)
unfolding apply_better set_preferred_mode
apply_better-window s t none = (refl, refl, refl, refl)
apply_better-window s t (some b) = (ground arith, ground arith, ground arith, ground arith)

-- What the update leaves: the result says whether the configuration was changed, and then the window is empty.
-- If not, the window, the pipeline mode and the swap interval are as they were.
abbrev pub Settles : SwappyCommon → SwappyCommon → Bool → Type 0
Settles s s' true = (s'.frame_durations ≡ []) × (s'.frame_durations_sum ≡ no_duration)
Settles s s' false =
    (s'.frame_durations ≡ s.frame_durations)
    × (s'.frame_durations_sum ≡ s.frame_durations_sum)
    × (s'.pipeline_mode ≡ s.pipeline_mode)
    × (s'.auto_swap_interval ≡ s.auto_swap_interval)

-- With the automatic swap interval enabled, a positive refresh period and a full window, the configuration
-- after `updateSwapInterval` fits the mean frame time of the window: in the pipeline mode that it leaves,
-- that time is at most the swap period plus 500 ns. If the result is true the window is empty with a sum of
-- zero, and if it is false the window, the pipeline mode and the swap interval are as they were.
pub update_swap_interval-Fits :
    (s : SwappyCommon)
    → 0 < s.refresh_period
    → s.auto_swap_interval_enabled ≡ true
    → frame_duration_samples ≤ length s.frame_durations
    → Fits (update_swap_interval s).0 (average s)
      × Settles s (update_swap_interval s).0 (update_swap_interval s).1
update_swap_interval-Fits s p enabled full = elim (Option-cases (change_config s (average s))) [
  | inl e ↦
      let (b, state, result) = update_full s none enabled full e in
      subst₂ Good (sym state) (sym result) (
        apply_better-Fits s _ b (average s)
            (subst (λ t. Fits (Option.get_or t s) (average s)) e (configured-Fits s (average s) p)),
        apply_better-window s _ b,
      )
  | inr (t, e) ↦
      let (b, state, result) = update_full s (some t) enabled full e in
      let (w, v, m, i) =
        apply_better-window (clear_window t) (get_time (average s) off + frame_margin) b in
      subst₂ Good (sym state) (sym result) (
        apply_better-Fits (clear_window t) _ b (average s)
            (subst (λ t. Fits (Option.get_or t s) (average s)) e (configured-Fits s (average s) p)),
        (w, v),
      )
]
  where
    Good : SwappyCommon → Bool → Type 0
    Good s' r = Fits s' (average s) × Settles s s' r

shorter_le : (period n : ℕ) → period * (n - 1) ≤ period * n
shorter_le period n =
    mul-le-mul {n₁ = period} {m₁ = n - 1} {n₂ = period} {m₂ = n} (omega arith) (omega arith)

-- In automatic mode the app's swap interval is not a lower bound. With pipelining on, when the frame time
-- with its margin is below one refresh period, the app's swap interval is above one refresh period, and one
-- refresh period less than the current interval is at least the app's swap interval and longer than the
-- frame time with its margin and the hysteresis, the update changes the configuration to a swap period that
-- is shorter than the app's swap interval.
change_config_below_swap_interval :
    (s : SwappyCommon) (d : FrameDuration)
    → s.pipeline_mode ≡ on
    → get_time d on + frame_margin < s.refresh_period
    → s.refresh_period < s.swap_interval_ns
    → s.swap_interval_ns ≤ s.refresh_period * (s.auto_swap_interval - 1)
    → get_time d on + frame_margin + edge_hysteresis < s.refresh_period * (s.auto_swap_interval - 1)
    → (t : SwappyCommon) × (change_config s d ≡ some t)
      × (t.swap_interval_ns ≡ s.swap_interval_ns)
      × (t.refresh_period * t.auto_swap_interval < t.swap_interval_ns)
unfolding swap_faster calculate_swap_interval
change_config_below_swap_interval s d mode light asked room edge = (
  swap_faster s d (chosen s d),
  change_fast s d (ground (arith, mode, shorter_le s.refresh_period s.auto_swap_interval))
      (ground arith),
  refl,
  ground arith,
)
