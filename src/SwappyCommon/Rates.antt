-- ===== src/SwappyCommon/Rates.antt =====
-- The choice of a refresh rate in swappy/common/SwappyCommon.cpp.
use gamesdk.Prelude.{
  ℕ, suc, ◌+◌, ◌*◌, ◌≤◌, ◌<◌, ◌≡◌, refl, sym, ◌∙◌, subst, true, ◌&&◌, Option, none, some, List, [],
  ◌∷◌, leb, ltb, get_elem?, All, arith, Bool-cases, Option-cases, inl, inr, ◌⊎◌,
}
use gamesdk.SwappyCommon.{
  SwappyCommon, RefreshRate, calculate_swap_interval, is_same_duration, edge_hysteresis,
}
use gamesdk.SwappyCommon.Refresh.{Better, shorter_period, same_period, find_better, best_mode}

-- The swap period of a rate for a frame time.
abbrev pub swap_period : ℕ → RefreshRate → ℕ
swap_period frame_time i = i.period * calculate_swap_interval frame_time i.period

-- A result of the first loop: the calculated interval of a rate, whose swap period fits the frame time with the
-- hysteresis, is shorter than the current one and not below the app's swap interval.
abbrev pub IsShorter : ℕ → ℕ → ℕ → Better → Type 0
IsShorter frame_time swap_ns min_period b =
    (b.swap_interval ≡ calculate_swap_interval frame_time b.config.period)
    × (frame_time + edge_hysteresis < b.config.period * b.swap_interval)
    × (b.config.period * b.swap_interval < min_period)
    × (swap_ns ≤ b.config.period * b.swap_interval)

IsShorterIfAny : ℕ → ℕ → ℕ → Option Better → Type 0
IsShorterIfAny frame_time swap_ns min_period none = Unit
IsShorterIfAny frame_time swap_ns min_period (some b) = IsShorter frame_time swap_ns min_period b

shorter_period-IsShorter :
    (rates : List RefreshRate) (frame_time swap_ns min_period bound : ℕ) (found : Option Better)
    → min_period ≤ bound
    → IsShorterIfAny frame_time swap_ns bound found
    → IsShorterIfAny frame_time swap_ns bound
        (shorter_period rates frame_time swap_ns min_period found)
unfolding shorter_period IsShorterIfAny
shorter_period-IsShorter [] frame_time swap_ns min_period bound found m h = h
shorter_period-IsShorter (i ∷ rates) frame_time swap_ns min_period bound found m h =
    elim (Bool-cases (
      ltb (frame_time + edge_hysteresis) (swap_period frame_time i)
      && ltb (swap_period frame_time i) min_period
      && leb swap_ns (swap_period frame_time i))) [
        | inl fits ↦
            rw (fits, shorter_period)
              (shorter_period-IsShorter rates frame_time swap_ns (swap_period frame_time i) bound _
                (ground (arith, fits))
                (refl, ground (arith, fits), ground (arith, fits), ground (arith, fits)))
        | inr not ↦
            rw (not, shorter_period)
              (shorter_period-IsShorter rates frame_time swap_ns min_period bound found m h)
      ]

-- A result of the second loop: about the same swap period at a longer refresh period.
abbrev pub IsSlower : ℕ → ℕ → ℕ → Better → Type 0
IsSlower frame_time refresh interval b =
    (b.swap_interval ≡ calculate_swap_interval frame_time b.config.period)
    × (is_same_duration b.config.period b.swap_interval refresh interval ≡ true)
    × (refresh < b.config.period)

IsSlowerIfAny : ℕ → ℕ → ℕ → Option Better → Type 0
IsSlowerIfAny frame_time refresh interval none = Unit
IsSlowerIfAny frame_time refresh interval (some b) = IsSlower frame_time refresh interval b

same_period-IsSlower :
    (rates : List RefreshRate) (frame_time refresh interval : ℕ) (found : Option Better)
    → IsSlowerIfAny frame_time refresh interval found
    → IsSlowerIfAny frame_time refresh interval
        (same_period rates frame_time refresh interval found)
unfolding same_period IsSlowerIfAny
same_period-IsSlower [] frame_time refresh interval found h = h
same_period-IsSlower (i ∷ rates) frame_time refresh interval found h =
    same_period-IsSlower rates frame_time refresh interval _
      (elim (Bool-cases (
        is_same_duration i.period (calculate_swap_interval frame_time i.period) refresh interval
        && ltb refresh i.period)) [
          | inl same ↦ rw same (refl, ground (arith, same), ground (arith, same))
          | inr not ↦ rw not h
        ])

-- A better refresh rate, where one is found, is used with the interval that is calculated for it and the frame
-- time. Either its swap period is longer than the frame time by more than the hysteresis, shorter than the
-- current one and not shorter than the app's swap interval; or its swap period is the current one up to
-- 1 ms, at a longer refresh period.
find_better_fits :
    (s : SwappyCommon) (frame_time : ℕ) (b : Better)
    → find_better s frame_time ≡ some b
    → IsShorter frame_time s.swap_interval_ns (s.refresh_period * s.auto_swap_interval) b
      ⊎ IsSlower frame_time s.refresh_period s.auto_swap_interval b
unfolding find_better
find_better_fits s frame_time b e = elim (Option-cases s.supported_refresh_rates) [
  | inl missing ↦ ground (arith, e, missing)
  | inr (rates, there) ↦
      elim (Option-cases (
        shorter_period rates frame_time s.swap_interval_ns (s.refresh_period * s.auto_swap_interval)
          none)) [
            | inl long ↦ inr (
                unfold IsSlowerIfAny in
                subst (IsSlowerIfAny frame_time s.refresh_period s.auto_swap_interval)
                  {x = same_period rates frame_time s.refresh_period s.auto_swap_interval none}
                  {y = some b} (rw (there, long, find_better) at e)
                  (same_period-IsSlower rates frame_time s.refresh_period s.auto_swap_interval none
                    tt))
            | inr (c, short) ↦ inl (
                unfold IsShorterIfAny in
                subst
                  (IsShorterIfAny frame_time s.swap_interval_ns
                    (s.refresh_period * s.auto_swap_interval))
                  {x = shorter_period rates frame_time s.swap_interval_ns
                    (s.refresh_period * s.auto_swap_interval) none}
                  {y = some b} (short ∙ (rw (there, short, find_better) at e))
                  (shorter_period-IsShorter rates frame_time s.swap_interval_ns
                    (s.refresh_period * s.auto_swap_interval)
                    (s.refresh_period * s.auto_swap_interval) none (omega arith) tt))
          ]
]

-- What the loop returns: the mode it started with, when no swap period is below the least so far; else the mode
-- of a rate of the list whose swap period is below it and at most every other.
abbrev pub IsBest : List RefreshRate → ℕ → ℕ → Option ℕ → Option ℕ → Type 0
IsBest rates frame_time shortest mode result =
    (result ≡ mode) × All (λ j. shortest ≤ swap_period frame_time j) rates
    ⊎ (n : ℕ) × (i : RefreshRate) × (get_elem? rates n ≡ some i)
      × (result ≡ some i.mode_id)
      × (swap_period frame_time i < shortest)
      × All (λ j. swap_period frame_time i ≤ swap_period frame_time j) rates

IsBest-mode_taken :
    (i : RefreshRate) (rates : List RefreshRate) (frame_time shortest : ℕ) (mode result : Option ℕ)
    → swap_period frame_time i < shortest
    → IsBest rates frame_time (swap_period frame_time i) (some i.mode_id) result
    → IsBest (i ∷ rates) frame_time shortest mode result
IsBest-mode_taken i rates frame_time shortest mode result h (inl (e, least)) =
    inr (0, i, refl, e, h, (omega arith, least))
IsBest-mode_taken i rates frame_time shortest mode result h (inr (n, k, at, e, l, least)) =
    inr (suc n, k, at, e, omega arith, (omega arith, least))

IsBest-mode_passed :
    (i : RefreshRate) (rates : List RefreshRate) (frame_time shortest : ℕ) (mode result : Option ℕ)
    → shortest ≤ swap_period frame_time i
    → IsBest rates frame_time shortest mode result
    → IsBest (i ∷ rates) frame_time shortest mode result
IsBest-mode_passed i rates frame_time shortest mode result h (inl (e, least)) = inl (e, (h, least))
IsBest-mode_passed i rates frame_time shortest mode result h (inr (n, k, at, e, l, least)) =
    inr (suc n, k, at, e, l, (omega arith, least))

-- The loop over the refresh rates finds the mode with the least swap period for the frame time: if it returns
-- a mode that it did not start with, that is the mode of a rate in the list whose swap period is below the
-- initial bound and at most the swap period of every rate; otherwise no rate is below the bound.
best_mode_least :
    (rates : List RefreshRate) (frame_time shortest : ℕ) (mode : Option ℕ)
    → IsBest rates frame_time shortest mode (best_mode rates frame_time shortest mode)
unfolding best_mode
best_mode_least [] frame_time shortest mode = inl (refl, tt)
best_mode_least (i ∷ rates) frame_time shortest mode =
    elim (Bool-cases (ltb (swap_period frame_time i) shortest)) [
      | inl below ↦
          subst (IsBest (i ∷ rates) frame_time shortest mode) (sym (rw (below, best_mode) refl)) (
            IsBest-mode_taken i rates frame_time shortest mode
              (best_mode rates frame_time (swap_period frame_time i) (some i.mode_id))
              (ground (arith, below))
              (best_mode_least rates frame_time (swap_period frame_time i) (some i.mode_id)))
      | inr above ↦
          subst (IsBest (i ∷ rates) frame_time shortest mode) (sym (rw (above, best_mode) refl)) (
            IsBest-mode_passed i rates frame_time shortest mode
              (best_mode rates frame_time shortest mode) (ground (arith, above))
              (best_mode_least rates frame_time shortest mode))
    ]
