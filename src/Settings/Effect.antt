-- ===== src/Settings/Effect.antt =====
-- swappy/common/Settings.cpp and SwappyCommon.cpp: how a change of the settings reaches the frame pacing.
use mathlib.Core.Option
use gamesdk.Prelude.{
  ℕ, ◌≡◌, refl, ◌∙◌, Bool, true, false, not, Option, none, some, List, [], ◌∷◌, arith, ◌⊎◌, inl,
  inr, modify, get_elem?, if◌then◌else◌,
}
use gamesdk.SwappyCommon.{SwappyCommon, TimingSettings, RefreshRate, set_preferred_mode}
use gamesdk.SwappyCommon.Refresh.{
  on_settings_changed, update_display_timings, apply_timings, set_preferred_refresh_rate,
  same_settings, clear_window,
}
use gamesdk.Settings.{Settings, Values, Listener}

-- `TimingSettings::from`.
abbrev pub timing_settings : Values → TimingSettings
timing_settings v = record {
  refresh_period = v.display_timings.refresh_period;
  swap_interval_ns = v.swap_interval_ns;
}

abbrev pub current_settings : SwappyCommon → TimingSettings
current_settings s = record {
  refresh_period = s.refresh_period;
  swap_interval_ns = s.swap_interval_ns;
}

-- The next timings are the current ones, or are marked for an update.
abbrev pub IsSynced : SwappyCommon → Type 0
IsSynced s = (s.timing_settings_need_update ≡ true) ⊎ (current_settings s ≡ s.next_timing_settings)

same_settings→eq : (a b : TimingSettings) → same_settings a b ≡ true → a ≡ b
same_settings→eq a b h = ground arith

-- The choice of a display mode keeps the timings.
set_preferred_mode_keeps :
    (s : SwappyCommon) (m : Option ℕ)
    → (current_settings (set_preferred_mode s m) ≡ current_settings s)
unfolding set_preferred_mode
set_preferred_mode_keeps s none = refl
set_preferred_mode_keeps s (some m) = ground arith

choose_keeps :
    (b : Bool) (x y : SwappyCommon) (n : TimingSettings)
    → current_settings x ≡ n
    → current_settings y ≡ n
    → current_settings (if b then x else y) ≡ n
choose_keeps true x y n h k = h
choose_keeps false x y n h k = k

set_preferred_refresh_rate_keeps :
    (s : SwappyCommon) (t : ℕ)
    → current_settings (set_preferred_refresh_rate s t) ≡ current_settings s
unfolding set_preferred_refresh_rate
set_preferred_refresh_rate_keeps s t =
    choose_keeps s.has_display_manager _ s _ (set_preferred_mode_keeps s _) refl

finish_keeps :
    (s : SwappyCommon) (o : Option ℕ)
    → current_settings (
        clear_window
          (elim o [ none ↦ set_preferred_refresh_rate s s.swap_interval_ns | some mode ↦ s ]))
      ≡ current_settings s
finish_keeps s none = set_preferred_refresh_rate_keeps s s.swap_interval_ns
finish_keeps s (some m) = refl

apply_timings_lem : (s : SwappyCommon) → current_settings (apply_timings s) ≡ s.next_timing_settings
unfolding apply_timings
apply_timings_lem s =
    finish_keeps _ _
    ∙ choose_keeps _ _ _ s.next_timing_settings (set_preferred_refresh_rate_keeps _ _) refl

choose_when :
    (b : Bool) (x y : SwappyCommon) (n : TimingSettings)
    → (b ≡ true → current_settings x ≡ n)
    → (b ≡ false → current_settings y ≡ n)
    → current_settings (if b then x else y) ≡ n
choose_when true x y n h k = h refl
choose_when false x y n h k = k refl

current_of :
    (s : SwappyCommon)
    → IsSynced s
    → not s.timing_settings_need_update ≡ true
    → current_settings s ≡ s.next_timing_settings
current_of s (inl e) off = absurd (ground (arith, e))
current_of s (inr e) off = e

-- The rates that the display supports.
abbrev with_rates : SwappyCommon → Option (List RefreshRate) → SwappyCommon
with_rates s rates =
    if s.has_display_manager then record s { supported_refresh_rates = rates } else s

with_rates_next :
    (s : SwappyCommon) (rates : Option (List RefreshRate))
    → (with_rates s rates).next_timing_settings ≡ s.next_timing_settings
with_rates_next s rates = ground arith

with_rates_keeps :
    (s : SwappyCommon) (rates : Option (List RefreshRate))
    → current_settings (with_rates s rates) ≡ current_settings s
with_rates_keeps s rates = choose_keeps s.has_display_manager _ s _ refl refl

-- The next frame takes over timings that it has been told of.
pub update_display_timings_lem :
    (s : SwappyCommon) (rates : Option (List RefreshRate))
    → IsSynced s
    → current_settings (update_display_timings s rates) ≡ s.next_timing_settings
unfolding update_display_timings
update_display_timings_lem s rates h =
    choose_when (not s.timing_settings_need_update) _ _ s.next_timing_settings
      (λ e. with_rates_keeps s rates ∙ current_of s h e)
      (λ e.
        choose_when (same_settings (current_settings s) s.next_timing_settings) _ _ _
          (λ same. with_rates_keeps s rates ∙ same_settings→eq _ _ same)
          (λ other.
            apply_timings_lem (record (with_rates s rates) { timing_settings_need_update = false })
            ∙ with_rates_next s rates))

-- The listener of the object number `i`, which its constructor adds.
abbrev pub listening : ℕ → Listener (List SwappyCommon)
listening i v world = modify world i (λ c. on_settings_changed c (timing_settings v))

abbrev pub Registered : ℕ → List ℕ → Type 0
Registered i [] = ⊥
Registered i (j ∷ ids) = (j ≡ i) ⊎ Registered i ids

-- The object number `i` is there and synced.
abbrev pub SyncedAt : List SwappyCommon → ℕ → Type 0
SyncedAt world i = (c : SwappyCommon) × (get_elem? world i ≡ some c) × IsSynced c

-- It has been told of the values, too.
abbrev ToldAt : Values → List SwappyCommon → ℕ → Type 0
ToldAt v world i =
    (c : SwappyCommon) × (get_elem? world i ≡ some c)
    × IsSynced c
    × (c.next_timing_settings ≡ timing_settings v)
