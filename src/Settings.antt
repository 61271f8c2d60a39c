-- ===== src/Settings.antt =====
-- swappy/common/Settings.h and Settings.cpp: the settings of Swappy and their listeners. A listener is a function of
-- the settings that it reads and of the state of the program, `S`. None of the program's listeners calls a setter.
-- The singleton is none before its first use and after a reset.
pub mod Effect
mod Tests
use gamesdk.Prelude.{ℕ, Bool, true, Option, none, some, List, [], ◌∷◌, ◌++◌}

pub record DisplayTimings : Type 0 where
  pub refresh_period : ℕ
  pub app_offset : ℕ
  pub sf_offset : ℕ

pub record Values : Type 0 where
  pub display_timings : DisplayTimings
  pub swap_interval_ns : ℕ
  pub use_affinity : Bool

abbrev pub default_values : Values
default_values = record {
  display_timings = record { refresh_period = 0; app_offset = 0; sf_offset = 0 };
  swap_interval_ns = 16666667;
  use_affinity = true;
}

abbrev pub Listener : Type 0 → Type 0
Listener S = Values → S → S

pub record Settings (S : Type 0) : Type 0 where
  pub values : Values
  pub listeners : List (Listener S)

module _ {S : Type 0} where
  -- `getInstance` makes the instance on its first call; `reset` drops it, listeners included.
  unfoldable pub get_instance : Option (Settings S) → Settings S
  get_instance none = record { values = default_values; listeners = [] }
  get_instance (some s) = s

  unfoldable pub reset : Option (Settings S) → Option (Settings S)
  reset instance_ = none

  unfoldable pub add_listener : Listener S → Settings S → Settings S
  add_listener l s = record s { listeners = s.listeners ++ l ∷ [] }

  -- `notifyListeners`, in the order of their registration.
  unfoldable pub notify_listeners : List (Listener S) → Values → S → S
  notify_listeners [] v world = world
  notify_listeners (l ∷ listeners) v world = notify_listeners listeners v (l v world)

  abbrev pub changed : Settings S → Values → S → Settings S × S
  changed s v world = (record s { values = v }, notify_listeners s.listeners v world)

  unfoldable pub set_display_timings : DisplayTimings → Settings S → S → Settings S × S
  unfolding notify_listeners
  set_display_timings t s world = changed s (record s.values { display_timings = t }) world

  unfoldable pub set_swap_interval_ns : ℕ → Settings S → S → Settings S × S
  unfolding notify_listeners
  set_swap_interval_ns n s world = changed s (record s.values { swap_interval_ns = n }) world

  unfoldable pub set_use_affinity : Bool → Settings S → S → Settings S × S
  unfolding notify_listeners
  set_use_affinity tf s world = changed s (record s.values { use_affinity = tf }) world
