-- ===== src/Prelude/Dict.antt =====
-- A std::map whose keys are numbers: an association list in the order of its keys.
use Prim.Native.Nat.{ℕ}
use mathlib.Core.Path.{◌≡◌}
use mathlib.Core.List.{List, [], ◌∷◌}
use mathlib.Core.Option.{Option, none, some}
use native.Mathlib.Omega.{arith}
use gamesdk.Prelude.Tests.{ltb, ◌==◌, if◌then◌else◌}

module _ {ℓ} {V : Type ℓ} where
  -- `map.find(key)`.
  unfoldable pub entry_at : ℕ → List (ℕ × V) → Option V
  entry_at key [] = none
  entry_at key (entry ∷ entries) = if key == entry.0 then some entry.1 else entry_at key entries

  -- `map[key] = value`.
  unfoldable pub assign : ℕ → V → List (ℕ × V) → List (ℕ × V)
  assign key value [] = (key, value) ∷ []
  assign key value (entry ∷ entries) =
      let later = entry ∷ assign key value entries in
      if key == entry.0
      then (key, value) ∷ entries
      else if ltb key entry.0
      then (key, value) ∷ entry ∷ entries
      else later

  pub entry_at-assign :
      (key : ℕ) (value : V) (entries : List (ℕ × V))
      → entry_at key (assign key value entries) ≡ some value
  unfolding entry_at assign
  entry_at-assign key value [] = ground arith
  entry_at-assign key value (entry ∷ entries) = ground (arith, entry_at-assign key value entries)
