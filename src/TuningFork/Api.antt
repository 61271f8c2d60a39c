-- ===== src/TuningFork/Api.antt =====
-- The functions of the namespace tuningfork, which check that `s_impl` has been made: `none` is the null
-- pointer. The time is that of the time provider.
use gamesdk.Prelude.{ℕ, Option, none, some, List, ◌==◌, if◌then◌else◌}
use gamesdk.Prelude.Int.{ℤ}
use gamesdk.Double.{Arith}
use gamesdk.Annotation.{annotation_error}
use gamesdk.TuningFork.{
  TuningFork, Settings, ErrorCode, ok, tuningfork_not_initialized, invalid_annotation,
  invalid_instrument_key, set_current_annotation, start_trace, end_trace, frame_tick,
  frame_delta_time_nanos, flush,
}
use gamesdk.TuningFork.Init.{new_tuning_fork}

-- A method on the object, if there is one.
abbrev pub with_impl :
    {D : Type 0}
    → Option (TuningFork D)
    → (TuningFork D → TuningFork D × ErrorCode)
    → Option (TuningFork D) × ErrorCode
with_impl none method = (none, tuningfork_not_initialized)
with_impl (some s) method = let (s', code) = method s in (some s', code)

module _ (a : Arith) where
  open a use {Double}

  unfoldable pub init : Settings Double → ℕ → Option (TuningFork Double) × ErrorCode
  init settings now = (some (new_tuning_fork a settings now), ok)

  unfoldable pub api_frame_tick :
      Option (TuningFork Double) → ℕ → ℕ → Option (TuningFork Double) × ErrorCode
  api_frame_tick impl id t = with_impl impl (λ s. frame_tick a s id t)

  unfoldable pub api_frame_delta_time_nanos :
      Option (TuningFork Double) → ℕ → ℤ → ℕ → Option (TuningFork Double) × ErrorCode
  api_frame_delta_time_nanos impl id dt now =
      with_impl impl (λ s. frame_delta_time_nanos a s id dt now)

  -- The handle is the second result, where there is one.
  unfoldable pub api_start_trace :
      Option (TuningFork Double) → ℕ → ℕ → Option (TuningFork Double) × ErrorCode × Option ℕ
  api_start_trace none key now = (none, tuningfork_not_initialized, none)
  api_start_trace (some s) key now =
      let (s', handle) = start_trace s key now in
      elim handle [
        | none ↦ (some s', invalid_instrument_key, none)
        | some h ↦ (some s', ok, some h)
      ]

  unfoldable pub api_end_trace :
      Option (TuningFork Double) → ℕ → ℕ → Option (TuningFork Double) × ErrorCode
  api_end_trace impl h now = with_impl impl (λ s. end_trace a s h now)

  unfoldable pub api_set_current_annotation :
      Option (TuningFork Double) → List ℕ → Option (TuningFork Double) × ErrorCode
  api_set_current_annotation impl ann = with_impl impl λ s.
      let (s', id) = set_current_annotation s ann in
      (s', if id == annotation_error then invalid_annotation else ok)

  unfoldable pub api_flush : Option (TuningFork Double) → ℕ → Option (TuningFork Double) × ErrorCode
  api_flush impl t = with_impl impl (λ s. flush a s t)
