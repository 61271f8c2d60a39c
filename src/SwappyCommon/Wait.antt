-- ===== src/SwappyCommon/Wait.antt =====
-- The waits of swappy/common/SwappyCommon.cpp: how long they take, and what they leave.
use gamesdk.Prelude.{
  ℕ, ◌+◌, ◌-◌, ◌*◌, ◌/◌, ◌≤◌, ◌≡◌, Bool, true, false, some, List, ◌∷◌, ◌++◌, length, replicate, max,
  arith,
}
use gamesdk.SwappyCommon.{SwappyCommon, FrameDuration, add_frame_duration}
use gamesdk.SwappyCommon.Pacing.{wait_until, update_swap_duration}

-- A state that differs in what `wakeClient` changes, with `frame` as its current frame.
abbrev pub Woken : SwappyCommon → ℕ → SwappyCommon → Type 0
Woken s frame s' = (t : ℕ) × (s' ≡ record s { current_frame = frame; current_frame_timestamp = t })

-- The wait ends with its target: the current frame is the target, or later if it was later before.
abbrev Waited : SwappyCommon → ℕ → List ℕ → Type 0
Waited s target wakes =
    (s' : SwappyCommon) × (left : List ℕ) × (wait_until target s wakes ≡ some (s', left))
    × Woken s (max s.current_frame target) s'
    × (length left + (target - s.current_frame) ≡ length wakes)

-- The wait for the last frame: each answer that it is not complete costs one frame.
abbrev answers : ℕ → List Bool → List Bool
answers k rest = replicate k false ++ true ∷ rest

-- What a paced wait leaves: the frame it ends at, the presentation time put off by the late frames, and the
-- frame's duration in the window.
abbrev pub Paced : SwappyCommon → ℕ → FrameDuration → SwappyCommon → Type 0
Paced s k d s' =
    (s'.current_frame ≡ max s.current_frame s.target_frame + k)
    × (s'.presentation_time ≡ s.presentation_time + k * s.refresh_period)
    × (s'.frame_durations ≡ (add_frame_duration s d).frame_durations)
    × (s'.frame_durations_sum ≡ (add_frame_duration s d).frame_durations_sum)

-- The swap duration is at most half a refresh period, and never above both its old value and the new
-- measurement.
pub update_swap_duration_bounded :
    (s : SwappyCommon) (duration : ℕ)
    → ((update_swap_duration s duration).swap_duration ≤ s.refresh_period / 2)
      × ((update_swap_duration s duration).swap_duration ≤ max s.swap_duration duration)
unfolding update_swap_duration
update_swap_duration_bounded s duration = (ground arith, ground arith)
