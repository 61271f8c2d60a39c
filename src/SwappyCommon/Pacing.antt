-- ===== src/SwappyCommon/Pacing.antt =====
-- swappy/common/SwappyCommon.cpp: waiting for the target frame, and what happens before and after a swap.
-- The Choreographer thread's calls of `wakeClient` during a wait are a list of clock readings, and the
-- answers of `lastFrameIsComplete` a list of Booleans; a wait that outlasts its list has no result.
use gamesdk.Prelude.{
  ℕ, ◌+◌, ◌-◌, ◌*◌, ◌/◌, Bool, true, false, Option, none, some, List, [], ◌∷◌, ltb, leb,
  if◌then◌else◌, ◌>>=◌,
}
use gamesdk.SwappyCommon.{SwappyCommon, RefreshRate, frame_duration, add_frame_duration, is_on}
use gamesdk.SwappyCommon.Refresh.{update_swap_interval, update_display_timings}

-- `wakeClient`; the time stamp is padded by a millisecond. What it returns is the swap duration of the state.
unfoldable pub wake_client : SwappyCommon → ℕ → SwappyCommon
wake_client s now = record s {
  current_frame = s.current_frame + 1;
  current_frame_timestamp = now + s.swap_duration + 1000000;
}

-- The wait for `mCurrentFrame >= target`, with the wakes that are left after it.
unfoldable pub wait_until : ℕ → SwappyCommon → List ℕ → Option (SwappyCommon × List ℕ)
wait_until target s [] = if leb target s.current_frame then some (s, []) else none
wait_until target s (t ∷ wakes) =
    let rest = wait_until target (wake_client s t) wakes in
    if leb target s.current_frame then some (s, t ∷ wakes) else rest

-- `waitUntilTargetFrame` and `waitOneFrame`.
unfoldable pub wait_until_target_frame : SwappyCommon → List ℕ → Option (SwappyCommon × List ℕ)
unfolding wait_until
wait_until_target_frame s wakes = wait_until s.target_frame s wakes

unfoldable pub wait_one_frame : SwappyCommon → List ℕ → Option (SwappyCommon × List ℕ)
unfolding wait_until
wait_one_frame s wakes = wait_until (s.current_frame + 1) s wakes

-- The loop of `waitForNextFrame`, with the number of late frames as its last result.
unfoldable pub wait_for_last_frame :
    List Bool → SwappyCommon → List ℕ → ℕ → Option (SwappyCommon × ℕ)
unfolding wait_one_frame
wait_for_last_frame [] s wakes late = none
wait_for_last_frame (true ∷ answers) s wakes late = some (s, late)
wait_for_last_frame (false ∷ answers) s wakes late = do
  (s', left) ← wait_one_frame s wakes
  wait_for_last_frame answers s' left (late + 1)

-- `mRefreshPeriod * mAutoSwapInterval <= mAutoSwapIntervalThresholdNS`.
abbrev pub is_paced : SwappyCommon → Bool
is_paced s = leb (s.refresh_period * s.auto_swap_interval) s.auto_swap_interval_threshold_ns

-- `waitForNextFrame` at the time `now`, with the GPU time of the previous frame.
unfoldable pub wait_for_next_frame :
    SwappyCommon → ℕ → List ℕ → List Bool → ℕ → Option (SwappyCommon × Bool)
unfolding wait_until_target_frame wait_for_last_frame
wait_for_next_frame s now wakes answers gpu_time =
    let duration = frame_duration (now - s.start_frame_time) gpu_time in
    if is_paced s
    then (do
      (s1, left) ← wait_until_target_frame s wakes
      (s2, late) ← wait_for_last_frame answers s1 left 0
      let s3 = record s2 { presentation_time = s2.presentation_time + late * s2.refresh_period }
      some (add_frame_duration s3 duration, true))
    else some (add_frame_duration s duration, false)

-- `onPreSwap`; `later` is the clock after the wait.
unfoldable pub on_pre_swap : SwappyCommon → ℕ → List ℕ → List Bool → ℕ → ℕ → Option SwappyCommon
unfolding wait_for_next_frame
on_pre_swap s now wakes answers gpu_time later =
    if is_on s.pipeline_mode
    then (do
      (s', needed) ← wait_for_next_frame s now wakes answers gpu_time
      some (record s' { presentation_time_needed = needed; swap_time = later }))
    else some (record s { presentation_time_needed = is_paced s; swap_time = later })

-- `updateSwapDuration`: a weighted mean, at most half the refresh period.
unfoldable pub update_swap_duration : SwappyCommon → ℕ → SwappyCommon
update_swap_duration s duration =
    let mean = s.swap_duration * 4 / 5 + duration / 5 in
    record s {
      swap_duration = if ltb (s.refresh_period / 2) mean then s.refresh_period / 2 else mean;
    }

unfoldable pub start_frame : SwappyCommon → ℕ → SwappyCommon
start_frame s now =
    let intervals = if is_on s.pipeline_mode then 2 else 1 in
    record s {
      target_frame = s.current_frame + s.auto_swap_interval;
      presentation_time =
          s.current_frame_timestamp + s.auto_swap_interval * intervals * s.refresh_period;
      start_frame_time = now;
    }

-- `onPostSwap` from `updateSwapInterval` on; the callback on a change is left out.
unfoldable pub next_frame : SwappyCommon → Option (List RefreshRate) → ℕ → SwappyCommon
next_frame s rates later =
    start_frame (update_display_timings (update_swap_interval s).0 rates) later

-- `onPostSwap`; `now` is the time after the swap and `later` the time when the next frame starts.
unfoldable pub on_post_swap :
    SwappyCommon → ℕ → List ℕ → List Bool → ℕ → Option (List RefreshRate) → ℕ → Option SwappyCommon
unfolding wait_for_next_frame
on_post_swap s now wakes answers gpu_time rates later =
    let s1 = update_swap_duration s (now - s.swap_time) in
    if is_on s1.pipeline_mode then some (next_frame s1 rates later) else (do
      (s2, needed) ← wait_for_next_frame s1 now wakes answers gpu_time
      some (next_frame s2 rates later))
