-- ===== src/SwappyGl.antt =====
-- swappy/opengl/SwappyGL.cpp: the instance of SwappyGL and its static functions. none is an instance that
-- has not been made. The calls of EGL are a list of events in order, and their results, like the clock readings
-- and the answers of the display, are arguments.
pub mod Instance
mod Tests
use mathlib.Core.Option
use gamesdk.Prelude.{
  ℕ, zero, suc, ◌+◌, ◌-◌, ◌^◌, Bool, true, false, ◌&&◌, ◌||◌, not, Option, none, some, List, [],
  ◌∷◌, ◌++◌, ltb, if◌then◌else◌, ◌*◌, ◌>>=◌,
}
use gamesdk.SwappyCommon.{SwappyCommon, RefreshRate}
use gamesdk.SwappyCommon.Pacing.{on_pre_swap, on_post_swap}
use gamesdk.SwappyCommon.Refresh.{set_auto_swap_interval, set_auto_pipeline_mode}
use gamesdk.FrameStatistics.{
  FrameStatistics, EglFrame, FrameTimestamps, SwappyStats, no_stats, capture,
}

pub record SwappyGl : Type 0 where
  pub enable_swappy : Bool
  pub common : SwappyCommon
  pub fence_timeout_ns : ℕ
  pub frame_statistics : Option FrameStatistics

-- A call of EGL: eglPresentationTimeANDROID, a new sync fence, eglSwapBuffers.
pub data EglCall : Type 0 where
  presentation_time_call : ℕ → EglCall
  reset_sync_fence_call swap_buffers_call : EglCall

-- What the surroundings of one swap answer, in the order of its steps.
pub record Surroundings : Type 0 where
  pub before_wait : ℕ
  pub wakes : List ℕ
  pub complete : List Bool
  pub gpu_time : ℕ
  pub after_wait : ℕ
  pub at_presentation : ℕ
  pub sf_offset : ℕ
  pub presentation_ok : Bool
  pub swap_ok : Bool
  pub after_swap : ℕ
  pub rates : Option (List RefreshRate)
  pub frame_start : ℕ

-- What a swap leaves: the state of SwappyCommon, the EGL calls and the result.
pub record Swapped : Type 0 where
  pub common : SwappyCommon
  pub calls : List EglCall
  pub result : Bool

-- `setPresentationTime`: no call if the vsync is too near. The two differences are compared by sums.
unfoldable pub set_presentation_time : SwappyCommon → Surroundings → List EglCall × Bool
set_presentation_time c e =
    if ltb (c.presentation_time + e.sf_offset) (c.refresh_period + e.at_presentation)
    then ([], true)
    else (presentation_time_call c.presentation_time ∷ [], e.presentation_ok)

-- `swapInternal` after the presentation time has been set.
unfoldable pub swap_buffers : SwappyCommon → Surroundings → List EglCall → Option Swapped
swap_buffers c e calls = do
  c' ← on_post_swap c e.after_swap e.wakes e.complete e.gpu_time e.rates e.frame_start
  some (record {
    common = c';
    calls = calls ++ reset_sync_fence_call ∷ swap_buffers_call ∷ [];
    result = e.swap_ok;
  })

-- `swapInternal` after `onPreSwap`. If the presentation time cannot be set it returns at once.
unfoldable pub swap_prepared : SwappyCommon → Surroundings → Option Swapped
unfolding set_presentation_time swap_buffers
swap_prepared c e =
    let (calls, set) = set_presentation_time c e in
    if not c.presentation_time_needed
    then swap_buffers c e []
    else if set
    then swap_buffers c e calls
    else some (record { common = c; calls = calls; result = false })

-- `swapInternal`; none is a wait that does not end.
unfoldable pub swap_internal : SwappyCommon → Surroundings → Option Swapped
unfolding swap_prepared
swap_internal c e = do
  c1 ← on_pre_swap c e.before_wait e.wakes e.complete e.gpu_time e.after_wait
  swap_prepared c1 e

-- `swap`: a disabled instance only swaps the buffers.
unfoldable pub swap :
    Option SwappyGl → Surroundings → Option (Option SwappyGl × List EglCall × Bool)
unfolding swap_internal
swap none e = some (none, [], false)
swap (some s) e =
    if s.enable_swappy
    then (do
      r ← swap_internal s.common e
      some (some (record s { common = r.common }), r.calls, r.result))
    else some (some s, swap_buffers_call ∷ [], e.swap_ok)

-- `init`, with the instance that the constructor makes.
unfoldable pub init : Option SwappyGl → SwappyGl → Option SwappyGl × Bool
init (some s) made = (some s, false)
init none made = if made.enable_swappy then (some made, true) else (none, false)

-- The constructor, with whether SwappyCommon is valid, the system property that disables Swappy, and whether
-- the EGL functions load.
unfoldable pub new_swappy_gl : SwappyCommon → Bool → Bool → Bool → SwappyGl
new_swappy_gl common valid disabled egl_loaded = record {
  enable_swappy = valid && not disabled && egl_loaded;
  common = common;
  fence_timeout_ns = 50000000;
  frame_statistics = none;
}

abbrev pub no_frames : FrameStatistics
no_frames = record { pending_frames = []; prev_frame_time = 0; stats = no_stats }

abbrev switched : Bool → Option FrameStatistics → Option FrameStatistics
switched true none = some no_frames
switched true (some f) = none
switched false f = none

-- `enableStats`, with whether EGL supports them.
unfoldable pub enable_stats : Option SwappyGl → Bool → Bool → Option SwappyGl
enable_stats none supported enabled = none
enable_stats (some s) supported enabled =
    if s.enable_swappy && supported
    then some (record s { frame_statistics = switched enabled s.frame_statistics })
    else some s

-- `recordFrameStart`: the arguments after the instance are those of `capture`.
unfoldable pub record_frame_start :
    Option SwappyGl → ℕ → ℕ → ℕ → Option ℕ → (EglFrame → Option FrameTimestamps) → Option SwappyGl
record_frame_start none dpy surface now next timestamps = none
record_frame_start (some s) dpy surface now next timestamps = some (record s {
  frame_statistics =
      Option.map {A = FrameStatistics}
        (λ f. capture s.common.refresh_period f dpy surface now next timestamps) s.frame_statistics;
})

-- `getStats`: none leaves the caller's record as it was.
unfoldable pub get_stats : Option SwappyGl → Option SwappyStats
get_stats none = none
get_stats (some s) = Option.map {A = FrameStatistics} (λ f. f.stats) s.frame_statistics

-- `getSwapIntervalNS`; -1 as a uint64_t without an instance.
unfoldable pub get_swap_interval_ns : Option SwappyGl → ℕ
get_swap_interval_ns none = 2 ^ 64 - 1
get_swap_interval_ns (some s) = s.common.auto_swap_interval * s.common.refresh_period

-- The setters of the instance.
unfoldable pub gl_set_auto_swap_interval : Option SwappyGl → Bool → Option SwappyGl
gl_set_auto_swap_interval none enabled = none
gl_set_auto_swap_interval (some s) enabled =
    some (record s { common = set_auto_swap_interval s.common enabled })

unfoldable pub gl_set_auto_pipeline_mode : Option SwappyGl → Bool → Option SwappyGl
gl_set_auto_pipeline_mode none enabled = none
gl_set_auto_pipeline_mode (some s) enabled =
    some (record s { common = set_auto_pipeline_mode s.common enabled })

unfoldable pub set_max_auto_swap_interval_ns : Option SwappyGl → ℕ → Option SwappyGl
set_max_auto_swap_interval_ns none max = none
set_max_auto_swap_interval_ns (some s) max =
    some (record s { common = record s.common { auto_swap_interval_threshold_ns = max } })

unfoldable pub set_fence_timeout : Option SwappyGl → ℕ → Option SwappyGl
set_fence_timeout none t = none
set_fence_timeout (some s) t = some (record s { fence_timeout_ns = t })

unfoldable pub get_fence_timeout : Option SwappyGl → ℕ
get_fence_timeout none = 0
get_fence_timeout (some s) = s.fence_timeout_ns

unfoldable pub is_enabled : Option SwappyGl → Bool
is_enabled none = false
is_enabled (some s) = s.enable_swappy
