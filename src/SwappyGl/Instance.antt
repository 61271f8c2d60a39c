-- ===== src/SwappyGl/Instance.antt =====
-- What the functions of swappy/opengl/SwappyGL.cpp promise.
use gamesdk.Prelude.{◌+◌, ◌≤◌, ◌≡◌, ap, ◌∙◌, true, false, none, some, [], ◌∷◌, ◌>>=◌, arith}
use gamesdk.SwappyCommon.{SwappyCommon}
use gamesdk.SwappyCommon.Pacing.{on_pre_swap}
use gamesdk.SwappyGl.{
  SwappyGl, presentation_time_call, Surroundings, set_presentation_time, swap_prepared,
  swap_internal, enable_stats, no_frames,
}

-- Statistics that are off and are enabled twice are off again: the second call of `enableStats(true)` drops
-- them. Swappy must be enabled, and EGL supports statistics.
enable_stats_twice :
    (s : SwappyGl)
    → s.enable_swappy ≡ true
    → s.frame_statistics ≡ none
    → (enable_stats (some s) true true ≡ some (record s { frame_statistics = some no_frames }))
      × (enable_stats (enable_stats (some s) true true) true true ≡ some s)
unfolding enable_stats
enable_stats_twice s enabled off = (ground (arith, enabled, off), ground (arith, enabled, off))

-- A swap whose presentation time cannot be set, after a wait that ends, returns false without swapping the
-- buffers: its only EGL call is the one that failed, and the work after the swap, which starts the next
-- frame, is not done either.
pub swap_internal_failed :
    (c c1 : SwappyCommon) (e : Surroundings)
    → on_pre_swap c e.before_wait e.wakes e.complete e.gpu_time e.after_wait ≡ some c1
    → c1.presentation_time_needed ≡ true
    → c1.refresh_period + e.at_presentation ≤ c1.presentation_time + e.sf_offset
    → e.presentation_ok ≡ false
    → swap_internal c e
      ≡ some (record {
        common = c1;
        calls = presentation_time_call c1.presentation_time ∷ [];
        result = false;
      })
unfolding swap_internal swap_prepared set_presentation_time
swap_internal_failed c c1 e before needed far failed =
    ap (λ r. r >>= λ x. swap_prepared x e) before ∙ ground (arith, needed, failed)
