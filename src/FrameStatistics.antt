-- ===== src/FrameStatistics.antt =====
-- swappy/common/FrameStatistics.h and FrameStatistics.cpp: the statistics of presented frames. A time is an
-- EGLnsecsANDROID that is not negative. What EGL answers is an argument of each call. The log is left out.
pub mod Buckets
mod Tests
use gamesdk.Prelude.{
  ℕ, zero, suc, ◌+◌, ◌-◌, ◌*◌, ◌/◌, ◌%◌, ◌^◌, Bool, true, false, Option, none, some, List, [], ◌∷◌,
  ◌++◌, ltb, ◌==◌, if◌then◌else◌, length, modify, replicate, min, u32, u64, add_u64,
}

-- `SwappyStats` of include/swappy/swappyGL_extra.h; each list is an array of MAX_FRAME_BUCKETS, 6.
pub record SwappyStats : Type 0 where
  pub total_frames : ℕ
  pub idle_frames : List ℕ
  pub late_frames : List ℕ
  pub offset_from_previous_frame : List ℕ
  pub latency_frames : List ℕ

abbrev pub max_frame_buckets : ℕ
max_frame_buckets = 6

abbrev pub no_buckets : List ℕ
no_buckets = replicate max_frame_buckets 0

abbrev pub no_stats : SwappyStats
no_stats = record {
  total_frames = 0;
  idle_frames = no_buckets;
  late_frames = no_buckets;
  offset_from_previous_frame = no_buckets;
  latency_frames = no_buckets;
}

-- `EGL::FrameTimestamps` of swappy/opengl/EGL.h.
pub record FrameTimestamps : Type 0 where
  pub requested : ℕ
  pub rendering_completed : ℕ
  pub composition_latched : ℕ
  pub presented : ℕ

pub record EglFrame : Type 0 where
  pub dpy : ℕ
  pub surface : ℕ
  pub id : ℕ
  pub start_frame_time : ℕ

pub record FrameStatistics : Type 0 where
  pub pending_frames : List EglFrame
  pub prev_frame_time : ℕ
  pub stats : SwappyStats

-- `end - start` as a uint64_t.
abbrev pub delta_u64 : ℕ → ℕ → ℕ
delta_u64 start end = (end + (u64 - start % u64)) % u64

-- The quotient is cut to a uint32_t before the minimum is taken. The array has no element of index 6: a write
-- there, which is undefined in the source, is no write.
unfoldable pub update_frames : ℕ → ℕ → ℕ → List ℕ → List ℕ
update_frames period start end stat =
    modify stat (min (delta_u64 start end / period % u32) max_frame_buckets) (λ n. add_u64 n 1)

module _ (period : ℕ) where
  unfoldable pub update_idle_frames : FrameTimestamps → SwappyStats → SwappyStats
  update_idle_frames f st = record st {
    idle_frames = update_frames period f.rendering_completed f.composition_latched st.idle_frames;
  }

  unfoldable pub update_late_frames : FrameTimestamps → SwappyStats → SwappyStats
  update_late_frames f st = record st {
    late_frames = update_frames period f.requested f.presented st.late_frames;
  }

  unfoldable pub update_latency_frames : FrameTimestamps → ℕ → SwappyStats → SwappyStats
  update_latency_frames f start st = record st {
    latency_frames = update_frames period start f.presented st.latency_frames;
  }

  -- 0 stands for no previous frame.
  unfoldable pub update_offset_from_previous_frame : FrameTimestamps → ℕ → SwappyStats → SwappyStats
  update_offset_from_previous_frame f prev st = if prev == 0 then st else record st {
    offset_from_previous_frame =
        update_frames period prev f.presented st.offset_from_previous_frame;
  }

  unfoldable pub record_frame : FrameTimestamps → EglFrame → FrameStatistics → FrameStatistics
  unfolding update_idle_frames update_late_frames update_latency_frames
      update_offset_from_previous_frame
  record_frame f frame s = record s {
    stats = update_latency_frames f frame.start_frame_time (
        update_offset_from_previous_frame f s.prev_frame_time (
          update_late_frames f (
            update_idle_frames f
              (record s.stats { total_frames = add_u64 s.stats.total_frames 1 }))));
    prev_frame_time = f.presented;
  }

  -- The last frame of the list that starts with `frame`.
  abbrev pub last_of : EglFrame → List EglFrame → EglFrame
  last_of frame [] = frame
  last_of frame (g ∷ frames) = last_of g frames

  -- More than MAX_FRAME_LAG, 10, frames behind; the ids are uint64_t.
  abbrev pub is_lagging : Option ℕ → EglFrame → Bool
  is_lagging none frame = false
  is_lagging (some next) frame = ltb 10 (delta_u64 frame.id next)

  -- `capture` from the test of the lag on: the pending frames are not empty, and `frame` is their front.
  unfoldable pub capture_front :
      Option ℕ
      → EglFrame
      → List EglFrame
      → (EglFrame → Option FrameTimestamps)
      → FrameStatistics
      → FrameStatistics
  unfolding record_frame
  capture_front next frame frames timestamps s =
      let lagging = is_lagging next frame in
      let front = if lagging then last_of frame frames else frame in
      let rest = if lagging then [] else frames in
      let prev = if lagging then 0 else s.prev_frame_time in
      elim (timestamps front) [
        | none ↦ record s { pending_frames = front ∷ rest; prev_frame_time = prev }
        | some f ↦ record_frame f front (record s { pending_frames = rest; prev_frame_time = prev })
      ]

  -- `capture`: `next` is the id of the next frame, if EGL has one.
  unfoldable pub capture :
      FrameStatistics → ℕ → ℕ → ℕ → Option ℕ → (EglFrame → Option FrameTimestamps) → FrameStatistics
  unfolding capture_front
  capture s dpy surface now next timestamps =
      let added : List EglFrame = elim next [
        | none ↦ s.pending_frames
        | some id ↦
            s.pending_frames
            ++ record { dpy = dpy; surface = surface; id = id; start_frame_time = now } ∷ []
      ] in
      go added
    where
      go : List EglFrame → FrameStatistics
      go [] = s
      go (frame ∷ frames) = capture_front next frame frames timestamps s
