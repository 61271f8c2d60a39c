-- ===== src/SwappyCommon/Window.antt =====
-- The sliding window of frame durations of swappy/common/SwappyCommon.cpp.
use gamesdk.Prelude.{◌+◌, ◌*◌, ◌≤◌, ◌≡◌, List, [], ◌∷◌, ◌++◌, length, All, arith}
use gamesdk.SwappyCommon.{
  SwappyCommon, FrameDuration, no_duration, add_duration, frame_duration_samples,
}

-- The sum of the durations, which the class keeps in a member.
abbrev pub total : List FrameDuration → FrameDuration
total [] = no_duration
total (d ∷ ds) = record {
  cpu_time = d.cpu_time + (total ds).cpu_time;
  gpu_time = d.gpu_time + (total ds).gpu_time;
}

-- A duration as the constructor makes it: each time is at most 100 ms.
abbrev pub IsShort : FrameDuration → Type 0
IsShort d = (d.cpu_time ≤ 100000000) × (d.gpu_time ≤ 100000000)

pub record IsWindow (s : SwappyCommon) : Type 0 where
  pub few : length s.frame_durations ≤ frame_duration_samples
  pub summed : s.frame_durations_sum ≡ total s.frame_durations
  pub short : All IsShort s.frame_durations

-- The state after a duration has been added behind the window `ds`.
Added : SwappyCommon → List FrameDuration → FrameDuration → SwappyCommon
Added s ds d = record s {
  frame_durations = ds ++ d ∷ [];
  frame_durations_sum = add_duration (total ds) d;
}

-- The sum of a window of at most 300 durations is at most 30 s.
pub total-IsShort :
    (ds : List FrameDuration)
    → All IsShort ds
    → ((total ds).cpu_time ≤ 100000000 * length ds) × ((total ds).gpu_time ≤ 100000000 * length ds)
total-IsShort [] h = (omega arith, omega arith)
total-IsShort (d ∷ ds) (p, h) = let (a, b) = total-IsShort ds h in (omega arith, omega arith)
