-- ===== src/SwappyVkBase/Semaphores/Tests.antt =====
-- Presentations at concrete inputs: runs, and the theorems on their semaphores.
use gamesdk.Prelude.{ℕ, ◌≡◌, refl, true, false, Option, none, some, List, [], ◌∷◌}
use gamesdk.SwappyCommon.{
  SwappyCommon, off, no_duration, add_frame_duration, frame_duration, add_duration, div_duration,
  get_time,
}
use gamesdk.SwappyCommon.Pacing.{
  on_pre_swap, on_post_swap, update_swap_duration, next_frame, start_frame,
}
use gamesdk.SwappyCommon.Refresh.{
  update_display_timings, update_swap_interval, find_better, change_config,
}
use gamesdk.SwappyVkBase.{
  QueueSyncs, success, initialize_vk_sync_objects, inject_fence, Submit, move_all,
}
use gamesdk.SwappyVkBase.Present.{
  SwappyVkBase, queue_at, set_queue, PresentInfo, PresentSurroundings, Presented, QueuedPresent,
  times, given, google_display_timing, do_queue_present,
}
use gamesdk.SwappyVkBase.Semaphores.{IsKnown, Waits, present_after_rendering}
use gamesdk.SwappyVkBase.Tests.{vk, s1, s2, context, queue, notified, one_waits}

abbrev pub common : SwappyCommon
common = record {
  using_external_choreographer = false;
  current_frame_timestamp = 0;
  current_frame = 0;
  swap_duration = 0;
  swap_time = 0;
  refresh_period = 16666667;
  frame_durations = [];
  frame_durations_sum = no_duration;
  auto_swap_interval_enabled = true;
  pipeline_mode_auto_mode = true;
  swap_interval_ns = 0;
  auto_swap_interval = 1;
  auto_swap_interval_threshold_ns = 50000000;
  swap_interval_for_new_refresh = 0;
  pipeline_mode_for_new_refresh = off;
  start_frame_time = 0;
  target_frame = 0;
  presentation_time = 0;
  presentation_time_needed = false;
  pipeline_mode = off;
  has_display_manager = false;
  next_mode_id = none;
  requested = [];
  supported_refresh_rates = none;
  next_timing_settings = record { refresh_period = 0; swap_interval_ns = 0 };
  timing_settings_need_update = false;
}

abbrev pub base : QueueSyncs → SwappyVkBase
base q = record {
  common = common;
  enabled = true;
  fence_timeout_ns = 50000000;
  next_present_id = 0;
  queues = (3, q) ∷ [];
}

abbrev pub info : PresentInfo
info = record { next = 0; wait_semaphores = 40 ∷ []; swapchains = 50 ∷ []; image_indices = 0 ∷ [] }

abbrev pub around : PresentSurroundings
around = record {
  create = vk;
  pending_work = false;
  submit_result = success;
  before_wait = 1;
  wakes = [];
  complete = true ∷ [];
  gpu_time = 0;
  after_wait = 2;
  present_result = success;
  after_swap = 3;
  rates = none;
  frame_start = 4;
}

-- The frame pacing after the presentation.
abbrev paced : SwappyCommon
paced = record common {
  swap_time = 2;
  frame_durations = record { cpu_time = 3; gpu_time = 0 } ∷ [];
  frame_durations_sum = record { cpu_time = 3; gpu_time = 0 };
  start_frame_time = 4;
  target_frame = 1;
  presentation_time = 16666667;
  presentation_time_needed = true;
}

abbrev left : QueueSyncs → ℕ → SwappyVkBase
left q n = record {
  common = paced;
  enabled = true;
  fence_timeout_ns = 50000000;
  next_present_id = n;
  queues = (3, q) ∷ [];
}

abbrev submit_first : Submit
submit_first = record { wait_semaphores = 40 ∷ []; command = 3; signal_semaphore = 2; fence = 1 }

abbrev with_times : List (Option ℕ) → QueuedPresent
with_times waits = record {
  next = times 0 (record { present_id = 0; desired_present_time = 0 } ∷ []);
  wait_semaphores = waits;
  swapchains = 50 ∷ [];
  image_indices = 0 ∷ [];
}

-- All objects are pending.
abbrev busy : QueueSyncs
busy = record {
  command_pool = some 0;
  thread = some notified;
  free = [];
  waiting = s1 ∷ s2 ∷ [];
  signaled = [];
}

abbrev timed : Presented
timed = record {
  state = left one_waits 1;
  submit = some submit_first;
  present = some (with_times (some 2 ∷ []));
  result = success;
}

abbrev unfenced : Presented
unfenced = record {
  state = left busy 1;
  submit = none;
  present = some (with_times (none ∷ []));
  result = success;
}

abbrev given_again : Presented
given_again = record {
  state = left one_waits 0;
  submit = some submit_first;
  present = some (record {
    next = given 0;
    wait_semaphores = some 40 ∷ [];
    swapchains = 50 ∷ [];
    image_indices = 0 ∷ [];
  });
  result = success;
}

abbrev known : IsKnown queue
known = record { pool = 0; keyed = refl; context = context; threaded = refl }

timed_run : do_queue_present google_display_timing (base queue) 3 info around ≡ some timed
unfolding do_queue_present initialize_vk_sync_objects inject_fence move_all queue_at set_queue
    on_pre_swap on_post_swap update_swap_duration next_frame start_frame update_display_timings
    update_swap_interval add_frame_duration frame_duration add_duration div_duration get_time
    find_better change_config
timed_run = refl

unfenced_run : do_queue_present google_display_timing (base busy) 3 info around ≡ some unfenced
unfolding do_queue_present initialize_vk_sync_objects inject_fence move_all queue_at set_queue
    on_pre_swap on_post_swap update_swap_duration next_frame start_frame update_display_timings
    update_swap_interval add_frame_duration frame_duration add_duration div_duration get_time
    find_better change_config
unfenced_run = refl

present_after_rendering_example : Waits timed (some submit_first) (some 2 ∷ [])
unfolding queue_at
present_after_rendering_example =
    present_after_rendering (base queue) 3 info around timed s1 (s2 ∷ []) refl known refl refl
      timed_run
