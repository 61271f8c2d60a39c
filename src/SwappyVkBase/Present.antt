-- ===== src/SwappyVkBase/Present.antt =====
-- swappy/vulkan/SwappyVkFallback.cpp and SwappyVkGoogleDisplayTiming.cpp: the two implementations of
-- SwappyVkBase. What Vulkan, the clock and the display answer during a call is an argument, and so are the answers
-- of `lastFrameIsCompleted` and `getLastFenceTime`, since the waiting thread runs meanwhile. The fence timeout, which
-- SwappyCommon only stores, is kept here.
use gamesdk.Prelude.{
  ℕ, Bool, false, Option, none, some, List, [], ◌∷◌, map, ◌==◌, if◌then◌else◌, ◌>>=◌, add_u32,
}
use gamesdk.SwappyCommon.{SwappyCommon, RefreshRate}
use gamesdk.SwappyCommon.Pacing.{on_pre_swap, on_post_swap}
use gamesdk.SwappyCommon.Refresh.{set_auto_swap_interval, set_auto_pipeline_mode}
use gamesdk.SwappyVkBase.{
  VkResult, success, error_initialization_failed, QueueSyncs, no_syncs, Made, Submit, Injected,
  initialize_vk_sync_objects, inject_fence,
}

pub record SwappyVkBase : Type 0 where
  pub common : SwappyCommon
  pub enabled : Bool
  pub fence_timeout_ns : ℕ
  pub next_present_id : ℕ
  pub queues : List (ℕ × QueueSyncs)

-- The entries of the maps at a queue; a queue that is not known has none.
unfoldable pub queue_at : List (ℕ × QueueSyncs) → ℕ → QueueSyncs
queue_at [] queue = no_syncs
queue_at ((k, q) ∷ queues) queue = if k == queue then q else queue_at queues queue

unfoldable pub set_queue : List (ℕ × QueueSyncs) → ℕ → QueueSyncs → List (ℕ × QueueSyncs)
set_queue [] queue q = (queue, q) ∷ []
set_queue ((k, r) ∷ queues) queue q =
    if k == queue then (k, q) ∷ queues else (k, r) ∷ set_queue queues queue q

-- `VkPresentInfoKHR`: what the application presents.
pub record PresentInfo : Type 0 where
  pub next : ℕ
  pub wait_semaphores : List ℕ
  pub swapchains : List ℕ
  pub image_indices : List ℕ

-- `VkPresentTimeGOOGLE`.
pub record PresentTime : Type 0 where
  pub present_id : ℕ
  pub desired_present_time : ℕ

-- The pNext of the structure that vkQueuePresentKHR gets: null, the application's, or present times before the
-- application's.
pub data PresentNext : Type 0 where
  null : PresentNext
  given : ℕ → PresentNext
  times : ℕ → List PresentTime → PresentNext

-- What vkQueuePresentKHR gets; a semaphore is none where the variable was never written.
pub record QueuedPresent : Type 0 where
  pub next : PresentNext
  pub wait_semaphores : List (Option ℕ)
  pub swapchains : List ℕ
  pub image_indices : List ℕ

-- What the surroundings of one call answer.
pub record PresentSurroundings : Type 0 where
  pub create : ℕ → Made
  pub pending_work : Bool
  pub submit_result : VkResult
  pub before_wait : ℕ
  pub wakes : List ℕ
  pub complete : List Bool
  pub gpu_time : ℕ
  pub after_wait : ℕ
  pub present_result : VkResult
  pub after_swap : ℕ
  pub rates : Option (List RefreshRate)
  pub frame_start : ℕ

-- What a call leaves: the object, the submission and the presentation that it made, and its result.
pub record Presented : Type 0 where
  pub state : SwappyVkBase
  pub submit : Option Submit
  pub present : Option QueuedPresent
  pub result : VkResult

abbrev pub failed_at : SwappyVkBase → VkResult → Presented
failed_at s r = record { state = s; submit = none; present = none; result = r }

-- The call of vkQueuePresentKHR and `onPostSwap`.
unfoldable pub present_and_finish :
    SwappyVkBase → Option Submit → QueuedPresent → PresentSurroundings → Option Presented
present_and_finish s submit p e = do
  c ← on_post_swap s.common e.after_swap e.wakes e.complete e.gpu_time e.rates e.frame_start
  some (record {
    state = record s { common = c };
    submit = submit;
    present = some p;
    result = e.present_result;
  })

-- The fallback builds a structure that waits for the semaphore and passes the application's.
abbrev pub as_given : PresentInfo → QueuedPresent
as_given info = record {
  next = given info.next;
  wait_semaphores = map some info.wait_semaphores;
  swapchains = info.swapchains;
  image_indices = info.image_indices;
}

abbrev pub present_time : SwappyVkBase → PresentTime
present_time s = record {
  present_id = s.next_present_id;
  desired_present_time = s.common.presentation_time;
}

abbrev pub timed : SwappyVkBase → PresentInfo → PresentNext
timed s info = times info.next (map (λ swapchain. present_time s) info.swapchains)

abbrev pub replaced : SwappyVkBase → Option ℕ → PresentInfo → QueuedPresent
replaced s semaphore info = record {
  next = if s.common.presentation_time_needed then timed s info else null;
  wait_semaphores = semaphore ∷ [];
  swapchains = info.swapchains;
  image_indices = info.image_indices;
}

-- Which of the two implementations.
pub data Kind : Type 0 where
  fallback google_display_timing : Kind

-- After `onPreSwap`.
unfoldable pub present_injected :
    Kind → SwappyVkBase → Injected → PresentInfo → PresentSurroundings → Option Presented
unfolding present_and_finish
present_injected fallback s i info e = present_and_finish s i.submit (as_given info) e
present_injected google_display_timing s i info e =
    present_and_finish (record s { next_present_id = add_u32 s.next_present_id 1 }) i.submit
      (replaced s i.semaphore info) e

-- After `injectFence`: a submission that failed is the result.
unfoldable pub present_prepared :
    Kind → SwappyVkBase → Injected → PresentInfo → PresentSurroundings → Option Presented
unfolding present_injected
present_prepared kind s i info e = elim i.result [
  | success ↦ (do
    c ← on_pre_swap s.common e.before_wait e.wakes e.complete e.gpu_time e.after_wait
    present_injected kind (record s { common = c }) i info e)
  | _ ↦ some (record { state = s; submit = i.submit; present = none; result = i.result })
]

abbrev pub at_queue : SwappyVkBase → ℕ → QueueSyncs → SwappyVkBase
at_queue s queue q = record s { queues = set_queue s.queues queue q }

-- After `initializeVkSyncObjects`, with its result.
unfoldable pub present_initialized :
    Kind
    → SwappyVkBase
    → ℕ
    → QueueSyncs
    → VkResult
    → PresentInfo
    → PresentSurroundings
    → Option Presented
unfolding present_prepared
present_initialized kind s queue q success info e = do
  i ← inject_fence info.wait_semaphores e.submit_result q
  present_prepared kind (at_queue s queue i.syncs) i info e
present_initialized kind s queue q r info e = some (failed_at (at_queue s queue q) r)

-- `doQueuePresent` of both; none is a null pointer that is read, or a wait that does not end.
unfoldable pub do_queue_present :
    Kind → SwappyVkBase → ℕ → PresentInfo → PresentSurroundings → Option Presented
unfolding present_initialized
do_queue_present kind s queue info e =
    let (q, r) = initialize_vk_sync_objects e.create e.pending_work (queue_at s.queues queue) in
    if s.enabled
    then present_initialized kind s queue q r info e
    else some (failed_at s error_initialization_failed)

-- `doGetRefreshCycleDuration`: the object, and the duration unless the result is false. `answer` is what
-- vkGetRefreshCycleDurationGOOGLE returns.
unfoldable pub do_get_refresh_cycle_duration :
    Kind → SwappyVkBase → VkResult → SwappyVkBase × Option ℕ
do_get_refresh_cycle_duration fallback s answer =
    if s.enabled
    then (record s { common = set_auto_pipeline_mode s.common false }, some s.common.refresh_period)
    else (s, none)
do_get_refresh_cycle_duration google_display_timing s success =
    (s, if s.enabled then some s.common.refresh_period else none)
do_get_refresh_cycle_duration google_display_timing s r = (s, none)

-- The setters that pass on to SwappyCommon.
unfoldable pub base_set_auto_swap_interval : SwappyVkBase → Bool → SwappyVkBase
base_set_auto_swap_interval s enabled = record s {
  common = set_auto_swap_interval s.common enabled;
}

unfoldable pub base_set_auto_pipeline_mode : SwappyVkBase → Bool → SwappyVkBase
base_set_auto_pipeline_mode s enabled = record s {
  common = set_auto_pipeline_mode s.common enabled;
}

unfoldable pub base_set_max_auto_swap_interval_ns : SwappyVkBase → ℕ → SwappyVkBase
base_set_max_auto_swap_interval_ns s max = record s {
  common = record s.common { auto_swap_interval_threshold_ns = max };
}

unfoldable pub base_set_fence_timeout : SwappyVkBase → ℕ → SwappyVkBase
base_set_fence_timeout s t = record s { fence_timeout_ns = t }
