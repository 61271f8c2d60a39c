-- ===== src/SwappyVkBase.antt =====
-- swappy/vulkan/SwappyVkBase.h and SwappyVkBase.cpp: the sync objects of a Vulkan queue. The maps of the class
-- have the queue as their key, and a record holds what they have at one queue. A Vulkan handle is a number, and
-- the result of a call of Vulkan is an argument. The thread that waits for fences is a state machine whose steps
-- are the parts of `waitForFenceThreadMain` between two points where the lock is free; the time that it measures
-- is the GPU time among the arguments of a swap. A function without a result dereferences a null pointer in the
-- source.
pub mod Present
pub mod Steps
pub mod Fifo
pub mod Waits
pub mod Draining
pub mod Release
pub mod Creation
pub mod Destroy
pub mod Semaphores
pub mod Completion
mod Tests
use gamesdk.Prelude.{
  ℕ, zero, suc, ◌+◌, Bool, true, false, ◌||◌, not, Option, none, some, List, [], ◌∷◌, ◌++◌, ltb,
  if◌then◌else◌, length, ◌>>=◌,
}
use gamesdk.SwappyCommon.{PipelineMode, off, on}

-- The values of VkResult that the code names, and all others.
pub data VkResult : Type 0 where
  success incomplete error_device_lost error_initialization_failed : VkResult
  other : ℕ → VkResult

pub record VkSync : Type 0 where
  pub fence : ℕ
  pub semaphore : ℕ
  pub command : ℕ
  pub event : ℕ

-- Where the waiting thread is: at the condition, before it takes a sync object, in vkWaitForFences for one, or
-- at its end.
pub data Waiter : Type 0 where
  asleep taking ended : Waiter
  holding : VkSync → Waiter

pub record ThreadContext : Type 0 where
  pub running : Bool
  pub has_pending_work : Bool
  pub waiter : Waiter

-- `mCommandPool`, `mThreads`, `mFreeSyncPool`, `mWaitingSyncs` and `mSignaledSyncs` at one queue.
pub record QueueSyncs : Type 0 where
  pub command_pool : Option ℕ
  pub thread : Option ThreadContext
  pub free : List VkSync
  pub waiting : List VkSync
  pub signaled : List VkSync

abbrev pub no_syncs : QueueSyncs
no_syncs = record { command_pool = none; thread = none; free = []; waiting = []; signaled = [] }

-- What a Vulkan call that makes an object answers.
pub record Made : Type 0 where
  pub result : VkResult
  pub handle : ℕ

-- The object, or the result of the call that failed.
pub data Outcome (A : Type 0) : Type 0 where
  done : A → Outcome A
  failed : VkResult → Outcome A

infixl 5 ◌>>=!◌
abbrev pub ◌>>=!◌ : {A B : Type 0} → Outcome A → (A → Outcome B) → Outcome B
done x >>=! f = f x
failed r >>=! f = failed r

-- `if (res) return res`.
abbrev pub check : Made → Outcome ℕ
check m = elim m.result [ success ↦ done m.handle | r ↦ failed m.result ]

-- One round of the loop of `initializeVkSyncObjects`; `vk n` is the answer of the call number n: a fence, a
-- semaphore, a command buffer, the start of its recording, an event and the end of the recording.
unfoldable pub make_sync : (ℕ → Made) → ℕ → Outcome VkSync
make_sync vk n = check (vk n) >>=! λ fence. check (vk (n + 1)) >>=! λ semaphore.
    check (vk (n + 2)) >>=! λ command. check (vk (n + 3)) >>=! λ begun.
    check (vk (n + 4)) >>=! λ event. check (vk (n + 5)) >>=! λ recorded.
    done (record { fence = fence; semaphore = semaphore; command = command; event = event })

-- The loop, with the rounds left. What earlier rounds have made stays in the pool after a failure.
unfoldable pub make_syncs : ℕ → (ℕ → Made) → ℕ → QueueSyncs → QueueSyncs × VkResult
make_syncs zero vk n q = (q, success)
make_syncs (suc rounds) vk n q = elim (make_sync vk n) [
  | failed r ↦ (q, r)
  | done s ↦ make_syncs rounds vk (n + 6) (record q { free = q.free ++ s ∷ [] })
]

abbrev pub max_pending_fences : ℕ
max_pending_fences = 2

-- The thread starts at the condition. `hasPendingWork` has no initial value in the source: it is `pending`.
abbrev pub start_thread : Bool → QueueSyncs → QueueSyncs
start_thread pending q = record q {
  thread = some (record { running = true; has_pending_work = pending; waiter = asleep });
}

-- The end of `initializeVkSyncObjects`: a failure of the loop is returned before the thread is made.
abbrev pub finish_syncs : Bool → QueueSyncs × VkResult → QueueSyncs × VkResult
finish_syncs pending (q, success) = (start_thread pending q, success)
finish_syncs pending (q, r) = (q, r)

-- From the answer of vkCreateCommandPool on.
unfoldable pub create_syncs : (ℕ → Made) → Bool → VkResult → QueueSyncs → QueueSyncs × VkResult
create_syncs vk pending success q = finish_syncs pending (make_syncs max_pending_fences vk 1 q)
create_syncs vk pending r q = (q, r)

-- `initializeVkSyncObjects`. The key of the command pool is in the map as soon as its creation is tried.
unfoldable pub initialize_vk_sync_objects : (ℕ → Made) → Bool → QueueSyncs → QueueSyncs × VkResult
unfolding create_syncs
initialize_vk_sync_objects vk pending q = elim q.command_pool [
  | some pool ↦ (q, success)
  | none ↦ create_syncs vk pending (vk 0).result (record q { command_pool = some (vk 0).handle })
]

-- The loop of `reclaimSignaledFences`.
unfoldable pub move_all : List VkSync → List VkSync → List VkSync
move_all [] free = free
move_all (s ∷ signaled) free = move_all signaled (free ++ s ∷ [])

unfoldable pub reclaim_signaled_fences : QueueSyncs → Option QueueSyncs
reclaim_signaled_fences q = elim q.thread [
  | none ↦ none
  | some t ↦ some (record q { free = move_all q.signaled q.free; signaled = [] })
]

-- Whether the frame whose fence matters in a pipeline mode is complete.
unfoldable pub last_frame_is_completed : PipelineMode → QueueSyncs → Option Bool
last_frame_is_completed mode q = elim q.thread [
  | none ↦ none
  | some t ↦
      some (elim mode [
        | on ↦ ltb (length q.waiting) 2
        | off ↦ elim q.waiting [ [] ↦ true | _ ↦ false ]
      ])
]

-- The submission that `injectFence` makes.
pub record Submit : Type 0 where
  pub wait_semaphores : List ℕ
  pub command : ℕ
  pub signal_semaphore : ℕ
  pub fence : ℕ

-- What `injectFence` leaves: the queue, the semaphore that is written, if any, the submission and the result.
pub record Injected : Type 0 where
  pub syncs : QueueSyncs
  pub semaphore : Option ℕ
  pub submit : Option Submit
  pub result : VkResult

abbrev pub notify : ThreadContext → ThreadContext
notify t = record t { has_pending_work = true }

-- `injectFence` after the signaled fences have been reclaimed: `res` is the result of vkQueueSubmit.
unfoldable pub inject_reclaimed : List ℕ → VkResult → ThreadContext → QueueSyncs → Injected
inject_reclaimed waits res t q = elim q.free [
  | [] ↦ record { syncs = q; semaphore = none; submit = none; result = success }
  | s ∷ free ↦ record {
    syncs = record q { thread = some (notify t); free = free; waiting = q.waiting ++ s ∷ [] };
    semaphore = some s.semaphore;
    submit = some (record {
      wait_semaphores = waits;
      command = s.command;
      signal_semaphore = s.semaphore;
      fence = s.fence;
    });
    result = res;
  }
]

unfoldable pub inject_fence : List ℕ → VkResult → QueueSyncs → Option Injected
unfolding inject_reclaimed
inject_fence waits res q = elim q.thread [
  | none ↦ none
  | some t ↦
      some (
        inject_reclaimed waits res t
          (record q { free = move_all q.signaled q.free; signaled = [] }))
]

-- The waiting thread after it has seen whether there is a sync object to wait for.
abbrev pub next_waiter : List VkSync → Waiter
next_waiter [] = asleep
next_waiter (s ∷ waiting) = taking

-- The wait for the condition ends: the thread ends if it is not to run.
unfoldable pub wake : ThreadContext → List VkSync → Option ThreadContext
wake t waiting =
    if t.has_pending_work || not t.running
    then some (record {
      running = t.running;
      has_pending_work = false;
      waiter = if t.running then next_waiter waiting else ended;
    })
    else none

-- A step of the thread. none is a thread that waits for the condition, or has ended; the source would take the
-- front of an empty list where `taking` finds no sync object.
unfoldable pub waiter_step : QueueSyncs → ThreadContext → Option QueueSyncs
unfolding wake
waiter_step q t = elim t.waiter [
  | asleep ↦ wake t q.waiting >>= λ t'. some (record q { thread = some t' })
  | taking ↦ elim q.waiting [
    | [] ↦ none
    | s ∷ waiting ↦
        some (record q { thread = some (record t { waiter = holding s }); waiting = waiting })
  ]
  | holding s ↦ some (record q {
    thread = some (record t { waiter = next_waiter q.waiting });
    signaled = q.signaled ++ s ∷ [];
  })
  | ended ↦ none
]

-- `running = false` of `destroyVkSyncObjects`.
abbrev pub stop : ThreadContext → ThreadContext
stop t = record t { running = false }

-- The sync object that the thread has taken.
abbrev pub held : Option ThreadContext → List VkSync
held none = []
held (some t) = elim t.waiter [ holding s ↦ s ∷ [] | _ ↦ [] ]

-- The thread alone, for a number of steps or until it sleeps.
unfoldable pub run_waiter : ℕ → QueueSyncs → QueueSyncs
run_waiter zero q = q
run_waiter (suc n) q = elim q.thread [
  | none ↦ q
  | some t ↦ elim (waiter_step q t) [ none ↦ q | some q' ↦ run_waiter n q' ]
]
