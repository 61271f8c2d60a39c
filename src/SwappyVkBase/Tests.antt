-- ===== src/SwappyVkBase/Tests.antt =====
-- The theorems on the sync objects of a queue at concrete inputs, and runs of the functions.
use mathlib.Core.List.{Perm}
use gamesdk.Prelude.{ℕ, ◌≤◌, ◌≡◌, refl, true, false, some, [], ◌∷◌, ◌++◌, length}
use gamesdk.SwappyVkBase.{
  VkSync, asleep, ThreadContext, QueueSyncs, Made, success, error_device_lost, make_sync,
  make_syncs, initialize_vk_sync_objects, inject_fence, no_syncs, run_waiter, done, waiter_step,
  move_all,
}
use gamesdk.SwappyVkBase.Release.{
  destroy_vk_sync_objects, free_command_buffers, destroy_event, destroy_semaphore, destroy_fence,
  destroy_command_pool,
}
use gamesdk.SwappyVkBase.Steps.{Steps, here, next, inject, pending, available}
use gamesdk.SwappyVkBase.Fifo.{ring, Turns, Steps-Turns, initialize-objects}
use gamesdk.SwappyVkBase.Draining.{Drains, run_waiter-Drains}

abbrev pub vk : ℕ → Made
vk n = record { result = success; handle = n }

-- The event of the first object cannot be made.
abbrev poor_vk : ℕ → Made
poor_vk n = record { result = error_device_lost; handle = n }

abbrev pub s1 : VkSync
s1 = record { fence = 1; semaphore = 2; command = 3; event = 5 }

abbrev pub s2 : VkSync
s2 = record { fence = 7; semaphore = 8; command = 9; event = 11 }

abbrev pub context : ThreadContext
context = record { running = true; has_pending_work = false; waiter = asleep }

abbrev pub queue : QueueSyncs
queue = record {
  command_pool = some 0;
  thread = some context;
  free = s1 ∷ s2 ∷ [];
  waiting = [];
  signaled = [];
}

abbrev pub notified : ThreadContext
notified = record { running = true; has_pending_work = true; waiter = asleep }

-- After one submission.
abbrev pub one_waits : QueueSyncs
one_waits = record {
  command_pool = some 0;
  thread = some notified;
  free = s2 ∷ [];
  waiting = s1 ∷ [];
  signaled = [];
}

initialized_queue : (initialize_vk_sync_objects vk false no_syncs).0 ≡ queue
unfolding initialize_vk_sync_objects make_syncs make_sync
initialized_queue = refl

submission : Steps (initialize_vk_sync_objects vk false no_syncs).0 one_waits
unfolding initialize_vk_sync_objects make_syncs make_sync inject_fence move_all
submission = next here (
    inject
      (record {
        syncs = one_waits;
        semaphore = some 2;
        submit =
            some (record { wait_semaphores = []; command = 3; signal_semaphore = 2; fence = 1 });
        result = success;
      })
      [] success refl refl)

first_made : make_sync vk 1 ≡ done s1
unfolding make_sync
first_made = refl

second_made : make_sync vk 7 ≡ done s2
unfolding make_sync
second_made = refl

Steps-Turns_example : Turns (ring (initialize_vk_sync_objects vk false no_syncs).0) (ring one_waits)
Steps-Turns_example = Steps-Turns submission

initialize-objects_example :
    Perm (pending one_waits ++ available one_waits) (s1 ∷ s2 ∷ [])
    × (length (pending one_waits) ≤ 2)
initialize-objects_example = initialize-objects vk false refl first_made second_made submission

run_waiter-Drains_example : Drains one_waits (run_waiter 7 one_waits)
run_waiter-Drains_example =
    run_waiter-Drains vk false s1 s2 notified refl first_made second_made submission refl refl

-- A destruction after one submission.
destroyed :
    destroy_vk_sync_objects 6 one_waits
    ≡ free_command_buffers 9
      ∷ destroy_event 11
      ∷ destroy_semaphore 8
      ∷ destroy_fence 7
      ∷ free_command_buffers 3
      ∷ destroy_event 5
      ∷ destroy_semaphore 2
      ∷ destroy_fence 1
      ∷ destroy_command_pool 0
      ∷ []
unfolding destroy_vk_sync_objects waiter_step
destroyed = refl
