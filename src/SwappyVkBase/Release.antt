-- ===== src/SwappyVkBase/Release.antt =====
-- swappy/vulkan/SwappyVkBase.cpp: `destroyVkSyncObjects` at one queue.
use gamesdk.Prelude.{ℕ, Option, none, some, List, [], ◌∷◌, ◌++◌}
use gamesdk.SwappyVkBase.{VkSync, QueueSyncs, move_all, run_waiter, stop}

-- The loop of `destroyVkSyncObjects` that waits for the fences of a copy of the waiting ones.
unfoldable pub wait_unsignaled : List VkSync → List VkSync → List VkSync
wait_unsignaled [] signaled = signaled
wait_unsignaled (s ∷ waiting) signaled = wait_unsignaled waiting (signaled ++ s ∷ [])

-- The calls of Vulkan that destroy an object.
pub data DestroyCall : Type 0 where
  free_command_buffers destroy_event destroy_semaphore destroy_fence destroy_command_pool :
      ℕ → DestroyCall

unfoldable pub free_syncs : List VkSync → List DestroyCall
free_syncs [] = []
free_syncs (s ∷ syncs) =
    free_command_buffers s.command
    ∷ destroy_event s.event
    ∷ destroy_semaphore s.semaphore
    ∷ destroy_fence s.fence
    ∷ free_syncs syncs

abbrev pub destroy_pool : Option ℕ → List DestroyCall
destroy_pool none = []
destroy_pool (some pool) = destroy_command_pool pool ∷ []

-- The sync objects in the free pool before they are destroyed. The thread is told to stop and is joined, within
-- `fuel` steps; then the waiting objects and the signaled ones go to the free pool. A queue without a thread has
-- none of them.
unfoldable pub collect : ℕ → QueueSyncs → List VkSync
unfolding run_waiter wait_unsignaled move_all
collect fuel q = elim q.thread [
  | none ↦ q.free
  | some t ↦
      let joined = run_waiter fuel (record q { thread = some (stop t) }) in
      move_all (wait_unsignaled joined.waiting joined.signaled) joined.free
]

-- `destroyVkSyncObjects` at one queue.
unfoldable pub destroy_vk_sync_objects : ℕ → QueueSyncs → List DestroyCall
unfolding collect free_syncs
destroy_vk_sync_objects fuel q = free_syncs (collect fuel q) ++ destroy_pool q.command_pool
