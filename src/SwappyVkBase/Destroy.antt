-- ===== src/SwappyVkBase/Destroy.antt =====
-- swappy/vulkan/SwappyVkBase.cpp: when the object is destroyed, the waiting threads end and every sync object is
-- destroyed once.
use mathlib.Core.List.{Perm}
use mathlib.Core.List.Perm
use gamesdk.Prelude.{ℕ, ◌+◌, ◌*◌, ◌<◌, ◌≡◌, false, Option, none, some, List, length}
use gamesdk.SwappyVkBase.{
  VkSync, Waiter, asleep, taking, ended, holding, ThreadContext, QueueSyncs, stop,
}
use gamesdk.SwappyVkBase.Steps.{Steps}

abbrev pub HasEnded : Option ThreadContext → Type 0
HasEnded none = ⊥
HasEnded (some t) = t.waiter ≡ ended

-- The steps to the end of a thread that was told to stop, at most.
abbrev stop_left : Waiter → List VkSync → ℕ
stop_left asleep waiting = 1
stop_left taking waiting = 2 * length waiting + 2
stop_left (holding s) waiting = 2 * length waiting + 3
stop_left ended waiting = 0

record Stops (q q' : QueueSyncs) (t : ThreadContext) : Type 0 where
  context : ThreadContext
  threaded : q'.thread ≡ some context
  stopped : context.running ≡ false
  fewer : stop_left context.waiter q'.waiting < stop_left t.waiter q.waiting

-- The thread has ended, by steps of its own.
record Joined (q q' : QueueSyncs) : Type 0 where
  context : ThreadContext
  threaded : q'.thread ≡ some context
  at_end : context.waiter ≡ ended
  steps : Steps q q'

abbrev pub stopped : QueueSyncs → ThreadContext → QueueSyncs
stopped r c = record r { thread = some (stop c) }
