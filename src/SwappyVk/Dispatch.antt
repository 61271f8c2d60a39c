-- ===== src/SwappyVk/Dispatch.antt =====
-- swappy/vulkan/SwappyVk.cpp: which implementation a swapchain gets, and that it is the one that presents.
use gamesdk.Prelude.{ℕ, ◌+◌, ◌<◌, ◌≡◌, some, length}
use gamesdk.Settings.{Settings}
use gamesdk.SwappyVk.{SwappyVk, pointer_at}

-- The swapchain and the device have the same implementation, which is there.
abbrev pub Shares : ℕ → ℕ → SwappyVk → Type 0
Shares device swapchain s =
    (id : ℕ) × (pointer_at device s.per_device ≡ some id)
    × (pointer_at swapchain s.per_swapchain ≡ some id)
    × (id < length s.impls)

-- What the listeners leave alone.
record Same (s s' : SwappyVk) : Type 0 where
  per_device : s'.per_device ≡ s.per_device
  impls : length s'.impls ≡ length s.impls
  per_queue : s'.per_queue ≡ s.per_queue

-- The new object is at the end, and the device points to it.
abbrev PointsToNew : ℕ → SwappyVk → SwappyVk → Type 0
PointsToNew device s s' =
    (pointer_at device s'.per_device ≡ some (length s.impls))
    × (length s'.impls ≡ length s.impls + 1)
    × (s'.per_queue ≡ s.per_queue)

-- After a call for a device and a swapchain, with the queues as they were.
abbrev Reaches : ℕ → ℕ → SwappyVk → SwappyVk → Type 0
Reaches device swapchain s s' = Shares device swapchain s' × (s'.per_queue ≡ s.per_queue)
