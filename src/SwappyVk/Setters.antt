-- ===== src/SwappyVk/Setters.antt =====
-- swappy/vulkan/SwappyVk.cpp: the setters, which go to the implementations of all swapchains or devices.
use gamesdk.Prelude.{ℕ, Bool, Option, none, some, List, [], ◌∷◌, modify, get_elem?, ◌>>=◌}
use gamesdk.SwappyVkBase.Present.{
  SwappyVkBase, base_set_auto_swap_interval, base_set_auto_pipeline_mode,
  base_set_max_auto_swap_interval_ns, base_set_fence_timeout,
}
use gamesdk.SwappyVk.{SwappyVk, Impl, update_base}

-- `i.second->…` for every entry of a map: each null pointer is dereferenced.
unfoldable pub for_each :
    List (ℕ × Option ℕ) → (SwappyVkBase → SwappyVkBase) → List Impl → Option (List Impl)
for_each [] f impls = some impls
for_each ((k, none) ∷ m) f impls = none
for_each ((k, some id) ∷ m) f impls = for_each m f (modify impls id (update_base f))

abbrev pub for_swapchains : (SwappyVkBase → SwappyVkBase) → SwappyVk → Option SwappyVk
for_swapchains f s =
    for_each s.per_swapchain f s.impls >>= λ impls. some (record s { impls = impls })

unfoldable pub vk_set_auto_swap_interval : Bool → SwappyVk → Option SwappyVk
unfolding for_each base_set_auto_swap_interval
vk_set_auto_swap_interval enabled s = for_swapchains (λ b. base_set_auto_swap_interval b enabled) s

unfoldable pub vk_set_auto_pipeline_mode : Bool → SwappyVk → Option SwappyVk
unfolding for_each base_set_auto_pipeline_mode
vk_set_auto_pipeline_mode enabled s = for_swapchains (λ b. base_set_auto_pipeline_mode b enabled) s

unfoldable pub vk_set_max_auto_swap_interval_ns : ℕ → SwappyVk → Option SwappyVk
unfolding for_each base_set_max_auto_swap_interval_ns
vk_set_max_auto_swap_interval_ns max s =
    for_swapchains (λ b. base_set_max_auto_swap_interval_ns b max) s

unfoldable pub vk_set_fence_timeout : ℕ → SwappyVk → Option SwappyVk
unfolding for_each base_set_fence_timeout
vk_set_fence_timeout t s =
    for_each s.per_device (λ b. base_set_fence_timeout b t) s.impls >>= λ impls.
    some (record s { impls = impls })

-- `GetFenceTimeout`: that of the device with the least handle, and 0 if there is none.
unfoldable pub vk_get_fence_timeout : SwappyVk → Option ℕ
vk_get_fence_timeout s = elim s.per_device [
  | [] ↦ some 0
  | (device, none) ∷ m ↦ none
  | (device, some id) ∷ m ↦ elim (get_elem? s.impls id) [
    | none ↦ none
    | some i ↦ some i.base.fence_timeout_ns
  ]
]
