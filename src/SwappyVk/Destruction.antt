-- ===== src/SwappyVk/Destruction.antt =====
-- swappy/vulkan/SwappyVk.cpp: the singleton after a swapchain was destroyed.
use gamesdk.Prelude.{
  ℕ, ◌≡◌, ◌≢◌, refl, Bool, Option, none, some, List, [], ◌∷◌, ◌==◌, if◌then◌else◌, arith, subst,
  Bool-cases, ==_iff, inl, inr,
}
use gamesdk.Prelude.Dict.{entry_at, assign, entry_at-assign}
use gamesdk.SwappyVkBase.{incomplete}
use gamesdk.SwappyVkBase.Present.{SwappyVkBase, PresentInfo, PresentSurroundings}
use gamesdk.SwappyVk.Setters.{
  for_each, vk_set_auto_swap_interval, vk_set_auto_pipeline_mode, vk_set_max_auto_swap_interval_ns,
  vk_set_fence_timeout,
}
use gamesdk.SwappyVk.{
  SwappyVk, Impl, QueueFamily, refused, queue_present, erase_queues, destroy_swapchain,
}

-- A loop over a map with a null pointer does not end well.
for_each_null :
    (k : ℕ) (m : List (ℕ × Option ℕ)) (f : SwappyVkBase → SwappyVkBase) (impls : List Impl)
    → entry_at k m ≡ some none
    → for_each m f impls ≡ none
unfolding for_each entry_at
for_each_null k [] f impls h = absurd (ground (arith, h))
for_each_null k ((j, none) ∷ m) f impls h = refl
for_each_null k ((j, some id) ∷ m) f impls h = for_each_null k m f _ (ground (arith, h))

-- After `DestroySwapchain` the setters of automatic swap interval, pipeline mode, longest swap interval and fence
-- timeout dereference a null pointer, for every device and swapchain, whatever the state was.
destroy_swapchain_null :
    (device swapchain : ℕ) (s : SwappyVk) (enabled : Bool) (n : ℕ)
    → (vk_set_auto_swap_interval enabled (destroy_swapchain device swapchain s) ≡ none)
      × (vk_set_auto_pipeline_mode enabled (destroy_swapchain device swapchain s) ≡ none)
      × (vk_set_max_auto_swap_interval_ns n (destroy_swapchain device swapchain s) ≡ none)
      × (vk_set_fence_timeout n (destroy_swapchain device swapchain s) ≡ none)
unfolding vk_set_auto_swap_interval vk_set_auto_pipeline_mode vk_set_max_auto_swap_interval_ns
    vk_set_fence_timeout destroy_swapchain
destroy_swapchain_null device swapchain s enabled n =
    let null_at = for_each_null swapchain (assign swapchain none s.per_swapchain) in
    let at = entry_at-assign swapchain none s.per_swapchain in
    (
      rw (null_at _ s.impls at) refl,
      rw (null_at _ s.impls at) refl,
      rw (null_at _ s.impls at) refl,
      rw
          (for_each_null device (assign device none s.per_device) _ s.impls
            (entry_at-assign device none s.per_device))
          refl,
    )

-- The keys of a map are different.
abbrev pub IsMap : List (ℕ × QueueFamily) → Type 0
IsMap [] = Unit
IsMap ((queue, family) ∷ m) = (entry_at queue m ≡ none) × IsMap m

entry_at-erase_none :
    (device queue : ℕ) (m : List (ℕ × QueueFamily))
    → entry_at queue m ≡ none
    → entry_at queue (erase_queues device m) ≡ none
unfolding entry_at erase_queues
entry_at-erase_none device queue [] h = refl
entry_at-erase_none device queue ((j, f) ∷ m) h = ground (arith, entry_at-erase_none device queue m)

-- What is left of an entry.
abbrev pub kept : ℕ → Option QueueFamily → Option QueueFamily
kept device none = none
kept device (some f) = if f.device == device then none else some f

entry_at-erase_queues :
    (device queue : ℕ) (m : List (ℕ × QueueFamily))
    → IsMap m
    → entry_at queue (erase_queues device m) ≡ kept device (entry_at queue m)
unfolding entry_at erase_queues
entry_at-erase_queues device queue [] h = refl
entry_at-erase_queues device queue ((j, f) ∷ m) (missing, h) = elim (Bool-cases (j == queue)) [
  | inl e ↦
      let same : entry_at queue m ≡ none =
        subst (λ (k : ℕ). entry_at k m ≡ none) ((==_iff j queue).0 e) missing in
      ground (arith, e, entry_at-erase_none device queue m same)
  | inr e ↦ ground (arith, e, entry_at-erase_queues device queue m h)
]

pub queue_present_unknown :
    (queue : ℕ) (info : PresentInfo) (e : PresentSurroundings) (s : SwappyVk)
    → entry_at queue s.per_queue ≡ none
    → queue_present queue info e s ≡ some (refused s incomplete)
unfolding queue_present
queue_present_unknown queue info e s h = ground (arith, h)

-- `DestroySwapchain` forgets the queues of its device and no others: a presentation on a queue of the device is then
-- refused as one on an unknown queue, without a change, and the entry of a queue of another device is as it was.
-- The keys of the map of queues must be different, as those of a map are.
pub destroy_swapchain-queue_present :
    (device swapchain queue : ℕ) (s : SwappyVk) (family : QueueFamily) (info : PresentInfo)
    (e : PresentSurroundings)
    → IsMap s.per_queue
    → entry_at queue s.per_queue ≡ some family
    → (family.device ≡ device
        → queue_present queue info e (destroy_swapchain device swapchain s)
          ≡ some (refused (destroy_swapchain device swapchain s) incomplete))
      × (family.device ≢ device
          → entry_at queue (destroy_swapchain device swapchain s).per_queue ≡ some family)
unfolding destroy_swapchain
destroy_swapchain-queue_present device swapchain queue s family info e m known =
    let law = entry_at-erase_queues device queue s.per_queue m in
    (
      λ same.
          let gone : entry_at queue (erase_queues device s.per_queue) ≡ none =
            ground (arith, law, known, same) in
          queue_present_unknown queue info e (destroy_swapchain device swapchain s) gone,
      λ differ. ground (arith, law, known, differ),
    )
