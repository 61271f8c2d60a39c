-- ===== src/SwappyVk.antt =====
-- swappy/vulkan/SwappyVk.h and SwappyVk.cpp: the singleton that finds the implementation for a device, a swapchain
-- or a queue. Vulkan handles are numbers and maps are association lists. A shared pointer is none, the null pointer,
-- or the number of an object in `impls`, so that a device and its swapchains share their implementation. An object
-- that is no longer referenced stays in the list; its destruction is `destroy_vk_sync_objects`. A function without a
-- result dereferences a null pointer in the source.
pub mod Setters
pub mod Extensions
pub mod Dispatch
pub mod Destruction
mod Tests
use Prim.Native.String.{String}
use text.Mathlib.Text.{◌==◌ as str_eq}
use gamesdk.Prelude.{
  ℕ, ◌+◌, Bool, true, false, ◌&&◌, ◌||◌, Option, none, some, List, [], ◌∷◌, ◌++◌, ltb, ◌==◌,
  if◌then◌else◌, length, modify, get_elem?, ◌>>=◌, add_u32,
}
use gamesdk.Prelude.Dict.{entry_at, assign}
use gamesdk.SwappyCommon.Refresh.{on_settings_changed}
use gamesdk.Settings.{
  Settings, Values, Listener, DisplayTimings, add_listener, set_display_timings,
  set_swap_interval_ns,
}
use gamesdk.Settings.Effect.{timing_settings}
use gamesdk.SwappyVkBase.{VkResult, success, incomplete, error_device_lost}
use gamesdk.SwappyVkBase.Present.{
  SwappyVkBase, Kind, fallback, google_display_timing, PresentInfo, PresentSurroundings, Presented,
  do_queue_present, do_get_refresh_cycle_duration, base_set_auto_swap_interval,
  base_set_auto_pipeline_mode, base_set_max_auto_swap_interval_ns, base_set_fence_timeout,
}

-- An implementation: its class and its state.
pub record Impl : Type 0 where
  pub kind : Kind
  pub base : SwappyVkBase

-- `QueueFamilyIndex`.
pub record QueueFamily : Type 0 where
  pub device : ℕ
  pub queue_family_index : ℕ

pub record SwappyVk : Type 0 where
  pub has_display_timing : List (ℕ × Bool)
  pub per_device : List (ℕ × Option ℕ)
  pub per_swapchain : List (ℕ × Option ℕ)
  pub per_queue : List (ℕ × QueueFamily)
  pub lib_vulkan : Bool
  pub impls : List Impl

abbrev pub no_devices : SwappyVk
no_devices = record {
  has_display_timing = [];
  per_device = [];
  per_swapchain = [];
  per_queue = [];
  lib_vulkan = false;
  impls = [];
}

-- `operator[]` of a map of pointers, as a value: a key that is missing is added with the null pointer.
abbrev pub pointer_at : ℕ → List (ℕ × Option ℕ) → Option ℕ
pointer_at k m = elim (entry_at k m) [ none ↦ none | some p ↦ p ]

abbrev pub touch : ℕ → List (ℕ × Option ℕ) → List (ℕ × Option ℕ)
touch k m = elim (entry_at k m) [ none ↦ assign k none m | some p ↦ m ]

abbrev pub display_timing_name : String
display_timing_name = "VK_GOOGLE_display_timing"

-- `swappyVkDetermineDeviceExtensions` without a buffer: the number that the caller holds, raised.
unfoldable pub count_extensions : List String → ℕ → ℕ
count_extensions [] n = n
count_extensions (name ∷ names) n =
    count_extensions names (if str_eq display_timing_name name then add_u32 n 1 else n)

-- And with one: the names that are written, and whether the extension was found. `j` names are written already, and
-- there is room for `room`.
unfoldable pub write_extensions : List String → ℕ → ℕ → List String → Bool → List String × Bool
write_extensions [] j room written found = (written, found)
write_extensions (name ∷ names) j room written found =
    let hit = str_eq display_timing_name name && ltb j room in
    write_extensions names (if hit then j + 1 else j) room
      (if hit then written ++ display_timing_name ∷ [] else written) (hit || found)

unfoldable pub determine_device_extensions : ℕ → List String → ℕ → SwappyVk → SwappyVk × List String
unfolding write_extensions assign
determine_device_extensions physical_device names room s =
    let (written, found) = write_extensions names 0 room [] false in
    (record s { has_display_timing = assign physical_device found s.has_display_timing }, written)

unfoldable pub set_queue_family_index : ℕ → ℕ → ℕ → SwappyVk → SwappyVk
unfolding assign
set_queue_family_index device queue index s = record s {
  per_queue = assign queue (record { device = device; queue_family_index = index }) s.per_queue;
}

abbrev pub update_base : (SwappyVkBase → SwappyVkBase) → Impl → Impl
update_base f i = record i { base = f i.base }

-- The listener that the SwappyCommon of an implementation adds to the settings.
abbrev pub impl_listener : ℕ → Listener SwappyVk
impl_listener id v s = record s {
  impls =
      modify s.impls id
        (update_base (λ b. record b { common = on_settings_changed b.common (timing_settings v) }));
}

-- What the constructors of an implementation have made: the object, whether its SwappyCommon is valid, and the
-- display timings that it passes to the settings.
pub record Creation : Type 0 where
  pub base : SwappyVkBase
  pub valid : Bool
  pub timings : DisplayTimings

-- The number that a new object gets, and its kind by the physical device; a device that is not known has no entry,
-- which is read as false and added.
abbrev pub kind_of : ℕ → SwappyVk → Kind
kind_of physical_device s = elim (entry_at physical_device s.has_display_timing) [
  | none ↦ fallback
  | some found ↦ if found then google_display_timing else fallback
]

abbrev pub known_physical : ℕ → List (ℕ × Bool) → List (ℕ × Bool)
known_physical d m = elim (entry_at d m) [ none ↦ assign d false m | some found ↦ m ]

-- A new implementation for a device.
unfoldable pub create_impl :
    ℕ → ℕ → Creation → Settings SwappyVk → SwappyVk → Settings SwappyVk × SwappyVk
unfolding add_listener set_display_timings assign entry_at
create_impl physical_device device made settings s =
    let id = length s.impls in
    let s' = record s {
      has_display_timing = known_physical physical_device s.has_display_timing;
      per_device = assign device (some id) s.per_device;
      lib_vulkan = true;
      impls = s.impls ++ record { kind = kind_of physical_device s; base = made.base } ∷ [];
    } in
    if made.valid
    then set_display_timings made.timings (add_listener (impl_listener id) settings) s'
    else (settings, s')

-- The refresh duration, asked of the implementation number `id`, which the swapchain gets.
unfoldable pub refresh_of : ℕ → ℕ → VkResult → SwappyVk → SwappyVk × Option ℕ
unfolding assign do_get_refresh_cycle_duration
refresh_of id swapchain answer s = elim (get_elem? s.impls id) [
  | none ↦ (s, none)
  | some i ↦
      let (base, duration) = do_get_refresh_cycle_duration i.kind i.base answer in
      (
        record s {
          per_swapchain = assign swapchain (some id) s.per_swapchain;
          impls = modify s.impls id (update_base (λ b. base));
        },
        duration,
      )
]

-- `GetRefreshCycleDuration`; none is false. `loads` is whether libvulkan.so can be opened.
unfoldable pub get_refresh_cycle_duration :
    ℕ
    → ℕ
    → ℕ
    → Bool
    → Creation
    → VkResult
    → Settings SwappyVk
    → SwappyVk
    → (Settings SwappyVk × SwappyVk) × Option ℕ
unfolding create_impl refresh_of entry_at assign
get_refresh_cycle_duration physical_device device swapchain loads made answer settings s =
    elim (pointer_at device s.per_device) [
      | some id ↦
          let (s', duration) = refresh_of id swapchain answer s in ((settings, s'), duration)
      | none ↦
          let (settings', made_s) = create_impl physical_device device made settings s in
          let (s', duration) = refresh_of (length s.impls) swapchain answer made_s in
          if s.lib_vulkan || loads
          then ((settings', s'), duration)
          else ((settings, record s { per_device = touch device s.per_device }), none)
    ]

-- `SetSwapIntervalNS`: the settings change if the device has an implementation.
unfoldable pub vk_set_swap_interval_ns :
    ℕ → ℕ → Settings SwappyVk → SwappyVk → Settings SwappyVk × SwappyVk
unfolding entry_at assign set_swap_interval_ns
vk_set_swap_interval_ns device n settings s =
    let touched = record s { per_device = touch device s.per_device } in
    elim (pointer_at device s.per_device) [
      | none ↦ (settings, touched)
      | some id ↦ set_swap_interval_ns n settings touched
    ]

-- What `QueuePresent` leaves: the singleton, what its implementation did, if it was asked, and the result.
pub record QueueResult : Type 0 where
  pub state : SwappyVk
  pub presented : Option Presented
  pub result : VkResult

abbrev pub refused : SwappyVk → VkResult → QueueResult
refused s r = record { state = s; presented = none; result = r }

unfoldable pub present_on :
    ℕ → ℕ → PresentInfo → PresentSurroundings → SwappyVk → Option QueueResult
unfolding do_queue_present
present_on id queue info e s = do
  i ← get_elem? s.impls id
  p ← do_queue_present i.kind i.base queue info e
  some (record {
    state = record s { impls = modify s.impls id (update_base (λ b. p.state)) };
    presented = some p;
    result = p.result;
  })

-- The call for the first of the swapchains.
unfoldable pub present_swapchain :
    ℕ → ℕ → PresentInfo → PresentSurroundings → SwappyVk → Option QueueResult
unfolding present_on entry_at assign
present_swapchain swapchain queue info e s = elim (pointer_at swapchain s.per_swapchain) [
  | none ↦
      some
        (refused (record s { per_swapchain = touch swapchain s.per_swapchain }) error_device_lost)
  | some id ↦ present_on id queue info e s
]

unfoldable pub queue_present : ℕ → PresentInfo → PresentSurroundings → SwappyVk → Option QueueResult
unfolding present_swapchain entry_at
queue_present queue info e s = elim (entry_at queue s.per_queue) [
  | none ↦ some (refused s incomplete)
  | some family ↦ elim info.swapchains [
    | [] ↦ some (refused s error_device_lost)
    | swapchain ∷ others ↦ present_swapchain swapchain queue info e s
  ]
]

-- The loop of `DestroySwapchain`.
unfoldable pub erase_queues : ℕ → List (ℕ × QueueFamily) → List (ℕ × QueueFamily)
erase_queues device [] = []
erase_queues device ((queue, family) ∷ m) =
    let rest = erase_queues device m in
    if family.device == device then rest else (queue, family) ∷ rest

unfoldable pub destroy_swapchain : ℕ → ℕ → SwappyVk → SwappyVk
unfolding erase_queues assign
destroy_swapchain device swapchain s = record s {
  per_queue = erase_queues device s.per_queue;
  per_device = assign device none s.per_device;
  per_swapchain = assign swapchain none s.per_swapchain;
}
