-- ===== src/SwappyVk/Tests.antt =====
-- The singleton at concrete inputs.
use gamesdk.Prelude.{◌≡◌, ◌≢◌, refl, true, false, some, [], ◌∷◌, ltb, replicate, arith}
use gamesdk.Prelude.Dict.{entry_at}
use gamesdk.Settings.{Settings, default_values}
use gamesdk.SwappyVkBase.{incomplete, no_syncs}
use gamesdk.SwappyVkBase.Semaphores.Tests.{base, info, around}
use gamesdk.SwappyVk.{
  SwappyVk, Creation, QueueFamily, no_devices, display_timing_name, count_extensions,
  write_extensions, queue_present, refused, destroy_swapchain,
}
use gamesdk.SwappyVk.Extensions.{write_extensions-count_extensions}
use gamesdk.SwappyVk.Destruction.{destroy_swapchain-queue_present}

write_extensions-count_extensions_example :
    write_extensions
      ("VK_KHR_surface" ∷ "VK_GOOGLE_display_timing" ∷ [])
      0
      (count_extensions ("VK_KHR_surface" ∷ "VK_GOOGLE_display_timing" ∷ []) 0)
      []
      false
    ≡ (
      replicate
          (count_extensions ("VK_KHR_surface" ∷ "VK_GOOGLE_display_timing" ∷ []) 0)
          display_timing_name,
      ltb 0 (count_extensions ("VK_KHR_surface" ∷ "VK_GOOGLE_display_timing" ∷ []) 0),
    )
write_extensions-count_extensions_example =
    write_extensions-count_extensions ("VK_KHR_surface" ∷ "VK_GOOGLE_display_timing" ∷ [])
      (omega arith)

abbrev family : QueueFamily
family = record { device = 1; queue_family_index = 0 }

abbrev one_queue : SwappyVk
one_queue = record no_devices { per_queue = (3, family) ∷ [] }

abbrev creation : Creation
creation = record {
  base = base no_syncs;
  valid = true;
  timings = record { refresh_period = 16666667; app_offset = 0; sf_offset = 0 };
}

abbrev settings : Settings SwappyVk
settings = record { values = default_values; listeners = [] }

destroy_swapchain-queue_present_example :
    (family.device ≡ 1
      → queue_present 3 info around (destroy_swapchain 1 50 one_queue)
        ≡ some (refused (destroy_swapchain 1 50 one_queue) incomplete))
    × (family.device ≢ 1 → entry_at 3 (destroy_swapchain 1 50 one_queue).per_queue ≡ some family)
unfolding entry_at
destroy_swapchain-queue_present_example =
    destroy_swapchain-queue_present 1 50 3 one_queue family info around (refl, tt) refl
