-- ===== src/ChoreographerThread/Tests.antt =====
-- The callbacks of the Choreographer thread at concrete inputs.
use gamesdk.Prelude.{◌≡◌, refl, true, false, arith}
use gamesdk.Prelude.Int.{pos}
use gamesdk.ChoreographerThread.{
  ChoreographerThread, new_choreographer_thread, post_frame_callbacks, on_choreographer, deliver,
  create_choreographer_thread, swappy, ndk_choreographer_thread, java_choreographer_thread,
}
use gamesdk.ChoreographerThread.Idle.{
  Steps, here, next, post, come, deliver_all, Idles, post_frame_callbacks-Idles,
}

abbrev posted : ChoreographerThread
posted = record { callbacks_before_idle = pos 10; scheduled = 1; calls = 0 }

abbrev came : ChoreographerThread
came = record { callbacks_before_idle = pos 9; scheduled = 1; calls = 1 }

steps : Steps new_choreographer_thread came
unfolding post_frame_callbacks deliver on_choreographer
steps = next {u = posted} (next here (post refl)) (come (omega arith) refl)

post_frame_callbacks-Idles_example : Idles came (deliver_all 10 (post_frame_callbacks came)) 10
post_frame_callbacks-Idles_example = post_frame_callbacks-Idles steps

old_device : create_choreographer_thread swappy true 23 true ≡ java_choreographer_thread
unfolding create_choreographer_thread
old_device = refl

without_java : create_choreographer_thread swappy false 23 true ≡ ndk_choreographer_thread
unfolding create_choreographer_thread
without_java = refl
