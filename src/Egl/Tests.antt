-- ===== src/Egl/Tests.antt =====
-- The fences of EGL at concrete inputs.
use gamesdk.Prelude.{◌≡◌, refl, true, false, none, some, [], ◌∷◌}
use gamesdk.Egl.{
  Egl, new_egl, reset_sync_fence, waiter_round, last_frame_is_complete, unsignaled, Loaded, create,
  get_frame_timestamps, values, at, pending,
}
use gamesdk.Egl.Fences.{here, next, reset, round, Owns, new_egl-Owns}

abbrev first : Egl
first = record {
  sync_fence = some 5;
  waiter = record { running = true; pending = true; sync_fence = some 5 };
  created = 5 ∷ [];
  destroyed = [];
}

abbrev waited : Egl
waited = record first { waiter = record { running = true; pending = false; sync_fence = some 5 } }

abbrev second : Egl
second = record {
  sync_fence = some 6;
  waiter = record { running = true; pending = true; sync_fence = some 6 };
  created = 5 ∷ 6 ∷ [];
  destroyed = 5 ∷ [];
}

new_egl-Owns_example : Owns second
unfolding reset_sync_fence waiter_round
new_egl-Owns_example = new_egl-Owns {s = second} (
    next {t = waited} (next {t = first} (next here (reset (some 5) refl refl)) (round refl))
      (reset (some 6) refl refl))

frame_not_complete : last_frame_is_complete unsignaled first ≡ false
unfolding last_frame_is_complete
frame_not_complete = refl

abbrev loaded : Loaded
loaded = record {
  presentation_time = true;
  create_sync = true;
  destroy_sync = true;
  get_sync_attrib = true;
  get_error = true;
  surface_attrib = true;
  get_next_frame_id = false;
  get_frame_timestamps = true;
}

created : create loaded ≡ some new_egl
unfolding create
created = refl

stamps_pending : get_frame_timestamps loaded (values (at 1) (at 2) pending (at 4)) ≡ (none, false)
unfolding get_frame_timestamps
stamps_pending = refl
