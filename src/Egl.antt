-- ===== src/Egl.antt =====
-- swappy/opengl/EGL.h and EGL.cpp: the sync fence of a frame and the thread that waits for it, and what EGL answers on
-- frames. A fence is a number, and EGL_NO_SYNC_KHR is none. `threadMain` holds the lock of the fence waiter while it
-- waits for a fence, so that one round of its loop is one step. The state keeps, for the specification, the fences
-- that were created and those that were destroyed, each in order. The measured time of a wait is the GPU time among
-- the arguments of a swap.
pub mod Fences
mod Tests
use gamesdk.Prelude.{
  ℕ, ◌+◌, Bool, true, false, ◌&&◌, not, Option, none, some, List, [], ◌∷◌, ◌++◌, if◌then◌else◌,
  ◌>>=◌,
}
use gamesdk.FrameStatistics.{FrameTimestamps}

-- `FenceWaiter`.
pub record FenceWaiter : Type 0 where
  pub running : Bool
  pub pending : Bool
  pub sync_fence : Option ℕ

pub record Egl : Type 0 where
  pub sync_fence : Option ℕ
  pub waiter : FenceWaiter
  pub created : List ℕ
  pub destroyed : List ℕ

abbrev pub new_egl : Egl
new_egl = record {
  sync_fence = none;
  waiter = record { running = true; pending = false; sync_fence = none };
  created = [];
  destroyed = [];
}

-- The functions that `create` loads, in its order; the last two may be missing.
pub record Loaded : Type 0 where
  pub presentation_time : Bool
  pub create_sync : Bool
  pub destroy_sync : Bool
  pub get_sync_attrib : Bool
  pub get_error : Bool
  pub surface_attrib : Bool
  pub get_next_frame_id : Bool
  pub get_frame_timestamps : Bool

unfoldable pub create : Loaded → Option Egl
create l =
    if l.presentation_time && l.create_sync && l.destroy_sync && l.get_sync_attrib && l.get_error
      && l.surface_attrib
    then some new_egl
    else none

unfoldable pub stats_supported : Loaded → Bool
stats_supported l = l.get_next_frame_id && l.get_frame_timestamps

abbrev pub one_fence : Option ℕ → List ℕ
one_fence none = []
one_fence (some f) = f ∷ []

-- eglDestroySyncKHR for a fence that is not EGL_NO_SYNC_KHR.
abbrev pub destroy_sync : Option ℕ → Egl → Egl
destroy_sync f s = record s { destroyed = s.destroyed ++ one_fence f }

-- `resetSyncFence` once the waiter is idle; `fence` is what eglCreateSyncKHR returns. A destruction that fails is
-- only logged.
unfoldable pub reset_sync_fence : Option ℕ → Egl → Egl
reset_sync_fence fence s = record (destroy_sync s.sync_fence s) {
  sync_fence = fence;
  created = s.created ++ one_fence fence;
  waiter = record s.waiter { pending = true; sync_fence = fence };
}

-- What eglClientWaitSyncKHR returns.
pub data WaitResult : Type 0 where
  egl_false timeout_expired condition_satisfied : WaitResult

abbrev pub is_satisfied : WaitResult → Bool
is_satisfied condition_satisfied = true
is_satisfied _ = false

-- One round of `threadMain`: none is a thread that waits for the condition or has left the loop. The fence is
-- destroyed unless the wait is satisfied.
unfoldable pub waiter_round : WaitResult → Egl → Option Egl
waiter_round r s =
    let waited = record s.waiter { pending = false } in
    if s.waiter.running && s.waiter.pending
    then some (
        if is_satisfied r
        then record s { waiter = waited }
        else record (destroy_sync s.waiter.sync_fence s) {
          waiter = record waited { sync_fence = none };
        })
    else none

-- What eglGetSyncAttribKHR answers: false, or true with a status.
pub data SyncStatus : Type 0 where
  failed signaled unsignaled unexpected : SyncStatus

unfoldable pub last_frame_is_complete : SyncStatus → Egl → Bool
last_frame_is_complete status s = elim s.sync_fence [
  | none ↦ true
  | some f ↦ elim status [ unsignaled ↦ false | _ ↦ true ]
]

-- `getNextFrameId`: the answer of EGL, if the function is there.
unfoldable pub get_next_frame_id : Loaded → Option ℕ → Option ℕ
get_next_frame_id l answer = if l.get_next_frame_id then answer else none

-- A time stamp: a time, or EGL_TIMESTAMP_PENDING_ANDROID.
pub data Stamp : Type 0 where
  at : ℕ → Stamp
  pending : Stamp

-- The loop over the values.
unfoldable pub any_pending : List Stamp → Bool
any_pending [] = false
any_pending (pending ∷ stamps) = true
any_pending (at t ∷ stamps) = any_pending stamps

-- What eglGetFrameTimestampsANDROID answers: the values, or the error that eglGetError gives.
pub data StampsAnswer : Type 0 where
  values : Stamp → Stamp → Stamp → Stamp → StampsAnswer
  bad_surface other_error : StampsAnswer

abbrev pub time_of : Stamp → ℕ
time_of (at t) = t
time_of pending = 0

-- `getFrameTimestamps`, and whether the time stamps of the surface are switched on by eglSurfaceAttrib.
unfoldable pub get_frame_timestamps : Loaded → StampsAnswer → Option FrameTimestamps × Bool
unfolding any_pending
get_frame_timestamps l answer =
    if l.get_frame_timestamps
    then elim answer [
      | values requested completed latched presented ↦ (
        if any_pending (requested ∷ completed ∷ latched ∷ presented ∷ [])
            then none
            else some (record {
              requested = time_of requested;
              rendering_completed = time_of completed;
              composition_latched = time_of latched;
              presented = time_of presented;
            }),
        false,
      )
      | bad_surface ↦ (none, true)
      | other_error ↦ (none, false)
    ]
    else (none, false)
