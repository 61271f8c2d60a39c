-- ===== src/ChoreographerThread.antt =====
-- swappy/common/ChoreographerThread.h and ChoreographerThread.cpp: how many frame callbacks are asked for. The calls
-- of AChoreographer or of Java that post a callback are a number, `scheduled`, of callbacks that were posted and have
-- not come yet. The looper thread of the NDK class and the JNI calls are left out.
pub mod Idle
mod Tests
use gamesdk.Prelude.{ℕ, suc, ◌+◌, ◌-◌, Bool, true, false, ◌||◌, if◌then◌else◌, leb, ◌==◌, ltb}
use gamesdk.Prelude.Int.{ℤ, pos, negsuc}

-- `calls` is how often `mCallback` was called.
pub record ChoreographerThread : Type 0 where
  pub callbacks_before_idle : ℤ
  pub scheduled : ℕ
  pub calls : ℕ

abbrev pub max_callbacks_before_idle : ℕ
max_callbacks_before_idle = 10

-- The constructor.
abbrev pub new_choreographer_thread : ChoreographerThread
new_choreographer_thread = record { callbacks_before_idle = pos 0; scheduled = 0; calls = 0 }

abbrev is_zero : ℤ → Bool
is_zero (pos n) = n == 0
is_zero (negsuc n) = false

abbrev is_positive : ℤ → Bool
is_positive (pos n) = ltb 0 n
is_positive (negsuc n) = false

abbrev decrement : ℤ → ℤ
decrement (pos n) = if n == 0 then negsuc 0 else pos (n - 1)
decrement (negsuc n) = negsuc (n + 1)

-- `scheduleNextFrameCallback`.
abbrev pub schedule_next_frame_callback : ChoreographerThread → ChoreographerThread
schedule_next_frame_callback t = record t { scheduled = t.scheduled + 1 }

unfoldable pub post_frame_callbacks : ChoreographerThread → ChoreographerThread
post_frame_callbacks t =
    let due = is_zero t.callbacks_before_idle in
    record (if due then schedule_next_frame_callback t else t) {
      callbacks_before_idle = pos max_callbacks_before_idle;
    }

unfoldable pub on_choreographer : ChoreographerThread → ChoreographerThread
on_choreographer t =
    let fewer = record t { callbacks_before_idle = decrement t.callbacks_before_idle } in
    let asked =
      if is_positive fewer.callbacks_before_idle
      then schedule_next_frame_callback fewer
      else fewer in
    record asked { calls = t.calls + 1 }

-- A posted callback comes.
unfoldable pub deliver : ChoreographerThread → ChoreographerThread
unfolding on_choreographer
deliver t = on_choreographer (record t { scheduled = t.scheduled - 1 })

-- `NoChoreographerThread::postFrameCallbacks`: the callback at once.
unfoldable pub no_choreographer_post_frame_callbacks : ChoreographerThread → ChoreographerThread
no_choreographer_post_frame_callbacks t = record t { calls = t.calls + 1 }

-- `Type`, and the class that is made for it.
pub data Source : Type 0 where
  app swappy : Source

pub data Kind : Type 0 where
  ndk_choreographer_thread java_choreographer_thread no_choreographer_thread : Kind

abbrev pub min_sdk_version : ℕ
min_sdk_version = 24

-- `createChoreographerThread`, with whether there is a Java machine and whether it has the callback's class.
unfoldable pub create_choreographer_thread : Source → Bool → ℕ → Bool → Kind
create_choreographer_thread app vm sdk_version loaded = no_choreographer_thread
create_choreographer_thread swappy vm sdk_version loaded =
    if (if vm then false else true) || leb min_sdk_version sdk_version
    then ndk_choreographer_thread
    else if loaded
    then java_choreographer_thread
    else no_choreographer_thread
