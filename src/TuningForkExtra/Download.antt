-- ===== src/TuningForkExtra/Download.antt =====
-- tuningfork/tuningfork_extra.cpp: the thread of `TuningFork_startFidelityParamDownloadThread` and the saved
-- parameters. A serialization is a list of bytes. `attempt n` is what the call number n of
-- `TuningFork_getFidelityParameters` gives, none for an error, and `elapsed n` the milliseconds that it took.
use gamesdk.Prelude.{
  ℕ, zero, suc, ◌+◌, ◌-◌, ◌*◌, Bool, true, false, Option, none, some, List, [], ◌∷◌, ltb,
  if◌then◌else◌,
}
use gamesdk.TuningFork.{ErrorCode, ok, couldnt_save_or_delete_fps}

-- What the thread does: it sleeps, saves the parameters, or calls the application back with some.
pub data Event : Type 0 where
  sleep : ℕ → Event
  save callback : List ℕ → Event

-- What follows an attempt.
abbrev pub first_callback : Bool → List ℕ → List Event → List Event
first_callback true defaults events = callback defaults ∷ events
first_callback false defaults events = events

-- The sleep for the rest of the wait, if there is one.
abbrev pub pause : ℕ → ℕ → List Event → List Event
pause wait dt events = if ltb dt wait then sleep (wait - dt) ∷ events else events

abbrev pub map_events : (List Event → List Event) → Option (List Event) → Option (List Event)
map_events f none = none
map_events f (some events) = some (f events)

module _ (attempt : ℕ → Option (List ℕ)) (elapsed : ℕ → ℕ) (defaults : List ℕ) (ultimate : ℕ) where
  -- The loop, with the number of the attempt, whether it is the first, and the wait; none is a loop that goes on.
  unfoldable pub download_loop : ℕ → ℕ → Bool → ℕ → Option (List Event)
  download_loop zero n first wait = none
  download_loop (suc fuel) n first wait =
      let rest = download_loop fuel (n + 1) false (wait * 2) in
      elim (attempt n) [
        | some params ↦ some (save params ∷ callback params ∷ [])
        | none ↦
            map_events (λ events. first_callback first defaults (pause wait (elapsed n) events))
              (if ltb ultimate wait then some [] else rest)
      ]

  -- The thread's function, with the milliseconds of the first wait.
  unfoldable pub download : ℕ → ℕ → Option (List Event)
  unfolding download_loop
  download fuel initial = download_loop fuel 0 true initial

-- The file of the saved parameters, if it is there, and whether its directory and the file can be made.
pub record SaveFile : Type 0 where
  pub content : Option (List ℕ)
  pub has_directory : Bool
  pub writable : Bool

-- `GetSavedFidelityParams`, `SaveFidelityParams`, `SavedFidelityParamsFileExists`, with their results.
unfoldable pub get_saved_fidelity_params : SaveFile → Option (List ℕ)
get_saved_fidelity_params f = if f.has_directory then f.content else none

unfoldable pub save_fidelity_params : SaveFile → List ℕ → SaveFile × Bool
save_fidelity_params f params =
    if (if f.has_directory then f.writable else false)
    then (record f { content = some params }, true)
    else (f, false)

unfoldable pub saved_fidelity_params_file_exists : SaveFile → Bool
saved_fidelity_params_file_exists f =
    if f.has_directory then elim f.content [ none ↦ false | some c ↦ true ] else false

abbrev pub delete_file : SaveFile → SaveFile × Bool
delete_file f = elim f.content [ none ↦ (f, false) | some c ↦ (record f { content = none }, true) ]

abbrev pub saved_or_not : SaveFile × Bool → SaveFile × ErrorCode
saved_or_not (f, true) = (f, ok)
saved_or_not (f, false) = (f, couldnt_save_or_delete_fps)

-- `TuningFork_saveOrDeleteFidelityParamsFile`: the null pointer is none. A file that is there can be removed.
unfoldable pub save_or_delete_fidelity_params_file :
    SaveFile → Option (List ℕ) → SaveFile × ErrorCode
unfolding save_fidelity_params
save_or_delete_fidelity_params_file f (some params) = saved_or_not (save_fidelity_params f params)
save_or_delete_fidelity_params_file f none =
    saved_or_not (if f.has_directory then delete_file f else (f, false))
