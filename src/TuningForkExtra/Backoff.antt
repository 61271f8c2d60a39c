-- ===== src/TuningForkExtra/Backoff.antt =====
-- tuningfork/tuningfork_extra.cpp: the download of fidelity parameters ends, and what the application is told.
use gamesdk.Prelude.{
  ℕ, zero, suc, ◌+◌, ◌-◌, ◌*◌, ◌<◌, ◌≤◌, ◌≡◌, refl, ap, ◌∙◌, Bool, true, false, Option, none, some,
  List, [], ◌∷◌, ltb, arith, Bool-cases, ltb→lt, subst, Option-cases, inl, inr, ◌⊎◌,
}
use gamesdk.TuningForkExtra.Download.{
  Event, sleep, save, callback, first_callback, pause, map_events, download_loop, download,
}

-- The parameters of the callbacks.
abbrev pub told : List Event → List (List ℕ)
told [] = []
told (sleep n ∷ events) = told events
told (save params ∷ events) = told events
told (callback params ∷ events) = params ∷ told events

told-pause : (wait dt : ℕ) (events : List Event) → told (pause wait dt events) ≡ told events
told-pause wait dt events = ground arith

module _ (attempt : ℕ → Option (List ℕ)) (elapsed : ℕ → ℕ) (defaults : List ℕ) (ultimate : ℕ) where
  -- The application was told nothing but what a later attempt gives, if one does.
  abbrev ToldLater : List Event → Type 0
  ToldLater events =
      (told events ≡ [])
      ⊎ ((k : ℕ) × (params : List ℕ) × (attempt k ≡ some params) × (told events ≡ params ∷ []))

  later_pause :
      (wait dt : ℕ) (events : List Event) → ToldLater events → ToldLater (pause wait dt events)
  later_pause wait dt events (inl e) = inl (told-pause wait dt events ∙ e)
  later_pause wait dt events (inr (k, params, e, t)) =
      inr (k, params, e, told-pause wait dt events ∙ t)

  loop_zero :
      (n : ℕ) (first : Bool) (wait : ℕ)
      → download_loop attempt elapsed defaults ultimate 0 n first wait ≡ none
  unfolding download_loop
  loop_zero n first wait = refl

  -- One attempt: it succeeds, it is the last, or the loop goes on.
  attempt_some :
      (fuel n : ℕ) (first : Bool) (wait : ℕ) (params : List ℕ)
      → attempt n ≡ some params
      → download_loop attempt elapsed defaults ultimate (suc fuel) n first wait
        ≡ some (save params ∷ callback params ∷ [])
  unfolding download_loop
  attempt_some fuel n first wait params e = ground (arith, e)

  attempt_last :
      (fuel n : ℕ) (first : Bool) (wait : ℕ)
      → attempt n ≡ none
      → ultimate < wait
      → download_loop attempt elapsed defaults ultimate (suc fuel) n first wait
        ≡ some (first_callback first defaults (pause wait (elapsed n) []))
  unfolding download_loop
  attempt_last fuel n first wait e h = ground (arith, e)

  attempt_next :
      (fuel n : ℕ) (first : Bool) (wait : ℕ)
      → attempt n ≡ none
      → wait ≤ ultimate
      → download_loop attempt elapsed defaults ultimate (suc fuel) n first wait
        ≡ map_events
            (λ events. first_callback first defaults (pause wait (elapsed n) events))
            (download_loop attempt elapsed defaults ultimate fuel (n + 1) false (wait * 2))
  unfolding download_loop
  attempt_next fuel n first wait e h = ground (arith, e)

  Later : ℕ → ℕ → ℕ → Type 0
  Later fuel n wait =
      (events : List Event) × (download_loop attempt elapsed defaults ultimate fuel n false wait
        ≡ some events)
      × ToldLater events

  retry_success :
      (fuel n wait : ℕ) (params : List ℕ) → attempt n ≡ some params → Later (suc fuel) n wait
  unfolding Later
  retry_success fuel n wait params e = (
    save params ∷ callback params ∷ [],
    attempt_some fuel n false wait params e,
    inr (n, params, e, refl),
  )

  retry_last : (fuel n wait : ℕ) → attempt n ≡ none → ultimate < wait → Later (suc fuel) n wait
  unfolding Later
  retry_last fuel n wait e h = (
    pause wait (elapsed n) [],
    attempt_last fuel n false wait e h,
    later_pause wait (elapsed n) [] (inl refl),
  )

  retry_next :
      (fuel n wait : ℕ)
      → attempt n ≡ none
      → wait ≤ ultimate
      → Later fuel (n + 1) (wait * 2)
      → Later (suc fuel) n wait
  unfolding Later
  retry_next fuel n wait e h (events, run, t) = (
    pause wait (elapsed n) events,
    attempt_next fuel n false wait e h
        ∙ ap (map_events (λ events. pause wait (elapsed n) events)) run,
    later_pause wait (elapsed n) events t,
  )

  -- After the first attempt.
  retry_ends : (fuel n wait : ℕ) → 0 < wait → ultimate < fuel + wait → Later (suc fuel) n wait
  retry_ends zero n wait pos enough = elim (Option-cases (attempt n)) [
    | inr (params, e) ↦ retry_success zero n wait params e
    | inl e ↦ retry_last zero n wait e (omega (arith, enough))
  ]
  retry_ends (suc fuel) n wait pos enough = elim (Option-cases (attempt n)) [
    | inr (params, e) ↦ retry_success (suc fuel) n wait params e
    | inl e ↦ elim (Bool-cases (ltb ultimate wait)) [
      | inl high ↦ retry_last (suc fuel) n wait e (ltb→lt ultimate wait high)
      | inr low ↦
          retry_next (suc fuel) n wait e (ground (arith, low))
            (retry_ends fuel (n + 1) (wait * 2) (omega (arith, pos)) (omega (arith, pos, enough)))
    ]
  ]

  -- What the application is told: the parameters of the first attempt, or the defaults, and after them the
  -- parameters of a later attempt, if one succeeds.
  abbrev pub Told : List Event → Type 0
  Told events =
      ((params : List ℕ) × (attempt 0 ≡ some params) × (told events ≡ params ∷ []))
      ⊎ (attempt 0 ≡ none)
        × ((told events ≡ defaults ∷ [])
            ⊎ ((k : ℕ) × (params : List ℕ) × (attempt k ≡ some params)
                × (told events ≡ defaults ∷ params ∷ [])))

  defaults_first :
      (events : List Event)
      → attempt 0 ≡ none
      → ToldLater events
      → Told (first_callback true defaults events)
  defaults_first events e (inl t) = inr (e, inl (ap (λ l. defaults ∷ l) t))
  defaults_first events e (inr (k, params, found, t)) =
      inr (e, inr (k, params, found, ap (λ l. defaults ∷ l) t))

  -- The download of fidelity parameters ends, after one attempt more than the longest wait has milliseconds at the
  -- latest, if the first wait is not 0. The application is called back with the parameters of the first attempt
  -- alone if it succeeds, and otherwise once with the defaults and at most once more, with what a later attempt
  -- gives.
  pub download_ends :
      (initial : ℕ)
      → 0 < initial
      → (events : List Event) × (download attempt elapsed defaults ultimate (suc ultimate) initial
          ≡ some events)
        × Told events
  unfolding download Later
  download_ends initial pos = elim (Option-cases (attempt 0)) [
    | inr (params, e) ↦ (
      save params ∷ callback params ∷ [],
      attempt_some ultimate 0 true initial params e,
      inl (params, e, refl),
    )
    | inl e ↦ elim (Bool-cases (ltb ultimate initial)) [
      | inl high ↦ (
        callback defaults ∷ pause initial (elapsed 0) [],
        attempt_last ultimate 0 true initial e (ltb→lt ultimate initial high),
        defaults_first (pause initial (elapsed 0) []) e
            (later_pause initial (elapsed 0) [] (inl refl)),
      )
      | inr low ↦
          let (events, run, t) =
            retry_ends (ultimate - 1) 1 (initial * 2) (omega (arith, pos))
              (ground (arith, pos, low)) in
          let step : suc (ultimate - 1) ≡ ultimate = ground (arith, pos, low) in
          (
            callback defaults ∷ pause initial (elapsed 0) events,
            attempt_next ultimate 0 true initial e (ground (arith, low))
                ∙ ap (map_events (λ events. callback defaults ∷ pause initial (elapsed 0) events)) (
                    subst
                      (λ (f : ℕ).
                        download_loop attempt elapsed defaults ultimate f 1 false (initial * 2)
                        ≡ some events)
                      step run),
            defaults_first (pause initial (elapsed 0) events) e
                (later_pause initial (elapsed 0) events t),
          )
    ]
  ]

  -- With a first wait of 0 the wait stays 0, and the loop goes on for ever if no attempt succeeds.
  loop_forever :
      (fuel n : ℕ) (first : Bool)
      → ((k : ℕ) → attempt k ≡ none)
      → download_loop attempt elapsed defaults ultimate fuel n first 0 ≡ none
  loop_forever zero n first never = loop_zero n first 0
  loop_forever (suc fuel) n first never =
      attempt_next fuel n first 0 (never n) (omega arith)
      ∙ ap (map_events (λ events. first_callback first defaults (pause 0 (elapsed n) events)))
          (loop_forever fuel (n + 1) false never)

  -- With a first wait of 0 milliseconds the download never ends while no attempt succeeds, whatever the longest wait.
  download_forever :
      (fuel : ℕ)
      → ((k : ℕ) → attempt k ≡ none)
      → download attempt elapsed defaults ultimate fuel 0 ≡ none
  unfolding download
  download_forever fuel never = loop_forever fuel 0 true never
