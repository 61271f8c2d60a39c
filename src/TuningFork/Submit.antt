-- ===== src/TuningFork/Submit.antt =====
-- The flush of tuningfork/tuningfork.cpp and the hand-over to tuningfork/uploadthread.cpp: what is uploaded,
-- what is kept when nothing is.
use mathlib.Core.Logic.{◌≢◌}
use native.Mathlib.Decide.{dec_lt}
use gamesdk.Prelude.{
  ℕ, zero, suc, ◌+◌, ◌*◌, ◌≤◌, ◌<◌, ◌≡◌, refl, sym, ap, ◌∙◌, subst, none, some, List, [], ◌∷◌, map,
  modify, map-modify, arith, Option-cases, inl, inr, ◌⊎◌,
}
use gamesdk.Double.{Arith}
use gamesdk.Histogram.{Histogram}
use gamesdk.Prong.{
  Prong, ProngCache, set_instrument_key, keys_loop, annotations_loop, set_instrument_keys,
  clear_cache,
}
use gamesdk.Prong.Samples.{IsValidCache, Uncounted, clear_cache-IsValid}
use gamesdk.TuningFork.{
  TuningFork, ErrorCode, ok, previous_upload_pending, upload_too_frequent, Which, first, second,
  other, cache, set_cache, run_upload, flush, flush_at,
}
use gamesdk.TuningFork.Buffers.{
  set_cache-fields, keyed, handed_over, refused, flush_at_idle, flush_at_busy,
}

module _ {D : Type 0} where
  abbrev pub histograms_of : ProngCache D → List (Histogram D)
  histograms_of c = map (λ (p : Prong D). p.histogram) c.prongs

  histograms-modify :
      (ps : List (Prong D)) (i key : ℕ)
      → map (λ (p : Prong D). p.histogram) (modify ps i (set_instrument_key key))
        ≡ map (λ (p : Prong D). p.histogram) ps
  unfolding set_instrument_key
  histograms-modify ps i key =
      map-modify (λ (p : Prong D). p.histogram) (set_instrument_key key) (λ p. refl) ps i

  histograms-keys_loop :
      (ps : List (Prong D)) (base i : ℕ) (keys : List ℕ)
      → map (λ (p : Prong D). p.histogram) (keys_loop ps base i keys)
        ≡ map (λ (p : Prong D). p.histogram) ps
  unfolding keys_loop
  histograms-keys_loop ps base i [] = refl
  histograms-keys_loop ps base i (k ∷ keys) =
      histograms-keys_loop (modify ps (i + base) (set_instrument_key k)) base (i + 1) keys
      ∙ histograms-modify ps (i + base) k

  histograms-annotations_loop :
      (n j max_keys : ℕ) (ps : List (Prong D)) (keys : List ℕ)
      → map (λ (p : Prong D). p.histogram) (annotations_loop n j max_keys ps keys)
        ≡ map (λ (p : Prong D). p.histogram) ps
  unfolding annotations_loop
  histograms-annotations_loop zero j max_keys ps keys = refl
  histograms-annotations_loop (suc n) j max_keys ps keys =
      histograms-annotations_loop n (j + 1) max_keys (keys_loop ps (j * max_keys) 0 keys) keys
      ∙ histograms-keys_loop ps (j * max_keys) 0 keys

  histograms-set_instrument_keys :
      (c : ProngCache D) (keys : List ℕ)
      → histograms_of (set_instrument_keys c keys) ≡ histograms_of c
  unfolding set_instrument_keys
  histograms-set_instrument_keys c keys = histograms-annotations_loop _ 0 _ c.prongs keys

  pub cache-set_cache_self :
      (s : TuningFork D) (w : Which) (c : ProngCache D) → cache (set_cache s w c) w ≡ c
  cache-set_cache_self s first c = refl
  cache-set_cache_self s second c = refl

  set_current_histograms :
      (s : TuningFork D) (w v : Which)
      → histograms_of (cache (set_cache s w (set_instrument_keys (cache s w) s.ikeys)) v)
        ≡ histograms_of (cache s v)
  set_current_histograms s first first = histograms-set_instrument_keys s.cache_0 s.ikeys
  set_current_histograms s first second = refl
  set_current_histograms s second first = refl
  set_current_histograms s second second = histograms-set_instrument_keys s.cache_1 s.ikeys

module _ (a : Arith) where
  open a use {Double}

  flush_due :
      (s : TuningFork Double) (t : ℕ)
      → s.last_submit_time_ns + 60000000000 < t
      → flush a s t ≡ flush_at a s t
  unfolding flush
  flush_due s t due = ground arith

  flush_early :
      (s : TuningFork Double) (t : ℕ)
      → t ≤ s.last_submit_time_ns + 60000000000
      → flush a s t ≡ (s, upload_too_frequent)
  unfolding flush
  flush_early s t early = ground arith

  -- What a flush hands over: the upload thread's next round takes the current cache with its instrument
  -- keys, the other cache is the current one and holds no sample, and the time is noted.
  abbrev pub HandsOver : TuningFork Double → ℕ → TuningFork Double → Type 0
  HandsOver s t s' =
      ((run_upload s').1 ≡ some (keyed a s))
      × (s'.current ≡ other s.current)
      × (cache s' s'.current ≡ clear_cache a (cache s (other s.current)))
      × Uncounted (cache s' s'.current).prongs
      × (s'.last_submit_time_ns ≡ t)

  handed_over-cache :
      (s : TuningFork Double) (t : ℕ)
      → (cache (handed_over a s t) s.current ≡ keyed a s)
        × (cache (handed_over a s t) (other s.current) ≡ clear_cache a (cache s (other s.current)))
  handed_over-cache s t =
      elim s.current
          as (λ w.
            s.current ≡ w
            → (cache (handed_over a s t) s.current ≡ keyed a s)
              × (cache (handed_over a s t) (other s.current)
                  ≡ clear_cache a (cache s (other s.current)))) [
                    | first ↦ λ e. (rw e, rw e)
                    | second ↦ λ e. (rw e, rw e)
                  ]
        refl

  handed_over-HandsOver :
      (s : TuningFork Double) (t : ℕ)
      → IsValidCache (cache s (other s.current))
      → HandsOver s t (handed_over a s t)
  unfolding run_upload
  handed_over-HandsOver s t v =
      let (given, filled) = handed_over-cache s t in
      (
        ap some given,
        refl,
        filled,
        subst (λ (c : ProngCache Double). Uncounted c.prongs) (sym filled)
            (clear_cache-IsValid a (cache s (other s.current)) v).1,
        refl,
      )

  -- A flush more than a minute after the last, with no cache waiting, returns ok. The next round of the
  -- upload thread then takes exactly the cache that was being filled, with the instrument keys set in it,
  -- and the other cache becomes the current one, cleared: every one of its histograms counts nothing. The
  -- histograms of the other cache must be valid.
  pub flush-HandsOver :
      (s : TuningFork Double) (t : ℕ)
      → IsValidCache (cache s (other s.current))
      → s.ready ≡ none
      → s.last_submit_time_ns + 60000000000 < t
      → ((flush a s t).1 ≡ ok) × HandsOver s t (flush a s t).0
  flush-HandsOver s t v idle due =
      let e = flush_due s t due ∙ flush_at_idle a s t idle in
      (ap (λ r. r.1) e, subst (λ r. HandsOver s t r.0) (sym e) (handed_over-HandsOver s t v))

  refused-histograms :
      (s : TuningFork Double) (t : ℕ) (v : Which)
      → histograms_of (cache (refused a s t) v) ≡ histograms_of (cache s v)
  refused-histograms s t first = set_current_histograms s s.current first
  refused-histograms s t second = set_current_histograms s s.current second

  -- A flush that does not return ok loses no sample: both caches keep all their histograms, and the same
  -- cache is being filled. It returns one of the two codes for an upload that is not made.
  pub flush-keeps_samples :
      (s : TuningFork Double) (t : ℕ)
      → (flush a s t).1 ≢ ok
      → (((flush a s t).1 ≡ upload_too_frequent) ⊎ ((flush a s t).1 ≡ previous_upload_pending))
        × ((flush a s t).0.current ≡ s.current)
        × ((v : Which) → histograms_of (cache (flush a s t).0 v) ≡ histograms_of (cache s v))
  flush-keeps_samples s t failed = elim (dec_lt (s.last_submit_time_ns + 60000000000) t) [
    | no early ↦ subst Kept (sym (flush_early s t (omega arith))) (inl refl, refl, λ v. refl)
    | yes due ↦ elim (Option-cases s.ready) [
      | inl idle ↦ absurd (failed (ap (λ r. r.1) (flush_due s t due ∙ flush_at_idle a s t idle)))
      | inr (w, busy) ↦
          subst Kept (sym (flush_due s t due ∙ flush_at_busy a s t w busy))
            (inr refl, (set_cache-fields s s.current (keyed a s)).1, refused-histograms s t)
    ]
  ]
    where
      Kept : TuningFork Double × ErrorCode → Type 0
      Kept r =
          ((r.1 ≡ upload_too_frequent) ⊎ (r.1 ≡ previous_upload_pending))
          × (r.0.current ≡ s.current)
          × ((v : Which) → histograms_of (cache r.0 v) ≡ histograms_of (cache s v))

  -- A flush that is refused since a cache is waiting still counts for the limit of one flush a minute:
  -- though nothing was uploaded, a flush within the next minute is refused as too frequent.
  pub flush-again :
      (s : TuningFork Double) (t t' : ℕ)
      → (flush a s t).1 ≡ previous_upload_pending
      → t' ≤ t + 60000000000
      → (flush a (flush a s t).0 t').1 ≡ upload_too_frequent
  flush-again s t t' pending soon = elim (dec_lt (s.last_submit_time_ns + 60000000000) t) [
    | no early ↦ absurd (wrong (sym (ap (λ r. r.1) (flush_early s t (omega arith))) ∙ pending))
    | yes due ↦ elim (Option-cases s.ready) [
      | inl idle ↦
          absurd (
            wrong_ok (sym (ap (λ r. r.1) (flush_due s t due ∙ flush_at_idle a s t idle)) ∙ pending))
      | inr (w, busy) ↦
          ap (λ r. (flush a r.0 t').1) (flush_due s t due ∙ flush_at_busy a s t w busy)
          ∙ ap (λ r. r.1) (flush_early (refused a s t) t' soon)
    ]
  ]
    where
      wrong : upload_too_frequent ≢ previous_upload_pending
      wrong e = cc

      wrong_ok : ok ≢ previous_upload_pending
      wrong_ok e = cc
