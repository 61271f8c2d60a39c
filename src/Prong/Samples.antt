-- ===== src/Prong/Samples.antt =====
-- The samples of a cache: how it is built, recorded into and cleared.
use native.Mathlib.Nat.{mod-eq_of_lt, add-mod_left}
use native.Mathlib.Decide.{dec_lt}
use gamesdk.Prelude.{
  ℕ, zero, suc, ◌+◌, ◌%◌, ◌^◌, ◌≤◌, ◌<◌, ◌≡◌, refl, sym, ap, ◌∙◌, subst, ap₂, true, false, Option,
  none, some, List, [], ◌∷◌, ltb, leb, if◌then◌else◌, length, get_elem?, get_or, map, length-map,
  arith, All, Bool-cases, inl, inr, u32,
}
use gamesdk.Prelude.Int.{ℤ, sub_ℕ}
use gamesdk.Double.{Arith}
use gamesdk.Histogram.{TfHistogram, Histogram, clear}
use gamesdk.Histogram.Counts.{IsValid, recorded, clear-IsValid, add_sample-IsValid}
use gamesdk.Prong.{
  Prong, ProngCache, get, new_prong, trace, tick, clear_counted, clear_cache, build, new_cache,
}

-- Every histogram of the cache is valid.
abbrev pub IsValidCache : {D : Type 0} → ProngCache D → Type 0
IsValidCache c = All (λ p. IsValid p.histogram) c.prongs

abbrev pub Uncounted : {D : Type 0} → List (Prong D) → Type 0
Uncounted = All (λ p. p.histogram.count ≡ 0)

module _ (a : Arith) where
  open a use {Double, of_ℤ, div}

  clear_counted-IsValid :
      (p : Prong Double)
      → IsValid p.histogram
      → IsValid (clear_counted a p).histogram × ((clear_counted a p).histogram.count ≡ 0)
  unfolding clear_counted
  clear_counted-IsValid p v = elim (Bool-cases (ltb 0 p.histogram.count)) [
    | inl some_counted ↦
        subst Empty (sym (cleared some_counted))
          ((clear-IsValid a p.histogram v).0, (clear-count p.histogram))
    | inr none_counted ↦ subst Empty (sym (kept none_counted)) (v, ground arith)
  ]
    where
      Empty : Prong Double → Type 0
      Empty q = IsValid q.histogram × (q.histogram.count ≡ 0)

      clear-count : (h : Histogram Double) → (clear a h false).count ≡ 0
      clear-count h = unfold clear in refl

      cleared :
          ltb 0 p.histogram.count ≡ true
          → clear_counted a p ≡ record p { histogram = clear a p.histogram false }
      cleared e = ground (arith, e)

      kept : ltb 0 p.histogram.count ≡ false → clear_counted a p ≡ p
      kept e = ground (arith, e)

  clear-All :
      (ps : List (Prong Double))
      → All (λ p. IsValid p.histogram) ps
      → All (λ p. IsValid p.histogram) (map (clear_counted a) ps)
        × Uncounted (map (clear_counted a) ps)
  clear-All [] v = (tt, tt)
  clear-All (p ∷ ps) (v, vs) =
      let (w, e) = clear_counted-IsValid p v in let (ws, es) = clear-All ps vs in ((w, ws), (e, es))

  -- `ProngCache::Clear` keeps a valid cache valid and its number of prongs, and leaves every count at 0.
  pub clear_cache-IsValid :
      (c : ProngCache Double)
      → IsValidCache c
      → IsValidCache (clear_cache a c)
        × Uncounted (clear_cache a c).prongs
        × (length (clear_cache a c).prongs ≡ length c.prongs)
  unfolding clear_cache
  clear_cache-IsValid c v =
      let (w, e) = clear-All c.prongs v in (w, e, length-map c.prongs (clear_counted a))

  -- A histogram that is still waiting for its ranges keeps the samples that it has collected.
  pub clear_counted-auto :
      (p : Prong Double)
      → IsValid p.histogram
      → p.histogram.auto_range ≡ true
      → clear_counted a p ≡ p
  unfolding clear_counted
  clear_counted-auto p v e = ground (arith, v.room e)

  trace-IsValid :
      (p : Prong Double) (dt : ℤ)
      → IsValid p.histogram
      → recorded p.histogram + 1 < u32
      → IsValid (trace a dt p).histogram
        × (recorded (trace a dt p).histogram ≡ recorded p.histogram + 1)
  unfolding trace
  trace-IsValid p dt v fits = add_sample-IsValid a p.histogram _ v fits

  abbrev pub ticks : Option ℕ → ℕ
  ticks none = 0
  ticks (some last) = 1

  tick_from :
      (last : Option ℕ) (p : Prong Double) (t : ℕ)
      → p.last_time_ns ≡ last
      → IsValid p.histogram
      → recorded p.histogram + 1 < u32
      → IsValid (tick a t p).histogram
        × (recorded (tick a t p).histogram ≡ recorded p.histogram + ticks last)
        × ((tick a t p).last_time_ns ≡ some t)
  unfolding tick
  tick_from none p t e v fits = rw (e, tick) (v, omega arith, refl)
  tick_from (some last) p t e v fits =
      let (w, r) = trace-IsValid p (sub_ℕ t last) v fits in rw (e, tick) (w, r, refl)

  -- A tick of a prong whose histogram is valid and has recorded fewer than 2^32 - 1 samples keeps the
  -- histogram valid and notes its time. The first tick of a prong records no sample, and each later one
  -- records one.
  tick-IsValid :
      (p : Prong Double) (t : ℕ)
      → IsValid p.histogram
      → recorded p.histogram + 1 < u32
      → IsValid (tick a t p).histogram
        × (recorded (tick a t p).histogram ≡ recorded p.histogram + ticks p.last_time_ns)
        × ((tick a t p).last_time_ns ≡ some t)
  tick-IsValid p t v fits = tick_from p.last_time_ns p t refl v fits

  module _ (max_keys : ℕ) (settings : List (TfHistogram Double)) (missing : TfHistogram Double)
      (serialize_id : ℕ → List ℕ) where
    abbrev setting : ℕ → TfHistogram Double
    setting k = get_or settings (if ltb k (length settings) then k else 0) missing

    -- The prong for an annotation's id and an index of an instrument key.
    abbrev pub prong_at : ℕ → ℕ → Prong Double
    prong_at i k = new_prong a k (serialize_id i) (setting k)

    abbrev next : ℕ → ℕ
    next ikey = if leb max_keys ((ikey + 1) % 2 ^ 16) then 0 else (ikey + 1) % 2 ^ 16

    next_key :
        (ikey k : ℕ)
        → ikey < max_keys
        → max_keys ≤ 2 ^ 16
        → (next ikey < max_keys) × ((next ikey + k) % max_keys ≡ (ikey + suc k) % max_keys)
    next_key ikey k hi hm = elim (dec_lt (ikey + 1) max_keys) [
      | yes inner ↦
          let e : next ikey ≡ ikey + 1 = ground arith in
          (omega arith, ap (λ (n : ℕ). n % max_keys) (omega arith))
      | no last ↦
          let e : next ikey ≡ 0 = ground arith in
          (
            omega arith,
            ap (λ (n : ℕ). (n + k) % max_keys) e
                ∙ ap (λ (n : ℕ). n % max_keys) (omega arith)
                ∙ sym (add-mod_left max_keys k)
                ∙ ap (λ (n : ℕ). n % max_keys) (omega arith),
          )
    ]

    build-get :
        (n i ikey k : ℕ)
        → max_keys ≤ 2 ^ 16
        → ikey < max_keys
        → k < n
        → get_elem? (build a max_keys settings missing serialize_id n i ikey) k
          ≡ some (prong_at (i + k) ((ikey + k) % max_keys))
    unfolding build
    build-get zero i ikey k hm hi hk = elim hk [ ]
    build-get (suc n) i ikey zero hm hi hk =
        ap₂ (λ j m. some (prong_at j m)) {x = i} {y = i + 0} {u = ikey} {v = (ikey + 0) % max_keys}
          (omega arith) (omega (arith, mod-eq_of_lt {n = ikey + 0} {m = max_keys} (omega arith)))
    build-get (suc n) i ikey (suc k) hm hi hk =
        build-get n (i + 1) (next ikey) k hm (next_key ikey k hi hm).0 (omega arith)
        ∙ ap₂ (λ j m. some (prong_at j m)) (omega arith) (next_key ikey k hi hm).1

    length-build :
        (n i ikey : ℕ) → length (build a max_keys settings missing serialize_id n i ikey) ≡ n
    unfolding build
    length-build zero i ikey = refl
    length-build (suc n) i ikey = ap suc (length-build n (i + 1) (next ikey))

    pub length-new_cache :
        (size : ℕ) → length (new_cache a max_keys settings missing serialize_id size).prongs ≡ size
    unfolding new_cache
    length-new_cache size = length-build size 0 0

    -- The cache that the constructor builds has, at each id below its size, the prong of the key index `id %
    -- max_keys` and the annotation that the id is serialized to, for one to 2^16 instrument keys.
    get-new_cache :
        (size id : ℕ)
        → 0 < max_keys
        → max_keys ≤ 2 ^ 16
        → id < size
        → get (new_cache a max_keys settings missing serialize_id size) id
          ≡ some (prong_at id (id % max_keys))
    unfolding get new_cache
    get-new_cache size id pm hm h =
        ground (arith, length-build size 0 0, build-get size 0 0 id hm pm h)
