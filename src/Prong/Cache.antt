-- ===== src/Prong/Cache.antt =====
-- Which prong is whose: the layout of a cache, and what clearing it keeps.
use mathlib.Core.Option
use native.Mathlib.Nat.{zero-add}
use gamesdk.Prelude.{
  ℕ, zero, suc, ◌+◌, ◌*◌, ◌/◌, ◌≤◌, ◌<◌, ◌≡◌, refl, ap, ◌∙◌, subst, List, [], ◌∷◌, length,
  get_elem?, get_or, modify, length-modify, length-map, get_elem?-modify_self, get_elem?-modify_ne,
  arith, inl, inr, ◌⊎◌,
}
use gamesdk.Double.{Arith}
use gamesdk.Prong.{
  Prong, ProngCache, set_instrument_key, keys_loop, annotations_loop, set_instrument_keys, update,
  clear_counted, clear_cache,
}

module _ {D : Type 0} where
  length-keys_loop :
      (prongs : List (Prong D)) (base i : ℕ) (keys : List ℕ)
      → length (keys_loop prongs base i keys) ≡ length prongs
  unfolding keys_loop
  length-keys_loop prongs base i [] = refl
  length-keys_loop prongs base i (k ∷ keys) =
      length-keys_loop (modify prongs (i + base) (set_instrument_key k)) base (i + 1) keys
      ∙ length-modify prongs (i + base) (set_instrument_key k)

  keys_loop_outside :
      (prongs : List (Prong D)) (base i : ℕ) (keys : List ℕ) (x : ℕ)
      → (x < i + base) ⊎ (i + base + length keys ≤ x)
      → get_elem? (keys_loop prongs base i keys) x ≡ get_elem? prongs x
  unfolding keys_loop
  keys_loop_outside prongs base i [] x h = refl
  keys_loop_outside prongs base i (k ∷ keys) x h =
      keys_loop_outside (modify prongs (i + base) (set_instrument_key k)) base (i + 1) keys x
        (omega arith)
      ∙ get_elem?-modify_ne prongs {i = i + base} {j = x} (set_instrument_key k) (omega arith)

  keys_loop_inside :
      (prongs : List (Prong D)) (base i : ℕ) (keys : List ℕ) (m x : ℕ)
      → m < length keys
      → x ≡ i + base + m
      → get_elem? (keys_loop prongs base i keys) x
        ≡ Option.map (set_instrument_key (get_or keys m 0)) (get_elem? prongs x)
  unfolding keys_loop
  keys_loop_inside prongs base i [] m x h e = elim h [ ]
  keys_loop_inside prongs base i (k ∷ keys) zero x h e =
      keys_loop_outside (modify prongs (i + base) (set_instrument_key k)) base (i + 1) keys x
        (omega arith)
      ∙ subst
          (λ y.
            get_elem? (modify prongs y (set_instrument_key k)) x
            ≡ Option.map (set_instrument_key k) (get_elem? prongs x))
          {x = x} {y = i + base} (omega arith)
          (get_elem?-modify_self prongs x (set_instrument_key k))
  keys_loop_inside prongs base i (k ∷ keys) (suc m) x h e =
      keys_loop_inside (modify prongs (i + base) (set_instrument_key k)) base (i + 1) keys m x
        (omega arith) (omega arith)
      ∙ ap (Option.map (set_instrument_key (get_or keys m 0)))
          (get_elem?-modify_ne prongs {i = i + base} {j = x} (set_instrument_key k) (omega arith))

  -- Round after round of annotations: the rounds from `j` on set the prongs from `j * max_keys` on.
  annotations_loop_before :
      (n j max_keys : ℕ) (prongs : List (Prong D)) (keys : List ℕ) (x : ℕ)
      → x < j * max_keys
      → get_elem? (annotations_loop n j max_keys prongs keys) x ≡ get_elem? prongs x
  unfolding annotations_loop
  annotations_loop_before zero j max_keys prongs keys x h = refl
  annotations_loop_before (suc n) j max_keys prongs keys x h =
      annotations_loop_before n (j + 1) max_keys (keys_loop prongs (j * max_keys) 0 keys) keys x
        (grind arith)
      ∙ keys_loop_outside prongs (j * max_keys) 0 keys x (inl (omega arith))

  annotations_loop_at :
      (n j max_keys : ℕ) (prongs : List (Prong D)) (keys : List ℕ) (r m : ℕ)
      → m < max_keys
      → length keys ≡ max_keys
      → r < n
      → get_elem? (annotations_loop n j max_keys prongs keys) ((j + r) * max_keys + m)
        ≡ Option.map
            (set_instrument_key (get_or keys m 0))
            (get_elem? prongs ((j + r) * max_keys + m))
  unfolding annotations_loop
  annotations_loop_at zero j max_keys prongs keys r m hm hk hr = elim hr [ ]
  annotations_loop_at (suc n) j max_keys prongs keys zero m hm hk hr =
      annotations_loop_before n (j + 1) max_keys (keys_loop prongs (j * max_keys) 0 keys) keys _
        (grind arith)
      ∙ keys_loop_inside prongs (j * max_keys) 0 keys m _ (omega arith) (grind arith)
  annotations_loop_at (suc n) j max_keys prongs keys (suc r) m hm hk hr =
      subst
        (λ (y : ℕ).
          get_elem?
            (annotations_loop n (j + 1) max_keys (keys_loop prongs (j * max_keys) 0 keys) keys)
            (y * max_keys + m)
          ≡ Option.map (set_instrument_key (get_or keys m 0)) (get_elem? prongs (y * max_keys + m)))
        {x = j + 1 + r} {y = j + suc r} (omega arith)
        (annotations_loop_at n (j + 1) max_keys (keys_loop prongs (j * max_keys) 0 keys) keys r m hm
            hk (omega arith)
          ∙ ap (Option.map (set_instrument_key (get_or keys m 0)))
              (keys_loop_outside prongs (j * max_keys) 0 keys _ (inr (grind arith))))

  -- `SetInstrumentKeys` with one key for each of the cache's instrument keys gives every prong of a whole
  -- annotation the key that belongs to its place, and changes nothing else of it.
  pub get_elem?-set_instrument_keys :
      (c : ProngCache D) (keys : List ℕ) (annotation m : ℕ)
      → length keys ≡ c.max_num_instrumentation_keys
      → m < c.max_num_instrumentation_keys
      → annotation < length c.prongs / c.max_num_instrumentation_keys
      → get_elem?
          (set_instrument_keys c keys).prongs
          (annotation * c.max_num_instrumentation_keys + m)
        ≡ Option.map
            (set_instrument_key (get_or keys m 0))
            (get_elem? c.prongs (annotation * c.max_num_instrumentation_keys + m))
  unfolding set_instrument_keys
  get_elem?-set_instrument_keys c keys annotation m hk hm ha = rw zero-add at (
      annotations_loop_at (length c.prongs / c.max_num_instrumentation_keys) 0
        c.max_num_instrumentation_keys c.prongs keys annotation m hm hk ha)

  length-annotations_loop :
      (n j max_keys : ℕ) (prongs : List (Prong D)) (keys : List ℕ)
      → length (annotations_loop n j max_keys prongs keys) ≡ length prongs
  unfolding annotations_loop
  length-annotations_loop zero j max_keys prongs keys = refl
  length-annotations_loop (suc n) j max_keys prongs keys =
      length-annotations_loop n (j + 1) max_keys (keys_loop prongs (j * max_keys) 0 keys) keys
      ∙ length-keys_loop prongs (j * max_keys) 0 keys

  pub length-set_instrument_keys :
      (c : ProngCache D) (keys : List ℕ)
      → length (set_instrument_keys c keys).prongs ≡ length c.prongs
  unfolding set_instrument_keys
  length-set_instrument_keys c keys = length-annotations_loop _ 0 _ c.prongs keys

  pub length-update :
      (c : ProngCache D) (id : ℕ) (f : Prong D → Prong D)
      → length (update c id f).prongs ≡ length c.prongs
  unfolding update
  length-update c id f = length-modify c.prongs id f

pub length-clear_cache :
    (a : Arith) (c : ProngCache a.Double) → length (clear_cache a c).prongs ≡ length c.prongs
unfolding clear_cache
length-clear_cache a c = length-map c.prongs (clear_counted a)
