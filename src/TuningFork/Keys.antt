-- ===== src/TuningFork/Keys.antt =====
-- `GetOrCreateInstrumentKeyIndex`: each instrument key has an index of its own, and keeps it.
use gamesdk.Prelude.{
  ℕ, zero, suc, ◌+◌, ◌≤◌, ◌<◌, ◌≡◌, refl, sym, ap, ◌∙◌, subst, subst₂, none, some, List, ltb,
  length, get_or, set, length-set, get_or-set_self, get_or-set_ne, arith, Bool-cases, Option-cases,
  inl, inr, ◌⊎◌,
}
use gamesdk.TuningFork.{TuningFork, find_key, get_or_create_instrument_key_index}

-- The search finds an index of the key.
find_key-some :
    (keys : List ℕ) (n i key r : ℕ)
    → find_key keys n i key ≡ some r
    → (i ≤ r) × (r < i + n) × (get_or keys r 0 ≡ key)
unfolding find_key
find_key-some keys zero i key r e = cc
find_key-some keys (suc n) i key r e = ground (arith, find_key-some keys n (i + 1) key r)

find_key_write :
    (keys : List ℕ) (n i key m v : ℕ)
    → i + n ≤ m
    → find_key (set keys m v) n i key ≡ find_key keys n i key
unfolding find_key
find_key_write keys zero i key m v h = refl
find_key_write keys (suc n) i key m v h = ground (
  arith,
  get_or-set_ne keys {i = m} {j = i} v 0 (omega arith),
  find_key_write keys n (i + 1) key m v,
)

-- A key that the search has missed is found behind the keys that were searched.
find_key_last :
    (keys : List ℕ) (n i key : ℕ)
    → find_key keys n i key ≡ none
    → get_or keys (i + n) 0 ≡ key
    → find_key keys (suc n) i key ≡ some (i + n)
unfolding find_key
find_key_last keys zero i key e f = ground arith
find_key_last keys (suc n) i key e f = ground (arith, find_key_last keys n (i + 1) key)

module _ {D : Type 0} where
  -- The number of keys in use is at most the size of the table.
  abbrev pub HasRoom : TuningFork D → Type 0
  HasRoom s = s.next_ikey ≤ length s.ikeys

  -- What the call does: it finds the key, adds it behind the others, or fails on a full table.
  pub key_index_cases :
      (s : TuningFork D) (key : ℕ)
      → ((i : ℕ) × (find_key s.ikeys s.next_ikey 0 key ≡ some i)
          × (get_or_create_instrument_key_index s key ≡ (s, some i)))
        ⊎ ((find_key s.ikeys s.next_ikey 0 key ≡ none)
              × (s.next_ikey < length s.ikeys)
              × (get_or_create_instrument_key_index s key ≡ (
                record s { ikeys = set s.ikeys s.next_ikey key; next_ikey = s.next_ikey + 1 },
                some s.next_ikey,
              ))
            ⊎ (find_key s.ikeys s.next_ikey 0 key ≡ none)
              × (length s.ikeys ≤ s.next_ikey)
              × (get_or_create_instrument_key_index s key ≡ (s, none)))
  unfolding get_or_create_instrument_key_index
  key_index_cases s key = elim (Option-cases (find_key s.ikeys s.next_ikey 0 key)) [
    | inl e ↦ elim (Bool-cases (ltb s.next_ikey (length s.ikeys))) [
      | inl room ↦ inr (inl (e, ground arith, rw (e, get_or_create_instrument_key_index) (rw room)))
      | inr full ↦ inr (inr (e, ground arith, rw (e, get_or_create_instrument_key_index) (rw full)))
    ]
    | inr (i, e) ↦ inl (i, e, rw (e, get_or_create_instrument_key_index))
  ]

  find_key-added :
      (s : TuningFork D) (key : ℕ)
      → find_key s.ikeys s.next_ikey 0 key ≡ none
      → s.next_ikey < length s.ikeys
      → find_key (set s.ikeys s.next_ikey key) (s.next_ikey + 1) 0 key ≡ some s.next_ikey
  find_key-added s key missing room =
      ap (λ (n : ℕ). find_key (set s.ikeys s.next_ikey key) n 0 key) (omega arith)
      ∙ find_key_last (set s.ikeys s.next_ikey key) s.next_ikey 0 key
          (find_key_write s.ikeys s.next_ikey 0 key s.next_ikey key (omega arith) ∙ missing)
          (subst (λ (m : ℕ). get_or (set s.ikeys s.next_ikey key) m 0 ≡ key) {x = s.next_ikey}
            {y = 0 + s.next_ikey} (omega arith) (get_or-set_self s.ikeys s.next_ikey key 0 room))
      ∙ ap some (omega arith)

  -- What a caller gets: an index in use that holds the key, all other indices as they were, and the
  -- same answer from the next call.
  abbrev pub Holds : TuningFork D → ℕ → TuningFork D → ℕ → Type 0
  Holds s key s' i =
      HasRoom s'
      × (i < s'.next_ikey)
      × (get_or s'.ikeys i 0 ≡ key)
      × ((j : ℕ) → j < s.next_ikey → get_or s'.ikeys j 0 ≡ get_or s.ikeys j 0)
      × (get_or_create_instrument_key_index s' key ≡ (s', some i))

  found-Holds :
      (s : TuningFork D) (key i : ℕ)
      → HasRoom s
      → find_key s.ikeys s.next_ikey 0 key ≡ some i
      → Holds s key s i
  unfolding get_or_create_instrument_key_index
  found-Holds s key i room e =
      let (low, high, holds) = find_key-some s.ikeys s.next_ikey 0 key i e in
      (room, omega arith, holds, λ j h. refl, rw (e, get_or_create_instrument_key_index))

  added-Holds :
      (s : TuningFork D) (key : ℕ)
      → find_key s.ikeys s.next_ikey 0 key ≡ none
      → s.next_ikey < length s.ikeys
      → Holds s key
          (record s { ikeys = set s.ikeys s.next_ikey key; next_ikey = s.next_ikey + 1 })
          s.next_ikey
  unfolding get_or_create_instrument_key_index
  added-Holds s key missing room = (
    omega (arith, length-set s.ikeys s.next_ikey key),
    omega arith,
    get_or-set_self s.ikeys s.next_ikey key 0 room,
    λ j h. get_or-set_ne s.ikeys {i = s.next_ikey} {j = j} key 0 (omega arith),
    rw (find_key-added s key missing room, get_or_create_instrument_key_index),
  )

  -- In a state whose keys fit the table, a call that succeeds returns an index in use that holds the key. It
  -- leaves the keys that were there at their indices, the table within its size, and a second call with the
  -- key returns the same index and changes nothing.
  pub key_index-Holds :
      (s s' : TuningFork D) (key i : ℕ)
      → HasRoom s
      → get_or_create_instrument_key_index s key ≡ (s', some i)
      → Holds s key s' i
  key_index-Holds s s' key i room e = elim (key_index_cases s key) [
    | inl (r, f, g) ↦ subst₂ (Holds s key) (cc) (cc) (found-Holds s key r room f)
    | inr (inl (missing, free, g)) ↦ subst₂ (Holds s key) (cc) (cc) (added-Holds s key missing free)
    | inr (inr (missing, full, g)) ↦ cc
  ]

  -- From a state whose keys fit the table, two calls in a row that succeed and return the same index had the
  -- same key.
  key_index_injective :
      (s s' s'' : TuningFork D) (key key' i : ℕ)
      → HasRoom s
      → get_or_create_instrument_key_index s key ≡ (s', some i)
      → get_or_create_instrument_key_index s' key' ≡ (s'', some i)
      → key ≡ key'
  key_index_injective s s' s'' key key' i room e f =
      let (room', used, holds, kept, again) = key_index-Holds s s' key i room e in
      let (room'', used'', holds'', kept'', again'') = key_index-Holds s' s'' key' i room' f in
      sym holds ∙ sym (kept'' i used) ∙ holds''

  -- A call fails only on a full table, and then it changes nothing: the counter is back at its value.
  pub key_index_full :
      (s s' : TuningFork D) (key : ℕ)
      → HasRoom s
      → get_or_create_instrument_key_index s key ≡ (s', none)
      → (s' ≡ s) × (s.next_ikey ≡ length s.ikeys) × (find_key s.ikeys s.next_ikey 0 key ≡ none)
  key_index_full s s' key room e = elim (key_index_cases s key) [
    | inl (r, f, g) ↦ cc
    | inr (inl (missing, free, g)) ↦ cc
    | inr (inr (missing, full, g)) ↦ (cc, omega arith, missing)
  ]
