-- ===== src/DeviceInfo/Words.antt =====
-- device_info/device_info.cpp: the words that `splitAdd` finds.
use mathlib.Core.List.{append_assoc, append-nil}
use mathlib.Core.List.Memᴰ
use mathlib.Core.List.{Memᴰ}
use gamesdk.Prelude.{
  ℕ, ◌<◌, ◌≡◌, ◌≢◌, ◌⊎◌, inl, inr, refl, ap, ap₂, sym, subst, ◌∙◌, false, List, [], ◌∷◌, ◌++◌, ◌==◌,
  if◌then◌else◌, length, All, arith, Bool-cases,
}
use gamesdk.DeviceInfo.{less, insert, insert_piece, split_add}

-- The pieces between delimiters, with what has been read of the first.
abbrev pub pieces_of : List ℕ → ℕ → List ℕ → List (List ℕ)
pieces_of [] c piece = piece ∷ []
pieces_of (x ∷ s) c piece =
    let here = piece ∷ pieces_of s c [] in
    let on = pieces_of s c (piece ++ x ∷ []) in if x == c then here else on

-- The pieces with a delimiter between them.
abbrev pub joined : ℕ → List (List ℕ) → List ℕ
joined c [] = []
joined c (p ∷ []) = p
joined c (p ∷ q ∷ pieces) = p ++ c ∷ joined c (q ∷ pieces)

abbrev pub Lacks : ℕ → List ℕ → Type 0
Lacks c = All (λ x. x ≢ c)

-- Neither is less: they are equal.
less-equal : (a b : List ℕ) → less a b ≡ false → less b a ≡ false → a ≡ b
unfolding less
less-equal [] [] h k = refl
less-equal [] (y ∷ b) h k = ground (arith, h)
less-equal (x ∷ a) [] h k = ground (arith, k)
less-equal (x ∷ a) (y ∷ b) h k = ground (arith, h, k, less-equal a b)

-- Where a word goes: before the first, behind it, or nowhere, since it is the first.
insert-cases :
    (w v : List ℕ) (words : List (List ℕ))
    → (insert w (v ∷ words) ≡ w ∷ v ∷ words)
      ⊎ ((insert w (v ∷ words) ≡ v ∷ insert w words)
          ⊎ ((w ≡ v) × (insert w (v ∷ words) ≡ v ∷ words)))
unfolding insert
insert-cases w v words = elim (Bool-cases (less w v)) [
  | inl e ↦ inl (ground (arith, e))
  | inr e ↦ elim (Bool-cases (less v w)) [
    | inl e' ↦ inr (inl (ground (arith, e, e')))
    | inr e' ↦ inr (inr (less-equal w v e e', ground (arith, e, e')))
  ]
]

insert_here : (w : List ℕ) (words : List (List ℕ)) → Memᴰ w (insert w words)
unfolding insert
insert_here w [] = Memᴰ.head refl
insert_here w (v ∷ words) = elim (insert-cases w v words) [
  | inl e ↦ subst (Memᴰ w) (sym e) (Memᴰ.head refl)
  | inr (inl e) ↦ subst (Memᴰ w) (sym e) (Memᴰ.tail (insert_here w words))
  | inr (inr (same, e)) ↦ subst (Memᴰ w) (sym e) (Memᴰ.head same)
]

insert_keeps : (w x : List ℕ) (words : List (List ℕ)) → Memᴰ x words → Memᴰ x (insert w words)
insert_keeps w x [] m = elim m [ ]
insert_keeps w x (v ∷ words) m = elim (insert-cases w v words) [
  | inl e ↦ subst (Memᴰ x) (sym e) (Memᴰ.tail m)
  | inr (inl e) ↦ subst (Memᴰ x) (sym e) (elim (Memᴰ.cases_cons m) [
    | inl here ↦ Memᴰ.head here
    | inr m' ↦ Memᴰ.tail (insert_keeps w x words m')
  ])
  | inr (inr (same, e)) ↦ subst (Memᴰ x) (sym e) m
]

insert_only :
    (w x : List ℕ) (words : List (List ℕ)) → Memᴰ x (insert w words) → (x ≡ w) ⊎ Memᴰ x words
unfolding insert
insert_only w x [] m = Memᴰ.cases_cons m
insert_only w x (v ∷ words) m = elim (insert-cases w v words) [
  | inl e ↦ Memᴰ.cases_cons (subst (Memᴰ x) e m)
  | inr (inl e) ↦ elim (Memᴰ.cases_cons (subst (Memᴰ x) e m)) [
    | inl here ↦ inr (Memᴰ.head here)
    | inr m' ↦ elim (insert_only w x words m') [
      | inl here ↦ inl here
      | inr m'' ↦ inr (Memᴰ.tail m'')
    ]
  ]
  | inr (inr (same, e)) ↦ inr (subst (Memᴰ x) e m)
]

-- The same for a piece, which is left out if it is empty.
piece_here : (w : List ℕ) (words : List (List ℕ)) → 0 < length w → Memᴰ w (insert_piece w words)
piece_here w words h =
    let e : insert_piece w words ≡ insert w words = ground (arith, h) in
    subst (Memᴰ w) (sym e) (insert_here w words)

piece_keeps : (w x : List ℕ) (words : List (List ℕ)) → Memᴰ x words → Memᴰ x (insert_piece w words)
piece_keeps [] x words m = m
piece_keeps (c ∷ w) x words m =
    let e : insert_piece (c ∷ w) words ≡ insert (c ∷ w) words = ground arith in
    subst (Memᴰ x) (sym e) (insert_keeps (c ∷ w) x words m)

piece_only :
    (w x : List ℕ) (words : List (List ℕ))
    → Memᴰ x (insert_piece w words)
    → ((x ≡ w) × (0 < length w)) ⊎ Memᴰ x words
piece_only [] x words m = inr m
piece_only (c ∷ w) x words m =
    let e : insert_piece (c ∷ w) words ≡ insert (c ∷ w) words = ground arith in
    elim (insert_only (c ∷ w) x words (subst (Memᴰ x) e m)) [
      | inl here ↦ inl (here, omega arith)
      | inr m' ↦ inr m'
    ]

pieces_step :
    (x : ℕ) (s : List ℕ) (c : ℕ) (piece : List ℕ)
    → ((x ≡ c)
        × (pieces_of (x ∷ s) c piece ≡ piece ∷ pieces_of s c [])
        × ((words : List (List ℕ))
            → split_add (x ∷ s) c piece words ≡ split_add s c [] (insert_piece piece words)))
      ⊎ ((x ≢ c)
          × (pieces_of (x ∷ s) c piece ≡ pieces_of s c (piece ++ x ∷ []))
          × ((words : List (List ℕ))
              → split_add (x ∷ s) c piece words ≡ split_add s c (piece ++ x ∷ []) words))
unfolding split_add
pieces_step x s c piece = elim (Bool-cases (x == c)) [
  | inl e ↦ inl (ground (arith, e), ground (arith, e), λ words. ground (arith, e))
  | inr e ↦ inr (λ same. ground (arith, e, same), ground (arith, e), λ words. ground (arith, e))
]

piece_in :
    (w piece : List ℕ) (words : List (List ℕ))
    → 0 < length w
    → w ≡ piece
    → Memᴰ w (insert_piece piece words)
piece_in w piece words h e =
    subst (λ (v : List ℕ). Memᴰ v (insert_piece piece words)) (sym e)
      (piece_here piece words (subst (λ (v : List ℕ). 0 < length v) e h))

-- A word that is there, or a piece that is not empty, is in the result.
split_add_has :
    (s : List ℕ) (c : ℕ) (piece : List ℕ) (words : List (List ℕ)) (w : List ℕ)
    → Memᴰ w words ⊎ ((0 < length w) × Memᴰ w (pieces_of s c piece))
    → Memᴰ w (split_add s c piece words)
unfolding split_add
split_add_has [] c piece words w (inl m) = piece_keeps piece w words m
split_add_has [] c piece words w (inr (h, m)) = elim (Memᴰ.cases_cons m) [
  | inl e ↦ piece_in w piece words h e
  | inr m' ↦ elim m' [ ]
]
split_add_has (x ∷ s) c piece words w (inl m) = elim (pieces_step x s c piece) [
  | inl (same, e, step) ↦
      subst (Memᴰ w) (sym (step words))
        (split_add_has s c [] (insert_piece piece words) w (inl (piece_keeps piece w words m)))
  | inr (differ, e, step) ↦
      subst (Memᴰ w) (sym (step words)) (split_add_has s c (piece ++ x ∷ []) words w (inl m))
]
split_add_has (x ∷ s) c piece words w (inr (h, m)) = elim (pieces_step x s c piece) [
  | inl (same, e, step) ↦ subst (Memᴰ w) (sym (step words)) (
      split_add_has s c [] (insert_piece piece words) w
        (elim (Memᴰ.cases_cons (subst (Memᴰ w) e m)) [
          | inl here ↦ inl (piece_in w piece words h here)
          | inr m' ↦ inr (h, m')
        ]))
  | inr (differ, e, step) ↦
      subst (Memᴰ w) (sym (step words))
        (split_add_has s c (piece ++ x ∷ []) words w (inr (h, subst (Memᴰ w) e m)))
]

split_add_only :
    (s : List ℕ) (c : ℕ) (piece : List ℕ) (words : List (List ℕ)) (w : List ℕ)
    → Memᴰ w (split_add s c piece words)
    → Memᴰ w words ⊎ ((0 < length w) × Memᴰ w (pieces_of s c piece))
unfolding split_add
split_add_only [] c piece words w m = elim (piece_only piece w words m) [
  | inl (e, h) ↦ inr (subst (λ (v : List ℕ). 0 < length v) (sym e) h, Memᴰ.head e)
  | inr m' ↦ inl m'
]
split_add_only (x ∷ s) c piece words w m = elim (pieces_step x s c piece) [
  | inl (same, e, step) ↦
      elim (split_add_only s c [] (insert_piece piece words) w (subst (Memᴰ w) (step words) m)) [
        | inl m' ↦ elim (piece_only piece w words m') [
          | inl (here, h) ↦ inr (
            subst (λ (v : List ℕ). 0 < length v) (sym here) h,
            subst (Memᴰ w) (sym e) (Memᴰ.head here),
          )
          | inr there ↦ inl there
        ]
        | inr (h, m') ↦ inr (h, subst (Memᴰ w) (sym e) (Memᴰ.tail m'))
      ]
  | inr (differ, e, step) ↦
      elim (split_add_only s c (piece ++ x ∷ []) words w (subst (Memᴰ w) (step words) m)) [
        | inl m' ↦ inl m'
        | inr (h, m') ↦ inr (h, subst (Memᴰ w) (sym e) m')
      ]
]

some_piece :
    (s : List ℕ) (c : ℕ) (piece : List ℕ)
    → (q : List ℕ) × (qs : List (List ℕ)) × (pieces_of s c piece ≡ q ∷ qs)
some_piece [] c piece = (piece, [], refl)
some_piece (x ∷ s) c piece = elim (pieces_step x s c piece) [
  | inl (same, e, step) ↦ (piece, pieces_of s c [], e)
  | inr (differ, e, step) ↦
      let (q, qs, found) = some_piece s c (piece ++ x ∷ []) in (q, qs, e ∙ found)
]

joined_more :
    (p : List ℕ) (c : ℕ) (s : List ℕ)
    → joined c (p ∷ pieces_of s c []) ≡ p ++ c ∷ joined c (pieces_of s c [])
joined_more p c s = let (q, qs, e) = some_piece s c [] in rw (e) refl

joined-pieces_of :
    (s : List ℕ) (c : ℕ) (piece : List ℕ) → joined c (pieces_of s c piece) ≡ piece ++ s
joined-pieces_of [] c piece = sym (append-nil piece)
joined-pieces_of (x ∷ s) c piece = elim (pieces_step x s c piece) [
  | inl (same, e, step) ↦
      ap (joined c) e
      ∙ joined_more piece c s
      ∙ ap₂ (λ (y : ℕ) (l : List ℕ). piece ++ y ∷ l) (sym same) (joined-pieces_of s c [])
  | inr (differ, e, step) ↦
      ap (joined c) e ∙ joined-pieces_of s c (piece ++ x ∷ []) ∙ append_assoc piece (x ∷ []) s
]

Lacks-append_one : (c x : ℕ) (piece : List ℕ) → Lacks c piece → x ≢ c → Lacks c (piece ++ x ∷ [])
Lacks-append_one c x [] l differ = (differ, tt)
Lacks-append_one c x (y ∷ piece) (d, l) differ = (d, Lacks-append_one c x piece l differ)

pieces_of-Lacks :
    (s : List ℕ) (c : ℕ) (piece : List ℕ) → Lacks c piece → All (Lacks c) (pieces_of s c piece)
pieces_of-Lacks [] c piece l = (l, tt)
pieces_of-Lacks (x ∷ s) c piece l = elim (pieces_step x s c piece) [
  | inl (same, e, step) ↦ subst (All (Lacks c)) (sym e) (l, pieces_of-Lacks s c [] tt)
  | inr (differ, e, step) ↦
      subst (All (Lacks c)) (sym e)
        (pieces_of-Lacks s c (piece ++ x ∷ []) (Lacks-append_one c x piece l differ))
]

-- The words of a string: it is cut at every delimiter into pieces that lack the delimiter and that, with a delimiter
-- between each two, are the string again. Into an empty set `splitAdd` puts the pieces that are not empty, all of them
-- and nothing else.
pub split_add_words :
    (s : List ℕ) (c : ℕ)
    → (pieces : List (List ℕ)) × (joined c pieces ≡ s)
      × All (Lacks c) pieces
      × ((w : List ℕ) → 0 < length w → Memᴰ w pieces → Memᴰ w (split_add s c [] []))
      × ((w : List ℕ) → Memᴰ w (split_add s c [] []) → (0 < length w) × Memᴰ w pieces)
split_add_words s c = (
  pieces_of s c [],
  joined-pieces_of s c [],
  pieces_of-Lacks s c [] tt,
  λ w h m. split_add_has s c [] [] w (inr (h, m)),
  λ w m. elim (split_add_only s c [] [] w m) [
    | inl none_there ↦ elim none_there [ ]
    | inr found ↦ found
  ],
)
