-- ===== src/Egl/Fences.antt =====
-- swappy/opengl/EGL.cpp: the life of the sync fences.
use gamesdk.Prelude.{ℕ, ◌≡◌, refl, sym, ap, subst, true, false, Option, some, [], ◌∷◌, ◌++◌, arith}
use gamesdk.Egl.{
  Egl, new_egl, one_fence, reset_sync_fence, WaitResult, condition_satisfied, is_satisfied,
  waiter_round,
}

-- The application resets the fence when the waiter is idle, and the waiter's waits are satisfied.
pub data Step (s t : Egl) : Type 0 where
  reset : (fence : Option ℕ) → s.waiter.pending ≡ false → t ≡ reset_sync_fence fence s → Step s t
  round : waiter_round condition_satisfied s ≡ some t → Step s t

pub data Steps (s : Egl) : Egl → Type 0 where
  here : Steps s s
  next : {t u : Egl} → Steps s t → Step t u → Steps s u

-- The created fences are those that were destroyed, in their order, and the current one.
abbrev pub Owns : Egl → Type 0
Owns s = s.created ≡ s.destroyed ++ one_fence s.sync_fence

reset-Owns : (fence : Option ℕ) (s : Egl) → Owns s → Owns (reset_sync_fence fence s)
unfolding reset_sync_fence
reset-Owns fence s h = ap (λ l. l ++ one_fence fence) h

round-Owns : (s t : Egl) → waiter_round condition_satisfied s ≡ some t → Owns s → Owns t
unfolding waiter_round
round-Owns s t h o = ground (arith, o)

-- As long as every wait for a fence is satisfied, whatever the order of resets and waits, the fences that were created
-- are those that were destroyed, each once and in the order of their creation, and the current one, which lives.
pub new_egl-Owns : {s : Egl} → Steps new_egl s → Owns s
new_egl-Owns here = refl
new_egl-Owns (next {t} steps (reset fence idle e)) =
    subst Owns (sym e) (reset-Owns fence t (new_egl-Owns steps))
new_egl-Owns (next {t} {u} steps (round h)) = round-Owns t u h (new_egl-Owns steps)

-- A wait that fails or times out, for a fence that the application has just made by `resetSyncFence`, destroys it, but
-- the next reset destroys the same fence once more.
reset_sync_fence_twice :
    (s : Egl) (f : ℕ) (fence : Option ℕ) (r : WaitResult) (t : Egl)
    → s.waiter.running ≡ true
    → is_satisfied r ≡ false
    → waiter_round r (reset_sync_fence (some f) s) ≡ some t
    → (reset_sync_fence fence t).destroyed
      ≡ ((s.destroyed ++ one_fence s.sync_fence) ++ f ∷ []) ++ f ∷ []
unfolding waiter_round reset_sync_fence
reset_sync_fence_twice s f fence r t run bad h = ground (arith, run, bad)
