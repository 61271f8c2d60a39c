-- ===== src/ChoreographerThread/Idle.antt =====
-- swappy/common/ChoreographerThread.cpp: the callbacks before the thread goes idle.
use gamesdk.Prelude.{
  ℕ, zero, suc, ◌+◌, ◌-◌, ◌≤◌, ◌<◌, ◌≡◌, refl, true, false, if◌then◌else◌, ltb, arith, subst, sym,
  ◌∙◌, ap,
}
use gamesdk.Prelude.Int.{pos}
use gamesdk.ChoreographerThread.{
  ChoreographerThread, new_choreographer_thread, post_frame_callbacks, on_choreographer, deliver,
}

-- The application posts before a swap; a callback comes only if one was posted.
pub data Step (t u : ChoreographerThread) : Type 0 where
  post : u ≡ post_frame_callbacks t → Step t u
  come : 0 < t.scheduled → u ≡ deliver t → Step t u

pub data Steps (t : ChoreographerThread) : ChoreographerThread → Type 0 where
  here : Steps t t
  next : {u v : ChoreographerThread} → Steps t u → Step u v → Steps t v

-- The count is not negative and at most ten, and one callback is posted while it is not 0, and none otherwise.
pub record IsValid (t : ChoreographerThread) : Type 0 where
  pub count : ℕ
  pub counted : t.callbacks_before_idle ≡ pos count
  pub bounded : count ≤ 10
  pub one : t.scheduled ≡ (if ltb 0 count then 1 else 0)

post-IsValid : (t : ChoreographerThread) → IsValid t → IsValid (post_frame_callbacks t)
unfolding post_frame_callbacks
post-IsValid t v = record {
  count = 10;
  counted = refl;
  bounded = omega arith;
  one = ground (arith, v.counted, v.one);
}

deliver-IsValid : (t : ChoreographerThread) → 0 < t.scheduled → IsValid t → IsValid (deliver t)
unfolding deliver on_choreographer
deliver-IsValid t h v = record {
  count = v.count - 1;
  counted = ground (arith, v.counted, v.one);
  bounded = omega (arith, v.bounded);
  one = ground (arith, v.counted, v.one);
}

Step-IsValid : {t u : ChoreographerThread} → Step t u → IsValid t → IsValid u
Step-IsValid {t} (post e) v = subst IsValid (sym e) (post-IsValid t v)
Step-IsValid {t} (come h e) v = subst IsValid (sym e) (deliver-IsValid t h v)

pub Steps-IsValid : {t u : ChoreographerThread} → IsValid t → Steps t u → IsValid u
Steps-IsValid v here = v
Steps-IsValid v (next steps s) = Step-IsValid s (Steps-IsValid v steps)

-- From the construction on, however swaps and callbacks follow one another, the count of callbacks before the thread
-- goes idle lies between 0 and 10, and exactly one callback is posted while it is not 0, and none when it is: never
-- two at a time, and none without need.
new_choreographer_thread-IsValid :
    {t : ChoreographerThread} → Steps new_choreographer_thread t → IsValid t
new_choreographer_thread-IsValid steps =
    Steps-IsValid (record { count = 0; counted = refl; bounded = omega arith; one = refl }) steps

-- Callbacks that come as long as one is posted, at most `n`.
pub deliver_all : ℕ → ChoreographerThread → ChoreographerThread
deliver_all zero t = t
deliver_all (suc n) t = elim (ltb 0 t.scheduled) [ true ↦ deliver_all n (deliver t) | false ↦ t ]

abbrev one_if : ℕ → ℕ
one_if n = if ltb 0 n then 1 else 0

-- One callback while the count is not 0.
deliver_counts :
    (t : ChoreographerThread) (n : ℕ)
    → t.callbacks_before_idle ≡ pos (suc n)
    → t.scheduled ≡ 1
    → ((deliver t).callbacks_before_idle ≡ pos n)
      × ((deliver t).scheduled ≡ one_if n)
      × ((deliver t).calls ≡ t.calls + 1)
unfolding deliver on_choreographer
deliver_counts t n e h = (ground (arith, e), ground (arith, e, h), ground arith)

abbrev pub Idles : ChoreographerThread → ChoreographerThread → ℕ → Type 0
Idles t u n = (u.calls ≡ t.calls + n) × (u.scheduled ≡ 0) × (u.callbacks_before_idle ≡ pos 0)

deliver_all-Idles :
    (n : ℕ) (t : ChoreographerThread)
    → t.callbacks_before_idle ≡ pos n
    → t.scheduled ≡ one_if n
    → Idles t (deliver_all n t) n
unfolding deliver_all
deliver_all-Idles zero t e h = (omega arith, h, e)
deliver_all-Idles (suc n) t e h =
    let once : t.scheduled ≡ 1 = ground (arith, h) in
    let (count, scheduled, calls) = deliver_counts t n e once in
    let (more, idle, zero_left) = deliver_all-Idles n (deliver t) count scheduled in
    let due : ltb 0 t.scheduled ≡ true = ground (arith, once) in
    (ground (arith, due, more, calls), ground (arith, due, idle), ground (arith, due, zero_left))

post_counts :
    (t : ChoreographerThread)
    → IsValid t
    → ((post_frame_callbacks t).callbacks_before_idle ≡ pos 10)
      × ((post_frame_callbacks t).scheduled ≡ 1)
      × ((post_frame_callbacks t).calls ≡ t.calls)
unfolding post_frame_callbacks
post_counts t v = (refl, ground (arith, v.counted, v.one), ground (arith, v.counted))

-- An application that stops swapping gets exactly ten more frame callbacks after its last call of
-- `postFrameCallbacks`, whatever came before: when ten of the callbacks that are posted have come, the callback was
-- called ten times, none is posted and the thread is idle.
pub post_frame_callbacks-Idles :
    {t : ChoreographerThread}
    → Steps new_choreographer_thread t
    → Idles t (deliver_all 10 (post_frame_callbacks t)) 10
post_frame_callbacks-Idles {t} steps =
    let (count, scheduled, calls) = post_counts t (new_choreographer_thread-IsValid steps) in
    let (more, idle, zero_left) = deliver_all-Idles 10 (post_frame_callbacks t) count scheduled in
    (more ∙ ap (λ (n : ℕ). n + 10) calls, idle, zero_left)
