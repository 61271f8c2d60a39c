-- ===== src/SwappyVkBase/Draining.antt =====
-- swappy/vulkan/SwappyVkBase.cpp: the thread that waits for fences forgets none.
use mathlib.Core.List.{append_assoc, append-nil}
use gamesdk.Prelude.{
  ℕ, zero, suc, ◌+◌, ◌*◌, ◌≤◌, ◌<◌, ◌≡◌, refl, sym, ap, ◌∙◌, subst, Bool, true, false, none, some,
  List, [], ◌∷◌, ◌++◌, arith, length, inl, inr, Option-cases, List-cases, Bool-cases,
}
use gamesdk.SwappyVkBase.{
  VkSync, Waiter, asleep, taking, ended, holding, ThreadContext, QueueSyncs, next_waiter, wake,
  waiter_step, run_waiter, held, Made, make_sync, make_syncs, create_syncs, success, done,
  initialize_vk_sync_objects, no_syncs,
}
use gamesdk.SwappyVkBase.Steps.{Steps, pending}
use gamesdk.SwappyVkBase.Waits.{Alert, IsAlert, ready_at, woken, work_at-IsAlert, Steps-IsAlert}

-- The steps that are left, at most.
abbrev steps_left : Waiter → List VkSync → Bool → ℕ
steps_left asleep waiting true = 3 * length waiting + 2
steps_left asleep waiting false = 3 * length waiting
steps_left taking waiting p = 3 * length waiting + 1
steps_left (holding s) waiting p = 3 * length waiting + 3
steps_left ended waiting p = 0

abbrev left : QueueSyncs → ThreadContext → ℕ
left q t = steps_left t.waiter q.waiting t.has_pending_work

-- What a step of a running thread does: it keeps running, its steps fall, and the signaled sync objects followed by
-- the pending ones stay as they are.
record Moved (q q' : QueueSyncs) (t : ThreadContext) : Type 0 where
  context : ThreadContext
  threaded : q'.thread ≡ some context
  running : context.running ≡ true
  fewer : left q' context < left q t
  same : q'.signaled ++ pending q' ≡ q.signaled ++ pending q
  kept : q'.free ≡ q.free

next_left :
    (waiting : List VkSync) (p : Bool)
    → steps_left (next_waiter waiting) waiting p ≤ 3 * length waiting + 2
next_left [] true = omega arith
next_left [] false = omega arith
next_left (s ∷ waiting) p = omega arith

next_left_false :
    (waiting : List VkSync)
    → steps_left (next_waiter waiting) waiting false ≤ 3 * length waiting + 1
next_left_false [] = omega arith
next_left_false (s ∷ waiting) = omega arith

held_next :
    (waiting : List VkSync) (t : ThreadContext)
    → held (some (record t { waiter = next_waiter waiting })) ≡ []
held_next [] t = refl
held_next (s ∷ waiting) t = refl

move_by :
    {q : QueueSyncs} {t : ThreadContext} {q' q'' : QueueSyncs}
    → q'' ≡ q'
    → Moved q q'' t
    → Moved q q' t
move_by {q} {t} e m = subst (λ r. Moved q r t) e m

move_at :
    (w : Waiter) (q q' : QueueSyncs) (t : ThreadContext)
    → t.waiter ≡ w
    → q.thread ≡ some t
    → t.running ≡ true
    → Alert t.waiter q.waiting t.has_pending_work t.running
    → waiter_step q t ≡ some q'
    → Moved q q' t
unfolding waiter_step wake
move_at asleep q q' t at th run a h = elim (Bool-cases t.has_pending_work) [
  | inl p ↦
      move_by {q'' = record q { thread = some (woken t q.waiting) }} (ground (arith, at, p))
        (record {
          context = woken t q.waiting;
          threaded = refl;
          running = run;
          fewer = ground (arith, run, at, p, next_left_false q.waiting);
          same = ground (arith, run, at, th, held_next q.waiting t);
          kept = refl;
        })
  | inr p ↦ absurd (ground (arith, at, run, p))
]
move_at taking q q' t at th run a h = elim (List-cases q.waiting) [
  | inl e ↦ absurd (ground (arith, at, e))
  | inr (s, rest, e) ↦
      move_by {q'' = record q { thread = some (record t { waiter = holding s }); waiting = rest }}
        (ground (arith, at, e))
        (record {
          context = record t { waiter = holding s };
          threaded = refl;
          running = run;
          fewer = ground (arith, at, e);
          same = ground (arith, at, th, e);
          kept = refl;
        })
]
move_at ended q q' t at th run a h = absurd (ground (arith, at))
move_at (holding s) q q' t at th run a h =
    move_by
      {q'' = record q {
        thread = some (record t { waiter = next_waiter q.waiting });
        signaled = q.signaled ++ s ∷ [];
      }}
      (ground (arith, at))
      (record {
        context = record t { waiter = next_waiter q.waiting };
        threaded = refl;
        running = run;
        fewer = ground (arith, at, next_left q.waiting t.has_pending_work);
        same =
            ground
              (arith, at, th, held_next q.waiting t, append_assoc q.signaled (s ∷ []) q.waiting);
        kept = refl;
      })

-- A running thread that cannot step has nothing to wait for.
blocked_at :
    (w : Waiter) (q : QueueSyncs) (t : ThreadContext)
    → t.waiter ≡ w
    → q.thread ≡ some t
    → t.running ≡ true
    → Alert t.waiter q.waiting t.has_pending_work t.running
    → waiter_step q t ≡ none
    → pending q ≡ []
unfolding waiter_step wake
blocked_at asleep q t at th run a h = elim (List-cases q.waiting) [
  | inl e ↦ ground (arith, at, th, e)
  | inr (s, rest, e) ↦ absurd (ground (arith, at, e, run))
]
blocked_at taking q t at th run a h = elim (List-cases q.waiting) [
  | inl e ↦ absurd (ground (arith, at, e))
  | inr (s, rest, e) ↦ absurd (ground (arith, at, e))
]
blocked_at ended q t at th run a h = absurd (ground (arith, at, run))
blocked_at (holding s) q t at th run a h = absurd (ground (arith, at))

-- All that was pending is signaled, in its order.
abbrev pub Drains : QueueSyncs → QueueSyncs → Type 0
Drains q q' = (pending q' ≡ []) × (q'.signaled ≡ q.signaled ++ pending q) × (q'.free ≡ q.free)

drained_here : (q : QueueSyncs) → pending q ≡ [] → Drains q q
drained_here q e = (e, sym (ap (λ l. q.signaled ++ l) e ∙ append-nil q.signaled), refl)

drained_after :
    {q r : QueueSyncs} (s : QueueSyncs) {t : ThreadContext} → Moved q r t → Drains r s → Drains q s
drained_after s m (p, e, f) = (p, e ∙ m.same, f ∙ m.kept)

pub run_waiter_blocked :
    (n : ℕ) (q : QueueSyncs) (t : ThreadContext)
    → q.thread ≡ some t
    → waiter_step q t ≡ none
    → run_waiter (suc n) q ≡ q
unfolding run_waiter
run_waiter_blocked n q t th e = ground (arith, th, e)

pub run_waiter_step :
    (n : ℕ) (q q' : QueueSyncs) (t : ThreadContext)
    → q.thread ≡ some t
    → waiter_step q t ≡ some q'
    → run_waiter (suc n) q ≡ run_waiter n q'
unfolding run_waiter
run_waiter_step n q q' t th e = ground (arith, th, e)

pub ready_of :
    (q : QueueSyncs) (t : ThreadContext)
    → q.thread ≡ some t
    → IsAlert q
    → Alert t.waiter q.waiting t.has_pending_work t.running
ready_of q t th a =
    let same : a.context ≡ t = ground (arith, a.threaded, th) in
    subst (λ (c : ThreadContext). Alert c.waiter q.waiting c.has_pending_work c.running) same
      a.alert

running-Drains :
    (n : ℕ) (q : QueueSyncs) (t : ThreadContext)
    → q.thread ≡ some t
    → t.running ≡ true
    → IsAlert q
    → left q t < n
    → Drains q (run_waiter n q)
running-Drains zero q t th run a h = elim h [ ]
running-Drains (suc n) q t th run a h =
    let alert = ready_of q t th a in
    elim (Option-cases (waiter_step q t)) [
      | inl e ↦
          subst (Drains q) (sym (run_waiter_blocked n q t th e))
            (drained_here q (blocked_at t.waiter q t refl th run alert e))
      | inr (q', e) ↦
          let m = move_at t.waiter q q' t refl th run alert e in
          subst (Drains q) (sym (run_waiter_step n q q' t th e)) (
            drained_after (run_waiter n q') m (
              running-Drains n q' m.context m.threaded m.running
                (work_at-IsAlert t.waiter q q' t refl e) (omega (arith, m.fewer, h))))
    ]

left-le :
    (w : Waiter) (waiting : List VkSync) (p : Bool)
    → steps_left w waiting p ≤ 3 * length waiting + 3
left-le asleep waiting true = omega arith
left-le asleep waiting false = omega arith
left-le taking waiting p = omega arith
left-le (holding s) waiting p = omega arith
left-le ended waiting p = omega arith

pub initialized-IsAlert :
    (vk : ℕ → Made) (p : Bool) (s t : VkSync)
    → (vk 0).result ≡ success
    → make_sync vk 1 ≡ done s
    → make_sync vk 7 ≡ done t
    → IsAlert (initialize_vk_sync_objects vk p no_syncs).0
unfolding initialize_vk_sync_objects create_syncs make_syncs
initialized-IsAlert vk p s t pool first second =
    ready_at (record { running = true; has_pending_work = p; waiter = asleep }) {waiting = []}
      (ground (arith, pool, first, second)) (ground (arith, pool, first, second)) tt

-- No submitted fence is forgotten: from the initialization on, whatever the two threads have done in any order, if
-- the waiting thread has not been told to stop, then it alone makes all pending sync objects signaled, in the order
-- of their submission, within three steps for each fence that is not taken and four more. The calls of Vulkan that
-- make the sync objects must not fail.
pub run_waiter-Drains :
    (vk : ℕ → Made) (p : Bool) (s t : VkSync) {r : QueueSyncs} (c : ThreadContext)
    → (vk 0).result ≡ success
    → make_sync vk 1 ≡ done s
    → make_sync vk 7 ≡ done t
    → Steps (initialize_vk_sync_objects vk p no_syncs).0 r
    → r.thread ≡ some c
    → c.running ≡ true
    → Drains r (run_waiter (3 * length r.waiting + 4) r)
run_waiter-Drains vk p s t {r} c pool first second steps th run =
    running-Drains (3 * length r.waiting + 4) r c th run
      (Steps-IsAlert (initialized-IsAlert vk p s t pool first second) steps)
      (omega (arith, left-le c.waiter r.waiting c.has_pending_work))
