-- ===== src/SwappyVkBase/Waits.antt =====
-- swappy/vulkan/SwappyVkBase.cpp: the thread that waits for fences is asleep only if none
-- is left or it was notified.
use gamesdk.Prelude.{
  ℕ, ◌≡◌, refl, sym, subst, Bool, true, false, some, List, [], ◌∷◌, ◌++◌, arith, inl, inr,
  List-cases, if◌then◌else◌,
}
use gamesdk.SwappyVkBase.{
  VkResult, VkSync, Waiter, asleep, taking, ended, holding, ThreadContext, QueueSyncs, move_all,
  reclaim_signaled_fences, Injected, notify, inject_reclaimed, inject_fence, next_waiter, wake,
  waiter_step, stop,
}
use gamesdk.SwappyVkBase.Steps.{Step, Steps, here, next, reclaim, inject, work, halt}

-- A sleeping thread with a sync object to wait for has been notified, a thread that is about to take one finds
-- one, and a thread at its end was told to stop.
abbrev pub Alert : Waiter → List VkSync → Bool → Bool → Type 0
Alert asleep [] p r = Unit
Alert asleep (s ∷ waiting) p r = p ≡ true
Alert taking [] p r = ⊥
Alert taking (s ∷ waiting) p r = Unit
Alert (holding s) waiting p r = Unit
Alert ended waiting p r = r ≡ false

-- The queue has a thread, which is alert.
pub record IsAlert (q : QueueSyncs) : Type 0 where
  pub context : ThreadContext
  pub threaded : q.thread ≡ some context
  pub alert : Alert context.waiter q.waiting context.has_pending_work context.running

Alert-notify :
    (w : Waiter) (waiting : List VkSync) (s : VkSync) (p r : Bool)
    → Alert w waiting p r
    → Alert w (waiting ++ s ∷ []) true r
Alert-notify asleep [] s p r a = refl
Alert-notify asleep (x ∷ waiting) s p r a = refl
Alert-notify taking [] s p r a = tt
Alert-notify taking (x ∷ waiting) s p r a = tt
Alert-notify (holding x) waiting s p r a = tt
Alert-notify ended waiting s p r a = a

Alert-stop :
    (w : Waiter) (waiting : List VkSync) (p r : Bool)
    → Alert w waiting p r
    → Alert w waiting p false
Alert-stop asleep [] p r a = tt
Alert-stop asleep (x ∷ waiting) p r a = a
Alert-stop taking [] p r a = a
Alert-stop taking (x ∷ waiting) p r a = tt
Alert-stop (holding x) waiting p r a = tt
Alert-stop ended waiting p r a = refl

Alert-next : (waiting : List VkSync) (p r : Bool) → Alert (next_waiter waiting) waiting p r
Alert-next [] p r = tt
Alert-next (s ∷ waiting) p r = tt

pub ready_at :
    {q : QueueSyncs} (t : ThreadContext) {waiting : List VkSync}
    → q.thread ≡ some t
    → q.waiting ≡ waiting
    → Alert t.waiter waiting t.has_pending_work t.running
    → IsAlert q
ready_at t th e a = record {
  context = t;
  threaded = th;
  alert = subst (λ l. Alert t.waiter l t.has_pending_work t.running) (sym e) a;
}

-- The thread after it was woken.
abbrev pub woken : ThreadContext → List VkSync → ThreadContext
woken t waiting = record {
  running = t.running;
  has_pending_work = false;
  waiter = if t.running then next_waiter waiting else ended;
}

Alert-woken :
    (running : Bool) (waiting : List VkSync)
    → Alert (if running then next_waiter waiting else ended) waiting false running
Alert-woken true waiting = Alert-next waiting false true
Alert-woken false waiting = refl

-- A step of the thread, with the place where it is as a parameter.
pub work_at-IsAlert :
    (w : Waiter) (q q' : QueueSyncs) (t : ThreadContext)
    → t.waiter ≡ w
    → waiter_step q t ≡ some q'
    → IsAlert q'
unfolding waiter_step wake
work_at-IsAlert asleep q q' t at h =
    ready_at (woken t q.waiting) (ground (arith, at)) (ground (arith, at))
      (Alert-woken t.running q.waiting)
work_at-IsAlert taking q q' t at h = elim (List-cases q.waiting) [
  | inl e ↦ absurd (ground (arith, at, e))
  | inr (s, rest, e) ↦
      ready_at (record t { waiter = holding s }) {waiting = rest} (ground (arith, at, e))
        (ground (arith, at, e)) tt
]
work_at-IsAlert ended q q' t at h = absurd (ground (arith, at))
work_at-IsAlert (holding s) q q' t at h =
    ready_at (record t { waiter = next_waiter q.waiting }) (ground (arith, at)) (ground (arith, at))
      (Alert-next q.waiting t.has_pending_work t.running)

reclaim-IsAlert : (q q' : QueueSyncs) → IsAlert q → reclaim_signaled_fences q ≡ some q' → IsAlert q'
unfolding reclaim_signaled_fences
reclaim-IsAlert q q' a h =
    ready_at a.context (ground (arith, a.threaded)) (ground (arith, a.threaded)) a.alert

inject-IsAlert :
    (q : QueueSyncs) (i : Injected) (waits : List ℕ) (res : VkResult)
    → IsAlert q
    → inject_fence waits res q ≡ some i
    → IsAlert i.syncs
unfolding inject_fence inject_reclaimed
inject-IsAlert q i waits res a h = elim (List-cases (move_all q.signaled q.free)) [
  | inl e ↦
      ready_at a.context (ground (arith, a.threaded, e)) (ground (arith, a.threaded, e)) a.alert
  | inr (s, rest, e) ↦
      ready_at (notify a.context) (ground (arith, a.threaded, e)) (ground (arith, a.threaded, e)) (
        Alert-notify a.context.waiter q.waiting s a.context.has_pending_work a.context.running
          a.alert)
]

halt-IsAlert :
    (q q' : QueueSyncs) (t : ThreadContext)
    → IsAlert q
    → q.thread ≡ some t
    → q' ≡ record q { thread = some (stop t) }
    → IsAlert q'
halt-IsAlert q q' t a th e =
    let same : a.context ≡ t = ground (arith, a.threaded, th) in
    ready_at (stop t) (ground (arith, e)) (ground (arith, e)) (
      subst (λ (c : ThreadContext). Alert c.waiter q.waiting c.has_pending_work false) same
        (Alert-stop a.context.waiter q.waiting a.context.has_pending_work a.context.running
          a.alert))

Step-IsAlert : {q q' : QueueSyncs} → IsAlert q → Step q q' → IsAlert q'
Step-IsAlert {q} {q'} a (reclaim h) = reclaim-IsAlert q q' a h
Step-IsAlert {q} a (inject i waits res h e) =
    subst IsAlert (sym e) (inject-IsAlert q i waits res a h)
Step-IsAlert {q} {q'} a (work t th h) = work_at-IsAlert t.waiter q q' t refl h
Step-IsAlert {q} {q'} a (halt t th e) = halt-IsAlert q q' t a th e

pub Steps-IsAlert : {q q' : QueueSyncs} → IsAlert q → Steps q q' → IsAlert q'
Steps-IsAlert a here = a
Steps-IsAlert a (next steps s) = Step-IsAlert (Steps-IsAlert a steps) s
