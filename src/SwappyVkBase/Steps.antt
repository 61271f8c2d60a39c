-- ===== src/SwappyVkBase/Steps.antt =====
-- swappy/vulkan/SwappyVkBase.cpp: what may happen to the sync objects of a queue, in any order: the calls of the
-- presenting thread and the steps of the waiting thread.
use gamesdk.Prelude.{
  ℕ, ◌≡◌, refl, sym, ap, ◌∙◌, subst, some, List, [], ◌∷◌, ◌++◌, arith, inl, inr, Option-cases,
  List-cases,
}
use mathlib.Core.List.{append_assoc, append-nil}
use gamesdk.SwappyVkBase.{
  VkResult, VkSync, Waiter, asleep, taking, ended, holding, ThreadContext, QueueSyncs, move_all,
  reclaim_signaled_fences, Injected, inject_reclaimed, inject_fence, wake, waiter_step, stop, held,
}

pub data Step : QueueSyncs → QueueSyncs → Type 0 where
  reclaim : {q q' : QueueSyncs} → reclaim_signaled_fences q ≡ some q' → Step q q'
  inject :
      {q q' : QueueSyncs} (i : Injected) (waits : List ℕ) (res : VkResult)
      → inject_fence waits res q ≡ some i
      → q' ≡ i.syncs
      → Step q q'
  work :
      {q q' : QueueSyncs} (t : ThreadContext)
      → q.thread ≡ some t
      → waiter_step q t ≡ some q'
      → Step q q'
  halt :
      {q q' : QueueSyncs} (t : ThreadContext)
      → q.thread ≡ some t
      → q' ≡ record q { thread = some (stop t) }
      → Step q q'

pub data Steps (q : QueueSyncs) : QueueSyncs → Type 0 where
  here : Steps q q
  next : {r s : QueueSyncs} → Steps q r → Step r s → Steps q s

pub move_all_lem : (signaled free : List VkSync) → move_all signaled free ≡ free ++ signaled
unfolding move_all
move_all_lem [] free = sym (append-nil free)
move_all_lem (s ∷ signaled) free =
    move_all_lem signaled (free ++ s ∷ []) ∙ append_assoc free (s ∷ []) signaled

-- The sync objects whose fences are not known to be signaled, in the order of their submission, and those that
-- may be submitted, in the order in which they will be.
abbrev pub pending : QueueSyncs → List VkSync
pending q = held q.thread ++ q.waiting

abbrev pub available : QueueSyncs → List VkSync
available q = q.free ++ q.signaled

-- What one step does to the two lists.
pub data Effect (q q' : QueueSyncs) : Type 0 where
  idle : pending q' ≡ pending q → available q' ≡ available q → Effect q q'
  submitted :
      (s : VkSync) (rest : List VkSync)
      → available q ≡ s ∷ rest
      → available q' ≡ rest
      → pending q' ≡ pending q ++ s ∷ []
      → Effect q q'
  completed :
      (s : VkSync) (rest : List VkSync)
      → pending q ≡ s ∷ rest
      → pending q' ≡ rest
      → available q' ≡ available q ++ s ∷ []
      → Effect q q'

Effect-from :
    {q r s : QueueSyncs}
    → pending q ≡ pending r
    → available q ≡ available r
    → Effect r s
    → Effect q s
Effect-from p a (idle p' a') = idle (p' ∙ sym p) (a' ∙ sym a)
Effect-from p a (submitted s rest e a' p') =
    submitted s rest (a ∙ e) a' (p' ∙ ap (λ l. l ++ s ∷ []) (sym p))
Effect-from p a (completed s rest e p' a') =
    completed s rest (p ∙ e) p' (a' ∙ ap (λ l. l ++ s ∷ []) (sym a))

abbrev reclaimed : QueueSyncs → QueueSyncs
reclaimed q = record q { free = move_all q.signaled q.free; signaled = [] }

available-reclaimed : (q : QueueSyncs) → available q ≡ available (reclaimed q)
available-reclaimed q =
    sym (append-nil (move_all q.signaled q.free) ∙ move_all_lem q.signaled q.free)

reclaim-Effect : (q q' : QueueSyncs) → reclaim_signaled_fences q ≡ some q' → Effect q q'
unfolding reclaim_signaled_fences
reclaim-Effect q q' h = elim (Option-cases q.thread) [
  | inl e ↦ absurd (ground (arith, e))
  | inr (t, e) ↦
      let e' : q' ≡ reclaimed q = ground (arith, e) in
      idle (ap pending e') (ap available e' ∙ sym (available-reclaimed q))
]

inject_reclaimed-Effect :
    (q : QueueSyncs) (t : ThreadContext) (waits : List ℕ) (res : VkResult)
    → q.thread ≡ some t
    → q.signaled ≡ []
    → Effect q (inject_reclaimed waits res t q).syncs
unfolding inject_reclaimed
inject_reclaimed-Effect q t waits res th none_signaled = elim (List-cases q.free) [
  | inl e ↦ idle (ground (arith, e)) (ground (arith, e))
  | inr (s, rest, e) ↦
      submitted s rest (ground (arith, e, none_signaled, append-nil rest))
        (ground (arith, e, none_signaled, append-nil rest))
        (ground (arith, e, th, append_assoc (held (some t)) q.waiting (s ∷ [])))
]

inject-Effect :
    (q : QueueSyncs) (i : Injected) (waits : List ℕ) (res : VkResult)
    → inject_fence waits res q ≡ some i
    → Effect q i.syncs
unfolding inject_fence
inject-Effect q i waits res h = elim (Option-cases q.thread) [
  | inl e ↦ absurd (ground (arith, e))
  | inr (t, e) ↦
      let e' : inject_reclaimed waits res t (reclaimed q) ≡ i = ground (arith, e) in
      Effect-from refl (available-reclaimed q) (
        subst (λ (j : Injected). Effect (reclaimed q) j.syncs) e'
          (inject_reclaimed-Effect (reclaimed q) t waits res e refl))
]

-- Where the waiting thread is, as a parameter.
work_at-Effect :
    (w : Waiter) (q q' : QueueSyncs) (t : ThreadContext)
    → t.waiter ≡ w
    → q.thread ≡ some t
    → waiter_step q t ≡ some q'
    → Effect q q'
unfolding waiter_step wake
work_at-Effect asleep q q' t at th h = elim (List-cases q.waiting) [
  | inl e ↦ idle (ground (arith, at, th, e)) (ground (arith, at, th, e))
  | inr (s, rest, e) ↦ idle (ground (arith, at, th, e)) (ground (arith, at, th, e))
]
work_at-Effect taking q q' t at th h = elim (List-cases q.waiting) [
  | inl e ↦ absurd (ground (arith, at, e))
  | inr (s, rest, e) ↦ idle (ground (arith, at, th, e)) (ground (arith, at, th, e))
]
work_at-Effect ended q q' t at th h = absurd (ground (arith, at))
work_at-Effect (holding s) q q' t at th h = elim (List-cases q.waiting) [
  | inl e ↦
      completed s q.waiting (ground (arith, at, th)) (ground (arith, at, th, e))
        (ground (arith, at, th, append_assoc q.free q.signaled (s ∷ [])))
  | inr (r, rest, e) ↦
      completed s q.waiting (ground (arith, at, th)) (ground (arith, at, th, e))
        (ground (arith, at, th, append_assoc q.free q.signaled (s ∷ [])))
]

work-Effect :
    (q q' : QueueSyncs) (t : ThreadContext)
    → q.thread ≡ some t
    → waiter_step q t ≡ some q'
    → Effect q q'
work-Effect q q' t = work_at-Effect t.waiter q q' t refl

halt-Effect :
    (q q' : QueueSyncs) (t : ThreadContext)
    → q.thread ≡ some t
    → q' ≡ record q { thread = some (stop t) }
    → Effect q q'
halt-Effect q q' t th e = idle (ground (arith, th)) (ground (arith, th))

-- Every step has one of the three effects.
pub Step-Effect : {q q' : QueueSyncs} → Step q q' → Effect q q'
Step-Effect {q} {q'} (reclaim h) = reclaim-Effect q q' h
Step-Effect {q} (inject i waits res h e) = subst (Effect q) (sym e) (inject-Effect q i waits res h)
Step-Effect {q} {q'} (work t th h) = work-Effect q q' t th h
Step-Effect {q} {q'} (halt t th e) = halt-Effect q q' t th e
