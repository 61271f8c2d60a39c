-- ===== src/SwappyVkBase/Completion.antt =====
-- swappy/vulkan/SwappyVkBase.cpp: what `lastFrameIsCompleted` says of the pending fences.
use gamesdk.Prelude.{
  ℕ, ◌≤◌, ◌≡◌, refl, ◌∙◌, true, false, some, List, [], ◌∷◌, arith, length, inl, inr, List-cases,
}
use gamesdk.SwappyCommon.{PipelineMode, off, on}
use gamesdk.SwappyVkBase.{
  VkSync, asleep, taking, holding, ThreadContext, QueueSyncs, move_all, success, inject_fence,
  inject_reclaimed, wake, waiter_step, held, notify, last_frame_is_completed,
}
use gamesdk.SwappyVkBase.Steps.{
  Step, Steps, here, next, pending, available, inject, work, move_all_lem,
}

-- The frames that may be pending when the next one starts: one with pipelining, none without.
abbrev pub allowed : PipelineMode → ℕ
allowed on = 1
allowed off = 0

-- `lastFrameIsCompleted` is right while the waiting thread has taken no fence: it is true exactly if no more
-- fences are pending than the pipeline mode allows.
last_frame_is_completed_right :
    (mode : PipelineMode) (q : QueueSyncs) (t : ThreadContext)
    → q.thread ≡ some t
    → held q.thread ≡ []
    → (last_frame_is_completed mode q ≡ some true → length (pending q) ≤ allowed mode)
      × (length (pending q) ≤ allowed mode → last_frame_is_completed mode q ≡ some true)
unfolding last_frame_is_completed
last_frame_is_completed_right on q t th h = (λ e. ground (arith, th, h), λ e. ground (arith, th, h))
last_frame_is_completed_right off q t th h = elim (List-cases q.waiting) [
  | inl w ↦ (λ e. ground (arith, th, h, w), λ e. ground (arith, th, h, w))
  | inr (s, rest, w) ↦ (λ e. ground (arith, th, h, w), λ e. ground (arith, th, h, w))
]

-- The queue after the submission of the first available object and two steps of the sleeping thread.
abbrev pub taken : QueueSyncs → ThreadContext → VkSync → List VkSync → QueueSyncs
taken q t s rest = record q {
  thread = some (record { running = t.running; has_pending_work = false; waiter = holding s });
  free = rest;
  waiting = [];
  signaled = [];
}

abbrev submitted : QueueSyncs → ThreadContext → VkSync → List VkSync → QueueSyncs
submitted q t s rest = record q {
  thread = some (notify t);
  free = rest;
  waiting = s ∷ [];
  signaled = [];
}

abbrev woken : QueueSyncs → ThreadContext → VkSync → List VkSync → QueueSyncs
woken q t s rest = record q {
  thread = some (record { running = t.running; has_pending_work = false; waiter = taking });
  free = rest;
  waiting = s ∷ [];
  signaled = [];
}

inject_step :
    (q : QueueSyncs) (t : ThreadContext) (s : VkSync) (rest : List VkSync)
    → q.thread ≡ some t
    → q.waiting ≡ []
    → available q ≡ s ∷ rest
    → Step q (submitted q t s rest)
unfolding inject_fence inject_reclaimed
inject_step q t s rest th w free =
    let first : move_all q.signaled q.free ≡ s ∷ rest = move_all_lem q.signaled q.free ∙ free in
    inject
      (record {
        syncs = submitted q t s rest;
        semaphore = some s.semaphore;
        submit = some (record {
          wait_semaphores = [];
          command = s.command;
          signal_semaphore = s.semaphore;
          fence = s.fence;
        });
        result = success;
      })
      [] success (ground (arith, th, w, first)) refl

taken-Steps :
    (q : QueueSyncs) (t : ThreadContext) (s : VkSync) (rest : List VkSync)
    → q.thread ≡ some t
    → t.waiter ≡ asleep
    → t.running ≡ true
    → q.waiting ≡ []
    → available q ≡ s ∷ rest
    → Steps q (taken q t s rest)
unfolding waiter_step wake
taken-Steps q t s rest th at run w free =
    let c : ThreadContext = record {
      running = t.running;
      has_pending_work = false;
      waiter = taking;
    } in
    let first : Step q (submitted q t s rest) = inject_step q t s rest th w free in
    let second : Step (submitted q t s rest) (woken q t s rest) =
      work (notify t) refl (ground (arith, at, run)) in
    let third : Step (woken q t s rest) (taken q t s rest) = work c refl (ground arith) in
    next (next (next here first) second) third

-- Without pipelining the answer is wrong as soon as the thread waits for the fence: from every queue with a sleeping
-- thread and no waiting fence, the submission of the first available sync object and two steps of the thread lead
-- to a queue on which that object is pending and `lastFrameIsCompleted` is true.
last_frame_is_completed_early :
    (q : QueueSyncs) (t : ThreadContext) (s : VkSync) (rest : List VkSync)
    → q.thread ≡ some t
    → t.waiter ≡ asleep
    → t.running ≡ true
    → q.waiting ≡ []
    → available q ≡ s ∷ rest
    → (r : QueueSyncs) × Steps q r
      × (pending r ≡ s ∷ [])
      × (last_frame_is_completed off r ≡ some true)
unfolding last_frame_is_completed
last_frame_is_completed_early q t s rest th at run w free =
    (taken q t s rest, taken-Steps q t s rest th at run w free, refl, refl)
