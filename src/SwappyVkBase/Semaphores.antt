-- ===== src/SwappyVkBase/Semaphores.antt =====
-- swappy/vulkan/SwappyVkFallback.cpp and SwappyVkGoogleDisplayTiming.cpp: which semaphores the submission of
-- `injectFence` and the presentation wait for.
pub mod Tests
use gamesdk.Prelude.{
  ℕ, ◌+◌, ◌≡◌, ◌≢◌, refl, sym, ap, ◌∙◌, subst₂, Bool, true, Option, none, some, List, [], ◌∷◌, ◌++◌,
  map, arith, inl, inr, Option-cases, ◌>>=◌,
}
use gamesdk.SwappyCommon.{SwappyCommon}
use gamesdk.SwappyCommon.Pacing.{on_pre_swap, on_post_swap}
use gamesdk.SwappyVkBase.{
  VkSync, VkResult, success, ThreadContext, QueueSyncs, Injected, Submit, notify, move_all,
  inject_fence, inject_reclaimed, initialize_vk_sync_objects,
}
use gamesdk.SwappyVkBase.Steps.{available, move_all_lem}
use gamesdk.SwappyVkBase.Present.{
  SwappyVkBase, queue_at, PresentInfo, PresentSurroundings, Presented, QueuedPresent, Kind,
  fallback, google_display_timing, present_and_finish, present_injected, present_prepared,
  present_initialized, at_queue, do_queue_present,
}

-- A queue that is known and has a thread.
pub record IsKnown (q : QueueSyncs) : Type 0 where
  pub pool : ℕ
  pub keyed : q.command_pool ≡ some pool
  pub context : ThreadContext
  pub threaded : q.thread ≡ some context

abbrev pub submission : List ℕ → VkSync → Submit
submission waits s = record {
  wait_semaphores = waits;
  command = s.command;
  signal_semaphore = s.semaphore;
  fence = s.fence;
}

-- What `injectFence` does when an object is available: the first one is submitted.
inject_first :
    (q : QueueSyncs) (waits : List ℕ) (res : VkResult) (s : VkSync) (rest : List VkSync)
    → IsKnown q
    → available q ≡ s ∷ rest
    → (i : Injected) × (inject_fence waits res q ≡ some i)
      × (i.semaphore ≡ some s.semaphore)
      × (i.submit ≡ some (submission waits s))
      × (i.result ≡ res)
unfolding inject_fence inject_reclaimed
inject_first q waits res s rest k e =
    let first : move_all q.signaled q.free ≡ s ∷ rest = move_all_lem q.signaled q.free ∙ e in
    (
      record {
        syncs = record q {
          thread = some (notify k.context);
          free = rest;
          waiting = q.waiting ++ s ∷ [];
          signaled = [];
        };
        semaphore = some s.semaphore;
        submit = some (submission waits s);
        result = res;
      },
      ground (arith, k.threaded, first),
      refl,
      refl,
      refl,
    )

-- And when none is.
inject_none :
    (q : QueueSyncs) (waits : List ℕ) (res : VkResult)
    → IsKnown q
    → available q ≡ []
    → (i : Injected) × (inject_fence waits res q ≡ some i)
      × (i.semaphore ≡ none)
      × (i.submit ≡ none)
      × (i.result ≡ success)
unfolding inject_fence inject_reclaimed
inject_none q waits res k e =
    let first : move_all q.signaled q.free ≡ [] = move_all_lem q.signaled q.free ∙ e in
    (
      record {
        syncs = record q { free = []; signaled = [] };
        semaphore = none;
        submit = none;
        result = success;
      },
      ground (arith, k.threaded, first),
      refl,
      refl,
      refl,
    )

-- The semaphores for which the presentation waits.
abbrev pub waits_for : Kind → Option ℕ → PresentInfo → List (Option ℕ)
waits_for fallback semaphore info = map some info.wait_semaphores
waits_for google_display_timing semaphore info = semaphore ∷ []

-- The submission is `submit` and the presentation waits for `waits`.
abbrev pub Waits : Presented → Option Submit → List (Option ℕ) → Type 0
Waits r submit waits =
    (r.submit ≡ submit) × ((p : QueuedPresent) × (r.present ≡ some p) × (p.wait_semaphores ≡ waits))

finish-Waits :
    (s : SwappyVkBase) (submit : Option Submit) (p : QueuedPresent) (e : PresentSurroundings)
    (r : Presented)
    → present_and_finish s submit p e ≡ some r
    → Waits r submit p.wait_semaphores
unfolding present_and_finish
finish-Waits s submit p e r h =
    elim (Option-cases
      (on_post_swap s.common e.after_swap e.wakes e.complete e.gpu_time e.rates e.frame_start)) [
        | inl f ↦ absurd (ground (arith, f))
        | inr (c, f) ↦ (ground (arith, f), (p, ground (arith, f), refl))
      ]

injected-Waits :
    (kind : Kind) (s : SwappyVkBase) (i : Injected) (info : PresentInfo) (e : PresentSurroundings)
    (r : Presented)
    → present_injected kind s i info e ≡ some r
    → Waits r i.submit (waits_for kind i.semaphore info)
unfolding present_injected
injected-Waits fallback s i info e r h = finish-Waits _ _ _ e r h
injected-Waits google_display_timing s i info e r h = finish-Waits _ _ _ e r h

prepared-Waits :
    (kind : Kind) (s : SwappyVkBase) (i : Injected) (info : PresentInfo) (e : PresentSurroundings)
    (r : Presented)
    → i.result ≡ success
    → present_prepared kind s i info e ≡ some r
    → Waits r i.submit (waits_for kind i.semaphore info)
unfolding present_prepared
prepared-Waits kind s i info e r ok h =
    elim (Option-cases
      (on_pre_swap s.common e.before_wait e.wakes e.complete e.gpu_time e.after_wait)) [
        | inl f ↦ absurd (ground (arith, f, ok))
        | inr (c, f) ↦
            injected-Waits kind (record s { common = c }) i info e r (ground (arith, f, ok))
      ]

present-Waits :
    (kind : Kind) (s : SwappyVkBase) (queue : ℕ) (i : Injected) (info : PresentInfo)
    (e : PresentSurroundings) (r : Presented)
    → s.enabled ≡ true
    → IsKnown (queue_at s.queues queue)
    → inject_fence info.wait_semaphores e.submit_result (queue_at s.queues queue) ≡ some i
    → i.result ≡ success
    → do_queue_present kind s queue info e ≡ some r
    → Waits r i.submit (waits_for kind i.semaphore info)
unfolding do_queue_present present_initialized initialize_vk_sync_objects
present-Waits kind s queue i info e r on k inj ok h =
    prepared-Waits kind (at_queue s queue i.syncs) i info e r ok (ground (arith, on, k.keyed, inj))

at_result :
    (r : Presented) {a b : Option Submit} {v w : List (Option ℕ)}
    → a ≡ b
    → v ≡ w
    → Waits r a v
    → Waits r b w
at_result r e f h = subst₂ (λ x y. Waits r x y) e f h

-- On a queue with an available sync object, and if the submission succeeds, a frame is presented after its
-- rendering: the submission waits for the application's semaphores and signals that of the object that is first in
-- turn, and with the display timing extension the presentation waits for this semaphore alone.
pub present_after_rendering :
    (s : SwappyVkBase) (queue : ℕ) (info : PresentInfo) (e : PresentSurroundings) (r : Presented)
    (t : VkSync) (rest : List VkSync)
    → s.enabled ≡ true
    → IsKnown (queue_at s.queues queue)
    → available (queue_at s.queues queue) ≡ t ∷ rest
    → e.submit_result ≡ success
    → do_queue_present google_display_timing s queue info e ≡ some r
    → Waits r (some (submission info.wait_semaphores t)) (some t.semaphore ∷ [])
present_after_rendering s queue info e r t rest on k free ok h =
    let (i, inj, semaphore, submit, result) =
      inject_first (queue_at s.queues queue) info.wait_semaphores e.submit_result t rest k free in
    at_result r submit (ap (λ x. x ∷ []) semaphore)
      (present-Waits google_display_timing s queue i info e r on k inj (result ∙ ok) h)

-- On a queue without an available sync object nothing is submitted, and with the display timing extension the
-- presentation waits for a semaphore that was never written, and not for the application's.
present_without_semaphore :
    (s : SwappyVkBase) (queue : ℕ) (info : PresentInfo) (e : PresentSurroundings) (r : Presented)
    → s.enabled ≡ true
    → IsKnown (queue_at s.queues queue)
    → available (queue_at s.queues queue) ≡ []
    → do_queue_present google_display_timing s queue info e ≡ some r
    → Waits r none (none ∷ [])
present_without_semaphore s queue info e r on k free h =
    let (i, inj, semaphore, submit, result) =
      inject_none (queue_at s.queues queue) info.wait_semaphores e.submit_result k free in
    at_result r submit (ap (λ x. x ∷ []) semaphore)
      (present-Waits google_display_timing s queue i info e r on k inj result h)
