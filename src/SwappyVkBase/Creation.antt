-- ===== src/SwappyVkBase/Creation.antt =====
-- swappy/vulkan/SwappyVkBase.cpp: what `initializeVkSyncObjects` leaves when it fails.
use gamesdk.Prelude.{
  ℕ, zero, suc, ◌+◌, ◌≡◌, ◌≢◌, refl, ap, ◌∙◌, Bool, ◌⊎◌, inl, inr, none, some, List, [], ◌∷◌, ◌++◌,
  arith,
}
use gamesdk.SwappyVkBase.{
  VkResult, success, incomplete, error_device_lost, error_initialization_failed, other, Outcome,
  done, failed, QueueSyncs, no_syncs, Made, make_sync, make_syncs, create_syncs, finish_syncs,
  initialize_vk_sync_objects, inject_fence,
}

Outcome-cases :
    {A : Type 0} (o : Outcome A) → ((x : A) × (o ≡ done x)) ⊎ ((r : VkResult) × (o ≡ failed r))
Outcome-cases (done x) = inl (x, refl)
Outcome-cases (failed r) = inr (r, refl)

-- The loop touches neither the command pool nor the thread.
make_syncs_keeps :
    (rounds : ℕ) (vk : ℕ → Made) (n : ℕ) (q : QueueSyncs)
    → ((make_syncs rounds vk n q).0.command_pool ≡ q.command_pool)
      × ((make_syncs rounds vk n q).0.thread ≡ q.thread)
unfolding make_syncs
make_syncs_keeps zero vk n q = (refl, refl)
make_syncs_keeps (suc rounds) vk n q = elim (Outcome-cases (make_sync vk n)) [
  | inl (s, e) ↦
      ground (arith, e, make_syncs_keeps rounds vk (n + 6) (record q { free = q.free ++ s ∷ [] }))
  | inr (r, e) ↦ (ground (arith, e), ground (arith, e))
]

finish_failed :
    (p : Bool) (q : QueueSyncs) (r : VkResult)
    → (finish_syncs p (q, r)).1 ≢ success
    → (finish_syncs p (q, r)).0 ≡ q
finish_failed p q success h = absurd (h refl)
finish_failed p q incomplete h = refl
finish_failed p q error_device_lost h = refl
finish_failed p q error_initialization_failed h = refl
finish_failed p q (other n) h = refl

create_failed :
    (vk : ℕ → Made) (p : Bool) (r : VkResult) (q : QueueSyncs) (pool : ℕ)
    → q.command_pool ≡ some pool
    → q.thread ≡ none
    → (create_syncs vk p r q).1 ≢ success
    → ((create_syncs vk p r q).0.command_pool ≡ some pool)
      × ((create_syncs vk p r q).0.thread ≡ none)
unfolding create_syncs
create_failed vk p success q pool e t h =
    let k = make_syncs_keeps 2 vk 1 q in
    let f = finish_failed p (make_syncs 2 vk 1 q).0 (make_syncs 2 vk 1 q).1 h in
    (
      ap (λ (q : QueueSyncs). q.command_pool) f ∙ k.0 ∙ e,
      ap (λ (q : QueueSyncs). q.thread) f ∙ k.1 ∙ t,
    )
create_failed vk p incomplete q pool e t h = (e, t)
create_failed vk p error_device_lost q pool e t h = (e, t)
create_failed vk p error_initialization_failed q pool e t h = (e, t)
create_failed vk p (other n) q pool e t h = (e, t)

-- A failure of `initializeVkSyncObjects` is forgotten: whichever call of Vulkan failed on a queue that was not
-- known, the next call succeeds without doing anything, since the key of the command pool is there, and the
-- injection of a fence then reads the thread that was never made.
initialize_again :
    (vk vk' : ℕ → Made) (p p' : Bool) (waits : List ℕ) (res : VkResult)
    → (initialize_vk_sync_objects vk p no_syncs).1 ≢ success
    → (initialize_vk_sync_objects vk' p' (initialize_vk_sync_objects vk p no_syncs).0
        ≡ ((initialize_vk_sync_objects vk p no_syncs).0, success))
      × (inject_fence waits res (initialize_vk_sync_objects vk p no_syncs).0 ≡ none)
unfolding initialize_vk_sync_objects inject_fence
initialize_again vk vk' p p' waits res h =
    let keyed = record no_syncs { command_pool = some (vk 0).handle } in
    let f = create_failed vk p (vk 0).result keyed (vk 0).handle refl refl h in
    (ground (arith, f.0), ground (arith, f.1))
