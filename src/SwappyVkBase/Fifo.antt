-- ===== src/SwappyVkBase/Fifo.antt =====
-- swappy/vulkan/SwappyVkBase.cpp: the sync objects of a queue go round in a ring. What a queue promises is that
-- fences are signaled in the order of their submission, and that its sync objects are reused in turn.
use mathlib.Core.List.{Perm, append_assoc, perm_append_comm}
use mathlib.Core.List.Perm
use gamesdk.Prelude.{
  ℕ, ◌≤◌, ◌≡◌, refl, sym, ap, ◌∙◌, subst, subst₂, Bool, List, [], ◌∷◌, ◌++◌, arith, length,
  length-append,
}
use gamesdk.SwappyVkBase.{
  VkSync, QueueSyncs, Made, done, success, make_sync, make_syncs, create_syncs,
  initialize_vk_sync_objects, no_syncs,
}
use gamesdk.SwappyVkBase.Steps.{
  Steps, here, next, pending, available, Effect, idle, submitted, completed, Step-Effect,
}

-- The promise: a list of pending sync objects and a list of available ones.
pub record Ring : Type 0 where
  pub pending : List VkSync
  pub available : List VkSync

abbrev pub ring : QueueSyncs → Ring
ring q = record { pending = pending q; available = available q }

-- The available object that is first in turn is submitted, and the pending one that is first is completed.
pub data Turn : Ring → Ring → Type 0 where
  submit :
      {a b : Ring} (s : VkSync) (rest : List VkSync)
      → a.available ≡ s ∷ rest
      → b ≡ record { pending = a.pending ++ s ∷ []; available = rest }
      → Turn a b
  complete :
      {a b : Ring} (s : VkSync) (rest : List VkSync)
      → a.pending ≡ s ∷ rest
      → b ≡ record { pending = rest; available = a.available ++ s ∷ [] }
      → Turn a b

pub data Turns (a : Ring) : Ring → Type 0 where
  start : {b : Ring} → b ≡ a → Turns a b
  turn : {b c : Ring} → Turns a b → Turn b c → Turns a c

Effect-Turns : {a : Ring} {q r : QueueSyncs} → Turns a (ring q) → Effect q r → Turns a (ring r)
Effect-Turns {a} ts (idle p v) = subst (Turns a) (cc (p, v)) ts
Effect-Turns ts (submitted s rest e v p) = turn ts (submit s rest e (cc (p, v)))
Effect-Turns ts (completed s rest e p v) = turn ts (complete s rest e (cc (p, v)))

-- Whatever the presenting thread and the waiting thread do to the sync objects of a queue, in any order, is a run
-- of the ring: a submission takes the available object that is first in turn to the end of the pending ones, and
-- an end of a wait takes the first pending one to the end of the available ones. So fences are completed in the
-- order of their submission.
pub Steps-Turns : {q r : QueueSyncs} → Steps q r → Turns (ring q) (ring r)
Steps-Turns here = start refl
Steps-Turns (next steps s) = Effect-Turns (Steps-Turns steps) (Step-Effect s)

abbrev pub objects : Ring → List VkSync
objects a = a.pending ++ a.available

Turn-perm : {a b : Ring} → Turn a b → Perm (objects b) (objects a)
Turn-perm {a} {b} (submit s rest e h) =
    let same : objects b ≡ objects a =
      ap objects h ∙ append_assoc a.pending (s ∷ []) rest ∙ ap (λ l. a.pending ++ l) (sym e) in
    subst (λ l. Perm l (objects a)) (sym same) (Perm.refl (objects a))
Turn-perm {a} {b} (complete s rest e h) =
    let before : objects a ≡ s ∷ rest ++ a.available = ap (λ l. l ++ a.available) e in
    let after : objects b ≡ (rest ++ a.available) ++ s ∷ [] =
      ap objects h ∙ sym (append_assoc rest a.available (s ∷ [])) in
    subst₂ Perm (sym after) (sym before) (perm_append_comm (rest ++ a.available) (s ∷ []))

Turn-length : {a b : Ring} → Turn a b → length (objects b) ≡ length (objects a)
Turn-length {a} {b} (submit s rest e h) = omega (
  arith,
  ap (λ c. length (objects c)) h,
  ap length e,
  length-append a.pending a.available,
  length-append (a.pending ++ s ∷ []) rest,
  length-append a.pending (s ∷ []),
)
Turn-length {a} {b} (complete s rest e h) = omega (
  arith,
  ap (λ c. length (objects c)) h,
  ap length e,
  length-append a.pending a.available,
  length-append rest (a.available ++ s ∷ []),
  length-append a.available (s ∷ []),
)

Turns-perm : {a b : Ring} → Turns a b → Perm (objects b) (objects a)
Turns-perm {a} (start e) = subst (λ b. Perm (objects b) (objects a)) (sym e) (Perm.refl (objects a))
Turns-perm (turn ts t) = Perm.trans (Turn-perm t) (Turns-perm ts)

Turns-length : {a b : Ring} → Turns a b → length (objects b) ≡ length (objects a)
Turns-length (start e) = ap (λ c. length (objects c)) e
Turns-length (turn ts t) = Turn-length t ∙ Turns-length ts

-- What `initializeVkSyncObjects` makes of a queue that is not known, if no call of Vulkan fails.
pub initialized :
    (vk : ℕ → Made) (p : Bool) (s t : VkSync)
    → (vk 0).result ≡ success
    → make_sync vk 1 ≡ done s
    → make_sync vk 7 ≡ done t
    → (ring (initialize_vk_sync_objects vk p no_syncs).0
        ≡ record { pending = []; available = s ∷ t ∷ [] })
      × ((initialize_vk_sync_objects vk p no_syncs).1 ≡ success)
unfolding initialize_vk_sync_objects create_syncs make_syncs
initialized vk p s t pool first second =
    (ground (arith, pool, first, second), ground (arith, pool, first, second))

-- From the initialization on, whatever the two threads do in any order, the sync objects of a queue are the two
-- that were made, none lost and none twice, and at most two are pending. The calls of Vulkan that make them must
-- not fail.
pub initialize-objects :
    (vk : ℕ → Made) (p : Bool) {s t : VkSync} {r : QueueSyncs}
    → (vk 0).result ≡ success
    → make_sync vk 1 ≡ done s
    → make_sync vk 7 ≡ done t
    → Steps (initialize_vk_sync_objects vk p no_syncs).0 r
    → Perm (pending r ++ available r) (s ∷ t ∷ []) × (length (pending r) ≤ 2)
initialize-objects vk p {s} {t} {r} pool first second steps =
    let start = (initialized vk p s t pool first second).0 in
    let turns = subst (λ a. Turns a (ring r)) start (Steps-Turns steps) in
    (Turns-perm turns, omega (arith, Turns-length turns, length-append (pending r) (available r)))
