-- ===== src/UploadThread/Tests.antt =====
-- A run of the debug backend with an encoding that doubles each byte.
use gamesdk.Prelude.{ℕ, ◌+◌, ◌*◌, ◌≡◌, refl, some, List, [], ◌∷◌}
use gamesdk.TuningFork.{ok}
use gamesdk.UploadThread.{process, print_chunks}

abbrev doubled : List ℕ → List ℕ
doubled [] = []
doubled (x ∷ xs) = x ∷ x ∷ doubled xs

printed :
    process (λ evt. some (doubled evt)) (λ n. 2 * n + 1) (7 ∷ 8 ∷ [])
    ≡ (record { number = 1; of = 1; text = 7 ∷ 7 ∷ 8 ∷ 8 ∷ [] } ∷ [], ok)
unfolding process print_chunks
printed = refl
