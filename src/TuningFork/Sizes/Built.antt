-- ===== src/TuningFork/Sizes/Built.antt =====
-- The constructor of tuningfork/tuningfork.cpp gives its tables their sizes.
use gamesdk.Prelude.{ℕ, ◌≤◌, ◌≡◌, length}
use gamesdk.TuningFork.{TuningFork}
use gamesdk.TuningFork.Reach.{Reach}

-- The table of keys alone.
HasKeys : {D : Type 0} → ℕ → TuningFork D → Type 0
HasKeys n s = (length s.ikeys ≡ n) × (s.next_ikey ≤ n)
