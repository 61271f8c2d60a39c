-- ===== src/UploadThread.antt =====
-- tuningfork/uploadthread.cpp: the debug backend, which prints an event to the log in base 64. The hand-over of a
-- cache to the thread is in TuningFork.
pub mod Chunks
mod Tests
use mathlib.Core.Option
use gamesdk.Prelude.{
  ℕ, zero, suc, ◌+◌, ◌-◌, ◌*◌, ◌/◌, Bool, true, false, ◌||◌, not, Option, none, some, List, [], ◌∷◌,
  ◌==◌, if◌then◌else◌, length, take, drop, min,
}
use gamesdk.TuningFork.{ErrorCode, ok, bad_parameter, b64_encode_failed}

abbrev pub max_str_len : ℕ
max_str_len = 128

-- The line of the log for a chunk: its number, the number of chunks and its text.
pub record LogLine : Type 0 where
  pub number : ℕ
  pub of : ℕ
  pub text : List ℕ

-- The loop over the chunks, with `left` of the `n` chunks to come, from the index `i` and the position `j` on.
unfoldable pub print_chunks : ℕ → ℕ → ℕ → ℕ → List ℕ → List LogLine
print_chunks zero n i j s = []
print_chunks (suc left) n i j s =
    let m = min (length s - j) max_str_len in
    record { number = i + 1; of = n; text = take m (drop j s) }
    ∷ print_chunks left n (i + 1) (j + m) s

-- `n`, rounded up.
abbrev pub number_of_chunks : List ℕ → ℕ
number_of_chunks s = (length s + max_str_len - 1) / max_str_len

-- `DebugBackend::Process`. `encode` is modp_b64_encode: the text, or none for -1; `encode_len` is the size of the
-- buffer, with the null at the end.
unfoldable pub process : (List ℕ → Option (List ℕ)) → (ℕ → ℕ) → List ℕ → List LogLine × ErrorCode
unfolding print_chunks
process encode encode_len evt_ser =
    if length evt_ser == 0 then ([], bad_parameter) else elim (encode evt_ser) [
      | none ↦ ([], b64_encode_failed)
      | some s ↦
          if not (encode_len (length evt_ser) == length s + 1)
          then ([], b64_encode_failed)
          else (print_chunks (number_of_chunks s) (number_of_chunks s) 0 0 s, ok)
    ]
