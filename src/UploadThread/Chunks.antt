-- ===== src/UploadThread/Chunks.antt =====
-- The lines that the debug backend of tuningfork/uploadthread.cpp prints.
use gamesdk.Prelude.{
  ℕ, zero, suc, ◌+◌, ◌-◌, ◌*◌, ◌≤◌, ◌≡◌, refl, sym, ap, ◌∙◌, subst, false, Option, some, List, [],
  ◌∷◌, ◌++◌, ◌==◌, length, length-take, take, drop, take-append-drop, drop_add, min, All, arith,
}
use gamesdk.TuningFork.{ErrorCode, ok}
use gamesdk.UploadThread.{LogLine, max_str_len, print_chunks, number_of_chunks, process}

abbrev pub texts : List LogLine → List ℕ
texts [] = []
texts (l ∷ lines) = l.text ++ texts lines

abbrev pub IsLine : LogLine → Type 0
IsLine l = length l.text ≤ max_str_len

chunk-IsLine :
    (s : List ℕ) (j : ℕ) → length (take (min (length s - j) max_str_len) (drop j s)) ≤ max_str_len
chunk-IsLine s j = omega (arith, length-take (min (length s - j) max_str_len) (drop j s))

print_chunks-IsLine : (left n i j : ℕ) (s : List ℕ) → All IsLine (print_chunks left n i j s)
unfolding print_chunks
print_chunks-IsLine zero n i j s = tt
print_chunks-IsLine (suc left) n i j s =
    (chunk-IsLine s j, print_chunks-IsLine left n (i + 1) (j + min (length s - j) max_str_len) s)

drop_all : (s : List ℕ) (j : ℕ) → length s ≤ j → drop j s ≡ []
drop_all [] zero h = refl
drop_all [] (suc j) h = refl
drop_all (x ∷ s) zero h = elim h [ ]
drop_all (x ∷ s) (suc j) h = drop_all s j (omega arith)

texts-print_chunks :
    (left n i j : ℕ) (s : List ℕ)
    → length s ≤ j + max_str_len * left
    → texts (print_chunks left n i j s) ≡ drop j s
unfolding print_chunks
texts-print_chunks zero n i j s h = sym (drop_all s j (omega arith))
texts-print_chunks (suc left) n i j s h =
    let m = min (length s - j) max_str_len in
    ap (λ ys. take m (drop j s) ++ ys)
      (texts-print_chunks left n (i + 1) (j + m) s (omega arith) ∙ drop_add s j m)
    ∙ take-append-drop m (drop j s)

length-print_chunks : (left n i j : ℕ) (s : List ℕ) → length (print_chunks left n i j s) ≡ left
unfolding print_chunks
length-print_chunks zero n i j s = refl
length-print_chunks (suc left) n i j s =
    ap suc (length-print_chunks left n (i + 1) (j + min (length s - j) max_str_len) s)

printed :
    (encode : List ℕ → Option (List ℕ)) (encode_len : ℕ → ℕ) (evt s : List ℕ)
    → (length evt == 0) ≡ false
    → encode evt ≡ some s
    → encode_len (length evt) ≡ length s + 1
    → process encode encode_len evt
      ≡ (print_chunks (number_of_chunks s) (number_of_chunks s) 0 0 s, ok)
unfolding process
printed encode encode_len evt s full e len = ground (arith, full, e, len)

-- Processing an event that is not empty, and whose text in base 64 has the length that was foreseen, returns
-- ok and prints the whole text: the texts of the lines, joined in order, are that text. No line has more
-- than 128 characters, and their number is that of the text over 128, rounded up.
process_prints :
    (encode : List ℕ → Option (List ℕ)) (encode_len : ℕ → ℕ) (evt s : List ℕ)
    → (length evt == 0) ≡ false
    → encode evt ≡ some s
    → encode_len (length evt) ≡ length s + 1
    → ((process encode encode_len evt).1 ≡ ok)
      × (texts (process encode encode_len evt).0 ≡ s)
      × All IsLine (process encode encode_len evt).0
      × (length (process encode encode_len evt).0 ≡ number_of_chunks s)
process_prints encode encode_len evt s full e len =
    subst Prints (sym (printed encode encode_len evt s full e len)) (
      refl,
      texts-print_chunks (number_of_chunks s) (number_of_chunks s) 0 0 s (omega arith),
      print_chunks-IsLine (number_of_chunks s) (number_of_chunks s) 0 0 s,
      length-print_chunks (number_of_chunks s) (number_of_chunks s) 0 0 s,
    )
  where
    Prints : List LogLine × ErrorCode → Type 0
    Prints r = (r.1 ≡ ok) × (texts r.0 ≡ s) × All IsLine r.0 × (length r.0 ≡ number_of_chunks s)
