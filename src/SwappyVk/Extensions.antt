-- ===== src/SwappyVk/Extensions.antt =====
-- swappy/vulkan/SwappyVk.cpp: the two calls of `swappyVkDetermineDeviceExtensions`.
use Prim.Native.String.{String}
use text.Mathlib.Text.{◌==◌ as str_eq}
use mathlib.Core.List.{append_assoc, append-nil}
use gamesdk.Prelude.{
  ℕ, suc, ◌+◌, ◌<◌, ◌≤◌, ◌≡◌, subst, sym, ◌∙◌, Bool, true, false, List, [], ◌∷◌, ◌++◌, ltb,
  if◌then◌else◌, replicate, length, arith, u32, add_u32, ◌||◌, Bool-cases, inl, inr,
}
use gamesdk.SwappyVk.{display_timing_name, count_extensions, write_extensions}

-- How many of the names are that of the extension.
abbrev pub matches : List String → ℕ
matches [] = 0
matches (name ∷ names) =
    let rest = matches names in if str_eq display_timing_name name then suc rest else rest

count_extensions_lem :
    (names : List String) (n : ℕ)
    → n + length names < u32
    → count_extensions names n ≡ n + matches names
unfolding count_extensions
count_extensions_lem [] n h = omega arith
count_extensions_lem (name ∷ names) n h =
    ground (arith, count_extensions_lem names n, count_extensions_lem names (add_u32 n 1))

write_extensions_lem :
    (names : List String) (j room : ℕ) (written : List String) (found : Bool)
    → j + matches names ≡ room
    → write_extensions names j room written found
      ≡ (written ++ replicate (matches names) display_timing_name, ltb 0 (matches names) || found)
unfolding write_extensions
write_extensions_lem [] j room written found h = ground (arith, append-nil written)
write_extensions_lem (name ∷ names) j room written found h =
    elim (Bool-cases (str_eq display_timing_name name)) [
      | inl e ↦ ground (
        arith,
        e,
        write_extensions_lem names (j + 1) room (written ++ display_timing_name ∷ []) true,
        append_assoc written (display_timing_name ∷ [])
            (replicate (matches names) display_timing_name),
      )
      | inr e ↦ ground (arith, e, write_extensions_lem names j room written found)
    ]

matches-le : (names : List String) → matches names ≤ length names
matches-le [] = omega arith
matches-le (name ∷ names) = ground (arith, matches-le names)

-- The two calls agree: with the number that the first call has counted up from 0, the second writes the name of the
-- extension as often, without room left over, and finds the extension exactly if the number is not 0. There must be
-- fewer than 2^32 extensions.
pub write_extensions-count_extensions :
    (names : List String)
    → length names < u32
    → write_extensions names 0 (count_extensions names 0) [] false
      ≡ (replicate (count_extensions names 0) display_timing_name, ltb 0 (count_extensions names 0))
write_extensions-count_extensions names h =
    let counted : count_extensions names 0 ≡ matches names =
      count_extensions_lem names 0 (omega (arith, h)) ∙ omega arith in
    subst
      (λ (n : ℕ). write_extensions names 0 n [] false ≡ (replicate n display_timing_name, ltb 0 n))
      (sym counted)
      (write_extensions_lem names 0 (matches names) [] false (omega arith) ∙ ground arith)
