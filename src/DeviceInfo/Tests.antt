-- ===== src/DeviceInfo/Tests.antt =====
-- A device, what is recorded of it, and the theorems at concrete inputs.
use mathlib.Core.List.{Memᴰ}
use gamesdk.Prelude.{ℕ, ◌<◌, ◌≡◌, refl, none, some, List, [], ◌∷◌, length, All}
use gamesdk.Prelude.Int.{pos}
use gamesdk.DeviceInfo.{SystemProperties, split_add, insert, less}
use gamesdk.DeviceInfo.Proto.{Device, v2_0, v3_0, v3_1, consts_of}
use gamesdk.DeviceInfo.Words.{joined, Lacks, split_add_words}

abbrev old_system : SystemProperties
old_system = record { value_of = λ key. (93, []); read = λ key. none }

-- The features cannot be read, the properties are too long, and GL has two errors.
abbrev broken : Device
broken = record {
  cpu_index_max = some (pos 1);
  cpu_freq_max = λ index. some (pos index);
  cpu_present = none;
  cpu_possible = none;
  hardware_lines = some [];
  features_lines = none;
  system = old_system;
  egl_error = λ title. 0x3000;
  gl_answers = record {
    errors_before = 0x500 ∷ [];
    version = some (pos 3, pos 1);
    indexed_extensions = [];
    all_extensions = [];
    errors_after = 0x502 ∷ [];
  };
}

version_3_1 : consts_of (pos 3) (pos 1) ≡ v2_0 ∷ v3_0 ∷ v3_1 ∷ []
unfolding consts_of
version_3_1 = refl

-- "b a  b"
abbrev line : List ℕ
line = 98 ∷ 32 ∷ 97 ∷ 32 ∷ 32 ∷ 98 ∷ []

words : split_add line 32 [] [] ≡ (97 ∷ []) ∷ (98 ∷ []) ∷ []
unfolding split_add insert less
words = refl

split_add_words_example :
    (pieces : List (List ℕ)) × (joined 32 pieces ≡ line)
    × All (Lacks 32) pieces
    × ((w : List ℕ) → 0 < length w → Memᴰ w pieces → Memᴰ w (split_add line 32 [] []))
    × ((w : List ℕ) → Memᴰ w (split_add line 32 [] []) → (0 < length w) × Memᴰ w pieces)
split_add_words_example = split_add_words line 32
