-- ===== src/CpuInfo/Tests.antt =====
-- Runs of the core detection, and its theorem at a concrete input.
use gamesdk.Prelude.{ℕ, zero, suc, ◌-◌, ◌^◌, ◌≡◌, refl, some, List, [], ◌∷◌, length}
use gamesdk.CpuInfo.{find, split, split_loop, processor_word, new_cpu_info}
use gamesdk.CpuInfo.Cores.{slow_ids, fast_ids, least, Untyped, new_cpu_info_classifies}

-- "a:b:c" at the colons.
split_two : split (97 ∷ 58 ∷ 98 ∷ 58 ∷ 99 ∷ []) 58 ≡ (97 ∷ []) ∷ (98 ∷ []) ∷ (99 ∷ []) ∷ []
unfolding split split_loop find
split_two = refl

-- Without a separator there is no part at all.
split_none : split (97 ∷ 98 ∷ []) 58 ≡ []
unfolding split find
split_none = refl

abbrev package_of : ℕ → ℕ
package_of id = 0

abbrev frequency_of : ℕ → ℕ
frequency_of (suc zero) = 2800000
frequency_of id = 1700000

-- Three cores, the second of them faster.
abbrev three_lines : List (List ℕ)
three_lines = processor_word ∷ processor_word ∷ processor_word ∷ []

new_cpu_info_classifies_example :
    let s = new_cpu_info package_of frequency_of (some three_lines) in
    (s.min_frequency ≡ least (2 ^ 63 - 1) s.cpus)
    × (s.little_cores_mask ≡ slow_ids s.min_frequency s.cpus)
    × (s.big_cores_mask ≡ fast_ids s.min_frequency s.cpus)
    × (s.number_of_little_cores ≡ length s.little_cores_mask)
    × (s.number_of_big_cores ≡ length s.big_cores_mask)
    × Untyped s.cpus
new_cpu_info_classifies_example = new_cpu_info_classifies package_of frequency_of three_lines
