-- ===== src/CpuInfo.antt =====
-- swappy/common/CpuInfo.h and CpuInfo.cpp: the cores of the device, and which of them are little. A string is
-- the list of its character codes. The lines of /proc/cpuinfo and what the files under /sys say of a core, its
-- package and its frequency, are arguments.
pub mod Cores
mod Tests
use gamesdk.Prelude.{
  ℕ, zero, suc, ◌+◌, ◌-◌, ◌*◌, ◌^◌, Bool, true, false, ◌&&◌, Option, none, some, List, [], ◌∷◌,
  ◌++◌, ltb, ◌==◌, if◌then◌else◌, length, get_elem?, get_or, take, drop, min, max,
}

-- `std::string::find(c, from)`: none is `npos`. `i` is the index of the list's first character.
unfoldable pub find : List ℕ → ℕ → ℕ → Option ℕ
find [] c i = none
find (x ∷ s) c i = let rest = find s c (i + 1) in if x == c then some i else rest

-- `mainStr.find(toMatch) == 0`.
unfoldable pub starts_with : List ℕ → List ℕ → Bool
starts_with s [] = true
starts_with [] (c ∷ match) = false
starts_with (x ∷ s) (c ∷ match) = x == c && starts_with s match

-- `substr(i, n)`.
abbrev pub substr : List ℕ → ℕ → ℕ → List ℕ
substr s i n = take n (drop i s)

-- The loop of `split`, for an `i` and the index `j` of the next separator. Each round takes at least one
-- character, and `fuel` bounds the rounds.
unfoldable pub split_loop : ℕ → List ℕ → ℕ → ℕ → ℕ → List (List ℕ)
unfolding find
split_loop zero s c i j = []
split_loop (suc fuel) s c i j =
    let next = find (drop (j + 1) s) c (j + 1) in
    substr s i (j - i) ∷ (elim next [
      | none ↦ substr s (j + 1) (length s) ∷ []
      | some k ↦ split_loop fuel s c (j + 1) k
    ])

unfoldable pub split : List ℕ → ℕ → List (List ℕ)
unfolding split_loop find
split s c = elim (find s c 0) [ none ↦ [] | some j ↦ split_loop (length s) s c 0 j ]

pub data CpuType : Type 0 where
  little big : CpuType

-- `CpuInfo::Cpu`; the type is none until it is assigned.
pub record Cpu : Type 0 where
  pub id : ℕ
  pub package_id : ℕ
  pub frequency : ℕ
  pub cpu_type : Option CpuType

-- The members, and the two locals of the constructor. A set of cores is the list of its ids.
pub record CpuInfo : Type 0 where
  pub cpus : List Cpu
  pub hardware : List ℕ
  pub max_frequency : ℕ
  pub min_frequency : ℕ
  pub number_of_little_cores : ℕ
  pub number_of_big_cores : ℕ
  pub little_cores_mask : List ℕ
  pub big_cores_mask : List ℕ

abbrev pub processor_word : List ℕ
processor_word = 112 ∷ 114 ∷ 111 ∷ 99 ∷ 101 ∷ 115 ∷ 115 ∷ 111 ∷ 114 ∷ []

abbrev pub hardware_word : List ℕ
hardware_word = 72 ∷ 97 ∷ 114 ∷ 100 ∷ 119 ∷ 97 ∷ 114 ∷ 101 ∷ []

abbrev pub no_cpus : CpuInfo
no_cpus = record {
  cpus = [];
  hardware = [];
  max_frequency = 0;
  min_frequency = 2 ^ 63 - 1;
  number_of_little_cores = 0;
  number_of_big_cores = 0;
  little_cores_mask = [];
  big_cores_mask = [];
}

unfoldable pub add_core : CpuInfo → ℕ → ℕ → CpuInfo
add_core s package_id frequency = record s {
  cpus =
      s.cpus
      ++ record {
        id = length s.cpus;
        package_id = package_id;
        frequency = frequency;
        cpu_type = none;
      }
        ∷ [];
  min_frequency = min s.min_frequency frequency;
  max_frequency = max s.max_frequency frequency;
}

-- The loop over the lines. `packages` and `frequencies` give what is read for a core's id. The element of
-- index 1 of a line without a colon does not exist; it is an empty string here.
unfoldable pub read_lines : (ℕ → ℕ) → (ℕ → ℕ) → List (List ℕ) → CpuInfo → CpuInfo
unfolding starts_with split add_core
read_lines packages frequencies [] s = s
read_lines packages frequencies (line ∷ lines) s = read_lines packages frequencies lines (
    if starts_with line processor_word
    then add_core s (packages (length s.cpus)) (frequencies (length s.cpus))
    else if starts_with line hardware_word
    then record s { hardware = get_or (split line 58) 1 [] }
    else s)

-- The last loop. It runs over copies of the cores, so that the type is assigned to the copy only.
unfoldable pub classify : List Cpu → CpuInfo → CpuInfo
classify [] s = s
classify (cpu ∷ cpus) s = classify cpus (
    if cpu.frequency == s.min_frequency
    then record s {
      number_of_little_cores = s.number_of_little_cores + 1;
      little_cores_mask = s.little_cores_mask ++ cpu.id ∷ [];
    }
    else record s {
      number_of_big_cores = s.number_of_big_cores + 1;
      big_cores_mask = s.big_cores_mask ++ cpu.id ∷ [];
    })

-- The constructor; none stands for a file that cannot be opened.
unfoldable pub new_cpu_info : (ℕ → ℕ) → (ℕ → ℕ) → Option (List (List ℕ)) → CpuInfo
unfolding classify read_lines
new_cpu_info packages frequencies none = no_cpus
new_cpu_info packages frequencies (some lines) =
    let s = read_lines packages frequencies lines no_cpus in classify s.cpus s
