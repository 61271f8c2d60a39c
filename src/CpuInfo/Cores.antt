-- ===== src/CpuInfo/Cores.antt =====
-- The classes of cores that swappy/common/CpuInfo.cpp tells apart.
use gamesdk.Prelude.{
  ℕ, ◌+◌, ◌-◌, ◌^◌, ◌≡◌, refl, sym, ap, ap₂, ◌∙◌, subst, Bool, true, false, none, some, List, [],
  ◌∷◌, ◌++◌, ◌==◌, if◌then◌else◌, length, get_or, All, min, arith, Bool-cases, inl, inr,
}
use gamesdk.CpuInfo.{
  Cpu, CpuInfo, no_cpus, processor_word, hardware_word, add_core, read_lines, classify,
  new_cpu_info, starts_with, split,
}

-- The ids of the cores at the frequency `f`, and of the others, in order.
abbrev pub slow_ids : ℕ → List Cpu → List ℕ
slow_ids f [] = []
slow_ids f (cpu ∷ cpus) = if cpu.frequency == f then cpu.id ∷ slow_ids f cpus else slow_ids f cpus

abbrev pub fast_ids : ℕ → List Cpu → List ℕ
fast_ids f [] = []
fast_ids f (cpu ∷ cpus) = if cpu.frequency == f then fast_ids f cpus else cpu.id ∷ fast_ids f cpus

abbrev pub Classified : List Cpu → CpuInfo → CpuInfo → Type 0
Classified cpus s s' =
    (s'.cpus ≡ s.cpus)
    × (s'.min_frequency ≡ s.min_frequency)
    × (s'.little_cores_mask ≡ s.little_cores_mask ++ slow_ids s.min_frequency cpus)
    × (s'.big_cores_mask ≡ s.big_cores_mask ++ fast_ids s.min_frequency cpus)
    × (s'.number_of_little_cores
        ≡ s.number_of_little_cores + length (slow_ids s.min_frequency cpus))
    × (s'.number_of_big_cores ≡ s.number_of_big_cores + length (fast_ids s.min_frequency cpus))

append_one : (xs ys : List ℕ) (x : ℕ) → (xs ++ x ∷ []) ++ ys ≡ xs ++ x ∷ ys
append_one [] ys x = refl
append_one (y ∷ xs) ys x = ap (λ zs. y ∷ zs) (append_one xs ys x)

append_none : (xs : List ℕ) → xs ≡ xs ++ []
append_none [] = refl
append_none (x ∷ xs) = ap (λ zs. x ∷ zs) (append_none xs)

classify-Classified : (cpus : List Cpu) (s : CpuInfo) → Classified cpus s (classify cpus s)
unfolding classify
classify-Classified [] s = (
  refl,
  refl,
  append_none s.little_cores_mask,
  append_none s.big_cores_mask,
  omega arith,
  omega arith,
)
classify-Classified (cpu ∷ cpus) s = elim (Bool-cases (cpu.frequency == s.min_frequency)) [
  | inl slow ↦
      let (c, f, l, b, n, m) = classify-Classified cpus (counted_little s cpu) in
      rw (slow, classify)
        (
          c,
          f,
          l ∙ append_one s.little_cores_mask (slow_ids s.min_frequency cpus) cpu.id,
          b,
          n ∙ omega arith,
          m,
        )
  | inr fast ↦
      let (c, f, l, b, n, m) = classify-Classified cpus (counted_big s cpu) in
      rw (fast, classify)
        (
          c,
          f,
          l,
          b ∙ append_one s.big_cores_mask (fast_ids s.min_frequency cpus) cpu.id,
          n,
          m ∙ omega arith,
        )
]
  where
    counted_little : CpuInfo → Cpu → CpuInfo
    counted_little s cpu = record s {
      number_of_little_cores = s.number_of_little_cores + 1;
      little_cores_mask = s.little_cores_mask ++ cpu.id ∷ [];
    }

    counted_big : CpuInfo → Cpu → CpuInfo
    counted_big s cpu = record s {
      number_of_big_cores = s.number_of_big_cores + 1;
      big_cores_mask = s.big_cores_mask ++ cpu.id ∷ [];
    }

-- The least frequency of the cores, or the initial one.
abbrev pub least : ℕ → List Cpu → ℕ
least f [] = f
least f (cpu ∷ cpus) = min cpu.frequency (least f cpus)

abbrev pub Untyped : List Cpu → Type 0
Untyped = All (λ cpu. cpu.cpu_type ≡ none)

-- The state while the lines are read.
pub record IsRead (s : CpuInfo) : Type 0 where
  pub lowest : s.min_frequency ≡ least (2 ^ 63 - 1) s.cpus
  pub untyped : Untyped s.cpus
  pub no_little : s.number_of_little_cores ≡ 0
  pub no_big : s.number_of_big_cores ≡ 0
  pub little_empty : s.little_cores_mask ≡ []
  pub big_empty : s.big_cores_mask ≡ []

least-append :
    (f : ℕ) (cpus : List Cpu) (cpu : Cpu)
    → least f (cpus ++ cpu ∷ []) ≡ min (least f cpus) cpu.frequency
least-append f [] cpu = omega arith
least-append f (c ∷ cpus) cpu = omega (arith, least-append f cpus cpu)

Untyped-append :
    (cpus : List Cpu) (cpu : Cpu) → Untyped cpus → cpu.cpu_type ≡ none → Untyped (cpus ++ cpu ∷ [])
Untyped-append [] cpu h e = (e, tt)
Untyped-append (c ∷ cpus) cpu (d, h) e = (d, Untyped-append cpus cpu h e)

add_core-IsRead :
    (s : CpuInfo) (package_id frequency : ℕ) → IsRead s → IsRead (add_core s package_id frequency)
unfolding add_core
add_core-IsRead s package_id frequency r = record {
  lowest = ap (λ (n : ℕ). min n frequency) r.lowest ∙ sym (least-append (2 ^ 63 - 1) s.cpus _);
  untyped = Untyped-append s.cpus _ r.untyped refl;
  no_little = r.no_little;
  no_big = r.no_big;
  little_empty = r.little_empty;
  big_empty = r.big_empty;
}

named-IsRead :
    (s : CpuInfo) (hardware : List ℕ) → IsRead s → IsRead (record s { hardware = hardware })
named-IsRead s hardware r = record {
  lowest = r.lowest;
  untyped = r.untyped;
  no_little = r.no_little;
  no_big = r.no_big;
  little_empty = r.little_empty;
  big_empty = r.big_empty;
}

either-IsRead : (b : Bool) (s t : CpuInfo) → IsRead s → IsRead t → IsRead (if b then s else t)
either-IsRead true s t p q = p
either-IsRead false s t p q = q

read_lines-IsRead :
    (packages frequencies : ℕ → ℕ) (lines : List (List ℕ)) (s : CpuInfo)
    → IsRead s
    → IsRead (read_lines packages frequencies lines s)
unfolding read_lines
read_lines-IsRead packages frequencies [] s r = r
read_lines-IsRead packages frequencies (line ∷ lines) s r =
    read_lines-IsRead packages frequencies lines _ (
      either-IsRead (starts_with line processor_word) _ _
        (add_core-IsRead s (packages (length s.cpus)) (frequencies (length s.cpus)) r)
        (either-IsRead (starts_with line hardware_word) _ _
          (named-IsRead s (get_or (split line 58) 1 []) r) r))

-- The constructor on the lines of a file finds the least frequency of the cores, and puts each core, by its id
-- and in order, into one of two sets: the little cores are those at the least frequency, the big ones all
-- others. The two numbers are the sizes of the sets. No core has its type assigned.
pub new_cpu_info_classifies :
    (packages frequencies : ℕ → ℕ) (lines : List (List ℕ))
    → let s = new_cpu_info packages frequencies (some lines) in
      (s.min_frequency ≡ least (2 ^ 63 - 1) s.cpus)
      × (s.little_cores_mask ≡ slow_ids s.min_frequency s.cpus)
      × (s.big_cores_mask ≡ fast_ids s.min_frequency s.cpus)
      × (s.number_of_little_cores ≡ length s.little_cores_mask)
      × (s.number_of_big_cores ≡ length s.big_cores_mask)
      × Untyped s.cpus
unfolding new_cpu_info
new_cpu_info_classifies packages frequencies lines =
    let s = read_lines packages frequencies lines no_cpus in
    let r = read_lines-IsRead packages frequencies lines no_cpus (record {
      lowest = refl;
      untyped = tt;
      no_little = refl;
      no_big = refl;
      little_empty = refl;
      big_empty = refl;
    }) in
    let (c, f, l, b, n, m) = classify-Classified s.cpus s in
    (
      f ∙ r.lowest ∙ ap (least (2 ^ 63 - 1)) (sym c),
      l
          ∙ ap₂ (λ xs f'. xs ++ slow_ids f' s.cpus) r.little_empty (sym f)
          ∙ ap (slow_ids (classify s.cpus s).min_frequency) (sym c),
      b
          ∙ ap₂ (λ xs f'. xs ++ fast_ids f' s.cpus) r.big_empty (sym f)
          ∙ ap (fast_ids (classify s.cpus s).min_frequency) (sym c),
      omega (
        arith,
        n,
        r.no_little,
        ap length (l ∙ ap (λ xs. xs ++ slow_ids s.min_frequency s.cpus) r.little_empty),
      ),
      omega (
        arith,
        m,
        r.no_big,
        ap length (b ∙ ap (λ xs. xs ++ fast_ids s.min_frequency s.cpus) r.big_empty),
      ),
      subst Untyped (sym c) r.untyped,
    )
