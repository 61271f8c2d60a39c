-- ===== src/Prelude/Bits.antt =====
-- `&`, `|` and masks at variables: the laws of the native bit operations that the byte codecs use.
use Prim.Native.Nat.{
  ℕ, zero, suc, ◌+◌, ◌-◌, ◌*◌, ◌/◌, ◌%◌, ◌^◌, ◌≤◌, ◌<◌, min, max, bit_and, bit_or, digits,
  bit_and-bitwise, bit_or-bitwise,
}
use mathlib.Core.Path.{◌≡◌, refl, sym, ap}
use native.Mathlib.Omega.{arith}
use native.Mathlib.Nat.{
  pow-suc, pow-succ', mul-one, div-one, div-div-eq-div-mul, div-add-mod, mod-eq_of_lt,
}

-- The native operations stand for a recursion on binary digits, whose rounds are bounded by the first number. It
-- gives the same for every bound that is large enough.
module _ (rest : ℕ → ℕ) (digit : ℕ → ℕ → ℕ) where
  bound_irrelevant :
      (k l x y : ℕ) → x ≤ k → x ≤ l → digits rest digit k x y ≡ digits rest digit l x y
  bound_irrelevant zero zero x y u v = refl
  bound_irrelevant (suc k) zero zero y u v = refl
  bound_irrelevant (suc k) zero (suc x) y u v = elim v [ ]
  bound_irrelevant zero (suc l) zero y u v = refl
  bound_irrelevant zero (suc l) (suc x) y u v = elim u [ ]
  bound_irrelevant (suc k) (suc l) zero y u v = refl
  bound_irrelevant (suc k) (suc l) (suc x) y u v =
      ap (λ (h : ℕ). h * 2 + digit (suc x % 2) (y % 2))
        (bound_irrelevant k l (suc x / 2) (y / 2) (omega arith) (omega arith))

-- The lowest digit of a conjunction and of a disjunction.
pub bit_and_step : (x y : ℕ) → bit_and x y ≡ bit_and (x / 2) (y / 2) * 2 + min (x % 2) (y % 2)
bit_and_step zero y = omega (arith, bit_and-bitwise 0 y, bit_and-bitwise 0 (y / 2))
bit_and_step (suc x) y =
    let same = bound_irrelevant (λ b. zero) min (suc x / 2) x (suc x / 2) (y / 2) in
    omega (
      arith,
      same (omega arith) (omega arith),
      bit_and-bitwise (suc x / 2) (y / 2),
      bit_and-bitwise (suc x) y,
    )

zero-bit_or : (y : ℕ) → bit_or 0 y ≡ y
zero-bit_or y = bit_or-bitwise 0 y

bit_or_step : (x y : ℕ) → bit_or x y ≡ bit_or (x / 2) (y / 2) * 2 + max (x % 2) (y % 2)
bit_or_step zero y = omega (arith, zero-bit_or y, zero-bit_or (y / 2))
bit_or_step (suc x) y =
    let same = bound_irrelevant (λ b. b) max (suc x / 2) x (suc x / 2) (y / 2) in
    omega (
      arith,
      same (omega arith) (omega arith),
      bit_or-bitwise (suc x / 2) (y / 2),
      bit_or-bitwise (suc x) y,
    )

bit_and-zero : (x : ℕ) → bit_and x 0 ≡ 0
bit_and-zero x = halving x x (omega arith)
  where
    halving : (bound y : ℕ) → y ≤ bound → bit_and y 0 ≡ 0
    halving bound zero h = refl
    halving (suc bound) (suc y) h =
        omega (arith, halving bound (suc y / 2) (omega arith), bit_and_step (suc y) 0)
    halving zero (suc y) h = elim h [ ]

two_pow_pos : (k : ℕ) → 0 < 2 ^ k
two_pow_pos zero = omega arith
two_pow_pos (suc k) = omega (arith, pow-suc 2 k, two_pow_pos k)

-- The halves and the parity of 2 * p - 1 and of g * (2 * p).
half-odd : (p : ℕ) → 0 < p → ((p * 2 - 1) / 2 ≡ p - 1) × ((p * 2 - 1) % 2 ≡ 1)
half-odd p h = (omega arith, omega arith)

double-mod : (a p : ℕ) → 0 < p → a / 2 % p * 2 + a % 2 ≡ a % (p * 2)
double-mod a p h = grind (arith, div-add-mod, mod-eq_of_lt)

-- A mask of k ones keeps the k lowest bits.
pub bit_and_mask : (k a : ℕ) → bit_and a (2 ^ k - 1) ≡ a % 2 ^ k
bit_and_mask zero a = omega (arith, bit_and-zero a)
bit_and_mask (suc k) a = rw (pow-suc 2 k) (
    omega (
      arith,
      bit_and_step a (2 ^ k * 2 - 1),
      half-odd (2 ^ k) (two_pow_pos k),
      ap (bit_and (a / 2)) (half-odd (2 ^ k) (two_pow_pos k)).0,
      bit_and_mask k (a / 2),
      double-mod a (2 ^ k) (two_pow_pos k),
    ))

-- A number below 2 ^ m and a multiple of 2 ^ m share no bit.
pub bit_or_disjoint : (m r g : ℕ) → r < 2 ^ m → bit_or r (g * 2 ^ m) ≡ r + g * 2 ^ m
bit_or_disjoint zero zero g h = omega (arith, zero-bit_or (g * 2 ^ 0))
bit_or_disjoint zero (suc r) g h = absurd (omega arith)
bit_or_disjoint (suc m) r g h = omega (
  arith,
  pow-suc 2 m,
  bit_or_step r (g * 2 ^ suc m),
  ap (λ (t : ℕ). g * t) (pow-suc 2 m),
  ap (bit_or (r / 2)) half,
  bit_or_disjoint m (r / 2) g (omega (arith, pow-suc 2 m)),
)
  where
    half : g * 2 ^ suc m / 2 ≡ g * 2 ^ m
    half = omega (arith, ap (λ (t : ℕ). g * t) (pow-suc 2 m))

-- A mask whose k lowest bits are clear.
pub bit_and_shift : (k a g : ℕ) → bit_and a (g * 2 ^ k) ≡ bit_and (a / 2 ^ k) g * 2 ^ k
bit_and_shift zero a g =
    omega (arith, ap (bit_and a) (mul-one g), ap (λ (t : ℕ). bit_and t g) (div-one a))
bit_and_shift (suc k) a g = omega (
  arith,
  pow-suc 2 k,
  bit_and_step a (g * 2 ^ suc k),
  ap (λ (t : ℕ). g * t) (pow-suc 2 k),
  even,
  ap (bit_and (a / 2)) half,
  bit_and_shift k (a / 2) g,
  ap (λ (t : ℕ). bit_and t g * 2 ^ suc k) quarter,
  ap (λ (t : ℕ). bit_and (a / 2 / 2 ^ k) g * t) (pow-suc 2 k),
)
  where
    half : g * 2 ^ suc k / 2 ≡ g * 2 ^ k
    half = omega (arith, ap (λ (t : ℕ). g * t) (pow-suc 2 k))

    even : g * 2 ^ suc k % 2 ≡ 0
    even = omega (arith, ap (λ (t : ℕ). g * t) (pow-suc 2 k))

    quarter : a / 2 ^ suc k ≡ a / 2 / 2 ^ k
    quarter = rw (pow-succ' 2 k) (sym (div-div-eq-div-mul a 2 (2 ^ k)))
