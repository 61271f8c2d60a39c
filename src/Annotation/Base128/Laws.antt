-- ===== src/Annotation/Base128/Laws.antt =====
-- What the base-128 codec reads and writes, in plain arithmetic.
use Prim.Native.Nat.{bit_and, bit_or}
use native.Mathlib.Nat.{suc-add, pow-suc, pow-le-pow_right, mod-eq_of_lt, div-add-mod}
use mathlib.Core.List.{append_assoc, append-nil}
use native.Mathlib.Numerals.{towards_suc}
use native.Mathlib.Decide.{dec_lt}
use gamesdk.Prelude.{
  ℕ, zero, suc, ◌+◌, ◌-◌, ◌*◌, ◌/◌, ◌%◌, ◌^◌, ◌≤◌, ◌<◌, ◌≡◌, refl, ap, List, [], ◌∷◌, ◌++◌, ltb,
  if◌then◌else◌, length, length-append, drop-append, u64, u32, arith, sym, ◌∙◌,
}
use gamesdk.Prelude.Bits.{bit_and_mask, bit_and_shift, bit_or_disjoint}
use gamesdk.Annotation.Base128.{read_loop, get_base128, write_loop, write_base128}

-- The masks of one byte.
low_seven : (x : ℕ) → bit_and x 0x7f ≡ x % 128
low_seven x = bit_and_mask 7 x

top_bit : (b : ℕ) → bit_and b 0x80 ≡ b / 128 % 2 * 128
top_bit b = omega (arith, bit_and_shift 7 b 1, bit_and_mask 1 (b / 128))

set_top_bit : (a : ℕ) → a < 128 → bit_or a 0x80 ≡ a + 128
set_top_bit a h = bit_or_disjoint 7 a 1 h

high_bits : (x : ℕ) → bit_and x 0xffff_ffff_ffff_ff80 ≡ x / 128 % 2 ^ 57 * 128
high_bits x = omega (arith, bit_and_shift 7 x (2 ^ 57 - 1), bit_and_mask 57 (x / 128))

-- The groups of seven bits of a number, lowest first, at most `k` of them.
unfoldable pub base128 : ℕ → ℕ → List ℕ
base128 zero x = []
base128 (suc k) x =
    let rest = base128 k (x / 128) in if ltb x 128 then x ∷ [] else (x % 128 + 128) ∷ rest

write_loop-base128 :
    (k x : ℕ) (bytes : List ℕ) → x < u32 → write_loop k x bytes ≡ bytes ++ base128 k x
unfolding write_loop base128
write_loop-base128 zero x bytes h = sym (append-nil bytes)
write_loop-base128 (suc k) x bytes h = ground (
  arith,
  low_seven x,
  high_bits x,
  set_top_bit (x % 128),
  write_loop-base128 k (x / 128) (bytes ++ ((x % 128 + 128) ∷ [])),
  append_assoc bytes ((x % 128 + 128) ∷ []) (base128 k (x / 128)),
)

pub base128-nonempty : (k x : ℕ) → 1 ≤ length (base128 (suc k) x)
unfolding base128
base128-nonempty k x = ground arith

-- Enough groups, and one more changes nothing.
base128_more : (k x : ℕ) → x < 128 ^ k → 0 < k → base128 (suc k) x ≡ base128 k x
unfolding base128
base128_more zero x h p = elim p [ ]
base128_more (suc zero) x h p = ground (arith)
base128_more (suc (suc k)) x h p =
    ground (arith, pow-suc 128 (suc k), base128_more (suc k) (x / 128))

-- `<<` does not leave the word while the shift is below 57.
shifted_fits : (g m : ℕ) → g < 128 → m ≤ 56 → g * 2 ^ m % u64 ≡ g * 2 ^ m
shifted_fits g m hg hm = grind (arith, pow-le-pow_right, mod-eq_of_lt)

shift_seven : (m : ℕ) → 2 ^ (m + 7) ≡ 2 ^ m * 128
shift_seven m = simp towards_suc (omega arith)

split_group : (x m : ℕ) → x * 2 ^ m ≡ x % 128 * 2 ^ m + x / 128 * 2 ^ (m + 7)
split_group x m = omega (
  arith,
  ap (λ (t : ℕ). t * 2 ^ m) (div-add-mod x 128),
  ap (λ (t : ℕ). x / 128 * t) (shift_seven m),
)

base128_small : (k x : ℕ) → x < 128 → base128 (suc k) x ≡ x ∷ []
unfolding base128
base128_small k x h = ground arith

base128_large : (k x : ℕ) → 128 ≤ x → base128 (suc k) x ≡ (x % 128 + 128) ∷ base128 k (x / 128)
unfolding base128
base128_large k x h = ground arith

-- One round of the loop on a last byte, and on a byte with the top bit set.
read_last :
    (x r m index : ℕ) (rest : List ℕ)
    → x < 128
    → r < 2 ^ m
    → m ≤ 56
    → read_loop (x ∷ rest) index m r ≡ (r + x * 2 ^ m, index)
unfolding read_loop
read_last x r m index rest hx hr hm =
    ground (arith, low_seven x, top_bit x, shifted_fits x m, bit_or_disjoint m r x)

read_inner :
    (g r m index : ℕ) (rest : List ℕ)
    → g < 128
    → r < 2 ^ m
    → m ≤ 56
    → read_loop ((g + 128) ∷ rest) index m r ≡ read_loop rest (index + 1) (m + 7) (r + g * 2 ^ m)
unfolding read_loop
read_inner g r m index rest hg hr hm =
    ground (arith, low_seven (g + 128), top_bit (g + 128), shifted_fits g m, bit_or_disjoint m r g)

below_next : (g r m : ℕ) → g < 128 → r < 2 ^ m → r + g * 2 ^ m < 2 ^ (m + 7)
below_next g r m hg hr = grind (arith, shift_seven)

-- Reading back from what was read so far, `r`, at the shift `m`.
read_loop-base128 :
    (k x r m index : ℕ) (rest : List ℕ)
    → x < 128 ^ suc k
    → r < 2 ^ m
    → m + 7 * suc k ≤ 63
    → read_loop (base128 (suc k) x ++ rest) index m r
      ≡ (r + x * 2 ^ m, index + (length (base128 (suc k) x) - 1))
read_loop-base128 zero x r m index rest hx hr hm =
    rw (base128_small 0 x (omega arith)) (ground (arith, read_last x r m index rest))
read_loop-base128 (suc k) x r m index rest hx hr hm = elim (dec_lt x 128) [
  | yes small ↦ rw (base128_small (suc k) x small) (ground (arith, read_last x r m index rest))
  | no large ↦ rw (base128_large (suc k) x (omega arith)) (
      ground (
        arith,
        read_inner (x % 128) r m index (base128 (suc k) (x / 128) ++ rest),
        below_next (x % 128) r m,
        split_group x m,
        pow-suc 128 (suc k),
        base128-nonempty k (x / 128),
        read_loop-base128 k (x / 128) (r + x % 128 * 2 ^ m) (m + 7) (index + 1) rest,
      ))
]

pub get_base128-base128 :
    (x : ℕ) (before after : List ℕ)
    → x < 2 ^ 63
    → get_base128 (before ++ (base128 9 x ++ after)) (length before)
      ≡ (x, length before + (length (base128 9 x) - 1))
unfolding get_base128
get_base128-base128 x before after h =
    rw (drop-append before (base128 9 x ++ after))
      (ground (arith, read_loop-base128 8 x 0 0 (length before) after))

pub write_base128-base128 :
    (x : ℕ) (bytes : List ℕ) → x < u32 → write_base128 x bytes ≡ bytes ++ base128 9 x
unfolding write_base128
write_base128-base128 x bytes h =
    rw (write_loop-base128 10 x bytes h, base128_more 9 x (omega arith) (omega arith))

-- What `WriteBase128IntToStream` appends for a number below 2^32 is read back by
-- `GetBase128IntegerFromByteStream` from the position where it was written, whatever follows it, and
-- the index is left on the last byte that was written.
pub get_base128-write_base128 :
    (x : ℕ) (bytes after : List ℕ)
    → x < u32
    → get_base128 (write_base128 x bytes ++ after) (length bytes)
      ≡ (x, length (write_base128 x bytes) - 1)
get_base128-write_base128 x bytes after h =
    rw (write_base128-base128 x bytes h, append_assoc bytes (base128 9 x) after)
      (ground (
        arith,
        get_base128-base128 x bytes after,
        length-append bytes (base128 9 x),
        base128-nonempty 8 x,
      ))

-- `WriteBase128IntToStream` tests only the low 32 bits: of every uint64_t whose bits 7 to 31 are clear
-- it writes the low seven bits alone, as if the number were smaller than 128.
write_base128_truncates :
    (x : ℕ) (bytes : List ℕ)
    → x < u64
    → x % u32 < 128
    → write_base128 x bytes ≡ bytes ++ (x % 128 ∷ [])
unfolding write_base128 write_loop
write_base128_truncates x bytes h low = ground (arith, low_seven x, high_bits x)

write_loop_more :
    (k x : ℕ) (bytes : List ℕ)
    → x < 128 ^ k
    → 0 < k
    → write_loop (suc k) x bytes ≡ write_loop k x bytes
unfolding write_loop
write_loop_more zero x bytes h p = elim p [ ]
write_loop_more (suc zero) x bytes h p = ground (arith, low_seven x, high_bits x)
write_loop_more (suc (suc k)) x bytes h p = ground (
  arith,
  pow-suc 128 (suc k),
  write_loop_more (suc k) (x / 2 ^ 7) (bytes ++ (bit_or (bit_and x 0x7f) 0x80 ∷ [])),
)

-- The loop ends within ten rounds on every uint64_t: more rounds change nothing.
pub write_loop_enough :
    (j x : ℕ) (bytes : List ℕ) → x < u64 → write_loop (j + 10) x bytes ≡ write_base128 x bytes
unfolding write_base128
write_loop_enough zero x bytes h = refl
write_loop_enough (suc j) x bytes h =
    rw (suc-add j 10)
      (write_loop_more (j + 10) x bytes (grows j) (omega arith) ∙ write_loop_enough j x bytes h)
  where
    grows : (j : ℕ) → x < 128 ^ (j + 10)
    grows j =
        omega (arith, pow-le-pow_right {n = 128} (omega arith) {i = 10} {j = j + 10} (omega arith))
