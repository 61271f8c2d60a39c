-- ===== src/Annotation/Base128.antt =====
-- The base-128 integers of tuningfork/annotation_util.cpp: GetBase128IntegerFromByteStream and
-- WriteBase128IntToStream. A byte is a number below 256, a stream is a list of bytes.
pub mod Laws
use Prim.Native.Nat.{bit_and, bit_or}
use gamesdk.Prelude.{
  ℕ, zero, suc, ◌+◌, ◌-◌, ◌*◌, ◌/◌, ◌%◌, ◌^◌, Bool, true, false, List, [], ◌∷◌, ◌++◌, leb, ◌==◌,
  not, if◌then◌else◌, drop, u64, u32,
}

-- `kStreamError`, which is (uint64_t)-1.
abbrev pub stream_error : ℕ
stream_error = 2 ^ 64 - 1

-- The loop over `bytes[index..)`, given as a list: `m` is the shift and `r` the number so far. The
-- result is the value with the index as the loop leaves it, which is that of the last byte read.
unfoldable pub read_loop : List ℕ → ℕ → ℕ → ℕ → ℕ × ℕ
read_loop [] index m r = (stream_error, index)
read_loop (b ∷ bs) index m r =
    let r' = bit_or r (bit_and b 0x7f * 2 ^ m % u64) in
    let rest = read_loop bs (index + 1) (m + 7) r' in
    if leb m (64 - 7)
    then (if not (bit_and b 0x80 == 0) then rest else (r', index))
    else (stream_error, index)

unfoldable pub get_base128 : List ℕ → ℕ → ℕ × ℕ
unfolding read_loop
get_base128 bytes index = read_loop (drop index bytes) index 0 0

-- The do-while loop. The test `b` is an `int`: only the low 32 bits of the masked number count.
-- The fuel of ten rounds is what a uint64_t can take, seven bits a round.
unfoldable pub write_loop : ℕ → ℕ → List ℕ → List ℕ
write_loop zero x bytes = bytes
write_loop (suc fuel) x bytes =
    let a = bit_and x 0x7f in
    let rest = write_loop fuel (x / 2 ^ 7) (bytes ++ (bit_or a 0x80 ∷ [])) in
    if not (bit_and x 0xffff_ffff_ffff_ff80 % u32 == 0)
    then (if x / 2 ^ 7 == 0 then bytes ++ (bit_or a 0x80 ∷ []) else rest)
    else bytes ++ (a ∷ [])

unfoldable pub write_base128 : ℕ → List ℕ → List ℕ
unfolding write_loop
write_base128 x bytes = write_loop 10 x bytes
