-- ===== src/Prelude/Int.antt =====
-- Signed integers over the native numbers, and Go's `int32`.
use Prim.Native.Nat.{ℕ, suc, ◌+◌, ◌-◌, ◌*◌, ◌/◌, ◌%◌, ◌<◌}
use mathlib.Core.Path.{◌≡◌}
use mathlib.Core.Bool.{Bool}
use native.Mathlib.Omega.{arith}
use kubesim.Prelude.Tests.{ltb, leb, ◌==◌, if◌then◌else◌}

-- `negsuc n` is -(n + 1).
pub data ℤ : Type 0 where
  pos : ℕ → ℤ
  negsuc : ℕ → ℤ

abbrev pub pos_part : ℤ → ℕ
pos_part (pos n) = n
pos_part (negsuc n) = 0

abbrev pub neg_part : ℤ → ℕ
neg_part (pos n) = 0
neg_part (negsuc n) = suc n

-- a - b, as an integer.
abbrev pub sub_ℕ : ℕ → ℕ → ℤ
sub_ℕ a b = if leb b a then pos (a - b) else negsuc (b - a - 1)

abbrev pub ltb_ℤ : ℤ → ℤ → Bool
ltb_ℤ a b = ltb (pos_part a + neg_part b) (pos_part b + neg_part a)

abbrev pub leb_ℤ : ℤ → ℤ → Bool
leb_ℤ a b = leb (pos_part a + neg_part b) (pos_part b + neg_part a)

-- a + b, and a / 2 towards zero, where nothing wraps.
abbrev pub plus_ℤ : ℤ → ℤ → ℤ
plus_ℤ a b = sub_ℕ (pos_part a + pos_part b) (neg_part a + neg_part b)

abbrev pub half_ℤ : ℤ → ℤ
half_ℤ (pos n) = pos (n / 2)
half_ℤ (negsuc n) = sub_ℕ 0 (suc n / 2)

abbrev pub eq_ℤ : ℤ → ℤ → Bool
eq_ℤ a b = pos_part a + neg_part b == pos_part b + neg_part a

-- The signed reading of a residue modulo `m`, where `half` is the first negative pattern.
abbrev signed : ℕ → ℕ → ℕ → ℤ
signed half m r = if ltb r half then pos r else negsuc (m - r - 1)

-- Go's `int32` and `int64` arithmetic wraps.
unfoldable pub wrap32 : ℤ → ℤ
wrap32 (pos n) = signed 2147483648 4294967296 (n % 4294967296)
wrap32 (negsuc n) = signed 2147483648 4294967296 (4294967295 - n % 4294967296)

unfoldable pub wrap64 : ℤ → ℤ
wrap64 (pos n) = signed 9223372036854775808 18446744073709551616 (n % 18446744073709551616)
wrap64 (negsuc n) =
    signed 9223372036854775808 18446744073709551616
      (18446744073709551615 - n % 18446744073709551616)

unfoldable pub inc32 : ℤ → ℤ
unfolding wrap32
inc32 v = wrap32 (sub_ℕ (pos_part v + 1) (neg_part v))

unfoldable pub sub32 : ℤ → ℤ → ℤ
unfolding wrap32
sub32 v w = wrap32 (sub_ℕ (pos_part v + neg_part w) (neg_part v + pos_part w))

unfoldable pub add64 : ℤ → ℤ → ℤ
unfolding wrap64
add64 v w = wrap64 (sub_ℕ (pos_part v + pos_part w) (neg_part v + neg_part w))

-- `v * k` for a positive constant `k`.
unfoldable pub mul64 : ℤ → ℕ → ℤ
unfolding wrap64
mul64 v k = wrap64 (sub_ℕ (pos_part v * k) (neg_part v * k))

-- Below 2^31 nothing wraps.
pub wrap32-pos : (n : ℕ) → n < 2147483648 → wrap32 (pos n) ≡ pos n
unfolding wrap32
wrap32-pos n h = ground arith

pub inc32-pos : (n : ℕ) → n + 1 < 2147483648 → inc32 (pos n) ≡ pos (n + 1)
unfolding inc32
inc32-pos n h = ground arith
