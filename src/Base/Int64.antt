-- ===== src/Base/Int64.antt =====
-- Go's int64, in offset binary: the number `n` stands for the value n - 2^63. So the order of the
-- numbers is the order of the values, and sums wrap round as Go's do.
use Prim.Native.Nat.{ℕ, ◌+◌, ◌-◌, ◌%◌, ◌≤◌, ◌<◌}
use mathlib.Core.Path.{◌≡◌}
use native.Mathlib.Omega.{arith}

abbrev pub Int64 : Type 0
Int64 = ℕ

-- The value 0.
abbrev pub zero_i64 : Int64
zero_i64 = 9223372036854775808

-- The number of values.
abbrev pub modulus : ℕ
modulus = 18446744073709551616

abbrev pub IsInt64 : Int64 → Type 0
IsInt64 n = n < modulus

-- The value of a natural number, in range below 2^63.
abbrev pub i64 : ℕ → Int64
i64 n = n + zero_i64

unfoldable pub add_i64 : Int64 → Int64 → Int64
add_i64 a b = (a + b + zero_i64) % modulus

unfoldable pub sub_i64 : Int64 → Int64 → Int64
sub_i64 a b = (a + modulus + zero_i64 - b) % modulus

pub add_i64-IsInt64 : (a b : Int64) → IsInt64 (add_i64 a b)
unfolding add_i64
add_i64-IsInt64 a b = omega arith

pub sub_i64-IsInt64 : (a b : Int64) → IsInt64 (sub_i64 a b)
unfolding sub_i64
sub_i64-IsInt64 a b = omega arith

-- What is added is taken away again, also across the wrap.
pub sub_i64-add_i64 : (a b : Int64) → IsInt64 a → IsInt64 b → sub_i64 (add_i64 a b) b ≡ a
unfolding add_i64 sub_i64
sub_i64-add_i64 a b h k = omega arith

pub add_i64_exact : (m n : ℕ) → m + n < zero_i64 → add_i64 (i64 m) (i64 n) ≡ i64 (m + n)
unfolding add_i64
add_i64_exact m n h = omega arith

-- A sum of two values from 0 on that passes the largest value is negative.
pub add_i64_wraps :
    (m n : ℕ) → m < zero_i64 → n < zero_i64 → zero_i64 ≤ m + n → add_i64 (i64 m) (i64 n) < zero_i64
unfolding add_i64
add_i64_wraps m n h k l = omega arith
