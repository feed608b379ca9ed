-- ===== src/Base/Int64.antt =====
-- Go's int64 as its bit pattern, a number below 2 ^ 64; values from 2 ^ 63 on are negative.
use Prim.Native.Nat.{ℕ, ◌+◌, ◌-◌, ◌%◌, ◌≤◌}
use mathlib.Core.Path.{◌≡◌}
use mathlib.Core.Bool.{Bool, true, false}
use native.Mathlib.Omega.{arith}
use cnmsql.Base.Tests.{ltb, leb, if◌then◌else◌}

-- `math.MaxInt64`.
abbrev pub max_int64 : ℕ
max_int64 = 9223372036854775807

-- The values from 0 to `math.MaxInt64`.
abbrev pub IsNonneg : ℕ → Type 0
IsNonneg a = a ≤ 9223372036854775807

unfoldable pub add64 : ℕ → ℕ → ℕ
add64 a b = (a + b) % 18446744073709551616

unfoldable pub sub64 : ℕ → ℕ → ℕ
sub64 a b = (a + 18446744073709551616 - b) % 18446744073709551616

bias : ℕ → ℕ
bias a = (a + 9223372036854775808) % 18446744073709551616

-- Signed `a < b` and `a <= b`.
unfoldable pub lt64 : ℕ → ℕ → Bool
unfolding bias
lt64 a b = ltb (bias a) (bias b)

unfoldable pub le64 : ℕ → ℕ → Bool
unfolding bias
le64 a b = leb (bias a) (bias b)

unfoldable pub min64 : ℕ → ℕ → ℕ
min64 a b = if lt64 b a then b else a

unfoldable pub max64 : ℕ → ℕ → ℕ
max64 a b = if lt64 a b then b else a

pub lt64-ltb : (a b : ℕ) → IsNonneg a → IsNonneg b → lt64 a b ≡ ltb a b
unfolding lt64
lt64-ltb a b ha hb = ground arith

pub le64-leb : (a b : ℕ) → IsNonneg a → IsNonneg b → le64 a b ≡ leb a b
unfolding le64
le64-leb a b ha hb = ground arith

pub add64-add : (a b : ℕ) → a + b ≤ 18446744073709551615 → add64 a b ≡ a + b
unfolding add64
add64-add a b h = omega arith

pub sub64-sub : (a b : ℕ) → IsNonneg a → b ≤ a → sub64 a b ≡ a - b
unfolding sub64
sub64-sub a b ha h = omega arith

pub lt64_trans : (a b c : ℕ) → lt64 a b ≡ true → lt64 b c ≡ true → lt64 a c ≡ true
unfolding lt64
lt64_trans a b c h k = ground arith

pub lt64_irrefl : (a : ℕ) → lt64 a a ≡ false
unfolding lt64
lt64_irrefl a = ground arith

-- The two tests of a range that is positive and not empty.
pub lt64_positive : (a : ℕ) → a ≤ 18446744073709551615 → lt64 a 1 ≡ false → (1 ≤ a) × IsNonneg a
unfolding lt64
lt64_positive a h p = ground arith

pub lt64_ordered :
    (a b : ℕ) → IsNonneg a → b ≤ 18446744073709551615 → lt64 b a ≡ false → (a ≤ b) × IsNonneg b
unfolding lt64
lt64_ordered a b ha hb p = ground arith
