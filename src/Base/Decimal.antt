-- ===== src/Base/Decimal.antt =====
-- strconv.ParseUint, ParseInt and the Format functions in base 10.
use cnmsql.Base.Strings.{Text}
use cnmsql.Base.Lists.{All, is_empty}
use cnmsql.Base.Tests.{ltb, leb, ◌==◌, if◌then◌else◌, Bool-cases, le→leb}
use Prim.Native.Nat.{ℕ, zero, suc, ◌+◌, ◌-◌, ◌*◌, ◌/◌, ◌%◌, ◌≤◌, ◌<◌}
use mathlib.Core.Path.{◌≡◌, refl, ◌∙◌}
use mathlib.Core.Logic.{inl, inr}
use mathlib.Core.Bool.{Bool, false, ◌&&◌}
use mathlib.Core.List.{[], ◌∷◌}
use mathlib.Core.Option.{Option, none, some}
use native.Mathlib.Omega.{arith}

abbrev pub is_digit : ℕ → Bool
is_digit c = leb b'0' c && leb c b'9'

-- The number that digits spell behind `n`; `none` at any other character.
number : ℕ → Text → Option ℕ
number n [] = some n
number n (c ∷ s) = let rest = number (n * 10 + (c - b'0')) s in if is_digit c then rest else none

unfoldable pub unsigned : Text → Option ℕ
unfolding number
unsigned [] = none
unsigned (c ∷ s) = number 0 (c ∷ s)

at_most : ℕ → Option ℕ → Option ℕ
at_most bound none = none
at_most bound (some n) = if leb n bound then some n else none

-- `strconv.ParseUint(s, 10, 32)` and `strconv.ParseUint(s, 10, 64)`.
unfoldable pub parse_uint32 : Text → Option ℕ
unfolding at_most unsigned
parse_uint32 s = at_most 4294967295 (unsigned s)

unfoldable pub parse_uint64 : Text → Option ℕ
unfolding at_most unsigned
parse_uint64 s = at_most 18446744073709551615 (unsigned s)

-- The bit pattern of -n.
negate : Option ℕ → Option ℕ
negate none = none
negate (some n) = some ((18446744073709551616 - n) % 18446744073709551616)

-- `strconv.ParseInt(s, 10, 64)`, with the result as a bit pattern.
unfoldable pub parse_int64 : Text → Option ℕ
unfolding at_most unsigned negate
parse_int64 [] = none
parse_int64 (c ∷ s) =
    if c == b'+'
    then at_most 9223372036854775807 (unsigned s)
    else if c == b'-'
    then negate (at_most 9223372036854775808 (unsigned s))
    else at_most 9223372036854775807 (unsigned (c ∷ s))

-- The digits of `n` in front of `out`. The fuel need only pass `n`.
digits : ℕ → ℕ → Text → Text
digits zero n out = out
digits (suc f) n out =
    let more = digits f (n / 10) ((b'0' + n % 10) ∷ out) in
    if ltb n 10 then (b'0' + n) ∷ out else more

-- `strconv.FormatUint(n, 10)`.
unfoldable pub format_uint : ℕ → Text
unfolding digits
format_uint n = digits (suc n) n []

-- `strconv.FormatInt(n, 10)` of a bit pattern.
unfoldable pub format_int64 : ℕ → Text
format_int64 n =
    if leb n 9223372036854775807
    then format_uint n
    else b'-' ∷ format_uint (18446744073709551616 - n)

number-digits : (f n : ℕ) (out : Text) → n < f → number 0 (digits f n out) ≡ number n out
unfolding number digits
number-digits zero n out h = absurd (omega arith)
number-digits (suc f) n out h = elim (Bool-cases (ltb n 10)) [
  | inl e ↦ rw e (ground arith)
  | inr e ↦ rw e (number-digits f (n / 10) ((b'0' + n % 10) ∷ out) (ground arith) ∙ ground arith)
]

-- Only digits are printed.
abbrev pub IsDigits : Text → Type 0
IsDigits = All (λ c. (b'0' ≤ c) × (c ≤ b'9'))

digits-IsDigits : (f n : ℕ) (out : Text) → IsDigits out → IsDigits (digits f n out)
unfolding digits
digits-IsDigits zero n out h = h
digits-IsDigits (suc f) n out h = elim (Bool-cases (ltb n 10)) [
  | inl e ↦ rw e ((ground arith, ground arith), h)
  | inr e ↦ rw e (digits-IsDigits f (n / 10) _ ((omega arith, omega arith), h))
]

digits-occupied : (f n c : ℕ) (out : Text) → is_empty (digits f n (c ∷ out)) ≡ false
unfolding digits
digits-occupied zero n c out = refl
digits-occupied (suc f) n c out =
    ground (arith, digits-occupied f (n / 10) (b'0' + n % 10) (c ∷ out))

pub format_uint-occupied : (n : ℕ) → is_empty (format_uint n) ≡ false
unfolding format_uint digits
format_uint-occupied n = ground (arith, digits-occupied n (n / 10) (b'0' + n % 10) [])

pub format_uint-IsDigits : (n : ℕ) → IsDigits (format_uint n)
unfolding format_uint
format_uint-IsDigits n = digits-IsDigits (suc n) n [] tt

unsigned-number : (s : Text) → is_empty s ≡ false → unsigned s ≡ number 0 s
unfolding unsigned
unsigned-number [] h = cc
unsigned-number (c ∷ s) h = refl

-- The print of a number reads as that number.
pub unsigned-format_uint : (n : ℕ) → unsigned (format_uint n) ≡ some n
unfolding number
unsigned-format_uint n =
    unsigned-number (format_uint n) (format_uint-occupied n)
    ∙ (unfold format_uint in number-digits (suc n) n [] (omega arith))

pub parse_uint64-format_uint :
    (n : ℕ) → n ≤ 18446744073709551615 → parse_uint64 (format_uint n) ≡ some n
unfolding parse_uint64
parse_uint64-format_uint n h = rw unsigned-format_uint (ground arith)

pub parse_uint32-format_uint : (n : ℕ) → n ≤ 4294967295 → parse_uint32 (format_uint n) ≡ some n
unfolding parse_uint32
parse_uint32-format_uint n h = rw unsigned-format_uint (ground arith)

-- Text that begins with a digit carries no sign.
parse_int64-unsigned :
    (s : Text)
    → IsDigits s
    → is_empty s ≡ false
    → parse_int64 s ≡ at_most 9223372036854775807 (unsigned s)
unfolding parse_int64
parse_int64-unsigned [] d h = cc
parse_int64-unsigned (c ∷ s) d h = ground arith

-- A non-negative int64 is read back from its print.
pub parse_int64-format_int64 :
    (n : ℕ) → n ≤ 9223372036854775807 → parse_int64 (format_int64 n) ≡ some n
unfolding format_int64 at_most
parse_int64-format_int64 n h = rw (le→leb n 9223372036854775807 h) (
    parse_int64-unsigned (format_uint n) (format_uint-IsDigits n) (format_uint-occupied n)
    ∙ rw unsigned-format_uint (rw (le→leb n 9223372036854775807 h)))

pub format_int64-IsDigits : (n : ℕ) → n ≤ 9223372036854775807 → IsDigits (format_int64 n)
unfolding format_int64
format_int64-IsDigits n h = rw (le→leb n 9223372036854775807 h) (format_uint-IsDigits n)

at_most-le : (bound : ℕ) (o : Option ℕ) {n : ℕ} → at_most bound o ≡ some n → n ≤ bound
unfolding at_most
at_most-le bound none h = cc
at_most-le bound (some m) h = ground arith

negate-le : (o : Option ℕ) {n : ℕ} → negate o ≡ some n → n ≤ 18446744073709551615
unfolding negate
negate-le none h = cc
negate-le (some m) h = ground arith

-- A parsed int64 is a bit pattern.
pub parse_int64-fits : (s : Text) {n : ℕ} → parse_int64 s ≡ some n → n ≤ 18446744073709551615
unfolding parse_int64
parse_int64-fits [] h = cc
parse_int64-fits (c ∷ s) h = elim (Bool-cases (c == b'+')) [
  | inl e ↦ omega (arith, at_most-le 9223372036854775807 (unsigned s) (rw e at h))
  | inr e ↦ elim (Bool-cases (c == b'-')) [
    | inl f ↦ negate-le (at_most 9223372036854775808 (unsigned s)) (rw (e, f) at h)
    | inr f ↦ omega (arith, at_most-le 9223372036854775807 (unsigned (c ∷ s)) (rw (e, f) at h))
  ]
]

pub parse_uint64-fits : (s : Text) {n : ℕ} → parse_uint64 s ≡ some n → n ≤ 18446744073709551615
unfolding parse_uint64
parse_uint64-fits s h = at_most-le 18446744073709551615 (unsigned s) h
