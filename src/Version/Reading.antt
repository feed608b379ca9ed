-- ===== src/Version/Reading.antt =====
-- Parse of printed versions: pkg/management/mysql/version/version.go.
use cnmsql.Base.{
  ℕ, ◌≤◌, ◌≡◌, ◌⊎◌, inl, inr, refl, ◌∙◌, false, [], ◌∷◌, ◌++◌, some, Text, codes, is_empty, All,
  All-append, arith,
}
use cnmsql.Base.Int64.{IsNonneg}
use cnmsql.Base.Decimal.{format_int64, parse_int64-format_int64, format_int64-IsDigits, IsDigits}
use cnmsql.Base.Split.{
  split, cut, cut-whole, cut-append, split-whole, split-append, Lacks, trim_space, trim_right,
  trim_space-printable, trim_right-dash, IsPrintable,
}
use mathlib.Core.List.{append-nil}
use cnmsql.Version.{parse, trim_v, read_trimmed, read_parts}

-- The text of a version, as MySQL reports it.
abbrev pub version_text : ℕ → ℕ → ℕ → Text
version_text major minor patch =
    format_int64 major ++ b'.' ∷ (format_int64 minor ++ b'.' ∷ format_int64 patch)

-- A vendor's suffix, if any, begins with a dash.
abbrev pub IsVendorSuffix : Text → Type 0
IsVendorSuffix [] = Unit
IsVendorSuffix (c ∷ s) = c ≡ b'-'

-- Digits and dots.
abbrev IsVersionText : Text → Type 0
IsVersionText = All (λ c. (46 ≤ c) × (c ≤ 57))

IsDigits-IsVersionText : (s : Text) → IsDigits s → IsVersionText s
IsDigits-IsVersionText [] h = tt
IsDigits-IsVersionText (c ∷ s) h = (omega arith, IsDigits-IsVersionText s h.1)

format_int64-IsVersionText : (n : ℕ) → IsNonneg n → IsVersionText (format_int64 n)
format_int64-IsVersionText n h = IsDigits-IsVersionText _ (format_int64-IsDigits n h)

version_text-IsVersionText :
    (a b c : ℕ) → IsNonneg a → IsNonneg b → IsNonneg c → IsVersionText (version_text a b c)
version_text-IsVersionText a b c ha hb hc =
    All-append _ (format_int64 a) _ (format_int64-IsVersionText a ha) (
      omega arith,
      All-append _ (format_int64 b) _ (format_int64-IsVersionText b hb)
          (omega arith, format_int64-IsVersionText c hc),
    )

IsDigits-dotless : (s : Text) → IsDigits s → Lacks b'.' s
IsDigits-dotless [] h = tt
IsDigits-dotless (c ∷ s) h = (omega arith, IsDigits-dotless s h.1)

IsVersionText-dashless : (s : Text) → IsVersionText s → Lacks b'-' s
IsVersionText-dashless [] h = tt
IsVersionText-dashless (c ∷ s) h = (omega arith, IsVersionText-dashless s h.1)

IsVersionText-IsPrintable : (s : Text) → IsVersionText s → IsPrintable s
IsVersionText-IsPrintable [] h = tt
IsVersionText-IsPrintable (c ∷ s) h = (omega arith, IsVersionText-IsPrintable s h.1)

split-version_text :
    (a b c : ℕ)
    → IsNonneg a
    → IsNonneg b
    → IsNonneg c
    → split b'.' (version_text a b c) ≡ format_int64 a ∷ format_int64 b ∷ format_int64 c ∷ []
split-version_text a b c ha hb hc = rw (
  split-append b'.' (format_int64 a) _ (dotless a ha),
  split-append b'.' (format_int64 b) _ (dotless b hb),
  split-whole b'.' (format_int64 c) (dotless c hc),
)
  where
    dotless : (n : ℕ) → IsNonneg n → Lacks b'.' (format_int64 n)
    dotless n h = IsDigits-dotless _ (format_int64-IsDigits n h)

read_parts-version_text :
    (a b c : ℕ)
    → IsNonneg a
    → IsNonneg b
    → IsNonneg c
    → read_parts (split b'.' (version_text a b c))
      ≡ some (record { major = a; minor = b; patch = c })
unfolding read_parts
read_parts-version_text a b c ha hb hc = rw (
  split-version_text a b c ha hb hc,
  parse_int64-format_int64 a ha,
  parse_int64-format_int64 b hb,
  parse_int64-format_int64 c hc,
)

-- The dash and what follows is cut off.
cut-suffix :
    (s suffix : Text) → IsVersionText s → IsVendorSuffix suffix → (cut b'-' (s ++ suffix)).0 ≡ s
cut-suffix s [] h v = rw (append-nil s, cut-whole b'-' s (IsVersionText-dashless s h))
cut-suffix s (c ∷ rest) h v = rw (v, cut-append b'-' s rest (IsVersionText-dashless s h))

trim_right-IsVendorSuffix : (s : Text) → IsVendorSuffix s → IsVendorSuffix (trim_right s)
unfolding trim_right
trim_right-IsVendorSuffix [] h = tt
trim_right-IsVendorSuffix (c ∷ s) h = rw (h, trim_right-dash s) refl

read_trimmed-split :
    (s suffix : Text)
    → is_empty s ≡ false
    → IsVersionText s
    → IsVendorSuffix suffix
    → read_trimmed (s ++ suffix) ≡ read_parts (split b'.' s)
unfolding read_trimmed
read_trimmed-split [] suffix o h v = cc
read_trimmed-split (c ∷ s) suffix o h v = rw (cut-suffix (c ∷ s) suffix h v)

trim_v-v : (s : Text) → trim_v (b'v' ∷ s) ≡ s
unfolding trim_v
trim_v-v s = refl

trim_v-IsVersionText :
    (s t : Text) → is_empty s ≡ false → IsVersionText s → trim_v (s ++ t) ≡ s ++ t
unfolding trim_v
trim_v-IsVersionText [] t o h = cc
trim_v-IsVersionText (c ∷ s) t o h = ground arith

trim_space-version :
    (s t : Text) → is_empty s ≡ false → IsPrintable s → trim_space (s ++ t) ≡ s ++ trim_right t
trim_space-version [] t o h = cc
trim_space-version (c ∷ s) t o h = trim_space-printable c s t h

-- Parse looks at the part between the optional v and the dash.
parse-split :
    (prefix s suffix : Text)
    → (prefix ≡ []) ⊎ (prefix ≡ codes "v")
    → is_empty s ≡ false
    → IsVersionText s
    → IsVendorSuffix suffix
    → parse (prefix ++ s ++ suffix) ≡ read_parts (split b'.' s)
unfolding parse
parse-split prefix s suffix (inl p) o h v = rw p (
    rw (
      trim_space-version s suffix o (IsVersionText-IsPrintable s h),
      trim_v-IsVersionText s (trim_right suffix) o h,
      read_trimmed-split s (trim_right suffix) o h (trim_right-IsVendorSuffix suffix v),
    ))
parse-split prefix s suffix (inr p) o h v = rw p (
    rw (
      trim_space-printable b'v' s suffix
          ((omega arith, omega arith), IsVersionText-IsPrintable s h),
      trim_v-v (s ++ trim_right suffix),
      read_trimmed-split s (trim_right suffix) o h (trim_right-IsVendorSuffix suffix v),
    ))

-- A version a.b.c is read as its three numbers, also behind a v and before a vendor's suffix, which begins
-- with a dash.
pub parse-version_text :
    (prefix suffix : Text) (a b c : ℕ)
    → (prefix ≡ []) ⊎ (prefix ≡ codes "v")
    → IsVendorSuffix suffix
    → IsNonneg a
    → IsNonneg b
    → IsNonneg c
    → parse (prefix ++ version_text a b c ++ suffix)
      ≡ some (record { major = a; minor = b; patch = c })
parse-version_text prefix suffix a b c p v ha hb hc =
    parse-split prefix (version_text a b c) suffix p (occupied (format_int64 a) _)
      (version_text-IsVersionText a b c ha hb hc) v
    ∙ read_parts-version_text a b c ha hb hc
  where
    occupied : (s t : Text) → is_empty (s ++ b'.' ∷ t) ≡ false
    occupied [] t = refl
    occupied (d ∷ s) t = refl
