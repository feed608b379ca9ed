-- ===== src/Base/Split.antt =====
-- strings.Split, strings.Cut and the removal of white space by strings.Map.
use Prim.Native.Nat.{ℕ, ◌≤◌}
use mathlib.Core.Path.{◌≡◌, refl, ap, ◌∙◌}
use mathlib.Core.Logic.{◌≢◌}
use mathlib.Core.Bool.{Bool, ◌||◌, ◌&&◌}
use mathlib.Core.List.{List, [], ◌∷◌, ◌++◌, append-nil, append_assoc}
use mathlib.Core.Option.{Option, none, some}
use native.Mathlib.Omega.{arith}
use cnmsql.Base.Lists.{All}
use cnmsql.Base.Strings.{Text}
use cnmsql.Base.Tests.{◌==◌, leb, if◌then◌else◌}

push_front : ℕ → List Text → List Text
push_front c [] = (c ∷ []) ∷ []
push_front c (part ∷ parts) = (c ∷ part) ∷ parts

-- `strings.Split(s, sep)` at a separator of one character; there is always a part.
unfoldable pub split : ℕ → Text → List Text
unfolding push_front
split sep [] = [] ∷ []
split sep (c ∷ s) = let rest = split sep s in if c == sep then [] ∷ rest else push_front c rest

cut_from : ℕ → Text → Text → Text × Option Text
cut_from sep seen [] = (seen, none)
cut_from sep seen (c ∷ s) =
    let rest = cut_from sep (seen ++ c ∷ []) s in if c == sep then (seen, some s) else rest

-- `strings.Cut(s, sep)`; the second part is `none` where `found` is false.
unfoldable pub cut : ℕ → Text → Text × Option Text
unfolding cut_from
cut sep s = cut_from sep [] s

is_space : ℕ → Bool
is_space c = c == b' ' || c == b'\n' || c == b'\r' || c == b'\t'

-- The `strings.Map` that drops blanks, tabs and line ends.
unfoldable pub strip_spaces : Text → Text
unfolding is_space
strip_spaces [] = []
strip_spaces (c ∷ s) = let rest = strip_spaces s in if is_space c then rest else c ∷ rest

-- `unicode.IsSpace`.
abbrev is_unicode_space : ℕ → Bool
is_unicode_space c =
    (leb 9 c && leb c 13)
    || c == b' '
    || c == 0x85
    || c == 0xa0
    || c == 0x1680
    || (leb 0x2000 c && leb c 0x200a)
    || c == 0x2028
    || c == 0x2029
    || c == 0x202f
    || c == 0x205f
    || c == 0x3000

trim_left : Text → Text
trim_left [] = []
trim_left (c ∷ s) = let rest = trim_left s in if is_unicode_space c then rest else c ∷ s

join_right : ℕ → Text → Text
join_right c [] = if is_unicode_space c then [] else c ∷ []
join_right c (d ∷ s) = c ∷ d ∷ s

unfoldable pub trim_right : Text → Text
unfolding join_right
trim_right [] = []
trim_right (c ∷ s) = join_right c (trim_right s)

-- `strings.TrimSpace`.
unfoldable pub trim_space : Text → Text
unfolding trim_left trim_right
trim_space s = trim_right (trim_left s)

-- No character of the text is `sep`.
abbrev pub Lacks : ℕ → Text → Type 0
Lacks sep = All (λ c. c ≢ sep)

pub split-whole : (sep : ℕ) (s : Text) → Lacks sep s → split sep s ≡ s ∷ []
unfolding split
split-whole sep [] h = refl
split-whole sep (c ∷ s) h = ground (arith, split-whole sep s)

pub split-append :
    (sep : ℕ) (s rest : Text) → Lacks sep s → split sep (s ++ sep ∷ rest) ≡ s ∷ split sep rest
unfolding split
split-append sep [] rest h = ground arith
split-append sep (c ∷ s) rest h = ground (arith, split-append sep s rest)

cut_from-whole : (sep : ℕ) (seen s : Text) → Lacks sep s → cut_from sep seen s ≡ (seen ++ s, none)
unfolding cut_from
cut_from-whole sep seen [] h = rw append-nil
cut_from-whole sep seen (c ∷ s) h =
    ground (arith, cut_from-whole sep (seen ++ c ∷ []) s, append_assoc seen (c ∷ []) s)

cut_from-append :
    (sep : ℕ) (seen s rest : Text)
    → Lacks sep s
    → cut_from sep seen (s ++ sep ∷ rest) ≡ (seen ++ s, some rest)
unfolding cut_from
cut_from-append sep seen [] rest h = rw append-nil (ground arith)
cut_from-append sep seen (c ∷ s) rest h =
    ground (arith, cut_from-append sep (seen ++ c ∷ []) s rest, append_assoc seen (c ∷ []) s)

pub cut-whole : (sep : ℕ) (s : Text) → Lacks sep s → cut sep s ≡ (s, none)
unfolding cut
cut-whole sep s h = cut_from-whole sep [] s h

pub cut-append :
    (sep : ℕ) (s rest : Text) → Lacks sep s → cut sep (s ++ sep ∷ rest) ≡ (s, some rest)
unfolding cut
cut-append sep s rest h = cut_from-append sep [] s rest h

abbrev pub IsUnspaced : Text → Type 0
IsUnspaced = All (λ c. (c ≢ b' ') × (c ≢ b'\n') × (c ≢ b'\r') × (c ≢ b'\t'))

pub strip_spaces-IsUnspaced : (s : Text) → IsUnspaced s → strip_spaces s ≡ s
unfolding strip_spaces
strip_spaces-IsUnspaced [] h = refl
strip_spaces-IsUnspaced (c ∷ s) h = ground (arith, strip_spaces-IsUnspaced s)

-- The printable characters of ASCII.
abbrev pub IsPrintable : Text → Type 0
IsPrintable = All (λ c. (33 ≤ c) × (c ≤ 126))

join_right-printable : (c : ℕ) (s : Text) → 33 ≤ c → c ≤ 126 → join_right c s ≡ c ∷ s
unfolding join_right
join_right-printable c [] h k = ground arith
join_right-printable c (d ∷ s) h k = refl

trim_right-printable : (s t : Text) → IsPrintable s → trim_right (s ++ t) ≡ s ++ trim_right t
unfolding trim_right
trim_right-printable [] t h = refl
trim_right-printable (c ∷ s) t h =
    rw (trim_right-printable s t h.1) (join_right-printable c (s ++ trim_right t) h.0.0 h.0.1)

trim_left-printable : (c : ℕ) (s : Text) → 33 ≤ c → c ≤ 126 → trim_left (c ∷ s) ≡ c ∷ s
unfolding trim_left
trim_left-printable c s h k = ground arith

-- What TrimSpace leaves of a text that begins with printable characters.
pub trim_space-printable :
    (c : ℕ) (s t : Text) → IsPrintable (c ∷ s) → trim_space (c ∷ s ++ t) ≡ c ∷ s ++ trim_right t
unfolding trim_space
trim_space-printable c s t h =
    ap trim_right (trim_left-printable c (s ++ t) h.0.0 h.0.1) ∙ trim_right-printable (c ∷ s) t h

pub trim_right-dash : (s : Text) → trim_right (b'-' ∷ s) ≡ b'-' ∷ trim_right s
trim_right-dash s = trim_right-printable (b'-' ∷ []) s ((omega arith, omega arith), tt)
