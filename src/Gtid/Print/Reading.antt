-- ===== src/Gtid/Print/Reading.antt =====
-- One printed range or source is read back.
use cnmsql.Base.{
  ℕ, ◌≡◌, ◌≢◌, refl, ap, ◌∙◌, false, List, [], ◌∷◌, ◌++◌, map, none, some, ◌==◌, Text, insert,
  lookup, text_Eq, text_eq_refl, is_empty, All, All-append, arith, Bool-cases, inl, inr,
}
use cnmsql.Base.Decimal.{format_int64, parse_int64-format_int64, format_int64-IsDigits, IsDigits}
use cnmsql.Base.Split.{split, split-whole, split-append, Lacks}
use cnmsql.Gtid.Interval.{Interval, IsInterval}
use cnmsql.Gtid.Set.{GtidSet, slot}
use cnmsql.Gtid.Set.Meaning.{slot-cons}
use mathlib.Core.List.{append-nil, append_assoc}
use cnmsql.Gtid.Parse.{parse_interval, parse_intervals}
use cnmsql.Gtid.Parse.Ranges.{parse_interval-one, parse_interval-two}
use cnmsql.Gtid.Print.{print_interval, print_intervals}

-- A character of a printed range.
abbrev pub IsRangeChar : ℕ → Type 0
IsRangeChar c = (c ≢ b':') × (c ≢ b',') × (c ≢ b' ') × (c ≢ b'\n') × (c ≢ b'\r') × (c ≢ b'\t')

IsDigits-IsRangeChar : (s : Text) → IsDigits s → All IsRangeChar s
IsDigits-IsRangeChar [] h = tt
IsDigits-IsRangeChar (c ∷ s) h = (omega arith, IsDigits-IsRangeChar s h.1)

IsDigits-Lacks : (s : Text) → IsDigits s → Lacks b'-' s
IsDigits-Lacks [] h = tt
IsDigits-Lacks (c ∷ s) h = (omega arith, IsDigits-Lacks s h.1)

pub print_interval-IsRangeChar :
    (iv : Interval) → IsInterval iv → All IsRangeChar (print_interval iv)
unfolding print_interval
print_interval-IsRangeChar iv h = elim (Bool-cases (iv.start == iv.end)) [
  | inl e ↦ rw e first
  | inr e ↦ rw e (All-append IsRangeChar _ _ first (omega arith, second))
]
  where
    first : All IsRangeChar (format_int64 iv.start)
    first = IsDigits-IsRangeChar _ (format_int64-IsDigits iv.start (omega arith))

    second : All IsRangeChar (format_int64 iv.end)
    second = IsDigits-IsRangeChar _ (format_int64-IsDigits iv.end (omega arith))

insert-last :
    (u : Text) (old new : List Interval) (set : GtidSet)
    → lookup u set ≡ none
    → insert u new (set ++ (u, old) ∷ []) ≡ set ++ (u, new) ∷ []
unfolding insert lookup
insert-last u old new [] h = rw (text_eq_refl u)
insert-last u old new ((v, ivs) ∷ set) h = ground (arith, insert-last u old new set)

pub insert-fresh :
    (u : Text) (new : List Interval) (set : GtidSet)
    → lookup u set ≡ none
    → insert u new set ≡ set ++ (u, new) ∷ []
unfolding insert lookup
insert-fresh u new [] h = refl
insert-fresh u new ((v, ivs) ∷ set) h = ground (arith, insert-fresh u new set)

slot-last :
    (u : Text) (old : List Interval) (set : GtidSet)
    → lookup u set ≡ none
    → slot (set ++ (u, old) ∷ []) u ≡ old
unfolding lookup
slot-last u old [] h = rw (slot-cons u u old [], text_eq_refl u)
slot-last u old ((v, ivs) ∷ set) h =
    ground (arith, slot-cons u v ivs (set ++ (u, old) ∷ []), slot-last u old set)

-- A valid range is read back from its print.
pub parse_interval-print_interval :
    (iv : Interval) → IsInterval iv → parse_interval (print_interval iv) ≡ some iv
unfolding print_interval
parse_interval-print_interval iv h = elim (Bool-cases (iv.start == iv.end)) [
  | inl e ↦ rw e (
      parse_interval-one (format_int64 iv.start) iv dashless h
        (parse_int64-format_int64 iv.start (omega arith)) (ground arith))
  | inr e ↦ rw e (
      parse_interval-two (format_int64 iv.start) (format_int64 iv.end) iv dashless h
        (parse_int64-format_int64 iv.start (omega arith))
        (parse_int64-format_int64 iv.end (omega arith)))
]
  where
    dashless : Lacks b'-' (format_int64 iv.start)
    dashless = IsDigits-Lacks _ (format_int64-IsDigits iv.start (omega arith))

-- A source name that the text format can carry, as every UUID is.
pub record IsSourceName (u : Text) : Type 0 where
  pub named : is_empty u ≡ false
  pub plain : All IsRangeChar u

pub IsRangeChar-colonless : (s : Text) → All IsRangeChar s → Lacks b':' s
IsRangeChar-colonless [] h = tt
IsRangeChar-colonless (c ∷ s) h = (h.0.0, IsRangeChar-colonless s h.1)

-- Splitting a printed source at the colons gives back its name and its ranges.
pub split-print_intervals :
    (t : Text) (ivs : List Interval)
    → Lacks b':' t
    → All IsInterval ivs
    → split b':' (t ++ print_intervals ivs) ≡ t ∷ map print_interval ivs
unfolding print_intervals
split-print_intervals t [] ht h = rw append-nil (split-whole b':' t ht)
split-print_intervals t (iv ∷ ivs) ht h = rw (split-append b':' t _ ht) (
    ap (◌∷◌ t) (
      split-print_intervals (print_interval iv) ivs
        (IsRangeChar-colonless _ (print_interval-IsRangeChar iv h.0)) h.1))

-- Reading the ranges of a source appends them to its entry.
pub parse_intervals-map :
    (u : Text) (ivs old : List Interval) (set : GtidSet)
    → All IsInterval ivs
    → lookup u set ≡ none
    → parse_intervals u (map print_interval ivs) (set ++ (u, old) ∷ [])
      ≡ some (set ++ (u, old ++ ivs) ∷ [])
unfolding parse_intervals
parse_intervals-map u [] old set h f = rw append-nil
parse_intervals-map u (iv ∷ ivs) old set h f =
    rw (parse_interval-print_interval iv h.0, slot-last u old set f, insert-last u old _ set f)
      (parse_intervals-map u ivs (old ++ iv ∷ []) set h.1 f
        ∙ ap (λ x. some (set ++ (u, x) ∷ [])) (append_assoc old (iv ∷ []) ivs))
