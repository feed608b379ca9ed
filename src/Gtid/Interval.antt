-- ===== src/Gtid/Interval.antt =====
-- Ranges of transaction numbers: GTIDInterval, normalizeIntervals, intervalsCover, uncoveredBy and
-- minus of pkg/management/mysql/replication/gtid.go. Numbers are int64.
pub mod Cover
pub mod Minus
pub mod Remainder
pub mod Count
pub mod Normal
use cnmsql.Base.{
  ℕ, ◌+◌, ◌-◌, ◌≤◌, ◌<◌, Bool, true, false, ◌&&◌, ◌||◌, List, [], ◌∷◌, ◌++◌, ltb, leb, ◌==◌,
  if◌then◌else◌, any, All, sort,
}
use cnmsql.Base.Int64.{max_int64, add64, sub64, lt64, le64, min64, max64}

-- An inclusive range.
pub record Interval : Type 0 where
  pub start : ℕ
  pub end : ℕ

starts_before : Interval → Interval → Bool
starts_before a b = lt64 a.start b.start

-- `iv` overlaps `last` or follows on it. A successor of `math.MaxInt64` is never computed.
touches : Interval → Interval → Bool
touches last iv = last.end == max_int64 || le64 iv.start (add64 last.end 1)

absorb : Interval → Interval → Interval
absorb last iv = record last { end = if lt64 last.end iv.end then iv.end else last.end }

-- The loop of `normalizeIntervals`: `last` is the last element of `out`.
coalesce : Interval → List Interval → List Interval
coalesce last [] = last ∷ []
coalesce last (iv ∷ ivs) = elim (touches last iv) [
  | true ↦ coalesce (absorb last iv) ivs
  | false ↦ last ∷ coalesce iv ivs
]

coalesce_sorted : List Interval → List Interval
coalesce_sorted [] = []
coalesce_sorted (iv ∷ ivs) = coalesce iv ivs

-- A list of one element or none is returned as it is.
unfoldable pub normalize_intervals : List Interval → List Interval
unfolding starts_before touches absorb coalesce coalesce_sorted
normalize_intervals [] = []
normalize_intervals (iv ∷ []) = iv ∷ []
normalize_intervals (a ∷ b ∷ ivs) = coalesce_sorted (sort starts_before (a ∷ b ∷ ivs))

-- One interval of `mine` covers all of `iv`.
unfoldable pub intervals_cover : List Interval → Interval → Bool
intervals_cover [] iv = false
intervals_cover (m ∷ mine) iv =
    if le64 m.start iv.start && le64 iv.end m.end then true else intervals_cover mine iv

-- The loop of `uncoveredBy`; `continue` and `break` are its first two branches.
pub uncovered_loop : Interval → ℕ → List Interval → ℕ
uncovered_loop iv remaining [] = remaining
uncovered_loop iv remaining (m ∷ mine) =
    let skip = uncovered_loop iv remaining mine in
    let next =
      uncovered_loop iv
        (sub64 remaining (add64 (sub64 (min64 m.end iv.end) (max64 m.start iv.start)) 1)) mine in
    if lt64 m.end iv.start then skip else if lt64 iv.end m.start then remaining else next

pub uncovered_by : Interval → List Interval → ℕ
unfolding uncovered_loop
uncovered_by iv mine =
    let remaining = add64 (sub64 iv.end iv.start) 1 in
    if le64 remaining 0 then 0 else max64 (uncovered_loop iv remaining mine) 0

-- What the loop of `minus` appends for the numbers from `start` to the next range, if any.
pub before : ℕ → Interval → List Interval
before start m =
    if lt64 start m.start then record { start = start; end = sub64 m.start 1 } ∷ [] else []

-- The loop of `minus`, with the values that it appends to `out`.
pub minus_loop : Interval → ℕ → List Interval → List Interval
minus_loop iv start [] = record { start = start; end = iv.end } ∷ []
minus_loop iv start (m ∷ sub) =
    let skip = minus_loop iv start sub in
    let next = minus_loop iv (add64 m.end 1) sub in
    if lt64 m.end start
    then skip
    else if lt64 iv.end m.start
    then record { start = start; end = iv.end } ∷ []
    else before start m ++ (if le64 iv.end m.end then [] else next)

-- The parts of `iv` that no interval of `sub` covers.
unfoldable pub minus : Interval → List Interval → List Interval
unfolding minus_loop before
minus iv sub = minus_loop iv iv.start sub

-- The loop of `Difference` over the ranges of one source.
unfoldable pub minus_all : List Interval → List Interval → List Interval
minus_all [] sub = []
minus_all (iv ∷ ivs) sub = minus iv sub ++ minus_all ivs sub

-- What an interval and a list of them mean: the numbers that they hold.
abbrev pub covers : ℕ → Interval → Bool
covers n iv = leb iv.start n && leb n iv.end

abbrev pub member : ℕ → List Interval → Bool
member n = any (covers n)

-- A range that `parseInterval` lets through: positive, not empty, in int64.
pub record IsInterval (iv : Interval) : Type 0 where
  pub positive : 1 ≤ iv.start
  pub ordered : iv.start ≤ iv.end
  pub fits : iv.end ≤ max_int64

-- The first range starts past `e`, and does not touch a range that ends there.
abbrev pub IsApart : ℕ → List Interval → Type 0
IsApart e [] = Unit
IsApart e (iv ∷ ivs) = e + 1 < iv.start

-- Valid ranges in order, none touching the next: what `normalizeIntervals` establishes.
abbrev pub IsNormal : List Interval → Type 0
IsNormal [] = Unit
IsNormal (iv ∷ ivs) = IsInterval iv × IsApart iv.end ivs × IsNormal ivs

-- How many numbers a list of disjoint ranges holds.
abbrev pub size : List Interval → ℕ
size [] = 0
size (iv ∷ ivs) = iv.end + 1 - iv.start + size ivs

-- No range reaches past `e`.
abbrev pub EndsBy : ℕ → List Interval → Type 0
EndsBy e = All (λ iv. iv.end ≤ e)
