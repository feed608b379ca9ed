-- ===== src/Gtid/Set.antt =====
-- GTIDSet of pkg/management/mysql/replication/gtid.go: a map from source UUID to ranges.
pub mod Meaning
pub mod Missing
pub mod Merge
pub mod Containment
pub mod Gaps
pub mod Holes
use cnmsql.Base.{
  ℕ, ◌+◌, ◌-◌, ◌≤◌, ◌≡◌, ◌≢◌, Bool, true, false, not, ◌&&◌, ◌||◌, List, [], ◌∷◌, ◌++◌, Option, none,
  some, ltb, leb, if◌then◌else◌, All, Text, to_lower, lookup, insert, HasDistinctKeys, text_Eq,
  is_empty,
}
use cnmsql.Base.Int64.{max_int64, add64, sub64, lt64}
use cnmsql.Gtid.Interval.{
  Interval, normalize_intervals, intervals_cover, uncovered_by, minus_all, member, IsNormal,
}

abbrev pub GtidSet : Type 0
GtidSet = List (Text × List Interval)

-- `s[uuid]`, which is nil for a key that is not there.
unfoldable pub slot : GtidSet → Text → List Interval
slot s uuid = elim (lookup uuid s) [ none ↦ [] | some ivs ↦ ivs ]

-- `IsEmpty`.
unfoldable pub has_no_transactions : GtidSet → Bool
has_no_transactions [] = true
has_no_transactions ((uuid, ivs) ∷ s) = is_empty ivs && has_no_transactions s

cover_all : List Interval → List Interval → Bool
cover_all mine [] = true
cover_all mine (iv ∷ ivs) = intervals_cover mine iv && cover_all mine ivs

-- A source that `s` lacks ends the loop with the answer for that source alone.
unfoldable pub contains : GtidSet → GtidSet → Bool
unfolding cover_all
contains s [] = true
contains s ((uuid, ivs) ∷ other) =
    let rest = contains s other in
    elim (lookup uuid s) [
      | none ↦ is_empty ivs
      | some mine ↦ if cover_all mine ivs then rest else false
    ]

pub equal : GtidSet → GtidSet → Bool
equal s other = contains s other && contains other s

-- The inner loop of `MissingCount`; `none` is its early return of `math.MaxInt64`.
add_missing : List Interval → List Interval → ℕ → Option ℕ
add_missing mine [] missing = some missing
add_missing mine (iv ∷ ivs) missing =
    let n = uncovered_by iv mine in
    let rest = add_missing mine ivs (add64 missing n) in
    if lt64 (sub64 max_int64 n) missing then none else rest

missing_loop : GtidSet → GtidSet → ℕ → ℕ
unfolding add_missing
missing_loop s [] missing = missing
missing_loop s ((uuid, ivs) ∷ other) missing = elim (add_missing (slot s uuid) ivs missing) [
  | none ↦ max_int64
  | some missing' ↦ missing_loop s other missing'
]

pub missing_count : GtidSet → GtidSet → ℕ
unfolding missing_loop
missing_count s other = missing_loop s other 0

unfoldable pub add_interval : GtidSet → Text → Interval → GtidSet
add_interval s uuid iv =
    let uuid' = to_lower uuid in insert uuid' (normalize_intervals (slot s uuid' ++ iv ∷ [])) s

add_intervals : GtidSet → Text → List Interval → GtidSet
add_intervals s uuid [] = s
add_intervals s uuid (iv ∷ ivs) = add_intervals (add_interval s uuid iv) uuid ivs

unfoldable pub union : GtidSet → GtidSet → GtidSet
unfolding add_intervals
union s [] = s
union s ((uuid, ivs) ∷ other) = union (add_intervals s uuid ivs) other

difference_loop : GtidSet → GtidSet → GtidSet → GtidSet
difference_loop [] other out = out
difference_loop ((uuid, ivs) ∷ s) other out =
    let kept = minus_all ivs (slot other uuid) in
    difference_loop s other (if is_empty kept then out else insert uuid kept out)

unfoldable pub difference : GtidSet → GtidSet → GtidSet
unfolding difference_loop
difference s other = difference_loop s other []

pub intersect : GtidSet → GtidSet → GtidSet
intersect s other = difference s (difference s other)

-- The gaps between neighbouring ranges.
pub gaps : List Interval → List Interval
gaps [] = []
gaps (a ∷ []) = []
gaps (a ∷ b ∷ ivs) = record { start = add64 a.end 1; end = sub64 b.start 1 } ∷ gaps (b ∷ ivs)

-- A source with one range has no key in the result, since nothing is appended to it.
pub holes_loop : GtidSet → GtidSet → GtidSet
unfolding gaps
holes_loop [] out = out
holes_loop ((uuid, ivs) ∷ s) out =
    let found = gaps ivs in
    holes_loop s (if is_empty found then out else insert uuid (slot out uuid ++ found) out)

unfoldable pub holes : GtidSet → GtidSet
unfolding holes_loop
holes s = holes_loop s []

-- Transaction `n` of source `uuid` is in the set.
abbrev pub holds : GtidSet → Text → ℕ → Bool
holds s uuid n = member n (slot s uuid)

-- What `ParseGTIDSet` establishes and every operation keeps: lower-case sources, each with one entry
-- of normal ranges, and no source without a range.
pub record IsEntry (entry : Text × List Interval) : Type 0 where
  pub lowered : to_lower entry.0 ≡ entry.0
  pub normal : IsNormal entry.1
  pub occupied : is_empty entry.1 ≡ false

pub record IsGtidSet (s : GtidSet) : Type 0 where
  pub distinct : HasDistinctKeys s
  pub entries : All IsEntry s
