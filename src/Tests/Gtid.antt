-- ===== src/Tests/Gtid.antt =====
-- GTID sets: pkg/management/mysql/replication/gtid.go and pkg/engine/gtid_mysql.go.
use cnmsql.Base.{
  ℕ, ◌≡◌, ◌↔◌, refl, true, not, ◌&&◌, ◌||◌, [], ◌∷◌, some, Text, codes, min, to_lower, sort, insert,
  lookup, text_eq, text_Eq, arith,
}
use cnmsql.Base.Int64.{max_int64, lt64, le64, add64}
use cnmsql.Base.Split.{split, strip_spaces, cut}
use cnmsql.Base.Decimal.{parse_int64}
use cnmsql.Gtid.Interval.{Interval, normalize_intervals}
use cnmsql.Gtid.Set.{GtidSet, slot, holds, difference, intersect, union, contains, equal, IsGtidSet}
use cnmsql.Gtid.Parse.{parse_gtid_set, parse_interval}
use cnmsql.Gtid.Parse.Sound.{parse_gtid_set-IsGtidSet}
use cnmsql.Gtid.Set.Meaning.{holds-difference}
use cnmsql.Gtid.Set
use cnmsql.Gtid.Set.Containment.{IsIncluded, contains_iff}
use cnmsql.Gtid.Set.Merge.{holds-union}
use cnmsql.Gtid.Set.Missing.{total, missing_count-total}
use cnmsql.Gtid.Print.{print_gtid_set}
use cnmsql.Gtid.Print.RoundTrip.{HasSourceNames, parse-print_gtid_set}
use cnmsql.Engine.{Ordering}
use cnmsql.Engine.Mysql.{compare}
use cnmsql.Engine.Mysql.Meaning.{Relates, compare-Relates}

abbrev range : ℕ → ℕ → Interval
range a b = record { start = a; end = b }

abbrev left_text : Text
left_text = codes "A:1-5:8, b:7"

abbrev right_text : Text
right_text = codes "a:4-9,c:1"

abbrev left : GtidSet
left = (codes "a", range 1 5 ∷ range 8 8 ∷ []) ∷ (codes "b", range 7 7 ∷ []) ∷ []

abbrev right : GtidSet
right = (codes "a", range 4 9 ∷ []) ∷ (codes "c", range 1 1 ∷ []) ∷ []

left_parsed : parse_gtid_set left_text ≡ some left
unfolding parse_gtid_set strip_spaces split to_lower parse_interval cut parse_int64 lt64 le64 add64
    insert lookup text_eq normalize_intervals slot sort
left_parsed = refl

right_parsed : parse_gtid_set right_text ≡ some right
unfolding parse_gtid_set strip_spaces split to_lower parse_interval cut parse_int64 lt64 le64 add64
    insert lookup text_eq normalize_intervals slot
right_parsed = refl

left-IsGtidSet : IsGtidSet left
left-IsGtidSet = parse_gtid_set-IsGtidSet left_text left_parsed

right-IsGtidSet : IsGtidSet right
right-IsGtidSet = parse_gtid_set-IsGtidSet right_text right_parsed

parse_gtid_set-IsGtidSet_example : IsGtidSet left
parse_gtid_set-IsGtidSet_example = parse_gtid_set-IsGtidSet left_text left_parsed

left-HasSourceNames : HasSourceNames left
left-HasSourceNames = (
  record { named = refl; plain = (ground arith, tt) },
  (record { named = refl; plain = (ground arith, tt) }, tt),
)

parse-print_gtid_set_example :
    (t : GtidSet) × (parse_gtid_set (print_gtid_set left) ≡ some t)
    × ((u : Text) (n : ℕ) → holds t u n ≡ holds left u n)
parse-print_gtid_set_example = parse-print_gtid_set left left-IsGtidSet left-HasSourceNames

holds-difference_example :
    holds (difference left right) (codes "a") 3
    ≡ (holds left (codes "a") 3 && not (holds right (codes "a") 3))
holds-difference_example = holds-difference left right (codes "a") 3 left-IsGtidSet right-IsGtidSet

holds-union_example :
    holds (union left right) (codes "c") 1 ≡ (holds left (codes "c") 1 || holds right (codes "c") 1)
holds-union_example = holds-union left right (codes "c") 1 left-IsGtidSet right-IsGtidSet

contains_iff_example : (contains left right ≡ true) ↔ IsIncluded right left
contains_iff_example = contains_iff left right left-IsGtidSet right-IsGtidSet

missing_count-total_example :
    Set.missing_count left right ≡ min max_int64 (total (difference right left))
missing_count-total_example = missing_count-total left right left-IsGtidSet right-IsGtidSet

compare-Relates_example :
    (o : Ordering) × (compare left_text right_text ≡ some o) × Relates o left right
compare-Relates_example = compare-Relates left_text right_text left_parsed right_parsed
