-- ===== src/Gtid/Parse.antt =====
-- ParseGTIDSet and parseInterval of pkg/management/mysql/replication/gtid.go. An error is `none`.
pub mod Ranges
pub mod Sound
use cnmsql.Base.{
  ℕ, Bool, true, false, ◌||◌, List, [], ◌∷◌, ◌++◌, Option, none, some, if◌then◌else◌, Text,
  to_lower, insert, text_Eq, is_empty, ◌≡◌,
}
use cnmsql.Base.Decimal.{parse_int64}
use cnmsql.Base.Int64.{lt64}
use cnmsql.Base.Split.{split, cut, strip_spaces}
use cnmsql.Gtid.Interval.{Interval, normalize_intervals}
use cnmsql.Gtid.Set.{GtidSet, slot}

infixl 5 ◌>>=◌
abbrev pub ◌>>=◌ {ℓ κ} : {A : Type ℓ} {B : Type κ} → Option A → (A → Option B) → Option B
none >>= f = none
some a >>= f = f a

-- The check at the end of `parseInterval`.
checked : ℕ → ℕ → Option Interval
checked start end =
    if lt64 start 1 || lt64 end start then none else some (record { start = start; end = end })

parse_ends : Text × Option Text → Option Interval
unfolding checked
parse_ends (lo, none) = do start ← parse_int64 lo; checked start start
parse_ends (lo, some hi) = do start ← parse_int64 lo; end ← parse_int64 hi; checked start end

unfoldable pub parse_interval : Text → Option Interval
unfolding parse_ends
parse_interval s = parse_ends (cut b'-' s)

-- The loop over the intervals of one source.
unfoldable pub parse_intervals : Text → List Text → GtidSet → Option GtidSet
parse_intervals uuid [] set = some set
parse_intervals uuid (part ∷ parts) set = do
  iv ← parse_interval part
  parse_intervals uuid parts (insert uuid (slot set uuid ++ iv ∷ []) set)

unfoldable pub parse_source : List Text → GtidSet → Option GtidSet
unfolding parse_intervals
parse_source [] set = none
parse_source (uuid ∷ []) set = none
parse_source (uuid ∷ part ∷ parts) set =
    if is_empty (to_lower uuid) then none else parse_intervals (to_lower uuid) (part ∷ parts) set

unfoldable pub parse_sources : List Text → GtidSet → Option GtidSet
unfolding parse_source
parse_sources [] set = some set
parse_sources (source ∷ sources) set = do
  set' ← parse_source (split b':' source) set
  parse_sources sources set'

unfoldable pub normalize_all : GtidSet → GtidSet
normalize_all [] = []
normalize_all ((uuid, ivs) ∷ set) = (uuid, normalize_intervals ivs) ∷ normalize_all set

unfoldable pub parse_cleaned : Text → Option GtidSet
unfolding parse_sources normalize_all
parse_cleaned [] = some []
parse_cleaned (c ∷ s) = do set ← parse_sources (split b',' (c ∷ s)) []; some (normalize_all set)

unfoldable pub parse_gtid_set : Text → Option GtidSet
unfolding parse_cleaned
parse_gtid_set raw = parse_cleaned (strip_spaces raw)
