-- ===== src/Gtid/Print.antt =====
-- String of GTIDSet in pkg/management/mysql/replication/gtid.go.
pub mod Reading
pub mod RoundTrip
pub mod Sources
use cnmsql.Base.{ℕ, Bool, List, [], ◌∷◌, ◌++◌, if◌then◌else◌, ◌==◌, Text, text_lt, sort, is_empty}
use cnmsql.Base.Decimal.{format_int64}
use cnmsql.Gtid.Interval.{Interval}
use cnmsql.Gtid.Set.{GtidSet, slot}

pub print_interval : Interval → Text
print_interval iv =
    if iv.start == iv.end
    then format_int64 iv.start
    else format_int64 iv.start ++ b'-' ∷ format_int64 iv.end

pub print_intervals : List Interval → Text
unfolding print_interval
print_intervals [] = []
print_intervals (iv ∷ ivs) = b':' ∷ (print_interval iv ++ print_intervals ivs)

-- The sources that have a range.
pub occupied_sources : GtidSet → List Text
occupied_sources [] = []
occupied_sources ((uuid, ivs) ∷ s) =
    if is_empty ivs then occupied_sources s else uuid ∷ occupied_sources s

pub print_source : GtidSet → Text → Text
unfolding print_intervals
print_source s uuid = uuid ++ print_intervals (slot s uuid)

pub print_sources : GtidSet → List Text → Text
unfolding print_source
print_sources s [] = []
print_sources s (uuid ∷ []) = print_source s uuid
print_sources s (uuid ∷ v ∷ uuids) = print_source s uuid ++ b',' ∷ print_sources s (v ∷ uuids)

unfoldable pub print_gtid_set : GtidSet → Text
unfolding print_sources occupied_sources
print_gtid_set s = print_sources s (sort text_lt (occupied_sources s))
