-- ===== src/Failover/Order.antt =====
-- The order in which candidates are tried: orderByPreference, orderByArchiveContinuity and
-- archiveCoversHistory of internal/controller/async/cluster_failover.go.
use cnmsql.Base.{
  ℕ, suc, Bool, true, false, not, ◌&&◌, ◌==◌, if◌then◌else◌, List, [], ◌∷◌, Option, none, some,
  Text, text_eq, text_Eq, ltb, sort,
}
use cnmsql.Base.Int64.{le64}
use cnmsql.Failover.{FailoverState, get, no_instance}
use cnmsql.Gtid.Interval.{Interval}
use cnmsql.Gtid.Parse.{parse_gtid_set}
use cnmsql.Gtid.Set
use cnmsql.Gtid.Set.{GtidSet, slot}

-- `slices.Index`, and the length where the name is not in the list.
unfoldable pub rank : List Text → Text → ℕ
rank [] name = 0
rank (p ∷ preferred) name =
    let later = rank preferred name in if text_eq p name then 0 else suc later

unfoldable pub order_by_preference : List Text → List Text → List Text
unfolding rank
order_by_preference candidates [] = candidates
order_by_preference candidates (p ∷ preferred) =
    sort (λ a b. ltb (rank (p ∷ preferred) a) (rank (p ∷ preferred) b)) candidates

-- No range reaches past the start of the first archived one.
ends_before : List Interval → Interval → Bool
ends_before [] first = true
ends_before (iv ∷ ivs) first =
    let rest = ends_before ivs first in if le64 first.start iv.end then false else rest

is_before_archive : List Interval → List Interval → Bool
unfolding ends_before
is_before_archive ivs [] = true
is_before_archive ivs (first ∷ more) = ends_before ivs first

all_before_archive : GtidSet → GtidSet → Bool
unfolding is_before_archive
all_before_archive [] archive = true
all_before_archive ((uuid, ivs) ∷ lacking) archive =
    is_before_archive ivs (slot archive uuid) && all_before_archive lacking archive

covers_parsed : Option GtidSet → Option GtidSet → Bool
unfolding all_before_archive
covers_parsed none held = true
covers_parsed (some archive) none = true
covers_parsed (some archive) (some held) = all_before_archive (Set.difference held archive) archive

pub archive_covers_history : Text → Text → Bool
unfolding covers_parsed
archive_covers_history covered purged =
    covers_parsed (parse_gtid_set covered) (parse_gtid_set purged)

-- The comparison of `orderByArchiveContinuity`, where `a` is sorted before `b`.
unfoldable pub comes_first : List Text → FailoverState → Text → Text → Text → Bool
unfolding rank archive_covers_history
comes_first preferred observed covered a b =
    if rank preferred a == rank preferred b
    then archive_covers_history covered (get no_instance a observed.instances).gtid_purged
      && not (archive_covers_history covered (get no_instance b observed.instances).gtid_purged)
    else ltb (rank preferred a) (rank preferred b)

unfoldable pub order_by_archive_continuity :
    List Text → List Text → FailoverState → Text → List Text
unfolding comes_first
order_by_archive_continuity candidates preferred observed [] = candidates
order_by_archive_continuity candidates preferred observed (c ∷ covered) =
    sort (comes_first preferred observed (c ∷ covered)) candidates
