-- ===== src/Recovery/Forks.antt =====
-- applyMySQLForks and checkUnrecordedForks of pkg/management/mysql/binlog/replay.go.
use cnmsql.Base.{
  ℕ, Bool, false, not, ◌&&◌, ◌||◌, List, [], ◌∷◌, ◌++◌, Option, none, some, if◌then◌else◌, Text,
  to_lower, is_empty, text_eq, any,
}
use cnmsql.Base.Int64.{le64, add64}
use cnmsql.Archive.{ArchiveIndex, ArchiveSegment, ArchiveDisowned, ArchiveFork}
use cnmsql.Gtid.Interval.{Interval}
use cnmsql.Gtid.Parse.{◌>>=◌, parse_gtid_set}
use cnmsql.Gtid.Set
use cnmsql.Gtid.Set.{GtidSet, slot}
use cnmsql.Gtid.Texts.{union_gtid_texts, intersects_gtid_texts, difference_gtid_texts}
use cnmsql.Recovery.{
  forked_timeline, backup_on_dead_branch, Planned, ok, err, ◌>>◌, or_malformed, RecoveryTarget,
  ReplayPlan,
}

abbrev fork_text : Option ArchiveFork → Text
fork_text none = []
fork_text (some fork) = fork.gtid_set

abbrev disowned_text : Option ArchiveDisowned → Text
disowned_text none = []
disowned_text (some disowned) = disowned.gtid_set

-- The text, if there is one, before the others.
abbrev with_text : Text → List Text → List Text
with_text [] texts = texts
with_text (c ∷ text) texts = (c ∷ text) ∷ texts

unfoldable pub fork_texts : List ArchiveSegment → Text → List Text
fork_texts [] last = with_text last []
fork_texts (seg ∷ segments) last = with_text (fork_text seg.fork) (fork_texts segments last)

abbrev pub warn_mixed : ReplayPlan → Text → Bool → ReplayPlan
warn_mixed plan all_forks mixed =
    if mixed then record plan { warnings = plan.warnings ++ all_forks ∷ [] } else plan

abbrev pub excluding : ReplayPlan → Text → Text → Planned ReplayPlan
excluding plan all_forks on_dead_branch =
    if not (text_eq on_dead_branch all_forks)
    then err backup_on_dead_branch
    else (or_malformed (union_gtid_texts (plan.exclude_gtids ∷ all_forks ∷ [])) >> λ exclude.
        ok (record plan { exclude_gtids = exclude }))

abbrev pub apply_forks : RecoveryTarget → ReplayPlan → Text → Planned ReplayPlan
apply_forks target plan all_forks =
    if not (is_empty target.gtid)
    then (or_malformed (intersects_gtid_texts plan.include_gtids all_forks) >> λ mixed.
        ok (warn_mixed plan all_forks mixed))
    else (or_malformed (difference_gtid_texts all_forks plan.exclude_gtids)
        >> excluding plan all_forks)

unfoldable pub apply_mysql_forks : ArchiveIndex → RecoveryTarget → ReplayPlan → Planned ReplayPlan
unfolding fork_texts
apply_mysql_forks idx target plan =
    or_malformed (union_gtid_texts (fork_texts idx.segments (disowned_text idx.disowned)))
    >> λ all_forks. apply_forks target (record plan { disowned_gtids = all_forks }) all_forks

abbrev pub last_end : List Interval → ℕ
last_end [] = 0
last_end (iv ∷ []) = iv.end
last_end (iv ∷ next ∷ ivs) = last_end (next ∷ ivs)

-- A segment as the check sees it: its server in lower case, and its set.
abbrev pub Branch : Type 0
Branch = Text × GtidSet

-- The transactions of the earlier segment's own that the later one never received.
abbrev pub dead_branch : Branch → Branch → GtidSet
dead_branch earlier later =
    Set.intersect
      (Set.add_interval [] earlier.0 (record {
        start = add64 (last_end (slot later.1 earlier.0)) 1;
        end = last_end (slot earlier.1 earlier.0);
      }))
      earlier.1

-- The later segment took over from the earlier one, which did not come back after it, before its last transaction.
abbrev pub took_over : Branch → Branch → Bool
took_over earlier later =
    not (is_empty (slot earlier.1 earlier.0))
    && not (is_empty (slot later.1 earlier.0))
    && not (is_empty (slot later.1 later.0))
    && is_empty (slot earlier.1 later.0)
    && not (le64 (last_end (slot earlier.1 earlier.0)) (last_end (slot later.1 earlier.0)))

abbrev pub is_unrecorded : GtidSet → Branch → Branch → Bool
is_unrecorded known earlier later =
    took_over earlier later
    && not (Set.has_no_transactions (Set.difference (dead_branch earlier later) known))

unfoldable pub has_unrecorded : GtidSet → List Branch → Bool
has_unrecorded known [] = false
has_unrecorded known (earlier ∷ branches) =
    any (is_unrecorded known earlier) branches || has_unrecorded known branches

unfoldable pub branches_of : List ArchiveSegment → Option (List Branch)
branches_of [] = some []
branches_of (seg ∷ segments) = do
  set ← parse_gtid_set seg.gtid_set
  branches ← branches_of segments
  some ((to_lower seg.server_uuid, set) ∷ branches)

unfoldable pub check_unrecorded_forks : ArchiveIndex → Text → Planned (Unit {0})
unfolding has_unrecorded branches_of
check_unrecorded_forks idx recorded = or_malformed (parse_gtid_set recorded) >> λ known.
    or_malformed (branches_of idx.segments) >> λ branches.
    if has_unrecorded known branches then err forked_timeline else ok tt
