-- ===== src/Recovery/Mysql.antt =====
-- PlanReplay of pkg/management/mysql/binlog/replay.go.
use cnmsql.Base.{not, ◌||◌, ◌∷◌, Option, none, some, if◌then◌else◌, Text, is_empty, map}
use cnmsql.Archive.{ArchiveIndex}
use cnmsql.Gtid.Texts.{union_gtid_texts}
use cnmsql.Handover.Guards.{is_set}
use cnmsql.Recovery.{
  no_index, Planned, ok, err, ◌>>◌, or_malformed, mysql_ops, RecoveryTarget, ReplayPlan,
}
use cnmsql.Recovery.Forks.{apply_mysql_forks, check_unrecorded_forks}
use cnmsql.Recovery.Gaps.{check_mysql_gaps}
use cnmsql.Recovery.Plan.{plan_replay_with_ops}

-- The check of a recovery that replays everything planned.
abbrev check_latest : Text → RecoveryTarget → ReplayPlan → Planned (Unit {0})
check_latest anchor_gtid target plan =
    if not (is_empty target.gtid) || is_set target.time
    then ok tt
    else (or_malformed (union_gtid_texts (anchor_gtid ∷ map (λ seg. seg.gtid_set) plan.segments))
        >> λ covered. check_mysql_gaps anchor_gtid covered plan.disowned_gtids)

abbrev check_forks : ArchiveIndex → RecoveryTarget → ReplayPlan → Planned (Unit {0})
check_forks idx target plan =
    if not (is_empty target.gtid) then ok tt else check_unrecorded_forks idx plan.disowned_gtids

abbrev plan_index : ArchiveIndex → Text → RecoveryTarget → ReplayPlan → Planned ReplayPlan
plan_index idx anchor_gtid target plan = apply_mysql_forks idx target plan >> λ forked.
    check_forks idx target forked >> λ _. check_latest anchor_gtid target forked >> λ _. ok forked

unfoldable pub plan_replay : Option ArchiveIndex → Text → RecoveryTarget → Planned ReplayPlan
plan_replay none anchor_gtid target = err no_index
plan_replay (some idx) anchor_gtid target =
    plan_replay_with_ops mysql_ops (some idx) anchor_gtid target
    >> plan_index idx anchor_gtid target
