-- ===== src/Recovery/Plan.antt =====
-- planReplayWithOps, planReplayWithoutFrontier, PlanReplayWithModel and PlanReplay of
-- pkg/management/mysql/binlog/replay.go.
pub mod Coverage
pub mod Complete
use cnmsql.Base.{
  ℕ, Bool, true, false, not, ◌&&◌, ◌||◌, ◌==◌, List, [], ◌∷◌, ◌++◌, Option, none, some,
  if◌then◌else◌, Text, codes, is_empty, ltb, text_eq, map,
}
use cnmsql.Archive.{ArchiveIndex, ArchiveSegment, ArchiveDisowned, ArchiveFork, ArchiveForkCheck}
use cnmsql.Engine.{GtidModel}
use cnmsql.Gtid.Texts.{union_gtid_texts, intersects_gtid_texts, difference_gtid_texts}
use cnmsql.Handover.Guards.{is_set}
use cnmsql.Recovery.{
  PlanError, target_before_backup, target_beyond_archive, forked_timeline, backup_on_dead_branch,
  archive_gap, no_index, malformed, Planned, ok, err, ◌>>◌, or_malformed, GtidOps, mysql_ops,
  mariadb_ops, RecoveryTarget, ReplaySegment, ReplayPlan, replay_segment,
}

abbrev is_before : ℕ → Option ℕ → Bool
is_before through none = false
is_before through (some time) = not (through == 0) && ltb through time

-- checkTimeTarget; true is its error.
abbrev pub is_beyond_archive : ArchiveIndex → RecoveryTarget → Bool
is_beyond_archive idx target = is_before idx.archived_through target.time

module _ {S : Type 0} (ops : GtidOps S) where
  -- The loop over the segments, from the frontier reached: the planned segments and the last frontier.
  unfoldable pub plan_segments : S → List ArchiveSegment → Planned (List ReplaySegment × S)
  plan_segments frontier [] = ok ([], frontier)
  plan_segments frontier (seg ∷ segments) = or_malformed (ops.parse seg.gtid_set) >> λ seg_set.
      let skipped = plan_segments frontier segments in
      let taken = plan_segments (ops.union frontier seg_set) segments in
      if not (ops.is_blank seg_set) && ops.contains frontier seg_set
      then skipped
      else (taken >> λ found. ok (replay_segment seg ∷ found.0, found.1))

  -- The check of the declared coverage.
  abbrev check_coverage : S → Text → Planned S
  check_coverage frontier covered =
      if is_empty covered
      then ok frontier
      else (or_malformed (ops.parse covered) >> λ set.
          if ops.contains frontier set then ok frontier else err forked_timeline)

  abbrev plan_of : ArchiveIndex → S → List ReplaySegment → ReplayPlan
  plan_of idx anchor segments = record {
    segments = segments;
    anchor_gtid = ops.string anchor;
    exclude_gtids = ops.string anchor;
    include_gtids = [];
    stop_datetime = none;
    disowned_gtids = [];
    fork_checked = is_set idx.fork_check;
    warnings = [];
  }

  unfoldable pub apply_target : ReplayPlan → S → S → RecoveryTarget → Planned ReplayPlan
  apply_target plan frontier anchor target =
      if not (is_empty target.gtid)
      then (or_malformed (ops.parse target.gtid) >> λ want.
          if not (ops.contains want anchor)
          then err target_before_backup
          else if not (ops.contains frontier want)
          then err target_beyond_archive
          else ok (record plan { include_gtids = ops.string want }))
      else ok (record plan { stop_datetime = target.time })

  unfoldable pub plan_replay_from : ArchiveIndex → S → RecoveryTarget → Planned ReplayPlan
  unfolding plan_segments apply_target
  plan_replay_from idx anchor target = plan_segments anchor idx.segments >> λ found.
      check_coverage found.1 idx.covered_gtid_set >> λ frontier.
      apply_target (plan_of idx anchor found.0) frontier anchor target

  unfoldable pub plan_replay_with_ops :
      Option ArchiveIndex → Text → RecoveryTarget → Planned ReplayPlan
  unfolding plan_replay_from
  plan_replay_with_ops none anchor_gtid target = err no_index
  plan_replay_with_ops (some idx) anchor_gtid target =
      if is_beyond_archive idx target
      then err target_beyond_archive
      else (or_malformed (ops.parse anchor_gtid) >> λ anchor. plan_replay_from idx anchor target)

  -- Every segment with files, for an archive without GTIDs.
  unfoldable pub segments_with_files : List ArchiveSegment → List ReplaySegment
  segments_with_files [] = []
  segments_with_files (seg ∷ segments) =
      let rest = segments_with_files segments in
      if is_empty seg.binlogs then rest else replay_segment seg ∷ rest

  abbrev without_target : ReplayPlan → S → RecoveryTarget → Planned ReplayPlan
  without_target plan anchor target =
      if not (is_empty target.gtid)
      then (or_malformed (ops.parse target.gtid) >> λ want.
          if not (ops.contains want anchor)
          then err target_before_backup
          else ok (record plan { include_gtids = ops.string want }))
      else ok (record plan { stop_datetime = target.time })

  unfoldable pub plan_replay_without_frontier :
      ArchiveIndex → Text → RecoveryTarget → Planned ReplayPlan
  unfolding segments_with_files
  plan_replay_without_frontier idx anchor_gtid target =
      if is_beyond_archive idx target
      then err target_beyond_archive
      else (or_malformed (ops.parse anchor_gtid) >> λ anchor.
          without_target
            (record (plan_of idx anchor (segments_with_files idx.segments)) { anchor_gtid = [] })
            anchor target)

abbrev retried : Planned ReplayPlan → Planned ReplayPlan → Planned ReplayPlan
retried (err target_beyond_archive) again = again
retried (err target_before_backup) again = err target_before_backup
retried (err forked_timeline) again = err forked_timeline
retried (err backup_on_dead_branch) again = err backup_on_dead_branch
retried (err archive_gap) again = err archive_gap
retried (err no_index) again = err no_index
retried (err malformed) again = err malformed
retried (ok plan) again = ok plan

unfoldable pub plan_replay_with_model :
    Option ArchiveIndex → Text → RecoveryTarget → GtidModel → Planned ReplayPlan
unfolding plan_replay_with_ops plan_replay_without_frontier mariadb_ops
plan_replay_with_model none anchor_gtid target model = err no_index
plan_replay_with_model (some idx) anchor_gtid target model =
    retried (plan_replay_with_ops (mariadb_ops model) (some idx) anchor_gtid target)
      (plan_replay_without_frontier (mariadb_ops model) idx anchor_gtid target)
