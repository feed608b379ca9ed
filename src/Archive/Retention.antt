-- ===== src/Archive/Retention.antt =====
-- The retention plan: pkg/management/mysql/objectstore/retention.go. The clock of a rewrite is read once, `now`.
pub mod Backups
pub mod Horizon
pub mod Collected
pub mod Binlogs
use cnmsql.Base.{
  ℕ, zero, Bool, true, false, not, ◌||◌, ◌==◌, if◌then◌else◌, List, [], ◌∷◌, ◌++◌, Option, none,
  some, Text, text_eq, text_Eq, is_empty, lookup, insert, ltb, sort, any,
}
use cnmsql.Archive.{BackupMetadata, BinlogMetadata, ArchiveIndex, ArchiveSegment}

pub record BackupEntry : Type 0 where
  pub prefix : Text
  pub meta : BackupMetadata

pub record BinlogKeys : Type 0 where
  pub binlog_key : Text
  pub manifest_key : Text

pub record BinlogEntry : Type 0 where
  pub keys : BinlogKeys
  pub meta : BinlogMetadata

-- A set of names for each server.
abbrev pub Deleted : Type 0
Deleted = List (Text × List Text)

pub record RetentionPlan : Type 0 where
  pub delete_backup_prefixes : List Text
  pub delete_binlog_keys : List Text
  pub new_index : Option ArchiveIndex
  pub deleted_binlogs : Deleted
  pub horizon : ℕ

later_of : BackupEntry → List BackupEntry → BackupEntry
later_of latest [] = latest
later_of latest (entry ∷ entries) =
    later_of (if ltb latest.meta.completed_at entry.meta.completed_at then entry else latest)
      entries

pub select_latest_backup : List BackupEntry → Option BackupEntry
unfolding later_of
select_latest_backup [] = none
select_latest_backup (entry ∷ entries) = some (later_of entry entries)

pub find_backup_by_id : List BackupEntry → Text → Option BackupEntry
find_backup_by_id [] id = none
find_backup_by_id (entry ∷ entries) id =
    let rest = find_backup_by_id entries id in
    if text_eq entry.meta.backup_id id then some entry else rest

abbrev pub completes_before : BackupEntry → BackupEntry → Bool
completes_before a b = ltb a.meta.completed_at b.meta.completed_at

-- The loop over the backups in the order of their completion: those that expire, and those that are retained.
pub expire : ℕ → List BackupEntry → List Text × List BackupEntry
expire cutoff [] = ([], [])
expire cutoff (newest ∷ []) = ([], newest ∷ [])
expire cutoff (entry ∷ next ∷ entries) =
    let rest = expire cutoff (next ∷ entries) in
    if ltb entry.meta.completed_at cutoff
    then (entry.prefix ∷ rest.0, rest.1)
    else (rest.0, entry ∷ rest.1)

abbrev is_kept_binlog : ℕ → BinlogEntry → Bool
is_kept_binlog horizon entry =
    entry.meta.last_event_time == 0 || not (ltb entry.meta.last_event_time horizon)

abbrev pub or_none : Option (List Text) → List Text
or_none none = []
or_none (some names) = names

-- What one archived file adds to the keys and the names to delete.
abbrev pub collect_one : ℕ → BinlogEntry → List Text × Deleted → List Text × Deleted
collect_one horizon entry found = if is_kept_binlog horizon entry then found else (
  found.0 ++ entry.keys.binlog_key ∷ entry.keys.manifest_key ∷ [],
  insert entry.meta.server_uuid
      (or_none (lookup entry.meta.server_uuid found.1) ++ entry.meta.binlog_name ∷ []) found.1,
)

-- The loop of `applyBinlogGC`.
pub collect : ℕ → List BinlogEntry → List Text × Deleted → List Text × Deleted
collect horizon [] found = found
collect horizon (entry ∷ binlogs) found = collect horizon binlogs (collect_one horizon entry found)

pub without : List Text → List Text → List Text
without gone [] = []
without gone (name ∷ names) =
    let rest = without gone names in if any (text_eq name) gone then rest else name ∷ rest

abbrev pub with_binlogs : ArchiveSegment → List Text → ArchiveSegment
with_binlogs seg kept = record {
  server_uuid = seg.server_uuid;
  instance_name = seg.instance_name;
  binlogs = kept;
  gtid_set = seg.gtid_set;
  start_gtid_set = seg.start_gtid_set;
  fork = seg.fork;
  started_at = seg.started_at;
  ended_at = seg.ended_at;
}

abbrev rewrite_segment : ArchiveSegment → List Text → List ArchiveSegment → List ArchiveSegment
rewrite_segment seg [] rest = rest
rewrite_segment seg (name ∷ names) rest = with_binlogs seg (name ∷ names) ∷ rest

abbrev keep_segment :
    ArchiveSegment → Option (List Text) → List ArchiveSegment → List ArchiveSegment
keep_segment seg none rest = seg ∷ rest
keep_segment seg (some gone) rest = rewrite_segment seg (without gone seg.binlogs) rest

pub rewrite_segments : Deleted → List ArchiveSegment → List ArchiveSegment
unfolding without
rewrite_segments deleted [] = []
rewrite_segments deleted (seg ∷ segments) =
    keep_segment seg (lookup seg.server_uuid deleted) (rewrite_segments deleted segments)

unfoldable pub rewrite_index : ℕ → ArchiveIndex → Deleted → ArchiveIndex
unfolding rewrite_segments
rewrite_index now index deleted = record {
  cluster_name = index.cluster_name;
  cluster_uid = index.cluster_uid;
  segments = rewrite_segments deleted index.segments;
  covered_gtid_set = index.covered_gtid_set;
  updated_at = now;
  fork_check = index.fork_check;
  generation = index.generation;
  disowned = index.disowned;
  archived_through = index.archived_through;
  mariadb_timeline = index.mariadb_timeline;
}

abbrev nothing : RetentionPlan
nothing = record {
  delete_backup_prefixes = [];
  delete_binlog_keys = [];
  new_index = none;
  deleted_binlogs = [];
  horizon = 0;
}

-- The plan once the binlogs to delete are known.
plan_collected : ℕ → List Text → ℕ → ArchiveIndex → List Text × Deleted → RetentionPlan
unfolding rewrite_index
plan_collected now prefixes horizon index (keys, deleted) = record {
  delete_backup_prefixes = prefixes;
  delete_binlog_keys = keys;
  new_index = if is_empty deleted then none else some (rewrite_index now index deleted);
  deleted_binlogs = deleted;
  horizon = horizon;
}

pub apply_binlog_gc : ℕ → List Text → ℕ → List BinlogEntry → Option ArchiveIndex → RetentionPlan
unfolding plan_collected collect
apply_binlog_gc now prefixes horizon binlogs none = record {
  delete_backup_prefixes = prefixes;
  delete_binlog_keys = [];
  new_index = none;
  deleted_binlogs = [];
  horizon = horizon;
}
apply_binlog_gc now prefixes horizon binlogs (some index) =
    if horizon == 0
    then plan_collected now prefixes horizon index ([], [])
    else plan_collected now prefixes horizon index (collect horizon binlogs ([], []))

-- `retained[0].Meta.StartedAt`.
abbrev pub horizon_of : List BackupEntry → ℕ
horizon_of [] = 0
horizon_of (oldest ∷ retained) = oldest.meta.started_at

plan_expired :
    ℕ → List Text × List BackupEntry → List BinlogEntry → Option ArchiveIndex → RetentionPlan
unfolding apply_binlog_gc
plan_expired now ([], retained) binlogs index = nothing
plan_expired now (prefix ∷ prefixes, retained) binlogs index =
    apply_binlog_gc now (prefix ∷ prefixes) (horizon_of retained) binlogs index

unfoldable pub plan_retention :
    ℕ → List BackupEntry → List BinlogEntry → Option ArchiveIndex → ℕ → RetentionPlan
unfolding plan_expired expire
plan_retention now [] binlogs index cutoff = nothing
plan_retention now (backup ∷ backups) binlogs index cutoff =
    plan_expired now (expire cutoff (sort completes_before (backup ∷ backups))) binlogs index
