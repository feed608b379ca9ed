-- ===== src/Tests/Archive.antt =====
-- Retention and disowned ranges: pkg/management/mysql/objectstore.
use cnmsql.Base.{
  ℕ, ◌≡◌, refl, true, false, ◌||◌, List, [], ◌∷◌, none, some, Text, codes, text_eq, sort,
}
use cnmsql.Archive.{ArchiveIndex, ArchiveDisownedRange}
use cnmsql.Archive.Disowned.{holds, add_range, any_holds, add_range-holds}
use cnmsql.Archive.Retention.{BackupEntry, BinlogEntry, plan_retention}
use cnmsql.Archive.Retention.Backups.{
  IsKeptNewest, HasDistinctPrefixes, plan_retention-IsKeptNewest,
}
use cnmsql.Archive.Retention.Binlogs.{IsInStep, IsFromOldest, plan_retention-IsInStep}
use cnmsql.Failover.{has}

abbrev backup : Text → ℕ → ℕ → BackupEntry
backup prefix started completed = record {
  prefix = prefix;
  meta = record {
    backup_id = prefix;
    cluster_name = codes "c";
    cluster_uid = [];
    backup_name = prefix;
    instance_name = codes "c-1";
    method = codes "xtrabackup";
    archive_key = prefix;
    compressed = false;
    size_bytes = 1;
    sha256 = [];
    anchor_gtid = [];
    anchor_server_uuid = [];
    started_at = started;
    completed_at = completed;
  };
}

abbrev backups : List BackupEntry
backups = backup (codes "b/") 20 21 ∷ backup (codes "a/") 10 11 ∷ []

abbrev binlog : Text → ℕ → BinlogEntry
binlog name last = record {
  keys = record { binlog_key = name; manifest_key = name };
  meta = record {
    cluster_name = codes "c";
    server_uuid = codes "u";
    instance_name = codes "c-1";
    binlog_name = name;
    sequence = 1;
    first_gtid = [];
    last_gtid = [];
    gtid_set = [];
    first_event_time = 1;
    last_event_time = last;
    size_bytes = 1;
    sha256 = [];
    archived_at = last;
  };
}

abbrev binlogs : List BinlogEntry
binlogs = binlog (codes "x") 5 ∷ binlog (codes "y") 25 ∷ []

abbrev index : ArchiveIndex
index = record {
  cluster_name = codes "c";
  cluster_uid = [];
  segments =
      record {
        server_uuid = codes "u";
        instance_name = codes "c-1";
        binlogs = codes "x" ∷ codes "y" ∷ [];
        gtid_set = [];
        start_gtid_set = [];
        fork = none;
        started_at = 1;
        ended_at = 25;
      }
      ∷ [];
  covered_gtid_set = [];
  updated_at = 25;
  fork_check = none;
  generation = 1;
  disowned = none;
  archived_through = 25;
  mariadb_timeline = [];
}

backups-HasDistinctPrefixes : HasDistinctPrefixes backups
unfolding text_eq
backups-HasDistinctPrefixes = (refl, (refl, tt))

plan_retention-IsKeptNewest_example :
    (newest : BackupEntry) × IsKeptNewest backups
      (plan_retention 30 backups binlogs (some index) 15).delete_backup_prefixes
      newest
plan_retention-IsKeptNewest_example =
    plan_retention-IsKeptNewest 30 backups binlogs (some index) 15 refl backups-HasDistinctPrefixes

old_deleted :
    has (codes "a/") (plan_retention 30 backups binlogs (some index) 15).delete_backup_prefixes
    ≡ true
unfolding plan_retention text_eq sort
old_deleted = refl

plan_retention-IsInStep_example :
    IsInStep binlogs index (plan_retention 30 backups binlogs (some index) 15)
    × IsFromOldest backups 15 (plan_retention 30 backups binlogs (some index) 15)
plan_retention-IsInStep_example = plan_retention-IsInStep 30 backups binlogs index 15

abbrev dead : ℕ → ℕ → ArchiveDisownedRange
dead after through = record { domain = 0; server = 1; after = after; through = through }

add_range-holds_example :
    any_holds (add_range (dead 3 5 ∷ []) (dead 4 9)).0 0 1 7
    ≡ (any_holds (dead 3 5 ∷ []) 0 1 7 || holds (dead 4 9) 0 1 7)
add_range-holds_example = add_range-holds (dead 3 5 ∷ []) (dead 4 9) 0 1 7

covered_unchanged : (add_range (dead 3 9 ∷ []) (dead 4 8)).1 ≡ false
unfolding add_range
covered_unchanged = refl
