-- ===== src/Archive.antt =====
-- The manifests and the index of the binary log archive: the types of
-- pkg/management/mysql/objectstore/binlog.go and metadata.go. A time is a number of nanoseconds after the zero time.
pub mod Disowned
pub mod Retention
pub mod Update
use cnmsql.Base.{ℕ, Bool, List, Option, Text}

pub record BackupMetadata : Type 0 where
  pub backup_id : Text
  pub cluster_name : Text
  pub cluster_uid : Text
  pub backup_name : Text
  pub instance_name : Text
  pub method : Text
  pub archive_key : Text
  pub compressed : Bool
  pub size_bytes : ℕ
  pub sha256 : Text
  pub anchor_gtid : Text
  pub anchor_server_uuid : Text
  pub started_at : ℕ
  pub completed_at : ℕ

pub record BinlogMetadata : Type 0 where
  pub cluster_name : Text
  pub server_uuid : Text
  pub instance_name : Text
  pub binlog_name : Text
  pub sequence : ℕ
  pub first_gtid : Text
  pub last_gtid : Text
  pub gtid_set : Text
  pub first_event_time : ℕ
  pub last_event_time : ℕ
  pub size_bytes : ℕ
  pub sha256 : Text
  pub archived_at : ℕ

pub record ArchiveDisownedRange : Type 0 where
  pub domain : ℕ
  pub server : ℕ
  pub after : ℕ
  pub through : ℕ

pub record ArchiveDisowned : Type 0 where
  pub gtid_set : Text
  pub ranges : List ArchiveDisownedRange

pub record ArchiveFork : Type 0 where
  pub gtid_set : Text
  pub after_seq : List (ℕ × ℕ)
  pub authority_gtid_set : Text
  pub detected_at : ℕ
  pub detected_by : Text

pub record ArchiveForkCheck : Type 0 where
  pub checked_at : ℕ
  pub checked_by : Text

pub record ArchiveEpoch : Type 0 where
  pub instance_name : Text
  pub server_id : ℕ
  pub handoff : Text

pub record ArchiveSegment : Type 0 where
  pub server_uuid : Text
  pub instance_name : Text
  pub binlogs : List Text
  pub gtid_set : Text
  pub start_gtid_set : Text
  pub fork : Option ArchiveFork
  pub started_at : ℕ
  pub ended_at : ℕ

pub record ArchiveIndex : Type 0 where
  pub cluster_name : Text
  pub cluster_uid : Text
  pub segments : List ArchiveSegment
  pub covered_gtid_set : Text
  pub updated_at : ℕ
  pub fork_check : Option ArchiveForkCheck
  pub generation : ℕ
  pub disowned : Option ArchiveDisowned
  pub archived_through : ℕ
  pub mariadb_timeline : List ArchiveEpoch
