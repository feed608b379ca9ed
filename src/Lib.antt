-- ===== src/Lib.antt =====
-- CNMSQL, a Kubernetes operator for MySQL and MariaDB clusters: a model of the parts that decide which
-- data survive, and proofs about them.
--
-- The operator watches a cluster's instances and keeps one of them the primary. What each instance holds is a
-- GTID position, a text whose format depends on the engine. On it rest the choice of a new primary when the
-- primary is lost, the detection of diverged instances, and the recovery of a group that lost its quorum. Binary
-- logs and base backups are archived in an object store, described by an index, and expire by a retention plan;
-- a recovery to a point in time replays them on a backup.
--
-- The parts, and the files that model them:
-- Base: native numbers, Boolean tests, Go's int64 as a bit pattern below 2 ^ 64 (Base/Int64), lists, maps
--   as association lists (Base/Map), sort.Slice and its like as a stable insertion sort (Base/Sort), strings as
--   lists of code points (Base/Strings), strings.Split and strings.Cut (Base/Split), strconv (Base/Decimal).
-- Gtid: pkg/management/mysql/replication/gtid.go. Gtid/Interval has the algebra of ranges
--   (normalizeIntervals, intervalsCover, uncoveredBy, minus), Gtid/Set the operations on sets, Gtid/Parse
--   ParseGTIDSet, Gtid/Print String, Gtid/Texts the functions on texts. A set means which transaction of
--   which source it holds (holds), and IsGtidSet is the form that ParseGTIDSet establishes.
-- Engine: pkg/engine. GtidModel is the interface as a record; Engine/Mysql and Engine/Mariadb fill it from
--   gtid_mysql.go and gtid_mariadb.go. Engine/Timeline has the verdicts and the pruning of mariadb_timeline.go.
-- Failover: internal/controller/topology/reconciler.go for the observed state; Failover/Measure,
--   Failover/Order and Failover/Select for SelectFailoverCandidate of
--   internal/controller/async/cluster_failover.go, over any GtidModel; Failover/Policy for
--   internal/controller/topology/failover_policy.go.
-- Handover: the change of the primary, ReconcileFailover of
--   internal/controller/async/cluster_failover.go (Handover/Failover), ReconcileSwitchover and
--   ReconcileDrainSwitchover of cluster_switchover.go (Handover/Switchover), and their helpers
--   (Handover/Guards), with what a fence and a lease amount to (Handover/Fencing). A pass is a function on the
--   cluster's objects and the pass's copy of the status, and returns a result or an error; the calls of the
--   Kubernetes API are a parameter, the record Api.
-- Archive: pkg/management/mysql/objectstore. The manifests and the index, the disowned ranges of binlog.go
--   (Archive/Disowned), PlanRetention of retention.go (Archive/Retention), and UpdateArchiveIndex of
--   index_cas.go (Archive/Update) over the interface VersionedStore as a record, where a function on the store's
--   state stands for what the other writers do between a read and a write.
-- Recovery: pkg/management/mysql/binlog/replay.go. Recovery/Plan plans the replay over the interface gtidOps as a
--   record, Recovery/Forks and Recovery/Mysql add what a MySQL plan does with fork records, Recovery/Gaps
--   checks a recovered set.
-- Quorum: internal/controller/groupreplication/cluster_quorum.go.
-- Version: pkg/management/mysql/version/version.go; Version/Upgrade on CheckUpgrade, Version/Reading on Parse.
-- Schedule: planBackupGC of internal/controller/scheduledbackup_retention.go. Its candidates are a map by name.
-- Tests: runs at concrete inputs.
--
-- Conventions. A Go error is none, or a constructor where its kind matters; messages are not modelled. A range
-- over a map goes through the association list in its order, and a theorem holds of every list. Every loop is
-- structural recursion, so there is no fuel but in the printing of a number n, which is given n + 1 steps for
-- at most that many digits, and in the eight attempts of UpdateArchiveIndex, which are the code's. A time is
-- a number of nanoseconds after Go's zero time, a duration an int64; the clock is an
-- argument. sort.Slice leaves the order of equal elements open; the model keeps it.
--
-- Not modelled: Kubernetes, SQL, HTTP and object store I/O, the root reconcile loop, DeadAfter of the
-- MariaDB timeline, the S3 client behind VersionedStore, the archiver and its fork checks, the positional replay
-- of MariaDB, configuration and text filters.
pub mod Base
pub mod Gtid
pub mod Engine
pub mod Failover
pub mod Handover
pub mod Archive
pub mod Recovery
pub mod Quorum
pub mod Version
pub mod Schedule
pub mod Tests
