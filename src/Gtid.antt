-- ===== src/Gtid.antt =====
-- MySQL GTID sets: pkg/management/mysql/replication/gtid.go.
pub mod Interval
pub mod Set
pub mod Parse
pub mod Print
pub mod Texts
