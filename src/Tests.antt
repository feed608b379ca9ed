-- ===== src/Tests.antt =====
-- Runs of the definitions at concrete inputs.
mod Gtid
mod Mariadb
mod Failover
mod Archive
mod Update
mod Handover
mod Recovery
mod Quorum
mod Version
mod Schedule
