-- ===== src/Version.antt =====
-- Versions of MySQL servers, what they support, and the upgrades between them:
-- pkg/management/mysql/version/version.go. A Go int is an int64 bit pattern.
pub mod Upgrade
pub mod Reading
use cnmsql.Base.{
  ℕ, zero, suc, Bool, not, ◌&&◌, List, [], ◌∷◌, Option, none, some, if◌then◌else◌, ◌==◌, Text,
  codes, ltb,
}
use cnmsql.Base.Int64.{lt64, le64}
use cnmsql.Base.Split.{split, cut, trim_space}
use cnmsql.Base.Decimal.{parse_int64}
use cnmsql.Gtid.Parse.{◌>>=◌}

pub record Version : Type 0 where
  pub major : ℕ
  pub minor : ℕ
  pub patch : ℕ

-- `strings.TrimPrefix(v, "v")`.
trim_v : Text → Text
trim_v [] = []
trim_v (c ∷ s) = if c == b'v' then s else c ∷ s

-- The parts behind the first; a part that is missing counts as 0.
read_parts : List Text → Option Version
read_parts [] = none
read_parts (major ∷ []) = do
  m ← parse_int64 major
  some (record { major = m; minor = 0; patch = 0 })
read_parts (major ∷ minor ∷ []) = do
  m ← parse_int64 major
  n ← parse_int64 minor
  some (record { major = m; minor = n; patch = 0 })
read_parts (major ∷ minor ∷ patch ∷ more) = do
  m ← parse_int64 major
  n ← parse_int64 minor
  p ← parse_int64 patch
  some (record { major = m; minor = n; patch = p })

read_trimmed : Text → Option Version
unfolding read_parts
read_trimmed [] = none
read_trimmed (c ∷ s) = read_parts (split b'.' (cut b'-' (c ∷ s)).0)

-- `Parse`; an error is `none`.
unfoldable pub parse : Text → Option Version
unfolding trim_v read_trimmed
parse v = read_trimmed (trim_v (trim_space v))

unfoldable pub series : Version → Version
series v = record { major = v.major; minor = v.minor; patch = 0 }

abbrev pub upgrade_series_chain : List Version
upgrade_series_chain =
    record { major = 8; minor = 0; patch = 0 }
    ∷ record { major = 8; minor = 4; patch = 0 }
    ∷ record { major = 9; minor = 7; patch = 0 }
    ∷ []

-- `==` on versions.
unfoldable pub version_eq : Version → Version → Bool
version_eq v w = v.major == w.major && v.minor == w.minor && v.patch == w.patch

unfoldable pub index_of : Version → List Version → Option ℕ
index_of s [] = none
index_of s (entry ∷ chain) =
    let rest = index_of s chain in
    if version_eq entry s then some 0 else (do i ← rest; some (suc i))

-- The position of the version's series, or `none` for -1.
unfoldable pub series_index : Version → Option ℕ
series_index v = index_of (series v) upgrade_series_chain

-- The entry at an index, or `none` where the source would panic.
unfoldable pub entry_at : ℕ → List Version → Option Version
entry_at i [] = none
entry_at zero (entry ∷ chain) = some entry
entry_at (suc i) (entry ∷ chain) = entry_at i chain

-- The errors of `CheckUpgrade`, with the series to upgrade to first.
pub data UpgradeError : Type 0 where
  unsupported_source : UpgradeError
  unsupported_target : UpgradeError
  downgrade : UpgradeError
  skips : Option Version → UpgradeError

unfoldable pub check_hop : Option ℕ → Option ℕ → Option UpgradeError
check_hop none j = some unsupported_source
check_hop (some i) none = some unsupported_target
check_hop (some i) (some j) =
    if ltb j i
    then some downgrade
    else if ltb (suc i) j
    then some (skips (entry_at (suc i) upgrade_series_chain))
    else none

-- `CheckUpgrade`; `none` is nil.
unfoldable pub check_upgrade : Version → Version → Option UpgradeError
check_upgrade from to =
    if version_eq (series from) (series to)
    then none
    else check_hop (series_index from) (series_index to)

unfoldable pub at_least : Version → ℕ → ℕ → ℕ → Bool
at_least v major minor patch =
    if not (v.major == major)
    then lt64 major v.major
    else if not (v.minor == minor)
    then lt64 minor v.minor
    else le64 patch v.patch

unfoldable pub uses_replica_terminology : Version → Bool
uses_replica_terminology v = at_least v 8 0 23

unfoldable pub has_super_read_only : Version → Bool
has_super_read_only v = at_least v 5 7 8

unfoldable pub has_get_source_public_key : Version → Bool
has_get_source_public_key v = at_least v 5 7 23

unfoldable pub has_log_replica_updates : Version → Bool
has_log_replica_updates v = at_least v 8 0 0

unfoldable pub has_admin_interface : Version → Bool
has_admin_interface v = at_least v 8 0 14

unfoldable pub uses_reset_binary_logs_and_gtids : Version → Bool
uses_reset_binary_logs_and_gtids v = at_least v 8 4 0

unfoldable pub supports_group_replication : Version → Bool
supports_group_replication v = at_least v 8 0 22

unfoldable pub has_group_replication_clone : Version → Bool
has_group_replication_clone v = at_least v 8 0 17

unfoldable pub group_replication_defaults_to_mysql_stack : Version → Bool
group_replication_defaults_to_mysql_stack v = at_least v 26 7 0

unfoldable pub group_replication_requires_no_binlog_checksum : Version → Bool
group_replication_requires_no_binlog_checksum v = not (at_least v 8 0 21)

unfoldable pub uses_source_semi_sync_naming : Version → Bool
uses_source_semi_sync_naming v = at_least v 8 0 26

pub record SemiSyncNaming : Type 0 where
  pub enabled_var_source : Text
  pub enabled_var_replica : Text
  pub wait_for_count_var : Text
  pub timeout_var : Text
  pub wait_point_var : Text
  pub plugin_source : Text
  pub plugin_replica : Text
  pub lib_source : Text
  pub lib_replica : Text

source_naming : SemiSyncNaming
source_naming = record {
  enabled_var_source = codes "rpl_semi_sync_source_enabled";
  enabled_var_replica = codes "rpl_semi_sync_replica_enabled";
  wait_for_count_var = codes "rpl_semi_sync_source_wait_for_replica_count";
  timeout_var = codes "rpl_semi_sync_source_timeout";
  wait_point_var = [];
  plugin_source = codes "rpl_semi_sync_source";
  plugin_replica = codes "rpl_semi_sync_replica";
  lib_source = codes "semisync_source.so";
  lib_replica = codes "semisync_replica.so";
}

master_naming : SemiSyncNaming
master_naming = record {
  enabled_var_source = codes "rpl_semi_sync_master_enabled";
  enabled_var_replica = codes "rpl_semi_sync_slave_enabled";
  wait_for_count_var = codes "rpl_semi_sync_master_wait_for_slave_count";
  timeout_var = codes "rpl_semi_sync_master_timeout";
  wait_point_var = [];
  plugin_source = codes "rpl_semi_sync_master";
  plugin_replica = codes "rpl_semi_sync_slave";
  lib_source = codes "semisync_master.so";
  lib_replica = codes "semisync_slave.so";
}

unfoldable pub semi_sync : Version → SemiSyncNaming
unfolding source_naming master_naming
semi_sync v = if uses_source_semi_sync_naming v then source_naming else master_naming
