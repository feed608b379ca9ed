-- ===== src/Tests/Version.antt =====
-- Versions and upgrades: pkg/management/mysql/version/version.go.
use cnmsql.Base.{◌≡◌, ◌↔◌, ◌⊎◌, inr, refl, true, false, ◌++◌, none, some, codes, arith}
use cnmsql.Base.Decimal.{parse_int64}
use cnmsql.Base.Int64.{lt64, le64}
use cnmsql.Base.Split.{split, cut, trim_space}
use cnmsql.Version.{
  Version, parse, series, series_index, index_of, entry_at, version_eq, upgrade_series_chain,
  check_upgrade, check_hop, at_least, skips, downgrade, unsupported_target, unsupported_source,
  supports_group_replication, semi_sync, uses_source_semi_sync_naming,
}
use cnmsql.Version.Upgrade.{
  IsSameSeries, IsHop, check_upgrade_iff, check_upgrade-hint, check_upgrade-at_least,
}
use cnmsql.Version.Reading.{version_text, parse-version_text}

abbrev v8_0_36 : Version
v8_0_36 = record { major = 8; minor = 0; patch = 36 }

abbrev v8_4_2 : Version
v8_4_2 = record { major = 8; minor = 4; patch = 2 }

abbrev v9_7 : Version
v9_7 = record { major = 9; minor = 7; patch = 0 }

abbrev v5_7 : Version
v5_7 = record { major = 5; minor = 7; patch = 44 }

parsed : parse (codes " v8.0.36-28 ") ≡ some v8_0_36
unfolding parse split cut trim_space parse_int64
parsed = refl

parsed_series : parse (codes "9.7") ≡ some v9_7
unfolding parse split cut trim_space parse_int64
parsed_series = refl

misread : parse (codes "8.x") ≡ none
unfolding parse split cut trim_space parse_int64
misread = refl

skipped :
    check_upgrade v8_0_36 v9_7 ≡ some (skips (some (record { major = 8; minor = 4; patch = 0 })))
unfolding check_upgrade check_hop series series_index index_of version_eq entry_at
skipped = refl

refused :
    (check_upgrade v8_4_2 v8_0_36 ≡ some downgrade)
    × (check_upgrade v5_7 v8_0_36 ≡ some unsupported_source)
    × (check_upgrade v8_4_2 v5_7 ≡ some unsupported_target)
unfolding check_upgrade check_hop series series_index index_of version_eq entry_at
refused = (refl, refl, refl)

accepted : check_upgrade v8_0_36 v8_4_2 ≡ none
unfolding check_upgrade check_hop series series_index index_of version_eq entry_at
accepted = refl

grouped : (supports_group_replication v8_0_36 ≡ true) × (supports_group_replication v5_7 ≡ false)
unfolding supports_group_replication at_least le64 lt64
grouped = (refl, refl)

named : (semi_sync v8_0_36).lib_source ≡ codes "semisync_source.so"
unfolding semi_sync uses_source_semi_sync_naming at_least le64 lt64
named = refl

reset_since_8_4 : at_least v8_4_2 8 4 0 ≡ true
unfolding at_least le64 lt64
reset_since_8_4 = refl

group_since_8_0_22 : at_least v8_0_36 8 0 22 ≡ true
unfolding at_least le64 lt64
group_since_8_0_22 = refl

check_upgrade_iff_example :
    (check_upgrade v8_0_36 v8_4_2 ≡ none)
    ↔ (IsSameSeries v8_0_36 v8_4_2 ⊎ IsHop upgrade_series_chain v8_0_36 v8_4_2)
check_upgrade_iff_example = check_upgrade_iff v8_0_36 v8_4_2

check_upgrade-hint_example :
    (next : Version) × (some (record { major = 8; minor = 4; patch = 0 }) ≡ some next)
    × (check_upgrade v8_0_36 next ≡ none)
    × (check_upgrade next v9_7 ≡ none)
check_upgrade-hint_example = check_upgrade-hint v8_0_36 v9_7 _ skipped

other_series : IsSameSeries v8_0_36 v8_4_2 → ⊥
other_series s = omega (arith, s.1)

check_upgrade-at_least_example : at_least v8_4_2 8 0 22 ≡ true
check_upgrade-at_least_example =
    check_upgrade-at_least v8_0_36 v8_4_2 8 0 22 accepted other_series group_since_8_0_22

parse-version_text_example : parse (codes "v" ++ version_text 8 0 36 ++ codes "-28") ≡ some v8_0_36
parse-version_text_example =
    parse-version_text (codes "v") (codes "-28") 8 0 36 (inr refl) refl (omega arith) (omega arith)
      (omega arith)
