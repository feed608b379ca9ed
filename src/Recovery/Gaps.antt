-- ===== src/Recovery/Gaps.antt =====
-- checkMySQLGaps and VerifyReplayedGTIDs of pkg/management/mysql/binlog/replay.go.
pub mod Leading
pub mod Meaning
use cnmsql.Base.{
  ℕ, ◌-◌, Bool, true, false, not, ◌||◌, List, [], ◌∷◌, Option, none, some, if◌then◌else◌, Text,
  is_empty,
}
use cnmsql.Base.Int64.{le64, sub64}
use cnmsql.Gtid.Interval.{Interval}
use cnmsql.Gtid.Parse.{parse_gtid_set}
use cnmsql.Gtid.Set
use cnmsql.Gtid.Set.{GtidSet, slot}
use cnmsql.Gtid.Texts.{difference_gtid_texts}
use cnmsql.Recovery.{archive_gap, Planned, ok, err, ◌>>◌, or_malformed, ReplayPlan}

-- What a source lacks before its first transaction, if the base backup does not hold the source.
abbrev pub missing_before : Bool → Text → List Interval → GtidSet → GtidSet
missing_before true uuid ivs missing = missing
missing_before false uuid [] missing = missing
missing_before false uuid (first ∷ ivs) missing =
    if le64 first.start 1
    then missing
    else Set.add_interval missing uuid (record { start = 1; end = sub64 first.start 1 })

-- The loop over the sources of the recovered set.
unfoldable pub add_leading : GtidSet → GtidSet → GtidSet → GtidSet
add_leading anchor [] missing = missing
add_leading anchor ((uuid, ivs) ∷ got) missing =
    add_leading anchor got (missing_before (not (is_empty (slot anchor uuid))) uuid ivs missing)

-- The transactions that nothing explains.
unfoldable pub unexplained : GtidSet → GtidSet → GtidSet → GtidSet
unfolding add_leading
unexplained anchor got disowned =
    Set.difference (add_leading anchor got (Set.holes got)) (Set.union disowned (Set.holes anchor))

abbrev pub report_gap : GtidSet → Planned (Unit {0})
report_gap gap = if Set.has_no_transactions gap then ok tt else err archive_gap

unfoldable pub check_mysql_gaps : Text → Text → Text → Planned (Unit {0})
unfolding unexplained
check_mysql_gaps anchor_gtid result disowned =
    or_malformed (parse_gtid_set anchor_gtid) >> λ anchor.
    or_malformed (parse_gtid_set result) >> λ got.
    or_malformed (parse_gtid_set disowned) >> λ expected.
    report_gap (unexplained anchor got expected)

abbrev pub report_missing : Text → Planned (Unit {0})
report_missing missing = if is_empty missing then ok tt else err archive_gap

abbrev pub check_included : Text → Text → Planned (Unit {0})
check_included include_gtids executed =
    if is_empty include_gtids
    then ok tt
    else (or_malformed (difference_gtid_texts include_gtids executed) >> report_missing)

unfoldable pub verify_replayed_gtids : ReplayPlan → Text → Text → Planned (Unit {0})
unfolding check_mysql_gaps
verify_replayed_gtids plan anchor_gtid executed = check_included plan.include_gtids executed >> λ _.
    check_mysql_gaps anchor_gtid executed plan.disowned_gtids
