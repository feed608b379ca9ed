-- ===== src/Tests/Recovery.antt =====
-- Recovery from the archive: pkg/management/mysql/binlog/replay.go.
use cnmsql.Base.{
  ℕ, ◌≡◌, refl, false, [], ◌∷◌, none, some, Text, codes, text_eq, lookup, insert, sort, text_lt,
  to_lower,
}
use cnmsql.Archive.{ArchiveIndex, ArchiveSegment}
use cnmsql.Archive.Update.{zero_index}
use cnmsql.Base.Decimal.{parse_int64, format_int64, format_uint}
use cnmsql.Base.Int64.{lt64, le64, add64, sub64, min64, max64}
use cnmsql.Base.Split.{split, cut, strip_spaces}
use cnmsql.Gtid.Interval.{Interval, normalize_intervals, intervals_cover, minus, minus_all}
use cnmsql.Gtid.Parse.{parse_gtid_set, parse_interval}
use cnmsql.Gtid.Print.{print_gtid_set}
use cnmsql.Gtid.Set.{
  GtidSet, slot, has_no_transactions, union, contains, difference, holes, add_interval,
}
use cnmsql.Recovery.{replay_segment, ok, mysql_ops, RecoveryTarget, ReplayPlan}
use cnmsql.Recovery.Gaps.{check_mysql_gaps}
use cnmsql.Recovery.Gaps.Meaning.{IsGapless, check_mysql_gaps-IsGapless}
use cnmsql.Recovery.Plan.{plan_replay_with_ops}
use cnmsql.Recovery.Plan.Complete.{IsComplete, plan_replay-IsComplete}

segment : Text → Text → ArchiveSegment
segment uuid set = record {
  server_uuid = uuid;
  instance_name = uuid;
  binlogs = codes "x" ∷ [];
  gtid_set = set;
  start_gtid_set = [];
  fork = none;
  started_at = 1;
  ended_at = 2;
}

-- The first segment is in the backup already.
abbrev index : ArchiveIndex
index = record zero_index {
  segments = segment (codes "a") (codes "a:1-4") ∷ segment (codes "b") (codes "a:3-6,b:1-2") ∷ [];
  covered_gtid_set = codes "a:1-6,b:1-2";
}

abbrev target : RecoveryTarget
target = record { time = none; gtid = codes "a:1-5" }

abbrev planned : ReplayPlan
planned = record {
  segments =
      record {
        server_uuid = codes "b";
        files = codes "x" ∷ [];
        gtid_set = codes "a:3-6,b:1-2";
        fork = none;
      }
      ∷ [];
  anchor_gtid = codes "a:1-4";
  exclude_gtids = codes "a:1-4";
  include_gtids = codes "a:1-5";
  stop_datetime = none;
  disowned_gtids = [];
  fork_checked = false;
  warnings = [];
}

plans : plan_replay_with_ops mysql_ops (some index) (codes "a:1-4") target ≡ ok planned
unfolding plan_replay_with_ops mysql_ops parse_gtid_set strip_spaces split to_lower parse_interval
    cut parse_int64 lt64 le64 add64 insert lookup text_eq normalize_intervals slot sort segment
    has_no_transactions union contains print_gtid_set replay_segment intervals_cover text_lt
    format_int64 add_interval format_uint
plans = refl

plan_replay-IsComplete_example : IsComplete index (codes "a:1-4") target planned
plan_replay-IsComplete_example = plan_replay-IsComplete index (codes "a:1-4") target plans

-- The backup has a hole of its own, and the recovered server one more, which was disowned.
abbrev at : ℕ → ℕ → Interval
at start end = record { start = start; end = end }

abbrev anchor : GtidSet
anchor = (codes "a", at 1 4 ∷ at 6 6 ∷ []) ∷ []

abbrev recovered : GtidSet
recovered = (codes "a", at 1 4 ∷ at 6 6 ∷ at 8 9 ∷ []) ∷ []

abbrev disowned : GtidSet
disowned = (codes "a", at 7 7 ∷ []) ∷ []

read_anchor : parse_gtid_set (codes "a:1-4:6") ≡ some anchor
unfolding parse_gtid_set strip_spaces split to_lower parse_interval cut parse_int64 lt64 le64 add64
    insert lookup text_eq normalize_intervals slot sort
read_anchor = refl

read_recovered : parse_gtid_set (codes "a:1-4:6:8-9") ≡ some recovered
unfolding parse_gtid_set strip_spaces split to_lower parse_interval cut parse_int64 lt64 le64 add64
    insert lookup text_eq normalize_intervals slot sort
read_recovered = refl

read_disowned : parse_gtid_set (codes "a:7") ≡ some disowned
unfolding parse_gtid_set strip_spaces split to_lower parse_interval cut parse_int64 lt64 le64 add64
    insert lookup text_eq normalize_intervals slot sort
read_disowned = refl

passes : check_mysql_gaps (codes "a:1-4:6") (codes "a:1-4:6:8-9") (codes "a:7") ≡ ok tt
unfolding check_mysql_gaps parse_gtid_set strip_spaces split to_lower parse_interval cut parse_int64
    lt64 le64 add64 sub64 insert lookup text_eq normalize_intervals slot sort has_no_transactions
    union difference holes minus_all add_interval minus min64 max64
passes = refl

check_mysql_gaps-IsGapless_example : IsGapless anchor recovered disowned
check_mysql_gaps-IsGapless_example =
    check_mysql_gaps-IsGapless (codes "a:1-4:6") (codes "a:1-4:6:8-9") (codes "a:7") read_anchor
      read_recovered read_disowned passes
