-- ===== src/Recovery.antt =====
-- Planning a point-in-time recovery from the binary log archive: pkg/management/mysql/binlog/replay.go. A time is a
-- number of nanoseconds after the zero time; a stop time stands for its printed form. A plan's fork list, which the
-- restore log prints, and the fields that only the positional MariaDB replay fills in are left out.
pub mod Plan
pub mod Gaps
pub mod Forks
pub mod Mysql
use cnmsql.Base.{
  ℕ, ◌≡◌, refl, ap, Bool, true, false, ◌||◌, List, [], ◌∷◌, ◌++◌, Option, none, some, if◌then◌else◌,
  Text, codes, is_empty,
}
use cnmsql.Base.Split.{trim_space}
use cnmsql.Archive.{ArchiveFork, ArchiveSegment}
use cnmsql.Engine.{GtidModel}
use cnmsql.Gtid.Parse.{◌>>=◌, parse_gtid_set}
use cnmsql.Gtid.Print.{print_gtid_set}
use cnmsql.Gtid.Set
use cnmsql.Gtid.Set.{GtidSet}

-- The errors of the planner; `malformed` is a position or a record that cannot be read.
pub data PlanError : Type 0 where
  target_before_backup target_beyond_archive forked_timeline backup_on_dead_branch archive_gap :
      PlanError
  no_index malformed : PlanError

pub data Planned (A : Type 0) : Type 0 where
  ok : A → Planned A
  err : PlanError → Planned A

infixl 5 ◌>>◌
abbrev pub ◌>>◌ : {A B : Type 0} → Planned A → (A → Planned B) → Planned B
ok a >> f = f a
err e >> f = err e

abbrev pub or_malformed : {A : Type 0} → Option A → Planned A
or_malformed none = err malformed
or_malformed (some a) = ok a

-- What a step that went through did.
pub >>-eq-ok :
    {A B : Type 0} (m : Planned A) (f : A → Planned B) {b : B}
    → (m >> f) ≡ ok b
    → (a : A) × (m ≡ ok a) × (f a ≡ ok b)
>>-eq-ok (ok a) f h = (a, refl, h)
>>-eq-ok (err e) f h = cc

abbrev pub result : {A : Type 0} → Planned A → Option A
result (ok a) = some a
result (err e) = none

pub malformed-eq-ok : {A : Type 0} (o : Option A) {a : A} → or_malformed o ≡ ok a → o ≡ some a
malformed-eq-ok none h = cc
malformed-eq-ok (some a) h = ap result h

-- gtidOps: sets of one engine, made by `newSet` and `Parse`. A set is a value, so `Clone` is the set itself.
pub record GtidOps (S : Type 0) : Type 0 where
  pub parse : Text → Option S
  pub contains : S → S → Bool
  pub union : S → S → S
  pub is_blank : S → Bool
  pub string : S → Text

mysql_parse : Text → Option GtidSet
mysql_parse raw = if is_empty raw then some [] else parse_gtid_set raw

mysql_contains : GtidSet → GtidSet → Bool
mysql_contains m o = if Set.has_no_transactions o then true else Set.contains m o

-- mysqlGTIDSet.
unfoldable pub mysql_ops : GtidOps GtidSet
unfolding mysql_parse mysql_contains
mysql_ops = record {
  parse = mysql_parse;
  contains = mysql_contains;
  union = Set.union;
  is_blank = Set.has_no_transactions;
  string = print_gtid_set;
}

abbrev or_false : Option Bool → Bool
or_false none = false
or_false (some b) = b

abbrev or_raw : Text → Option Text → Text
or_raw raw none = raw
or_raw raw (some canonical) = canonical

-- mariadbGTIDSet: the text of a position, on the engine's model.
unfoldable pub mariadb_ops : GtidModel → GtidOps Text
mariadb_ops model = record {
  parse = λ raw. if is_empty raw then some raw else (model.canonical raw >>= λ _. some raw);
  contains = λ m o.
      if is_empty o then true else if is_empty m then false else or_false (model.contains m o);
  union = λ m o. if is_empty m then o else if is_empty o then m else trim_space (m ++ b',' ∷ o);
  is_blank = λ m. or_false (model.is_empty m);
  string = λ m. if is_empty m then [] else or_raw m (model.canonical m);
}

pub record RecoveryTarget : Type 0 where
  pub time : Option ℕ
  pub gtid : Text

pub record ReplaySegment : Type 0 where
  pub server_uuid : Text
  pub files : List Text
  pub gtid_set : Text
  pub fork : Option ArchiveFork

pub record ReplayPlan : Type 0 where
  pub segments : List ReplaySegment
  pub anchor_gtid : Text
  pub exclude_gtids : Text
  pub include_gtids : Text
  pub stop_datetime : Option ℕ
  pub disowned_gtids : Text
  pub fork_checked : Bool
  pub warnings : List Text

unfoldable pub replay_segment : ArchiveSegment → ReplaySegment
replay_segment seg = record {
  server_uuid = seg.server_uuid;
  files = seg.binlogs;
  gtid_set = seg.gtid_set;
  fork = seg.fork;
}
