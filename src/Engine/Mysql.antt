-- ===== src/Engine/Mysql.antt =====
-- mysqlGTID: pkg/engine/gtid_mysql.go.
pub mod Meaning
use cnmsql.Base.{ℕ, Bool, Option, some, Text, List}
use cnmsql.Engine.{Ordering, ordering_from_containment, GtidModel}
use cnmsql.Gtid.Parse.{◌>>=◌, parse_gtid_set}
use cnmsql.Gtid.Print.{print_gtid_set}
use cnmsql.Gtid.Set
use cnmsql.Gtid.Texts.{gtid_contains, union_gtid_texts}

pub missing_count : Text → Text → Option ℕ
missing_count have want = do
  set_have ← parse_gtid_set have
  set_want ← parse_gtid_set want
  some (Set.missing_count set_have set_want)

equal : Text → Text → Option Bool
equal a b = do set_a ← parse_gtid_set a; set_b ← parse_gtid_set b; some (Set.equal set_a set_b)

pub compare : Text → Text → Option Ordering
compare a b = do
  set_a ← parse_gtid_set a
  set_b ← parse_gtid_set b
  some (ordering_from_containment (Set.contains set_a set_b) (Set.contains set_b set_a))

is_empty : Text → Option Bool
is_empty raw = do set ← parse_gtid_set raw; some (Set.has_no_transactions set)

canonical : Text → Option Text
canonical raw = do set ← parse_gtid_set raw; some (print_gtid_set set)

unfoldable pub mysql_gtid : GtidModel
unfolding missing_count equal compare is_empty canonical
mysql_gtid = record {
  contains = gtid_contains;
  missing_count = missing_count;
  union = union_gtid_texts;
  equal = equal;
  compare = compare;
  is_empty = is_empty;
  canonical = canonical;
}
