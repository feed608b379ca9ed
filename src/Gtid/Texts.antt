-- ===== src/Gtid/Texts.antt =====
-- The functions on GTID set strings of pkg/management/mysql/replication/gtid.go.
use cnmsql.Base.{Bool, not, List, [], ◌∷◌, Option, some, Text}
use cnmsql.Gtid.Parse.{◌>>=◌, parse_gtid_set}
use cnmsql.Gtid.Print.{print_gtid_set}
use cnmsql.Gtid.Set
use cnmsql.Gtid.Set.{GtidSet}

union_texts : List Text → GtidSet → Option GtidSet
union_texts [] union = some union
union_texts (raw ∷ sets) union = do
  parsed ← parse_gtid_set raw
  union_texts sets (Set.union union parsed)

unfoldable pub union_gtid_texts : List Text → Option Text
unfolding union_texts
union_gtid_texts sets = do union ← union_texts sets []; some (print_gtid_set union)

unfoldable pub gtid_contains : Text → Text → Option Bool
gtid_contains superset subset = do
  super ← parse_gtid_set superset
  sub ← parse_gtid_set subset
  some (Set.contains super sub)

unfoldable pub difference_gtid_texts : Text → Text → Option Text
difference_gtid_texts a b = do
  set_a ← parse_gtid_set a
  set_b ← parse_gtid_set b
  some (print_gtid_set (Set.difference set_a set_b))

unfoldable pub intersects_gtid_texts : Text → Text → Option Bool
intersects_gtid_texts a b = do
  set_a ← parse_gtid_set a
  set_b ← parse_gtid_set b
  some (not (Set.equal (Set.difference set_a set_b) set_a))

unfoldable pub holes_gtid_text : Text → Option Text
holes_gtid_text raw = do set ← parse_gtid_set raw; some (print_gtid_set (Set.holes set))

unfoldable pub intersect_gtid_texts : Text → Text → Option Text
intersect_gtid_texts a b = do
  set_a ← parse_gtid_set a
  set_b ← parse_gtid_set b
  some (print_gtid_set (Set.intersect set_a set_b))
