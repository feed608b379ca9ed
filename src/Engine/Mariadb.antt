-- ===== src/Engine/Mariadb.antt =====
-- mariadbGTID: pkg/engine/gtid_mariadb.go. A position is an association list from domains.
pub mod Meaning
pub mod Texts
use cnmsql.Base.{
  ℕ, ◌+◌, ◌-◌, ◌%◌, Bool, true, false, ◌&&◌, List, [], ◌∷◌, ◌++◌, map, Option, none, some,
  if◌then◌else◌, Text, ltb, leb, lookup, insert, nat_eq, is_empty, sort,
}
use cnmsql.Base.Decimal.{parse_uint32, parse_uint64, format_uint}
use cnmsql.Base.Int64.{max_int64, add64, sub64, lt64}
use cnmsql.Base.Split.{split, strip_spaces}
use cnmsql.Engine.{Ordering, ordering_from_containment, GtidModel}
use cnmsql.Gtid.Parse.{◌>>=◌}

pub record MariaEntry : Type 0 where
  pub server : ℕ
  pub seq : ℕ

abbrev pub MariaPos : Type 0
MariaPos = List (ℕ × MariaEntry)

-- `if existing, ok := pos[domain]; !ok || e.seq >= existing.seq { pos[domain] = e }`.
abbrev pub replaces : MariaEntry → Option MariaEntry → Bool
replaces e none = true
replaces e (some existing) = leb existing.seq e.seq

unfoldable pub keep_highest : ℕ → MariaEntry → MariaPos → MariaPos
keep_highest domain e pos = if replaces e (lookup domain pos) then insert domain e pos else pos

unfoldable pub parse_triple : List Text → Option (ℕ × MariaEntry)
parse_triple (d ∷ sv ∷ sq ∷ []) = do
  domain ← parse_uint32 d
  server ← parse_uint32 sv
  seq ← parse_uint64 sq
  some (domain, record { server = server; seq = seq })
parse_triple parts = none

unfoldable pub parse_triples : List Text → MariaPos → Option MariaPos
unfolding parse_triple keep_highest
parse_triples [] pos = some pos
parse_triples (triple ∷ triples) pos = do
  read ← parse_triple (split b'-' triple)
  parse_triples triples (keep_highest read.0 read.1 pos)

parse_cleaned : Text → Option MariaPos
unfolding parse_triples
parse_cleaned [] = some []
parse_cleaned (c ∷ s) = parse_triples (split b',' (c ∷ s)) []

unfoldable pub parse_maria_pos : Text → Option MariaPos
unfolding parse_cleaned
parse_maria_pos raw = parse_cleaned (strip_spaces raw)

abbrev pub reaches : Option MariaEntry → MariaEntry → Bool
reaches none e = false
reaches (some mine) e = leb e.seq mine.seq

unfoldable pub contains : MariaPos → MariaPos → Bool
contains super [] = true
contains super ((domain, e) ∷ sub) =
    let rest = contains super sub in if reaches (lookup domain super) e then rest else false

-- `addSaturating`; both numbers are bit patterns.
unfoldable pub add_saturating : ℕ → ℕ → ℕ
add_saturating total n =
    if ltb max_int64 n
    then max_int64
    else if lt64 (sub64 max_int64 total) n
    then max_int64
    else add64 total n

-- What one domain adds to the missing count.
abbrev pub add_domain : Option MariaEntry → MariaEntry → ℕ → ℕ
add_domain none wanted missing = add_saturating missing wanted.seq
add_domain (some mine) wanted missing =
    if ltb mine.seq wanted.seq
    then add_saturating missing
        ((wanted.seq + 18446744073709551616 - mine.seq) % 18446744073709551616)
    else missing

-- The loop of `MissingCount`.
unfoldable pub missing_loop : MariaPos → MariaPos → ℕ → ℕ
missing_loop have [] missing = missing
missing_loop have ((domain, wanted) ∷ want) missing =
    missing_loop have want (add_domain (lookup domain have) wanted missing)

unfoldable pub merge : MariaPos → MariaPos → MariaPos
unfolding keep_highest
merge [] union = union
merge ((domain, e) ∷ pos) union = merge pos (keep_highest domain e union)

print_triple : ℕ → Option MariaEntry → Text
print_triple domain none = []
print_triple domain (some e) =
    format_uint domain ++ b'-' ∷ (format_uint e.server ++ b'-' ∷ format_uint e.seq)

print_domains : MariaPos → List ℕ → Text
unfolding print_triple
print_domains pos [] = []
print_domains pos (d ∷ []) = print_triple d (lookup d pos)
print_domains pos (d ∷ d' ∷ ds) =
    print_triple d (lookup d pos) ++ b',' ∷ print_domains pos (d' ∷ ds)

unfoldable pub string : MariaPos → Text
unfolding print_domains
string pos = print_domains pos (sort ltb (map (λ entry. entry.0) pos))

unfoldable pub mariadb_contains : Text → Text → Option Bool
mariadb_contains superset subset = do
  super ← parse_maria_pos superset
  sub ← parse_maria_pos subset
  some (contains super sub)

unfoldable pub mariadb_missing_count : Text → Text → Option ℕ
mariadb_missing_count have want = do
  pos_have ← parse_maria_pos have
  pos_want ← parse_maria_pos want
  some (missing_loop pos_have pos_want 0)

unfoldable pub union_positions : List Text → MariaPos → Option MariaPos
unfolding merge
union_positions [] union = some union
union_positions (raw ∷ sets) union = do
  pos ← parse_maria_pos raw
  union_positions sets (merge pos union)

unfoldable pub mariadb_union : List Text → Option Text
unfolding union_positions string
mariadb_union sets = do union ← union_positions sets []; some (string union)

pub mariadb_equal : Text → Text → Option Bool
mariadb_equal a b = do
  pos_a ← parse_maria_pos a
  pos_b ← parse_maria_pos b
  some (contains pos_a pos_b && contains pos_b pos_a)

pub mariadb_compare : Text → Text → Option Ordering
mariadb_compare a b = do
  pos_a ← parse_maria_pos a
  pos_b ← parse_maria_pos b
  some (ordering_from_containment (contains pos_a pos_b) (contains pos_b pos_a))

pub mariadb_is_empty : Text → Option Bool
mariadb_is_empty raw = do pos ← parse_maria_pos raw; some (is_empty pos)

pub mariadb_canonical : Text → Option Text
mariadb_canonical raw = do pos ← parse_maria_pos raw; some (string pos)

unfoldable pub mariadb_gtid : GtidModel
mariadb_gtid = record {
  contains = mariadb_contains;
  missing_count = mariadb_missing_count;
  union = mariadb_union;
  equal = mariadb_equal;
  compare = mariadb_compare;
  is_empty = mariadb_is_empty;
  canonical = mariadb_canonical;
}
