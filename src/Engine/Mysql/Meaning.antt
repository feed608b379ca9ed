-- ===== src/Engine/Mysql/Meaning.antt =====
-- What Compare and MissingCount say of two MySQL positions.
use cnmsql.Base.{min, ◌≡◌, ◌↔◌, refl, Bool, true, false, some, Text}
use cnmsql.Base.Int64.{max_int64}
use cnmsql.Engine.{Ordering, ordering_from_containment}
use cnmsql.Engine.Mysql.{compare, missing_count}
use cnmsql.Gtid.Parse.{parse_gtid_set}
use cnmsql.Gtid.Parse.Sound.{parse_gtid_set-IsGtidSet}
use cnmsql.Gtid.Set
use cnmsql.Gtid.Set.{GtidSet, IsGtidSet}
use cnmsql.Gtid.Set.Containment.{IsIncluded, contains_iff}
use cnmsql.Gtid.Set.Missing.{total, missing_count-total}

-- What each verdict claims of the transactions of the two sides.
abbrev pub Relates : Ordering → GtidSet → GtidSet → Type 0
Relates Ordering.equal a b = IsIncluded b a × IsIncluded a b
Relates Ordering.ahead a b = IsIncluded b a × (¬ IsIncluded a b)
Relates Ordering.behind a b = (¬ IsIncluded b a) × IsIncluded a b
Relates Ordering.diverged a b = (¬ IsIncluded b a) × (¬ IsIncluded a b)

ordering-Relates :
    (a b : GtidSet)
    → IsGtidSet a
    → IsGtidSet b
    → Relates (ordering_from_containment (Set.contains a b) (Set.contains b a)) a b
unfolding ordering_from_containment
ordering-Relates a b ha hb =
    relates (Set.contains a b) (Set.contains b a) (contains_iff a b ha hb) (contains_iff b a hb ha)
  where
    relates :
        (ab ba : Bool)
        → (ab ≡ true) ↔ IsIncluded b a
        → (ba ≡ true) ↔ IsIncluded a b
        → Relates (ordering_from_containment ab ba) a b
    relates true true f g = (f.0 refl, g.0 refl)
    relates true false f g = (f.0 refl, λ i. cc (g.1 i))
    relates false true f g = (λ i. cc (f.1 i), g.0 refl)
    relates false false f g = (λ i. cc (f.1 i), λ i. cc (g.1 i))

-- For positions that can be parsed, `Compare` answers, and its verdict says which side's
-- transactions are all on the other side.
pub compare-Relates :
    (a b : Text) {s t : GtidSet}
    → parse_gtid_set a ≡ some s
    → parse_gtid_set b ≡ some t
    → (o : Ordering) × (compare a b ≡ some o) × Relates o s t
unfolding compare
compare-Relates a b {s} {t} pa pb = (
  ordering_from_containment (Set.contains s t) (Set.contains t s),
  rw (pa, pb),
  ordering-Relates s t (parse_gtid_set-IsGtidSet a pa) (parse_gtid_set-IsGtidSet b pb),
)

-- For positions that can be parsed, `MissingCount` is the number of transactions of the second that
-- the first lacks, held at `math.MaxInt64`.
mysql-missing_count :
    (have want : Text) {s t : GtidSet}
    → parse_gtid_set have ≡ some s
    → parse_gtid_set want ≡ some t
    → missing_count have want ≡ some (min max_int64 (total (Set.difference t s)))
unfolding missing_count
mysql-missing_count have want {s} {t} ph pw = rw (
  ph,
  pw,
  missing_count-total s t (parse_gtid_set-IsGtidSet have ph) (parse_gtid_set-IsGtidSet want pw),
)
