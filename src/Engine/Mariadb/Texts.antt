-- ===== src/Engine/Mariadb/Texts.antt =====
-- The operations on the text of MariaDB positions.
use mathlib.Core.Path.{subst}
use cnmsql.Base.{
  ℕ, ◌≤◌, min, ◌≡◌, ◌↔◌, refl, ap, ◌∙◌, Bool, true, false, List, [], ◌∷◌, Option, none, some,
  some_inj, if◌then◌else◌, Text, lookup, HasDistinctKeys, nat_eq, arith, insert,
}
use cnmsql.Base.Int64.{max_int64}
use cnmsql.Base.Split.{split, strip_spaces}
use cnmsql.Base.Decimal.{parse_uint32, parse_uint64, parse_uint64-fits}
use cnmsql.Engine.{Ordering, ordering_from_containment}
use cnmsql.Engine.Mariadb.{
  MariaEntry, MariaPos, keep_highest, parse_triple, parse_triples, parse_cleaned, parse_maria_pos,
  contains, merge, union_positions, string, mariadb_compare, mariadb_missing_count, mariadb_union,
  replaces,
}
use cnmsql.Engine.Mariadb.Meaning.{
  IsBelow, contains_iff, reached, higher, IsSized, shortfall, missing_loop-shortfall, merge-reached,
  keep_highest-HasDistinctKeys,
}
use cnmsql.Gtid.Parse.Sound.{>>=-eq-some}

-- One entry for each domain, with sequence numbers of 64 bits.
pub record IsPosition (pos : MariaPos) : Type 0 where
  pub distinct : HasDistinctKeys pos
  pub sized : IsSized pos

insert-IsSized :
    (d : ℕ) (e : MariaEntry) (pos : MariaPos)
    → e.seq ≤ 18446744073709551615
    → IsSized pos
    → IsSized (insert d e pos)
unfolding insert
insert-IsSized d e [] he h = (he, tt)
insert-IsSized d e ((k, old) ∷ pos) he h = ground (arith, insert-IsSized d e pos he h.1)

keep_highest-IsPosition :
    (d : ℕ) (e : MariaEntry) (pos : MariaPos)
    → e.seq ≤ 18446744073709551615
    → IsPosition pos
    → IsPosition (keep_highest d e pos)
keep_highest-IsPosition d e pos he h = record {
  distinct = keep_highest-HasDistinctKeys d e pos h.distinct;
  sized = unfold keep_highest in sized (replaces e (lookup d pos));
}
  where
    sized : (b : Bool) → IsSized (if b then insert d e pos else pos)
    sized true = insert-IsSized d e pos he h.sized
    sized false = h.sized

parse_triple-sized :
    (parts : List Text) {t : ℕ × MariaEntry}
    → parse_triple parts ≡ some t
    → t.1.seq ≤ 18446744073709551615
unfolding parse_triple
parse_triple-sized [] h = cc
parse_triple-sized (a ∷ []) h = cc
parse_triple-sized (a ∷ b ∷ []) h = cc
parse_triple-sized (a ∷ b ∷ c ∷ []) h =
    let (domain, ed, hd) = >>=-eq-some (parse_uint32 a) _ h in
    let (server, es, hs) = >>=-eq-some (parse_uint32 b) _ hd in
    let (seq, eq, hq) = >>=-eq-some (parse_uint64 c) _ hs in
    subst (λ t. t.1.seq ≤ 18446744073709551615) (some_inj hq) (parse_uint64-fits c eq)
parse_triple-sized (a ∷ b ∷ c ∷ d ∷ rest) h = cc

parse_triples-IsPosition :
    (triples : List Text) (pos : MariaPos) {out : MariaPos}
    → IsPosition pos
    → parse_triples triples pos ≡ some out
    → IsPosition out
unfolding parse_triples
parse_triples-IsPosition [] pos hp h = subst IsPosition (some_inj h) hp
parse_triples-IsPosition (triple ∷ triples) pos hp h =
    let (t, e, rest) = >>=-eq-some (parse_triple (split b'-' triple)) _ h in
    parse_triples-IsPosition triples (keep_highest t.0 t.1 pos)
      (keep_highest-IsPosition t.0 t.1 pos (parse_triple-sized (split b'-' triple) e) hp) rest

empty-IsPosition : IsPosition []
empty-IsPosition = record { distinct = tt; sized = tt }

-- A position that is read has one entry for each domain, with a sequence number of 64 bits.
pub parse_maria_pos-IsPosition :
    (raw : Text) {pos : MariaPos} → parse_maria_pos raw ≡ some pos → IsPosition pos
unfolding parse_maria_pos
parse_maria_pos-IsPosition raw h = cleaned (strip_spaces raw) h
  where
    cleaned : (t : Text) {pos : MariaPos} → parse_cleaned t ≡ some pos → IsPosition pos
    cleaned [] h = subst IsPosition (some_inj (unfold parse_cleaned in h)) empty-IsPosition
    cleaned (c ∷ t) h =
        parse_triples-IsPosition (split b',' (c ∷ t)) [] empty-IsPosition
          (unfold parse_cleaned in h)

-- What each verdict claims of two positions.
abbrev pub Relates : Ordering → MariaPos → MariaPos → Type 0
Relates Ordering.equal a b = IsBelow b a × IsBelow a b
Relates Ordering.ahead a b = IsBelow b a × (¬ IsBelow a b)
Relates Ordering.behind a b = (¬ IsBelow b a) × IsBelow a b
Relates Ordering.diverged a b = (¬ IsBelow b a) × (¬ IsBelow a b)

containment-Relates :
    (ab ba : Bool) (a b : MariaPos)
    → (ab ≡ true) ↔ IsBelow b a
    → (ba ≡ true) ↔ IsBelow a b
    → Relates (ordering_from_containment ab ba) a b
unfolding ordering_from_containment
containment-Relates true true a b f g = (f.0 refl, g.0 refl)
containment-Relates true false a b f g = (f.0 refl, λ i. cc (g.1 i))
containment-Relates false true a b f g = (λ i. cc (f.1 i), g.0 refl)
containment-Relates false false a b f g = (λ i. cc (f.1 i), λ i. cc (g.1 i))

-- For MariaDB positions that can be read, `Compare` answers, and its verdict says which of them has reached, in
-- every domain, the sequence number of the other.
pub mariadb_compare-Relates :
    (a b : Text) {s t : MariaPos}
    → parse_maria_pos a ≡ some s
    → parse_maria_pos b ≡ some t
    → (o : Ordering) × (mariadb_compare a b ≡ some o) × Relates o s t
unfolding mariadb_compare
mariadb_compare-Relates a b {s} {t} pa pb = (
  ordering_from_containment (contains s t) (contains t s),
  rw (pa, pb),
  containment-Relates _ _ s t (contains_iff s t (parse_maria_pos-IsPosition b pb).distinct)
      (contains_iff t s (parse_maria_pos-IsPosition a pa).distinct),
)

-- For MariaDB positions that can be read, `MissingCount` is the sum over the domains of `want` of the sequence
-- numbers that `have` has not reached, held at `math.MaxInt64`.
pub mariadb_missing_count-shortfall :
    (have want : Text) {s t : MariaPos}
    → parse_maria_pos have ≡ some s
    → parse_maria_pos want ≡ some t
    → mariadb_missing_count have want ≡ some (min max_int64 (shortfall s t))
unfolding mariadb_missing_count
mariadb_missing_count-shortfall have want {s} {t} ph pw =
    rw
      (
        ph,
        pw,
        missing_loop-shortfall s t 0 (parse_maria_pos-IsPosition want pw).sized (omega arith),
      )
      (ap (λ x. some x) (omega arith))

-- The positions that a list of texts is read as.
abbrev pub Reads : List Text → List MariaPos → Type 0
Reads [] [] = Unit
Reads [] (p ∷ ps) = ⊥
Reads (t ∷ ts) [] = ⊥
Reads (t ∷ ts) (p ∷ ps) = (parse_maria_pos t ≡ some p) × Reads ts ps

-- The highest sequence number of a domain that any of the positions reached.
abbrev pub highest : List MariaPos → ℕ → Option ℕ
highest [] k = none
highest (p ∷ ps) k = higher (reached p k) (highest ps k)

higher_assoc : (a b c : Option ℕ) → higher b (higher a c) ≡ higher (higher a b) c
higher_assoc none b c = refl
higher_assoc (some a) none none = refl
higher_assoc (some a) none (some c) = refl
higher_assoc (some a) (some b) none = ap some (omega arith)
higher_assoc (some a) (some b) (some c) = ap some (omega arith)

higher-none : (a : Option ℕ) → higher a none ≡ a
higher-none none = refl
higher-none (some a) = refl

reached-nil : (k : ℕ) → reached [] k ≡ none
unfolding lookup
reached-nil k = refl

union_positions-highest :
    (raws : List Text) (ps : List MariaPos) (union : MariaPos)
    → Reads raws ps
    → (out : MariaPos) × (union_positions raws union ≡ some out)
      × ((k : ℕ) → reached out k ≡ higher (highest ps k) (reached union k))
unfolding union_positions
union_positions-highest [] [] union h = (union, refl, λ k. refl)
union_positions-highest [] (p ∷ ps) union h = absurd h
union_positions-highest (raw ∷ raws) [] union h = absurd h
union_positions-highest (raw ∷ raws) (p ∷ ps) union h =
    let (out, e, r) = union_positions-highest raws ps (merge p union) h.1 in
    (
      out,
      rw h.0 e,
      λ k.
          r k
          ∙ rw (merge-reached p union k (parse_maria_pos-IsPosition raw h.0).distinct)
              (higher_assoc (reached p k) (highest ps k) (reached union k)),
    )

-- The union of MariaDB positions that can be read is a position that reached, in each domain, the highest sequence
-- number that any of them reached.
pub mariadb_union-highest :
    (raws : List Text) (ps : List MariaPos)
    → Reads raws ps
    → (out : MariaPos) × (mariadb_union raws ≡ some (string out))
      × ((k : ℕ) → reached out k ≡ highest ps k)
unfolding mariadb_union
mariadb_union-highest raws ps h =
    let (out, e, r) = union_positions-highest raws ps [] h in
    (
      out,
      rw e,
      λ k. r k ∙ ap (λ o. higher (highest ps k) o) (reached-nil k) ∙ higher-none (highest ps k),
    )
