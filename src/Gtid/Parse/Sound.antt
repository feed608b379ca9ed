-- ===== src/Gtid/Parse/Sound.antt =====
-- Whatever ParseGTIDSet returns is well formed.
use mathlib.Core.Path.{subst}
use cnmsql.Base.{
  some_inj, ℕ, ◌≤◌, ◌≡◌, refl, false, List, [], ◌∷◌, ◌++◌, Option, none, some, Text, to_lower,
  insert, lookup, HasDistinctKeys, insert-HasDistinctKeys, text_Eq, text_eq, is_empty, All,
  All-append, arith, Bool-cases, inl, inr,
}
use cnmsql.Base.Decimal.{parse_int64, parse_int64-fits}
use cnmsql.Base.Int64.{lt64, lt64_positive, lt64_ordered}
use cnmsql.Base.Split.{split, cut, strip_spaces}
use cnmsql.Gtid.Interval.{Interval, IsInterval}
use cnmsql.Gtid.Interval.Normal.{normalize_intervals-IsNormal, normalize_intervals-occupied}
use cnmsql.Gtid.Set.{GtidSet, slot, IsGtidSet}
use cnmsql.Gtid.Set.Meaning.{slot-cons, slot-nil}
use cnmsql.Gtid.Set.Merge.{to_lower_idem}
use cnmsql.Gtid.Parse.{
  ◌>>=◌, checked, parse_ends, parse_interval, parse_intervals, parse_source, parse_sources,
  normalize_all, parse_cleaned, parse_gtid_set,
}

pub >>=-eq-some {ℓ κ} :
    {A : Type ℓ} {B : Type κ} (m : Option A) (f : A → Option B) {b : B}
    → (m >>= f) ≡ some b
    → (a : A) × (m ≡ some a) × (f a ≡ some b)
>>=-eq-some none f h = cc
>>=-eq-some (some a) f h = (a, refl, h)

checked-IsInterval :
    (start end : ℕ) {iv : Interval}
    → start ≤ 18446744073709551615
    → end ≤ 18446744073709551615
    → checked start end ≡ some iv
    → IsInterval iv
unfolding checked
checked-IsInterval start end hs he h = elim (Bool-cases (lt64 start 1)) [
  | inl e ↦ cc (rw e at h)
  | inr e ↦ elim (Bool-cases (lt64 end start)) [
    | inl f ↦ cc (rw (e, f) at h)
    | inr f ↦
        let p = lt64_positive start hs e in
        let q = lt64_ordered start end p.1 he f in ground (arith, rw (e, f) at h)
  ]
]

-- `parseInterval` lets only valid ranges through.
pub parse_interval-IsInterval :
    (s : Text) {iv : Interval} → parse_interval s ≡ some iv → IsInterval iv
unfolding parse_interval
parse_interval-IsInterval s h = ends (cut b'-' s) h
  where
    ends : (parts : Text × Option Text) {iv : Interval} → parse_ends parts ≡ some iv → IsInterval iv
    ends (lo, none) h =
        let (start, e, c) = >>=-eq-some (parse_int64 lo) _ (unfold parse_ends in h) in
        checked-IsInterval start start (parse_int64-fits lo e) (parse_int64-fits lo e) c
    ends (lo, some hi) h =
        let (start, e, rest) = >>=-eq-some (parse_int64 lo) _ (unfold parse_ends in h) in
        let (end, e', c) = >>=-eq-some (parse_int64 hi) _ rest in
        checked-IsInterval start end (parse_int64-fits lo e) (parse_int64-fits hi e') c

-- An entry while the text is read: its ranges are valid and stand in the order of the text.
record IsDraft (entry : Text × List Interval) : Type 0 where
  lowered : to_lower entry.0 ≡ entry.0
  valid : All IsInterval entry.1
  occupied : is_empty entry.1 ≡ false

abbrev IsDraftSet : GtidSet → Type 0
IsDraftSet s = HasDistinctKeys s × All IsDraft s

insert-IsDraft :
    (u : Text) (ivs : List Interval) (s : GtidSet)
    → IsDraft (u, ivs)
    → All IsDraft s
    → All IsDraft (insert u ivs s)
unfolding insert
insert-IsDraft u ivs [] hu hs = (hu, tt)
insert-IsDraft u ivs ((v, old) ∷ s) hu hs = elim (Bool-cases (text_eq v u)) [
  | inl e ↦ rw e (record { lowered = hs.0.lowered; valid = hu.valid; occupied = hu.occupied }, hs.1)
  | inr e ↦ rw e (hs.0, insert-IsDraft u ivs s hu hs.1)
]

slot-valid : (s : GtidSet) (u : Text) → All IsDraft s → All IsInterval (slot s u)
slot-valid [] u h = rw (slot-nil u) tt
slot-valid ((v, ivs) ∷ s) u h =
    rw (slot-cons u v ivs s) (elim (Bool-cases (text_eq v u)) [
      | inl e ↦ rw e h.0.valid
      | inr e ↦ rw e (slot-valid s u h.1)
    ])

append-occupied : (xs : List Interval) (iv : Interval) → is_empty (xs ++ iv ∷ []) ≡ false
append-occupied [] iv = refl
append-occupied (x ∷ xs) iv = refl

parse_intervals-IsDraftSet :
    (u : Text) (parts : List Text) (s : GtidSet) {t : GtidSet}
    → to_lower u ≡ u
    → IsDraftSet s
    → parse_intervals u parts s ≡ some t
    → IsDraftSet t
unfolding parse_intervals
parse_intervals-IsDraftSet u [] s hl hs h = subst IsDraftSet (some_inj h) hs
parse_intervals-IsDraftSet u (part ∷ parts) s hl hs h =
    let (iv, e, rest) = >>=-eq-some (parse_interval part) _ h in
    parse_intervals-IsDraftSet u parts (insert u (slot s u ++ iv ∷ []) s) hl
      (
        insert-HasDistinctKeys u _ s hs.0,
        insert-IsDraft u _ s
            (record {
              lowered = hl;
              valid =
                  All-append IsInterval _ _ (slot-valid s u hs.1)
                    (parse_interval-IsInterval part e, tt);
              occupied = append-occupied (slot s u) iv;
            })
            hs.1,
      )
      rest

parse_source-IsDraftSet :
    (parts : List Text) (s : GtidSet) {t : GtidSet}
    → IsDraftSet s
    → parse_source parts s ≡ some t
    → IsDraftSet t
unfolding parse_source
parse_source-IsDraftSet [] s hs h = cc
parse_source-IsDraftSet (u ∷ []) s hs h = cc
parse_source-IsDraftSet (u ∷ part ∷ parts) s hs h = elim (Bool-cases (is_empty (to_lower u))) [
  | inl e ↦ cc (rw e at h)
  | inr e ↦
      parse_intervals-IsDraftSet (to_lower u) (part ∷ parts) s (to_lower_idem u) hs (rw e at h)
]

parse_sources-IsDraftSet :
    (sources : List Text) (s : GtidSet) {t : GtidSet}
    → IsDraftSet s
    → parse_sources sources s ≡ some t
    → IsDraftSet t
unfolding parse_sources
parse_sources-IsDraftSet [] s hs h = subst IsDraftSet (some_inj h) hs
parse_sources-IsDraftSet (source ∷ sources) s hs h =
    let (s', e, rest) = >>=-eq-some (parse_source (split b':' source) s) _ h in
    parse_sources-IsDraftSet sources s' (parse_source-IsDraftSet (split b':' source) s hs e) rest

lookup-normalize_all :
    (u : Text) (s : GtidSet) → lookup u s ≡ none → lookup u (normalize_all s) ≡ none
unfolding lookup normalize_all
lookup-normalize_all u [] h = refl
lookup-normalize_all u ((v, ivs) ∷ s) h = ground (arith, lookup-normalize_all u s)

normalize_all-IsGtidSet : (s : GtidSet) → IsDraftSet s → IsGtidSet (normalize_all s)
unfolding normalize_all
normalize_all-IsGtidSet [] h = record { distinct = tt; entries = tt }
normalize_all-IsGtidSet ((u, ivs) ∷ s) (hd, hs) =
    let rest = normalize_all-IsGtidSet s (hd.1, hs.1) in
    record {
      distinct = (lookup-normalize_all u s hd.0, rest.distinct);
      entries = (
        record {
          lowered = hs.0.lowered;
          normal = normalize_intervals-IsNormal ivs hs.0.valid;
          occupied = normalize_intervals-occupied ivs hs.0.valid hs.0.occupied;
        },
        rest.entries,
      );
    }

-- A text that `ParseGTIDSet` accepts yields a well-formed set.
pub parse_gtid_set-IsGtidSet :
    (raw : Text) {s : GtidSet} → parse_gtid_set raw ≡ some s → IsGtidSet s
unfolding parse_gtid_set
parse_gtid_set-IsGtidSet raw h = cleaned (strip_spaces raw) h
  where
    cleaned : (t : Text) {s : GtidSet} → parse_cleaned t ≡ some s → IsGtidSet s
    cleaned [] h =
        subst IsGtidSet (some_inj (unfold parse_cleaned in h))
          (record { distinct = tt; entries = tt })
    cleaned (c ∷ t) h =
        let (drafts, e, n) =
          >>=-eq-some (parse_sources (split b',' (c ∷ t)) []) _ (unfold parse_cleaned in h) in
        subst IsGtidSet (some_inj n) (
          normalize_all-IsGtidSet drafts
            (parse_sources-IsDraftSet (split b',' (c ∷ t)) [] (tt, tt) e))
