-- ===== src/Gtid/Set/Merge.antt =====
-- AddInterval and Union: what the merged sets hold, and that they are well formed.
use cnmsql.Base.{
  ℕ, ◌≡◌, refl, ◌∙◌, Bool, true, false, ◌&&◌, ◌||◌, List, [], ◌∷◌, ◌++◌, All, All-append, Text,
  to_lower, lower, lookup, insert-HasDistinctKeys, text_Eq, text_eq, text_eq_iff, is_empty, arith,
  Bool-cases, inl, inr, any-append,
}
use cnmsql.Gtid.Interval.{Interval, normalize_intervals, member, covers, IsInterval, IsNormal}
use cnmsql.Gtid.Interval.Normal.{normalize_intervals-member, normalize_intervals-IsNormal}
use cnmsql.Gtid.Set.{GtidSet, slot, add_interval, add_intervals, union, holds, IsGtidSet}
use cnmsql.Gtid.Set.Meaning.{slot-insert, holds-cons, slot-IsNormal, slot_absent, insert-IsEntry}

lower_idem : (c : ℕ) → lower (lower c) ≡ lower c
lower_idem c = ground arith

pub to_lower_idem : (t : Text) → to_lower (to_lower t) ≡ to_lower t
unfolding to_lower
to_lower_idem [] = refl
to_lower_idem (c ∷ t) = cc (lower_idem c, to_lower_idem t)

pub IsNormal-All : (ivs : List Interval) → IsNormal ivs → All IsInterval ivs
IsNormal-All [] h = tt
IsNormal-All (iv ∷ ivs) h = (h.0, IsNormal-All ivs h.2)

module _ (s : GtidSet) (u : Text) (iv : Interval) (hs : IsGtidSet s) (hv : IsInterval iv) where
  merged : List Interval
  merged = slot s (to_lower u) ++ iv ∷ []

  merged-IsInterval : All IsInterval merged
  unfolding merged
  merged-IsInterval =
      All-append IsInterval _ _ (IsNormal-All _ (slot-IsNormal s (to_lower u) hs.entries)) (hv, tt)

  merged-member :
      (n : ℕ) → member n (normalize_intervals merged) ≡ (holds s (to_lower u) n || covers n iv)
  unfolding merged
  merged-member n =
      normalize_intervals-member n merged merged-IsInterval
      ∙ any-append (covers n) (slot s (to_lower u)) (iv ∷ [])
      ∙ ground arith

  merged-is_empty : is_empty (normalize_intervals merged) ≡ false
  merged-is_empty = some_member _ (merged-member iv.start ∙ ground arith)
    where
      some_member : (ivs : List Interval) → member iv.start ivs ≡ true → is_empty ivs ≡ false
      some_member [] h = cc
      some_member (x ∷ ivs) h = refl

  -- Adding a range adds its transactions to the lower-cased source, and nothing else.
  pub holds-add_interval :
      (w : Text) (n : ℕ)
      → holds (add_interval s u iv) w n ≡ (holds s w n || (text_eq (to_lower u) w && covers n iv))
  unfolding add_interval merged
  holds-add_interval w n =
      rw (slot-insert w (to_lower u) (normalize_intervals merged) s)
        (elim (Bool-cases (text_eq (to_lower u) w)) [
          | inl e ↦ rw (e, ← (text_eq_iff (to_lower u) w).0 e) (merged-member n)
          | inr e ↦ rw e (ground arith)
        ])

  pub add_interval-IsGtidSet : IsGtidSet (add_interval s u iv)
  unfolding add_interval merged
  add_interval-IsGtidSet = record {
    distinct = insert-HasDistinctKeys _ _ s hs.distinct;
    entries =
        insert-IsEntry (to_lower u) (normalize_intervals merged) s
          (record {
            lowered = to_lower_idem u;
            normal = normalize_intervals-IsNormal merged merged-IsInterval;
            occupied = merged-is_empty;
          })
          hs.entries;
  }

add_intervals-lem :
    (s : GtidSet) (u : Text) (ivs : List Interval)
    → IsGtidSet s
    → All IsInterval ivs
    → IsGtidSet (add_intervals s u ivs)
      × ((w : Text) (n : ℕ)
          → holds (add_intervals s u ivs) w n
            ≡ (holds s w n || (text_eq (to_lower u) w && member n ivs)))
unfolding add_intervals
add_intervals-lem s u [] hs hi = (hs, λ w n. ground arith)
add_intervals-lem s u (iv ∷ ivs) hs hi =
    let rest =
      add_intervals-lem (add_interval s u iv) u ivs (add_interval-IsGtidSet s u iv hs hi.0) hi.1 in
    (rest.0, λ w n. rest.1 w n ∙ ground (arith, holds-add_interval s u iv hs hi.0 w n))

union_lem :
    (s other : GtidSet)
    → IsGtidSet s
    → IsGtidSet other
    → IsGtidSet (union s other)
      × ((w : Text) (n : ℕ) → holds (union s other) w n ≡ (holds s w n || holds other w n))
unfolding union
union_lem s [] hs ho = (hs, λ w n. rw (slot_absent [] w (unfold lookup in refl)) (ground arith))
union_lem s ((v, ivs) ∷ other) hs ho =
    let ho' : IsGtidSet other = record { distinct = ho.distinct.1; entries = ho.entries.1 } in
    let first = add_intervals-lem s v ivs hs (IsNormal-All ivs ho.entries.0.normal) in
    let rest = union_lem (add_intervals s v ivs) other first.0 ho' in
    (
      rest.0,
      λ w n.
          rest.1 w n
          ∙ rw (first.1 w n, ho.entries.0.lowered, holds-cons v ivs other w n ho.distinct.0)
              (or_assoc (holds s w n) (text_eq v w && member n ivs) (holds other w n)),
    )
  where
    or_assoc : (a b c : Bool) → ((a || b) || c) ≡ (a || (b || c))
    or_assoc true b c = refl
    or_assoc false b c = refl

-- `Union` of well-formed sets is well formed.
pub union-IsGtidSet :
    (s other : GtidSet) → IsGtidSet s → IsGtidSet other → IsGtidSet (union s other)
union-IsGtidSet s other hs ho = (union_lem s other hs ho).0

-- A transaction is in the union exactly when one of the sets holds it.
pub holds-union :
    (s other : GtidSet) (u : Text) (n : ℕ)
    → IsGtidSet s
    → IsGtidSet other
    → holds (union s other) u n ≡ (holds s u n || holds other u n)
holds-union s other u n hs ho = (union_lem s other hs ho).1 u n
