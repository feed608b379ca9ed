-- ===== src/Gtid/Set/Meaning.antt =====
-- What the operations on GTID sets mean: which transactions of which source the results hold.
use cnmsql.Base.{
  ℕ, ◌≡◌, refl, ◌∙◌, Bool, true, false, not, ◌&&◌, ◌||◌, List, [], ◌∷◌, none, if◌then◌else◌, All,
  Text, to_lower, lookup, insert, lookup-insert, HasDistinctKeys, insert-HasDistinctKeys, text_Eq,
  text_eq, text_eq_iff, is_empty, arith, Bool-cases, inl, inr,
}
use cnmsql.Gtid.Interval.{Interval, minus_all, member, IsNormal}
use cnmsql.Gtid.Interval.Remainder.{minus_all-nil, minus_all-member, minus_all-IsNormal}
use cnmsql.Gtid.Set.{
  GtidSet, slot, has_no_transactions, difference_loop, difference, intersect, holds, IsEntry,
  IsGtidSet,
}

pub slot-cons :
    (u v : Text) (ivs : List Interval) (s : GtidSet)
    → slot ((v, ivs) ∷ s) u ≡ (if text_eq v u then ivs else slot s u)
unfolding slot lookup
slot-cons u v ivs s = ground arith

pub slot-insert :
    (u v : Text) (ivs : List Interval) (s : GtidSet)
    → slot (insert v ivs s) u ≡ (if text_eq v u then ivs else slot s u)
unfolding slot
slot-insert u v ivs s = ground (arith, lookup-insert v u ivs s)

pub slot-IsNormal : (s : GtidSet) (u : Text) → All IsEntry s → IsNormal (slot s u)
slot-IsNormal [] u h = unfold slot lookup in tt
slot-IsNormal ((v, ivs) ∷ s) u h = rw (slot-cons u v ivs s) (elim (Bool-cases (text_eq v u)) [
  | inl e ↦ rw e h.0.normal
  | inr e ↦ rw e (slot-IsNormal s u h.1)
])

pub slot_absent : (s : GtidSet) (u : Text) → lookup u s ≡ none → slot s u ≡ []
unfolding slot
slot_absent s u h = rw (h, slot)

pub slot-nil : (u : Text) → slot [] u ≡ []
unfolding slot lookup
slot-nil u = refl

-- The transactions of a set are those of its entries.
pub holds-cons :
    (v : Text) (ivs : List Interval) (s : GtidSet) (u : Text) (n : ℕ)
    → lookup v s ≡ none
    → holds ((v, ivs) ∷ s) u n ≡ ((text_eq v u && member n ivs) || holds s u n)
holds-cons v ivs s u n h = rw (slot-cons u v ivs s) (elim (Bool-cases (text_eq v u)) [
  | inl e ↦ rw (e, slot_absent s u (rw ((text_eq_iff v u).0 e) at h)) (ground arith)
  | inr e ↦ rw e
])

pub slot-keep :
    (u v : Text) (kept : List Interval) (out : GtidSet)
    → slot (if is_empty kept then out else insert v kept out) u
      ≡ (if text_eq v u && not (is_empty kept) then kept else slot out u)
slot-keep u v [] out = ground arith
slot-keep u v (iv ∷ kept) out = slot-insert u v (iv ∷ kept) out ∙ ground arith

-- The loop of `Difference`, source by source.
difference_loop-slot :
    (s other out : GtidSet) (u : Text)
    → HasDistinctKeys s
    → slot (difference_loop s other out) u ≡ (
        if is_empty (minus_all (slot s u) (slot other u))
        then slot out u
        else minus_all (slot s u) (slot other u))
unfolding difference_loop
difference_loop-slot [] other out u h = rw (slot_absent [] u (unfold lookup in refl), minus_all-nil)
difference_loop-slot ((v, ivs) ∷ s) other out u h =
    let ih = difference_loop-slot s other (keep v) u h.1 in
    rw (ih, slot-keep u v _ out, slot-cons u v ivs s)
      (elim (Bool-cases (text_eq v u)) [
        | inl e ↦
            let same : v ≡ u = (text_eq_iff v u).0 e in
            rw (e, slot_absent s u (rw same at h.0), minus_all-nil, same) (ground arith)
        | inr e ↦ rw e
      ])
  where
    keep : Text → GtidSet
    keep w =
        if is_empty (minus_all ivs (slot other w))
        then out
        else insert w (minus_all ivs (slot other w)) out

pub slot-difference :
    (s other : GtidSet) (u : Text)
    → HasDistinctKeys s
    → slot (difference s other) u ≡ minus_all (slot s u) (slot other u)
unfolding difference
slot-difference s other u h =
    difference_loop-slot s other [] u h
    ∙ kept_or_empty (minus_all (slot s u) (slot other u)) (slot_absent [] u (unfold lookup in refl))
  where
    kept_or_empty :
        (kept : List Interval) → slot [] u ≡ [] → (if is_empty kept then slot [] u else kept) ≡ kept
    kept_or_empty [] e = e
    kept_or_empty (iv ∷ kept) e = refl

-- A transaction is in the difference exactly when the first set holds it and the second does not.
pub holds-difference :
    (s other : GtidSet) (u : Text) (n : ℕ)
    → IsGtidSet s
    → IsGtidSet other
    → holds (difference s other) u n ≡ (holds s u n && not (holds other u n))
holds-difference s other u n hs ho = rw (slot-difference s other u hs.distinct) (
    minus_all-member n (slot s u) (slot other u) (slot-IsNormal s u hs.entries)
      (slot-IsNormal other u ho.entries))

pub insert-IsEntry :
    (u : Text) (ivs : List Interval) (s : GtidSet)
    → IsEntry (u, ivs)
    → All IsEntry s
    → All IsEntry (insert u ivs s)
unfolding insert
insert-IsEntry u ivs [] hu hs = (hu, tt)
insert-IsEntry u ivs ((v, old) ∷ s) hu hs = elim (Bool-cases (text_eq v u)) [
  | inl e ↦
      rw e (record { lowered = hs.0.lowered; normal = hu.normal; occupied = hu.occupied }, hs.1)
  | inr e ↦ rw e (hs.0, insert-IsEntry u ivs s hu hs.1)
]

pub keep-IsGtidSet :
    (u : Text) (kept : List Interval) (out : GtidSet)
    → to_lower u ≡ u
    → IsNormal kept
    → IsGtidSet out
    → IsGtidSet (if is_empty kept then out else insert u kept out)
keep-IsGtidSet u [] out hl hn ho = ho
keep-IsGtidSet u (iv ∷ kept) out hl hn ho = record {
  distinct = insert-HasDistinctKeys u (iv ∷ kept) out ho.distinct;
  entries =
      insert-IsEntry u (iv ∷ kept) out (record { lowered = hl; normal = hn; occupied = refl })
        ho.entries;
}

difference_loop-IsGtidSet :
    (s other out : GtidSet)
    → All IsEntry s
    → All IsEntry other
    → IsGtidSet out
    → IsGtidSet (difference_loop s other out)
unfolding difference_loop
difference_loop-IsGtidSet [] other out hs ho hout = hout
difference_loop-IsGtidSet ((v, ivs) ∷ s) other out hs ho hout =
    difference_loop-IsGtidSet s other _ hs.1 ho (
      keep-IsGtidSet v (minus_all ivs (slot other v)) out hs.0.lowered
        (minus_all-IsNormal ivs (slot other v) hs.0.normal (slot-IsNormal other v ho)) hout)

pub empty-IsGtidSet : IsGtidSet []
empty-IsGtidSet = record { distinct = tt; entries = tt }

-- `Difference` of well-formed sets is well formed.
pub difference-IsGtidSet :
    (s other : GtidSet) → IsGtidSet s → IsGtidSet other → IsGtidSet (difference s other)
unfolding difference
difference-IsGtidSet s other hs ho =
    difference_loop-IsGtidSet s other [] hs.entries ho.entries empty-IsGtidSet

-- A transaction is in the intersection exactly when both sets hold it.
pub holds-intersect :
    (s other : GtidSet) (u : Text) (n : ℕ)
    → IsGtidSet s
    → IsGtidSet other
    → holds (intersect s other) u n ≡ (holds s u n && holds other u n)
unfolding intersect
holds-intersect s other u n hs ho =
    rw
      (
        holds-difference s (difference s other) u n hs (difference-IsGtidSet s other hs ho),
        holds-difference s other u n hs ho,
      )
      (both (holds s u n) (holds other u n))
  where
    both : (a b : Bool) → (a && not (a && not b)) ≡ (a && b)
    both true true = refl
    both true false = refl
    both false b = refl

-- A set without transactions holds none.
pub blank-holds :
    (s : GtidSet) (u : Text) (n : ℕ) → has_no_transactions s ≡ true → holds s u n ≡ false
unfolding has_no_transactions
blank-holds [] u n h = rw (slot-nil u) refl
blank-holds ((v, []) ∷ s) u n h =
    rw (slot-cons u v [] s)
      (elim (Bool-cases (text_eq v u)) [ inl e ↦ rw e | inr e ↦ rw e (blank-holds s u n h) ])
blank-holds ((v, iv ∷ ivs) ∷ s) u n h = cc
