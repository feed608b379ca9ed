-- ===== src/Gtid/Set/Holes.antt =====
-- Holes of GTIDSet in pkg/management/mysql/replication/gtid.go: what lies between the ranges of a source.
use mathlib.Core.Path.{subst}
use cnmsql.Base.{
  ℕ, ◌<◌, ◌≡◌, refl, ap, ◌∙◌, true, false, List, [], ◌∷◌, ◌++◌, none, if◌then◌else◌, All, Text,
  to_lower, lookup, insert, HasDistinctKeys, text_Eq, text_eq, text_eq_iff, text_eq_refl, is_empty,
  Bool-cases, inl, inr,
}
use mathlib.Core.List.{append-nil}
use cnmsql.Gtid.Interval.{Interval, IsNormal}
use cnmsql.Gtid.Set.{GtidSet, slot, gaps, holes_loop, holes, holds, IsEntry, IsGtidSet}
use cnmsql.Gtid.Set.Meaning.{
  slot-cons, slot-insert, slot-nil, slot_absent, slot-IsNormal, keep-IsGtidSet, empty-IsGtidSet,
}
use cnmsql.Gtid.Set.Gaps.{gaps-IsNormal, gaps-member, gaps-member_between}

-- What one round of the loop puts in place of `out`.
abbrev add_found : Text → List Interval → GtidSet → GtidSet
add_found v found out = if is_empty found then out else insert v (slot out v ++ found) out

add_found-slot :
    (v : Text) (found : List Interval) (out : GtidSet) (u : Text)
    → slot (add_found v found out) u ≡ slot out u ++ (if text_eq v u then found else [])
add_found-slot v [] out u = elim (Bool-cases (text_eq v u)) [
  | inl e ↦ rw (e, append-nil)
  | inr e ↦ rw (e, append-nil)
]
add_found-slot v (iv ∷ found) out u =
    slot-insert u v (slot out v ++ iv ∷ found) out ∙ elim (Bool-cases (text_eq v u)) [
      | inl e ↦ rw (e, (text_eq_iff v u).0 e)
      | inr e ↦ rw (e, append-nil)
    ]

holes_loop-slot :
    (s out : GtidSet) (u : Text)
    → HasDistinctKeys s
    → slot (holes_loop s out) u ≡ slot out u ++ gaps (slot s u)
unfolding holes_loop
holes_loop-slot [] out u h = rw (slot-nil u) (unfold gaps in rw append-nil)
holes_loop-slot ((v, ivs) ∷ s) out u h =
    holes_loop-slot s (add_found v (gaps ivs) out) u h.1
    ∙ rw (add_found-slot v (gaps ivs) out u, slot-cons u v ivs s)
        (elim (Bool-cases (text_eq v u)) [
          | inl e ↦
              rw (e, slot_absent s u (subst (λ w. lookup w s ≡ none) ((text_eq_iff v u).0 e) h.0))
                (unfold gaps in rw append-nil)
          | inr e ↦ rw (e, append-nil)
        ])

pub slot-holes : (s : GtidSet) (u : Text) → HasDistinctKeys s → slot (holes s) u ≡ gaps (slot s u)
unfolding holes
slot-holes s u h = holes_loop-slot s [] u h ∙ rw (slot-nil u) refl

-- No source with a range in `s` has a range in `out` yet.
abbrev IsFresh : GtidSet → GtidSet → Type 0
IsFresh s out = (w : Text) → is_empty (slot s w) ≡ false → slot out w ≡ []

fresh_source :
    (v : Text) (ivs : List Interval) (s out : GtidSet)
    → IsFresh ((v, ivs) ∷ s) out
    → is_empty (gaps ivs) ≡ false
    → slot out v ≡ []
unfolding gaps
fresh_source v [] s out f h = cc
fresh_source v (iv ∷ ivs) s out f h = f v (rw (slot-cons v v (iv ∷ ivs) s, text_eq_refl v))

rest-IsFresh :
    (v : Text) (ivs found : List Interval) (s out : GtidSet)
    → lookup v s ≡ none
    → IsFresh ((v, ivs) ∷ s) out
    → IsFresh s (add_found v found out)
rest-IsFresh v ivs found s out absent f w h = elim (Bool-cases (text_eq v w)) [
  | inl e ↦ cc (
    h,
    ap is_empty (slot_absent s w (subst (λ x. lookup x s ≡ none) ((text_eq_iff v w).0 e) absent)),
  )
  | inr e ↦ add_found-slot v found out w ∙ rw (e, f w (rw (slot-cons w v ivs s, e) h))
]

add_found-IsGtidSet :
    (v : Text) (found : List Interval) (out : GtidSet)
    → to_lower v ≡ v
    → IsNormal found
    → (is_empty found ≡ false → slot out v ≡ [])
    → IsGtidSet out
    → IsGtidSet (add_found v found out)
add_found-IsGtidSet v [] out l n f h = h
add_found-IsGtidSet v (iv ∷ found) out l n f h =
    rw (f refl) (keep-IsGtidSet v (iv ∷ found) out l n h)

holes_loop-IsGtidSet :
    (s out : GtidSet)
    → HasDistinctKeys s
    → All IsEntry s
    → IsFresh s out
    → IsGtidSet out
    → IsGtidSet (holes_loop s out)
unfolding holes_loop
holes_loop-IsGtidSet [] out d h f ho = ho
holes_loop-IsGtidSet ((v, ivs) ∷ s) out d h f ho =
    holes_loop-IsGtidSet s (add_found v (gaps ivs) out) d.1 h.1
      (rest-IsFresh v ivs (gaps ivs) s out d.0 f)
      (add_found-IsGtidSet v (gaps ivs) out h.0.lowered (gaps-IsNormal ivs h.0.normal)
        (fresh_source v ivs s out f) ho)

pub holes-IsGtidSet : (s : GtidSet) → IsGtidSet s → IsGtidSet (holes s)
unfolding holes
holes-IsGtidSet s h =
    holes_loop-IsGtidSet s [] h.distinct h.entries (λ w e. slot-nil w) empty-IsGtidSet

-- A hole of the source: a number that the set lacks, between two that it holds.
pub record IsHole (s : GtidSet) (u : Text) (n : ℕ) : Type 0 where
  pub low : ℕ
  pub high : ℕ
  pub after : low < n
  pub before : n < high
  pub low_held : holds s u low ≡ true
  pub high_held : holds s u high ≡ true
  pub lacked : holds s u n ≡ false

pub holds-holes :
    (s : GtidSet) (u : Text) (n : ℕ) → IsGtidSet s → IsHole s u n → holds (holes s) u n ≡ true
holds-holes s u n h hole = rw (slot-holes s u h.distinct) (
    gaps-member n hole.low hole.high (slot s u) (slot-IsNormal s u h.entries) hole.after hole.before
      hole.low_held hole.high_held hole.lacked)

-- What Holes returns is lacking, and lies between two transactions of its source.
pub holes-IsHole :
    (s : GtidSet) (u : Text) (n : ℕ) → IsGtidSet s → holds (holes s) u n ≡ true → IsHole s u n
holes-IsHole s u n h e =
    let (l, m, a, b, c, d, out) =
      gaps-member_between n (slot s u) (slot-IsNormal s u h.entries)
        (rw (slot-holes s u h.distinct) at e) in
    record { low = l; high = m; after = a; before = b; low_held = c; high_held = d; lacked = out }
