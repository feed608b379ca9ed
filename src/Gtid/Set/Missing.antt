-- ===== src/Gtid/Set/Missing.antt =====
-- MissingCount is the size of a difference, held at math.MaxInt64.
use cnmsql.Base.{
  ℕ, ◌+◌, ◌-◌, ◌≤◌, min, ◌≡◌, refl, ap, ◌∙◌, List, [], ◌∷◌, Option, none, some, ltb, leb,
  if◌then◌else◌, All, Text, lookup, insert, lookup-insert, HasDistinctKeys, text_Eq, text_eq_iff,
  is_empty, arith, Bool-cases, inl, inr,
}
use cnmsql.Base.Int64.{max_int64, lt64-ltb, add64-add, sub64-sub}
use cnmsql.Gtid.Interval.{Interval, minus, minus_all, size, IsInterval, IsNormal}
use cnmsql.Gtid.Interval.Count.{uncovered_by-minus, size-append, minus-size-le}
use cnmsql.Gtid.Set.{
  GtidSet, slot, add_missing, missing_loop, missing_count, difference_loop, difference, IsEntry,
  IsGtidSet,
}
use cnmsql.Gtid.Set.Meaning.{slot-IsNormal}

-- How many transactions a set with distinct sources holds.
abbrev pub total : GtidSet → ℕ
total [] = 0
total ((u, ivs) ∷ s) = size ivs + total s

size-minus-le :
    (iv : Interval) (mine : List Interval)
    → IsNormal mine
    → IsInterval iv
    → size (minus iv mine) ≤ max_int64
size-minus-le iv mine hm hv = omega (arith, minus-size-le iv mine hm hv)

-- A sum that stops at `math.MaxInt64`.
abbrev saturated : ℕ → Option ℕ
saturated n = if leb n max_int64 then some n else none

add_missing-size :
    (mine ivs : List Interval) (missing : ℕ)
    → IsNormal mine
    → IsNormal ivs
    → missing ≤ max_int64
    → add_missing mine ivs missing ≡ saturated (missing + size (minus_all ivs mine))
unfolding add_missing minus_all
add_missing-size mine [] missing hm hi h = ground arith
add_missing-size mine (iv ∷ ivs) missing hm hi h =
    rw
      (
        uncovered_by-minus iv mine hm hi.0,
        sub64-sub max_int64 (size (minus iv mine)) (omega arith) bound,
        lt64-ltb (max_int64 - size (minus iv mine)) missing (omega arith) (omega arith),
        size-append,
      )
      (elim (Bool-cases (ltb (max_int64 - size (minus iv mine)) missing)) [
        | inl e ↦ rw e (ground arith)
        | inr e ↦
            rw (e, add64-add missing (size (minus iv mine)) (ground (arith, bound)))
              (add_missing-size mine ivs (missing + size (minus iv mine)) hm hi.2
                  (ground (arith, bound))
                ∙ ap saturated (omega arith))
      ])
  where
    bound : size (minus iv mine) ≤ max_int64
    bound = size-minus-le iv mine hm hi.0

-- What each source of `other` lacks in `s`, added up.
abbrev lacking : GtidSet → GtidSet → ℕ
lacking s [] = 0
lacking s ((u, ivs) ∷ other) = size (minus_all ivs (slot s u)) + lacking s other

missing_loop-lacking :
    (s other : GtidSet) (missing : ℕ)
    → All IsEntry s
    → All IsEntry other
    → missing ≤ max_int64
    → missing_loop s other missing ≡ min max_int64 (missing + lacking s other)
unfolding missing_loop
missing_loop-lacking s [] missing hs ho h = omega arith
missing_loop-lacking s ((u, ivs) ∷ other) missing hs ho h =
    rw (add_missing-size (slot s u) ivs missing (slot-IsNormal s u hs) ho.0.normal h, missing_loop)
      (elim (Bool-cases (leb (missing + size (minus_all ivs (slot s u))) max_int64)) [
        | inl e ↦ rw e (
            missing_loop-lacking s other (missing + size (minus_all ivs (slot s u))) hs ho.1
              (ground arith)
            ∙ ap (min max_int64) (omega arith))
        | inr e ↦ rw e (ground arith)
      ])

total-insert :
    (u : Text) (ivs : List Interval) (s : GtidSet)
    → lookup u s ≡ none
    → total (insert u ivs s) ≡ size ivs + total s
unfolding insert lookup
total-insert u ivs [] h = refl
total-insert u ivs ((v, old) ∷ s) h = ground (arith, total-insert u ivs s)

-- None of the sources of `s` is in `out` yet.
abbrev IsFresh : GtidSet → GtidSet → Type 0
IsFresh [] out = Unit
IsFresh ((u, ivs) ∷ s) out = (lookup u out ≡ none) × IsFresh s out

IsFresh-insert :
    (v : Text) (kept : List Interval) (s out : GtidSet)
    → lookup v s ≡ none
    → IsFresh s out
    → IsFresh s (insert v kept out)
unfolding lookup
IsFresh-insert v kept [] out h f = tt
IsFresh-insert v kept ((u, ivs) ∷ s) out h f = (
  ground (arith, lookup-insert v u kept out, text_eq_iff u v, text_eq_iff v u),
  IsFresh-insert v kept s out (ground arith) f.1,
)

IsFresh-nil : (s : GtidSet) → IsFresh s []
unfolding lookup
IsFresh-nil [] = tt
IsFresh-nil ((u, ivs) ∷ s) = (refl, IsFresh-nil s)

total-difference_loop :
    (s other out : GtidSet)
    → HasDistinctKeys s
    → IsFresh s out
    → total (difference_loop s other out) ≡ lacking other s + total out
unfolding difference_loop
total-difference_loop [] other out h f = omega arith
total-difference_loop ((u, ivs) ∷ s) other out h f =
    kept_or_empty (minus_all ivs (slot other u))
      (λ out' f'. total-difference_loop s other out' h.1 f')
  where
    kept_or_empty :
        (kept : List Interval)
        → ((out' : GtidSet)
            → IsFresh s out'
            → total (difference_loop s other out') ≡ lacking other s + total out')
        → total (difference_loop s other (if is_empty kept then out else insert u kept out))
          ≡ size kept + lacking other s + total out
    kept_or_empty [] rest = rest out f.1 ∙ omega arith
    kept_or_empty (iv ∷ kept) rest =
        rest (insert u (iv ∷ kept) out) (IsFresh-insert u (iv ∷ kept) s out h.0 f.1)
        ∙ omega (arith, total-insert u (iv ∷ kept) out f.0)

-- `MissingCount` is how many transactions of the other set this one lacks, and `math.MaxInt64` where
-- there are more; no sum in it overflows.
pub missing_count-total :
    (s other : GtidSet)
    → IsGtidSet s
    → IsGtidSet other
    → missing_count s other ≡ min max_int64 (total (difference other s))
unfolding missing_count difference
missing_count-total s other hs ho =
    missing_loop-lacking s other 0 hs.entries ho.entries (omega arith)
    ∙ ap (min max_int64)
        (omega (arith, total-difference_loop other s [] ho.distinct (IsFresh-nil other)))
