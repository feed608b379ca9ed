-- ===== src/Gtid/Interval/Normal.antt =====
-- What normalizeIntervals keeps and establishes.
use cnmsql.Base.{
  ap, ℕ, ◌+◌, ◌≤◌, ◌<◌, ◌≡◌, refl, ◌||◌, List, [], ◌∷◌, arith, All, is_empty, true, false,
  insert_sorted, sort, Bool-cases, ltb, leb, le→leb, max, ◌==◌, inl, inr, sym, any-sort, ◌∙◌,
}
use cnmsql.Base.Int64.{max_int64, lt64-ltb, le64-leb, add64-add}
use cnmsql.Gtid.Interval.{
  Interval, starts_before, touches, absorb, coalesce, coalesce_sorted, normalize_intervals, covers,
  member, IsInterval, IsApart, IsNormal,
}

-- Valid ranges by ascending start, from `lo` on.
abbrev IsAscending : ℕ → List Interval → Type 0
IsAscending lo [] = Unit
IsAscending lo (iv ∷ ivs) = IsInterval iv × (lo ≤ iv.start) × IsAscending iv.start ivs

starts_before-ltb :
    (a b : Interval) → IsInterval a → IsInterval b → starts_before a b ≡ ltb a.start b.start
unfolding starts_before
starts_before-ltb a b ha hb = lt64-ltb a.start b.start (omega arith) (omega arith)

insert_sorted-IsAscending :
    (lo : ℕ) (iv : Interval) (ivs : List Interval)
    → IsInterval iv
    → lo ≤ iv.start
    → IsAscending lo ivs
    → IsAscending lo (insert_sorted starts_before iv ivs)
unfolding insert_sorted
insert_sorted-IsAscending lo iv [] hv hl h = (hv, hl, tt)
insert_sorted-IsAscending lo iv (y ∷ ys) hv hl h =
    ground (arith, starts_before-ltb y iv h.0 hv, insert_sorted-IsAscending y.start iv ys hv)

sort-IsAscending :
    (ivs : List Interval) → All IsInterval ivs → IsAscending 0 (sort starts_before ivs)
unfolding sort
sort-IsAscending [] h = tt
sort-IsAscending (iv ∷ ivs) h =
    insert_sorted-IsAscending 0 iv (sort starts_before ivs) h.0 (omega arith)
      (sort-IsAscending ivs h.1)

touches-leb :
    (last iv : Interval)
    → IsInterval last
    → IsInterval iv
    → touches last iv ≡ leb iv.start (last.end + 1)
unfolding touches
touches-leb last iv hl hv = elim (Bool-cases (last.end == max_int64)) [
  | inl e ↦ rw e (sym (le→leb iv.start (last.end + 1) (ground arith)))
  | inr e ↦
      rw (e, add64-add last.end 1 (omega arith))
        (le64-leb iv.start (last.end + 1) (omega arith) (ground arith))
]

absorb_end :
    (last iv : Interval)
    → IsInterval last
    → IsInterval iv
    → (absorb last iv).end ≡ max last.end iv.end
unfolding absorb
absorb_end last iv hl hv = rw (lt64-ltb last.end iv.end (omega arith) (omega arith)) (ground arith)

absorb_start : (last iv : Interval) → (absorb last iv).start ≡ last.start
unfolding absorb
absorb_start last iv = refl

absorb-IsInterval :
    (last iv : Interval) → IsInterval last → IsInterval iv → IsInterval (absorb last iv)
absorb-IsInterval last iv hl hv = omega (arith, absorb_end last iv hl hv, absorb_start last iv)

coalesce-IsApart :
    (e : ℕ) (last : Interval) (ivs : List Interval)
    → e + 1 < last.start
    → IsApart e (coalesce last ivs)
unfolding coalesce
coalesce-IsApart e last [] h = h
coalesce-IsApart e last (iv ∷ ivs) h =
    ground (arith, absorb_start last iv, coalesce-IsApart e (absorb last iv) ivs)

IsAscending-le : (a b : ℕ) (ivs : List Interval) → a ≤ b → IsAscending b ivs → IsAscending a ivs
IsAscending-le a b [] h s = tt
IsAscending-le a b (iv ∷ ivs) h s = (s.0, omega arith, s.2)

-- The loop loses no number and adds none, and leaves a normal list.
coalesce-member :
    (n : ℕ) (last : Interval) (ivs : List Interval)
    → IsInterval last
    → IsAscending last.start ivs
    → member n (coalesce last ivs) ≡ (covers n last || member n ivs)
unfolding coalesce
coalesce-member n last [] hl h = refl
coalesce-member n last (iv ∷ ivs) hl h = ground (
  arith,
  touches-leb last iv hl h.0,
  absorb_end last iv hl h.0,
  absorb_start last iv,
  coalesce-member n iv ivs h.0 h.2,
  coalesce-member n (absorb last iv) ivs (absorb-IsInterval last iv hl h.0)
      (IsAscending-le _ iv.start ivs (omega (arith, h.1, absorb_start last iv)) h.2),
)

coalesce-IsNormal :
    (last : Interval) (ivs : List Interval)
    → IsInterval last
    → IsAscending last.start ivs
    → IsNormal (coalesce last ivs)
unfolding coalesce
coalesce-IsNormal last [] hl h = (hl, tt, tt)
coalesce-IsNormal last (iv ∷ ivs) hl h = elim (Bool-cases (touches last iv)) [
  | inl e ↦
      rw (e, IsNormal)
        (coalesce-IsNormal (absorb last iv) ivs (absorb-IsInterval last iv hl h.0)
          (IsAscending-le _ iv.start ivs (omega (arith, h.1, absorb_start last iv)) h.2))
  | inr e ↦
      rw (e, IsNormal)
        (
          hl,
          coalesce-IsApart last.end iv ivs (ground (arith, touches-leb last iv hl h.0)),
          coalesce-IsNormal iv ivs h.0 h.2,
        )
]

coalesce_sorted-member :
    (n : ℕ) (ivs : List Interval)
    → IsAscending 0 ivs
    → member n (coalesce_sorted ivs) ≡ member n ivs
unfolding coalesce_sorted
coalesce_sorted-member n [] h = refl
coalesce_sorted-member n (iv ∷ ivs) h = coalesce-member n iv ivs h.0 h.2

coalesce_sorted-IsNormal :
    (ivs : List Interval) → IsAscending 0 ivs → IsNormal (coalesce_sorted ivs)
unfolding coalesce_sorted
coalesce_sorted-IsNormal [] h = tt
coalesce_sorted-IsNormal (iv ∷ ivs) h = coalesce-IsNormal iv ivs h.0 h.2

-- Sorting and coalescing valid ranges keeps exactly the numbers that they hold.
pub normalize_intervals-member :
    (n : ℕ) (ivs : List Interval)
    → All IsInterval ivs
    → member n (normalize_intervals ivs) ≡ member n ivs
unfolding normalize_intervals
normalize_intervals-member n [] h = refl
normalize_intervals-member n (iv ∷ []) h = refl
normalize_intervals-member n (a ∷ b ∷ ivs) h =
    coalesce_sorted-member n (sort starts_before (a ∷ b ∷ ivs)) (sort-IsAscending (a ∷ b ∷ ivs) h)
    ∙ any-sort starts_before (covers n) (a ∷ b ∷ ivs)

-- The result is normal: valid ranges in ascending order with a gap between any two.
pub normalize_intervals-IsNormal :
    (ivs : List Interval) → All IsInterval ivs → IsNormal (normalize_intervals ivs)
unfolding normalize_intervals
normalize_intervals-IsNormal [] h = tt
normalize_intervals-IsNormal (iv ∷ []) h = (h.0, tt, tt)
normalize_intervals-IsNormal (a ∷ b ∷ ivs) h =
    coalesce_sorted-IsNormal (sort starts_before (a ∷ b ∷ ivs)) (sort-IsAscending (a ∷ b ∷ ivs) h)

-- A list with a range in it stays one.
pub normalize_intervals-occupied :
    (ivs : List Interval)
    → All IsInterval ivs
    → is_empty ivs ≡ false
    → is_empty (normalize_intervals ivs) ≡ false
normalize_intervals-occupied [] h o = cc
normalize_intervals-occupied (iv ∷ ivs) h o =
    some_member (normalize_intervals (iv ∷ ivs))
      (normalize_intervals-member iv.start (iv ∷ ivs) h ∙ ground (arith, h.0.ordered))
  where
    some_member : (xs : List Interval) → member iv.start xs ≡ true → is_empty xs ≡ false
    some_member [] m = cc
    some_member (x ∷ xs) m = refl

starts_before-head :
    (x y : Interval) (ys : List Interval)
    → IsInterval x
    → IsInterval y
    → x.start ≤ y.start
    → insert_sorted starts_before x (y ∷ ys) ≡ x ∷ y ∷ ys
unfolding insert_sorted
starts_before-head x y ys hx hy h = ground (arith, starts_before-ltb y x hy hx)

sort-IsNormal : (ivs : List Interval) → IsNormal ivs → sort starts_before ivs ≡ ivs
unfolding sort
sort-IsNormal [] h = refl
sort-IsNormal (x ∷ []) h = unfold insert_sorted in refl
sort-IsNormal (x ∷ y ∷ ys) h =
    ap (insert_sorted starts_before x) (sort-IsNormal (y ∷ ys) h.2)
    ∙ starts_before-head x y ys h.0 h.2.0 (omega (arith, h.1, h.0.ordered))

coalesce_normal :
    (last : Interval) (ivs : List Interval) → IsNormal (last ∷ ivs) → coalesce last ivs ≡ last ∷ ivs
unfolding coalesce
coalesce_normal last [] h = refl
coalesce_normal last (iv ∷ ivs) h =
    ground (arith, touches-leb last iv h.0 h.2.0, coalesce_normal iv ivs h.2)

-- A normal list is left as it is.
pub normalize_intervals_normal :
    (ivs : List Interval) → IsNormal ivs → normalize_intervals ivs ≡ ivs
unfolding normalize_intervals
normalize_intervals_normal [] h = refl
normalize_intervals_normal (x ∷ []) h = refl
normalize_intervals_normal (x ∷ y ∷ ys) h =
    ap coalesce_sorted (sort-IsNormal (x ∷ y ∷ ys) h)
    ∙ (unfold coalesce_sorted in coalesce_normal x (y ∷ ys) h)
