-- ===== src/Gtid/Interval/Remainder.antt =====
-- The remainders that minus and Difference leave are normal again.
use mathlib.Core.List.{append-nil}
use cnmsql.Base.{
  ℕ, ◌+◌, ◌-◌, ◌≤◌, ◌<◌, ◌≡◌, refl, not, ◌&&◌, List, [], ◌∷◌, ◌++◌, arith, Bool-cases, ltb, leb,
  inl, inr, ◌∙◌, All-append, any-append,
}
use cnmsql.Base.Int64.{max_int64, lt64-ltb, sub64-sub}
use cnmsql.Gtid.Interval.{
  Interval, before, minus_loop, minus, minus_all, covers, member, IsInterval, IsApart, IsNormal,
  EndsBy,
}
use cnmsql.Gtid.Interval.Minus.{minus_round, minus_loop-member}

pub IsApart-append :
    (e : ℕ) (xs ys : List Interval) → IsApart e xs → IsApart e ys → IsApart e (xs ++ ys)
IsApart-append e [] ys hx hy = hy
IsApart-append e (x ∷ xs) ys hx hy = hx

pub IsNormal-append :
    (e : ℕ) (xs ys : List Interval)
    → IsNormal xs
    → EndsBy e xs
    → IsNormal ys
    → IsApart e ys
    → IsNormal (xs ++ ys)
IsNormal-append e [] ys hx he hy ha = hy
IsNormal-append e (x ∷ xs) ys hx he hy ha =
    (hx.0, IsApart-append x.end xs ys hx.1 (closer ys ha), IsNormal-append e xs ys hx.2 he.1 hy ha)
  where
    closer : (zs : List Interval) → IsApart e zs → IsApart x.end zs
    closer [] h = tt
    closer (z ∷ zs) h = omega (arith, he.0)

before-IsNormal :
    (start : ℕ) (m : Interval)
    → IsInterval m
    → 1 ≤ start
    → start ≤ max_int64
    → IsNormal (before start m) × EndsBy (m.start - 1) (before start m)
unfolding before
before-IsNormal start m hm h1 hs =
    rw
      (
        lt64-ltb start m.start (omega arith) (omega arith),
        sub64-sub m.start 1 (omega arith) (omega arith),
      )
      (ground arith)

before-IsApart : (e start : ℕ) (m : Interval) → e + 1 < start → IsApart e (before start m)
unfolding before
before-IsApart e start m h = ground arith

minus_loop-IsApart :
    (e : ℕ) (iv : Interval) (start : ℕ) (sub : List Interval)
    → IsNormal sub
    → iv.end ≤ max_int64
    → start ≤ iv.end
    → e + 1 < start
    → IsApart e (minus_loop iv start sub)
minus_loop-IsApart e iv start [] hs hf hl h = unfold minus_loop in h
minus_loop-IsApart e iv start (m ∷ sub) hs hf hl h =
    rw (minus_round iv start m sub hs.0 hf hl) (elim (Bool-cases (ltb m.end start)) [
      | inl a ↦ rw a (minus_loop-IsApart e iv start sub hs.2 hf hl h)
      | inr a ↦ rw a (elim (Bool-cases (ltb iv.end m.start)) [
        | inl b ↦ rw b h
        | inr b ↦ rw b (
            IsApart-append e _ _ (before-IsApart e start m h)
              (elim (Bool-cases (leb iv.end m.end)) [
                | inl c ↦ rw c tt
                | inr c ↦
                    rw c (
                      minus_loop-IsApart e iv (m.end + 1) sub hs.2 hf (ground arith) (ground arith))
              ]))
      ])
    ])

EndsBy-le : (a b : ℕ) (xs : List Interval) → a ≤ b → EndsBy a xs → EndsBy b xs
EndsBy-le a b [] h e = tt
EndsBy-le a b (x ∷ xs) h e = (omega (arith, e.0), EndsBy-le a b xs h e.1)

minus_loop-IsNormal :
    (iv : Interval) (start : ℕ) (sub : List Interval)
    → IsNormal sub
    → iv.end ≤ max_int64
    → start ≤ iv.end
    → 1 ≤ start
    → IsNormal (minus_loop iv start sub) × EndsBy iv.end (minus_loop iv start sub)
minus_loop-IsNormal iv start [] hs hf hl h = unfold minus_loop in omega arith
minus_loop-IsNormal iv start (m ∷ sub) hs hf hl h =
    rw (minus_round iv start m sub hs.0 hf hl) (elim (Bool-cases (ltb m.end start)) [
      | inl a ↦ rw a (minus_loop-IsNormal iv start sub hs.2 hf hl h)
      | inr a ↦ rw a (elim (Bool-cases (ltb iv.end m.start)) [
        | inl b ↦ rw b (omega arith)
        | inr b ↦ rw b (elim (Bool-cases (leb iv.end m.end)) [
          | inl c ↦ rw (c, append-nil) (left.0, EndsBy-le _ iv.end _ (ground arith) left.1)
          | inr c ↦
              let rest =
                minus_loop-IsNormal iv (m.end + 1) sub hs.2 hf (ground arith) (omega arith) in
              rw c (
                IsNormal-append (m.start - 1) _ _ left.0 left.1 rest.0 (
                    minus_loop-IsApart (m.start - 1) iv (m.end + 1) sub hs.2 hf (ground arith)
                      (omega (arith, hs.0.ordered, hs.0.positive))),
                All-append _ _ _ (EndsBy-le _ iv.end _ (ground arith) left.1) rest.1,
              )
        ])
      ])
    ])
  where
    left : IsNormal (before start m) × EndsBy (m.start - 1) (before start m)
    left = before-IsNormal start m hs.0 h (omega arith)

-- Of a valid range, `minus` keeps exactly the numbers that the normal list lacks.
pub minus-member :
    (n : ℕ) (iv : Interval) (sub : List Interval)
    → IsInterval iv
    → IsNormal sub
    → member n (minus iv sub) ≡ (covers n iv && not (member n sub))
unfolding minus
minus-member n iv sub hv hs =
    minus_loop-member n iv iv.start sub hs hv.fits hv.ordered ∙ ground arith

pub minus_all-member :
    (n : ℕ) (ivs sub : List Interval)
    → IsNormal ivs
    → IsNormal sub
    → member n (minus_all ivs sub) ≡ (member n ivs && not (member n sub))
unfolding minus_all
minus_all-member n [] sub hv hs = refl
minus_all-member n (iv ∷ ivs) sub hv hs =
    rw (any-append, minus-member n iv sub hv.0 hs, minus_all-member n ivs sub hv.2 hs)
      (ground arith)

minus-IsApart :
    (e : ℕ) (iv : Interval) (sub : List Interval)
    → IsInterval iv
    → IsNormal sub
    → e + 1 < iv.start
    → IsApart e (minus iv sub)
unfolding minus
minus-IsApart e iv sub hv hs h = minus_loop-IsApart e iv iv.start sub hs hv.fits hv.ordered h

minus_all-IsApart :
    (e : ℕ) (ivs sub : List Interval)
    → IsNormal ivs
    → IsNormal sub
    → IsApart e ivs
    → IsApart e (minus_all ivs sub)
unfolding minus_all
minus_all-IsApart e [] sub hv hs h = tt
minus_all-IsApart e (iv ∷ ivs) sub hv hs h =
    IsApart-append e _ _ (minus-IsApart e iv sub hv.0 hs h)
      (minus_all-IsApart e ivs sub hv.2 hs (further ivs hv.1))
  where
    further : (zs : List Interval) → IsApart iv.end zs → IsApart e zs
    further [] a = tt
    further (z ∷ zs) a = omega (arith, hv.0.ordered)

pub minus_all-IsNormal :
    (ivs sub : List Interval) → IsNormal ivs → IsNormal sub → IsNormal (minus_all ivs sub)
unfolding minus_all minus
minus_all-IsNormal [] sub hv hs = tt
minus_all-IsNormal (iv ∷ ivs) sub hv hs =
    let first = minus_loop-IsNormal iv iv.start sub hs hv.0.fits hv.0.ordered hv.0.positive in
    IsNormal-append iv.end _ _ first.0 first.1 (minus_all-IsNormal ivs sub hv.2 hs)
      (minus_all-IsApart iv.end ivs sub hv.2 hs hv.1)

pub minus_all-nil : (sub : List Interval) → minus_all [] sub ≡ []
unfolding minus_all
minus_all-nil sub = refl
