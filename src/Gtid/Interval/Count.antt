-- ===== src/Gtid/Interval/Count.antt =====
-- uncoveredBy counts what minus leaves, and the numbers of a normal list are counted by its ranges.
use cnmsql.Base.{
  ℕ, ◌+◌, ◌-◌, ◌≤◌, ◌<◌, ◌≡◌, refl, false, List, [], ◌∷◌, ◌++◌, arith, Bool-cases, ltb, leb, leb→le,
  lt→ltb, ltb→lt, inl, inr, ◌⊎◌, ◌∙◌, if◌then◌else◌, max, min,
}
use cnmsql.Base.Int64.{
  max_int64, add64, sub64, min64, max64, lt64-ltb, le64-leb, add64-add, sub64-sub,
}
use cnmsql.Gtid.Interval.{
  Interval, before, minus_loop, minus, uncovered_loop, uncovered_by, IsInterval, IsApart, IsNormal,
  size,
}
use cnmsql.Gtid.Interval.Minus.{minus_round}

pub size-append : (xs ys : List Interval) → size (xs ++ ys) ≡ size xs + size ys
size-append [] ys = omega arith
size-append (x ∷ xs) ys = omega (arith, size-append xs ys)

before-size :
    (start : ℕ) (m : Interval)
    → IsInterval m
    → start ≤ max_int64
    → size (before start m) ≡ m.start - start
unfolding before
before-size start m hm hs =
    rw
      (
        lt64-ltb start m.start (omega arith) (omega arith),
        sub64-sub m.start 1 (omega arith) (omega arith),
      )
      (ground arith)

-- One round of the loop, on numbers that do not wrap.
uncovered_round :
    (iv : Interval) (r : ℕ) (m : Interval) (mine : List Interval)
    → IsInterval m
    → IsInterval iv
    → uncovered_loop iv r (m ∷ mine) ≡ (
        if ltb m.end iv.start
        then uncovered_loop iv r mine
        else if ltb iv.end m.start
        then r
        else uncovered_loop iv
            (sub64 r (add64 (sub64 (min64 m.end iv.end) (max64 m.start iv.start)) 1))
            mine)
unfolding uncovered_loop
uncovered_round iv r m mine hm hv = rw (
  lt64-ltb m.end iv.start (omega arith) (omega arith),
  lt64-ltb iv.end m.start (omega arith) (omega arith),
)

min64-min : (a b : ℕ) → a ≤ max_int64 → b ≤ max_int64 → min64 a b ≡ min a b
unfolding min64
min64-min a b ha hb = rw (lt64-ltb b a (omega arith) (omega arith)) (ground arith)

max64-max : (a b : ℕ) → a ≤ max_int64 → b ≤ max_int64 → max64 a b ≡ max a b
unfolding max64
max64-max a b ha hb = rw (lt64-ltb a b (omega arith) (omega arith)) (ground arith)

overlap_lem :
    (iv m : Interval) (r : ℕ)
    → IsInterval m
    → IsInterval iv
    → iv.start ≤ m.end
    → m.start ≤ iv.end
    → r ≤ max_int64
    → min m.end iv.end + 1 - max m.start iv.start ≤ r
    → sub64 r (add64 (sub64 (min64 m.end iv.end) (max64 m.start iv.start)) 1)
      ≡ r - (min m.end iv.end + 1 - max m.start iv.start)
overlap_lem iv m r hm hv p q hr fits =
    rw
      (
        min64-min m.end iv.end (omega arith) (omega arith),
        max64-max m.start iv.start (omega arith) (omega arith),
        sub64-sub (min m.end iv.end) (max m.start iv.start) (omega arith) (omega arith),
        add64-add (min m.end iv.end - max m.start iv.start) 1 (omega arith),
      )
      (sub64-sub r _ (omega arith) (omega arith) ∙ omega arith)

uncovered_loop-past :
    (iv : Interval) (r : ℕ) (mine : List Interval) (e : ℕ)
    → IsNormal mine
    → IsInterval iv
    → IsApart e mine
    → iv.end ≤ e
    → uncovered_loop iv r mine ≡ r
uncovered_loop-past iv r [] e hm hv ha h = unfold uncovered_loop in refl
uncovered_loop-past iv r (m ∷ mine) e hm hv ha h =
    rw (uncovered_round iv r m mine hm.0 hv) (ground (arith, hv.ordered, hm.0.ordered))

IsApart-eq : (a b : ℕ) (xs : List Interval) → a ≡ b → IsApart a xs → IsApart b xs
IsApart-eq a b xs e h = rw (← e) h

-- Both loops stand at `start`: what is still to be counted off is what `minus` would still keep.
uncovered_loop-minus_loop :
    (iv : Interval) (r start : ℕ) (mine : List Interval)
    → IsNormal mine
    → IsInterval iv
    → iv.start ≤ start
    → start ≤ iv.end
    → (start ≡ iv.start) ⊎ IsApart (start - 1) mine
    → iv.end + 1 - start ≤ r
    → r ≤ max_int64
    → uncovered_loop iv r mine + (iv.end + 1 - start) ≡ r + size (minus_loop iv start mine)
uncovered_loop-minus_loop iv r start [] hm hv h0 h1 ha hr hx =
    unfold uncovered_loop minus_loop in omega arith
uncovered_loop-minus_loop iv r start (m ∷ mine) hm hv h0 h1 ha hr hx =
    rw (uncovered_round iv r m mine hm.0 hv, minus_round iv start m mine hm.0 hv.fits h1)
      (elim (Bool-cases (ltb m.end iv.start)) [
        | inl a ↦
            rw (a, lt→ltb m.end start (ground arith))
              (uncovered_loop-minus_loop iv r start mine hm.2 hv h0 h1 (inl (same (ltb→lt _ _ a)))
                hr hx)
        | inr a ↦
            rw (a, reached (ground arith))
              (elim (Bool-cases (ltb iv.end m.start)) [
                | inl b ↦ rw b (omega arith)
                | inr b ↦
                    rw
                      (
                        b,
                        overlap_lem iv m r hm.0 hv (ground arith) (ground arith) hx
                            (ground (arith, from)),
                        size-append,
                        before-size start m hm.0 (omega arith),
                      )
                      (elim (Bool-cases (leb iv.end m.end)) [
                        | inl c ↦
                            rw (c, uncovered_loop-past iv _ mine m.end hm.2 hv hm.1 (leb→le _ _ c))
                              (ground (arith, from))
                        | inr c ↦ rw c (
                            omega (
                              arith,
                              uncovered_loop-minus_loop iv
                                  (r - (min m.end iv.end + 1 - max m.start iv.start)) (m.end + 1)
                                  mine hm.2 hv (ground arith) (ground arith)
                                  (inr (IsApart-eq m.end _ mine (omega arith) hm.1))
                                  (ground (arith, from)) (omega arith),
                              from,
                              within c,
                              holds (ground arith),
                            ))
                      ])
              ])
      ])
  where
    same : m.end < iv.start → start ≡ iv.start
    same l = elim ha [ inl e ↦ e | inr g ↦ absurd (omega (arith, hm.0.ordered)) ]

    holds : iv.start ≤ m.end → start ≤ m.end
    holds l = elim ha [ inl e ↦ omega arith | inr g ↦ omega (arith, hm.0.ordered) ]

    reached : iv.start ≤ m.end → ltb m.end start ≡ false
    reached l = elim ha [ inl e ↦ ground arith | inr g ↦ ground (arith, hm.0.ordered) ]

    within : leb iv.end m.end ≡ false → m.end < iv.end
    within c = ground arith

    from : max m.start iv.start ≡ start + (m.start - start)
    from = elim ha [ inl e ↦ omega arith | inr g ↦ omega (arith, hv.positive) ]

minus_loop-size-le :
    (iv : Interval) (start : ℕ) (sub : List Interval)
    → IsNormal sub
    → iv.end ≤ max_int64
    → start ≤ iv.end
    → size (minus_loop iv start sub) ≤ iv.end + 1 - start
minus_loop-size-le iv start [] hs hf hl = unfold minus_loop in omega arith
minus_loop-size-le iv start (m ∷ sub) hs hf hl =
    rw (minus_round iv start m sub hs.0 hf hl) (elim (Bool-cases (ltb m.end start)) [
      | inl a ↦ rw a (minus_loop-size-le iv start sub hs.2 hf hl)
      | inr a ↦ rw a (elim (Bool-cases (ltb iv.end m.start)) [
        | inl b ↦ rw b (omega arith)
        | inr b ↦
            rw (b, size-append, before-size start m hs.0 (omega arith))
              (elim (Bool-cases (leb iv.end m.end)) [
                | inl c ↦ rw c (ground arith)
                | inr c ↦ rw c (
                    ground (
                      arith,
                      minus_loop-size-le iv (m.end + 1) sub hs.2 hf (ground arith),
                      hs.0.ordered,
                    ))
              ])
      ])
    ])

-- `uncoveredBy` is the number of transactions that `minus` keeps, with nothing lost to overflow.
pub uncovered_by-minus :
    (iv : Interval) (mine : List Interval)
    → IsNormal mine
    → IsInterval iv
    → uncovered_by iv mine ≡ size (minus iv mine)
unfolding uncovered_by minus
uncovered_by-minus iv mine hm hv =
    rw
      (
        sub64-sub iv.end iv.start (omega arith) (omega arith),
        add64-add (iv.end - iv.start) 1 (omega arith),
        le64-leb (iv.end - iv.start + 1) 0 (omega arith) (omega arith),
        leb_pos,
        loop,
        max64-max (size (minus_loop iv iv.start mine)) 0 (omega (arith, bound)) (omega arith),
      )
      (omega arith)
  where
    leb_pos : leb (iv.end - iv.start + 1) 0 ≡ false
    leb_pos = ground arith

    bound : size (minus_loop iv iv.start mine) ≤ iv.end + 1 - iv.start
    bound = minus_loop-size-le iv iv.start mine hm hv.fits hv.ordered

    loop : uncovered_loop iv (iv.end - iv.start + 1) mine ≡ size (minus_loop iv iv.start mine)
    loop = omega (
      arith,
      uncovered_loop-minus_loop iv (iv.end - iv.start + 1) iv.start mine hm hv (omega arith)
          hv.ordered (inl refl) (omega arith) (omega arith),
    )

pub minus-size-le :
    (iv : Interval) (sub : List Interval)
    → IsNormal sub
    → IsInterval iv
    → size (minus iv sub) ≤ iv.end + 1 - iv.start
unfolding minus
minus-size-le iv sub hs hv = minus_loop-size-le iv iv.start sub hs hv.fits hv.ordered
