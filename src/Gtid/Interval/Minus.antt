-- ===== src/Gtid/Interval/Minus.antt =====
-- What minus and the loop of Difference leave of a range and of a list of ranges.
use cnmsql.Base.{
  ℕ, ◌+◌, ◌≤◌, ◌<◌, ◌≡◌, Bool, true, false, not, ◌&&◌, ◌||◌, List, [], ◌∷◌, ◌++◌, arith, Bool-cases,
  ltb, leb, ltb→lt, ltb→lt, inl, inr, if◌then◌else◌, any-append,
}
use mathlib.Core.List.{append-nil}
use cnmsql.Base.Int64.{max_int64, lt64-ltb, le64-leb, add64-add, sub64-sub}
use cnmsql.Gtid.Interval.{Interval, before, minus_loop, member, IsInterval, IsNormal}
use cnmsql.Gtid.Interval.Cover.{member-apart}

-- One round of the loop, on numbers that do not wrap.
pub minus_round :
    (iv : Interval) (start : ℕ) (m : Interval) (sub : List Interval)
    → IsInterval m
    → iv.end ≤ max_int64
    → start ≤ iv.end
    → minus_loop iv start (m ∷ sub) ≡ (
        if ltb m.end start
        then minus_loop iv start sub
        else if ltb iv.end m.start
        then record { start = start; end = iv.end } ∷ []
        else before start m ++ (if leb iv.end m.end then [] else minus_loop iv (m.end + 1) sub))
unfolding minus_loop
minus_round iv start m sub hm hf hs = rw (
  lt64-ltb m.end start (omega arith) (omega arith),
  lt64-ltb iv.end m.start (omega arith) (omega arith),
  le64-leb iv.end m.end (omega arith) (omega arith),
  add64-add m.end 1 (omega arith),
)

before-member :
    (n start : ℕ) (m : Interval)
    → IsInterval m
    → start ≤ max_int64
    → member n (before start m) ≡ (leb start n && ltb n m.start)
unfolding before
before-member n start m hm hs =
    rw
      (
        lt64-ltb start m.start (omega arith) (omega arith),
        sub64-sub m.start 1 (omega arith) (omega arith),
      )
      (ground arith)

-- The tests of a round that stops at `m`, and of one that goes on; `b` is membership in the rest.
last_round :
    (n start end m0 m1 : ℕ) (b : Bool)
    → start ≤ m1
    → end ≤ m1
    → m0 ≤ end
    → (leb n m1 ≡ true → b ≡ false)
    → (leb start n && ltb n m0) ≡ (leb start n && leb n end && not ((leb m0 n && leb n m1) || b))
last_round n start end m0 m1 b p q r f = ground arith

inner_round :
    (n start end m0 m1 : ℕ) (b : Bool)
    → start ≤ m1
    → m1 < end
    → m0 ≤ end
    → m0 ≤ m1
    → (leb n m1 ≡ true → b ≡ false)
    → ((leb start n && ltb n m0) || (leb (m1 + 1) n && leb n end && not b))
      ≡ (leb start n && leb n end && not ((leb m0 n && leb n m1) || b))
inner_round n start end m0 m1 b p q r o f = ground arith

pub minus_loop-member :
    (n : ℕ) (iv : Interval) (start : ℕ) (sub : List Interval)
    → IsNormal sub
    → iv.end ≤ max_int64
    → start ≤ iv.end
    → member n (minus_loop iv start sub) ≡ (leb start n && leb n iv.end && not (member n sub))
minus_loop-member n iv start [] hs hf hl = unfold minus_loop in ground arith
minus_loop-member n iv start (m ∷ sub) hs hf hl =
    rw (minus_round iv start m sub hs.0 hf hl) (elim (Bool-cases (ltb m.end start)) [
      | inl a ↦ rw a (ground (arith, minus_loop-member n iv start sub hs.2 hf hl))
      | inr a ↦ rw a (elim (Bool-cases (ltb iv.end m.start)) [
        | inl b ↦ rw b (ground (arith, far (ltb→lt _ _ b)))
        | inr b ↦ rw b (elim (Bool-cases (leb iv.end m.end)) [
          | inl c ↦
              rw (c, append-nil, before-member n start m hs.0 (omega arith))
                (last_round n start iv.end m.start m.end _ (ground arith) (ground arith)
                  (ground arith) near)
          | inr c ↦
              rw
                (
                  c,
                  any-append,
                  before-member n start m hs.0 (omega arith),
                  minus_loop-member n iv (m.end + 1) sub hs.2 hf (ground arith),
                )
                (inner_round n start iv.end m.start m.end _ (ground arith) (ground arith)
                  (ground arith) hs.0.ordered near)
        ])
      ])
    ])
  where
    far : iv.end < m.start → leb n iv.end ≡ true → member n sub ≡ false
    far b l = member-apart m.end n sub hs.2 hs.1 (ground (arith, hs.0.ordered))

    near : leb n m.end ≡ true → member n sub ≡ false
    near l = member-apart m.end n sub hs.2 hs.1 (ground arith)
