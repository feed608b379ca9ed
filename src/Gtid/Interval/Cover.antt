-- ===== src/Gtid/Interval/Cover.antt =====
-- What intervalsCover, minus and uncoveredBy compute of normal lists.
use cnmsql.Base.{
  ℕ, ◌+◌, ◌≤◌, ◌<◌, ◌≡◌, refl, true, false, ◌||◌, List, [], ◌∷◌, arith, Bool-cases, leb, leb→le,
  le→leb, inl, inr, ◌↔◌,
}
use cnmsql.Base.Int64.{le64-leb}
use cnmsql.Gtid.Interval.{Interval, intervals_cover, covers, member, IsInterval, IsApart, IsNormal}

-- Every number of `iv` is in the list.
abbrev pub IsCovered : Interval → List Interval → Type 0
IsCovered iv mine = (n : ℕ) → covers n iv ≡ true → member n mine ≡ true

intervals_cover_sound :
    (mine : List Interval) (iv : Interval) (n : ℕ)
    → IsNormal mine
    → IsInterval iv
    → intervals_cover mine iv ≡ true
    → covers n iv ≡ true
    → member n mine ≡ true
unfolding intervals_cover
intervals_cover_sound [] iv n hm hv h c = cc
intervals_cover_sound (m ∷ mine) iv n hm hv h c = ground (
  arith,
  le64-leb m.start iv.start (omega arith) (omega arith),
  le64-leb iv.end m.end (omega arith) (omega arith),
  intervals_cover_sound mine iv n hm.2 hv,
)

-- No number up to one past `e` is in the list.
pub member-apart :
    (e n : ℕ) (ivs : List Interval)
    → IsNormal ivs
    → IsApart e ivs
    → n ≤ e + 1
    → member n ivs ≡ false
member-apart e n [] h a l = refl
member-apart e n (iv ∷ ivs) h a l =
    ground (arith, member-apart iv.end n ivs h.2 h.1 (omega (arith, h.0.ordered)))

-- Neither side of the first range is in the list.
member-before :
    (n : ℕ) (m : Interval) (mine : List Interval)
    → IsNormal (m ∷ mine)
    → n < m.start
    → member n (m ∷ mine) ≡ false
member-before n m mine h l =
    ground (arith, member-apart m.end n mine h.2 h.1 (omega (arith, h.0.ordered)))

member-after :
    (m : Interval) (mine : List Interval)
    → IsNormal (m ∷ mine)
    → member (m.end + 1) (m ∷ mine) ≡ false
member-after m mine h = ground (arith, member-apart m.end (m.end + 1) mine h.2 h.1 (omega arith))

intervals_cover_complete :
    (mine : List Interval) (iv : Interval)
    → IsNormal mine
    → IsInterval iv
    → IsCovered iv mine
    → intervals_cover mine iv ≡ true
unfolding intervals_cover
intervals_cover_complete [] iv hm hv c = c iv.start (ground arith)
intervals_cover_complete (m ∷ mine) iv hm hv c = elim (Bool-cases (leb iv.start m.end)) [
  | inl e ↦ rw (
    le64-leb m.start iv.start (omega arith) (omega arith),
    le64-leb iv.end m.end (omega arith) (omega arith),
    le→leb _ _ (left e),
    le→leb _ _ (right e),
  )
  | inr e ↦ rest (intervals_cover_complete mine iv hm.2 hv (later e))
]
  where
    left : leb iv.start m.end ≡ true → m.start ≤ iv.start
    left e = elim (Bool-cases (leb m.start iv.start)) [
      | inl l ↦ leb→le _ _ l
      | inr g ↦ cc (c iv.start (ground arith), member-before iv.start m mine hm (ground arith))
    ]

    right : leb iv.start m.end ≡ true → iv.end ≤ m.end
    right e = elim (Bool-cases (leb iv.end m.end)) [
      | inl l ↦ leb→le _ _ l
      | inr g ↦ cc (c (m.end + 1) (ground arith), member-after m mine hm)
    ]

    later : leb iv.start m.end ≡ false → IsCovered iv mine
    later e n h =
        let o : covers n m ≡ false = ground arith in
        let k : (covers n m || member n mine) ≡ true = c n h in rw o at k

    rest : intervals_cover mine iv ≡ true → intervals_cover (m ∷ mine) iv ≡ true
    rest r = ground arith

-- For a normal list, a valid range is covered by one interval exactly when each of its numbers is
-- in the list.
pub intervals_cover_iff :
    (mine : List Interval) (iv : Interval)
    → IsNormal mine
    → IsInterval iv
    → (intervals_cover mine iv ≡ true) ↔ IsCovered iv mine
intervals_cover_iff mine iv hm hv =
    (λ h n c. intervals_cover_sound mine iv n hm hv h c, intervals_cover_complete mine iv hm hv)
