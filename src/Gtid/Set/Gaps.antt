-- ===== src/Gtid/Set/Gaps.antt =====
-- The gaps between the ranges of one source, in Holes of pkg/management/mysql/replication/gtid.go.
use cnmsql.Base.{
  ℕ, ◌+◌, ◌-◌, ◌≤◌, ◌<◌, ◌≡◌, Bool, true, false, ◌||◌, List, [], ◌∷◌, text_Eq, ltb, not-ltb→le,
  ltb→lt, ltb→lt, arith, Bool-cases, inl, inr,
}
use cnmsql.Base.Int64.{add64, sub64, add64-add, sub64-sub}
use cnmsql.Gtid.Interval.{Interval, member, covers, IsInterval, IsApart, IsNormal}
use cnmsql.Gtid.Set.{gaps}

-- The gap between two neighbours.
abbrev gap_of : Interval → Interval → Interval
gap_of a b = record { start = add64 a.end 1; end = sub64 b.start 1 }

gap_ends :
    (a b : Interval)
    → IsInterval a
    → IsInterval b
    → a.end + 1 < b.start
    → (add64 a.end 1 ≡ a.end + 1) × (sub64 b.start 1 ≡ b.start - 1)
gap_ends a b ha hb apart =
    (add64-add a.end 1 (ground arith), sub64-sub b.start 1 (ground arith) (ground arith))

gap-IsInterval :
    (a b : Interval) → IsInterval a → IsInterval b → a.end + 1 < b.start → IsInterval (gap_of a b)
gap-IsInterval a b ha hb apart =
    let (s, e) = gap_ends a b ha hb apart in
    record { positive = ground arith; ordered = ground arith; fits = ground arith }

gaps-IsApart :
    (e : ℕ) (a : Interval) (ivs : List Interval)
    → IsNormal (a ∷ ivs)
    → e < a.end
    → IsApart e (gaps (a ∷ ivs))
unfolding gaps
gaps-IsApart e a [] h lt = tt
gaps-IsApart e a (b ∷ ivs) h lt = let (s, g) = gap_ends a b h.0 h.2.0 h.1 in ground arith

pub gaps-IsNormal : (ivs : List Interval) → IsNormal ivs → IsNormal (gaps ivs)
unfolding gaps
gaps-IsNormal [] h = tt
gaps-IsNormal (a ∷ []) h = tt
gaps-IsNormal (a ∷ b ∷ ivs) h =
    let (s, g) = gap_ends a b h.0 h.2.0 h.1 in
    (
      gap-IsInterval a b h.0 h.2.0 h.1,
      gaps-IsApart (sub64 b.start 1) b ivs h.2 (ground (arith, h.2.0)),
      gaps-IsNormal (b ∷ ivs) h.2,
    )

-- What a gap lies between: the first range ends before it, and a later range holds a number after it.
gaps_sound :
    (n : ℕ) (a : Interval) (ivs : List Interval)
    → IsNormal (a ∷ ivs)
    → member n (gaps (a ∷ ivs)) ≡ true
    → (a.end < n) × ((m : ℕ) × (n < m) × (member m ivs ≡ true))
unfolding gaps
gaps_sound n a [] h e = cc
gaps_sound n a (b ∷ ivs) h e =
    let (s, g) = gap_ends a b h.0 h.2.0 h.1 in
    elim (Bool-cases (covers n (gap_of a b))) [
      | inl c ↦ (ground arith, (b.start, ground arith, ground (arith, h.2.0)))
      | inr c ↦
          let (low, later) = gaps_sound n b ivs h.2 (rw c at e) in
          let (m, lt, f) = later in (ground (arith, h.2.0, h.1), (m, lt, rw f (ground arith)))
    ]

or_false : (a b : Bool) → (a || b) ≡ false → (a ≡ false) × (b ≡ false)
or_false a b h = (ground arith, ground arith)

or_right : (a b : Bool) → a ≡ false → (a || b) ≡ true → b ≡ true
or_right a b f h = ground arith

past_end : (n : ℕ) (b : Interval) → covers n b ≡ false → b.start ≤ n → b.end < n
past_end n b h lt = ground arith

off_past : (m : ℕ) (b : Interval) → b.end < m → covers m b ≡ false
off_past m b h = ground arith

in_gap :
    (n : ℕ) (a b : Interval)
    → add64 a.end 1 ≡ a.end + 1
    → sub64 b.start 1 ≡ b.start - 1
    → a.end < n
    → n < b.start
    → covers n (gap_of a b) ≡ true
in_gap n a b s g low high = rw (s, g) (ground arith)

-- A number that is missing between two that are held is in a gap.
gaps_complete :
    (n m : ℕ) (a : Interval) (ivs : List Interval)
    → IsNormal (a ∷ ivs)
    → a.end < n
    → member n ivs ≡ false
    → n < m
    → member m ivs ≡ true
    → member n (gaps (a ∷ ivs)) ≡ true
unfolding gaps
gaps_complete n m a [] h low out lt e = cc
gaps_complete n m a (b ∷ ivs) h low out lt e =
    let (s, g) = gap_ends a b h.0 h.2.0 h.1 in
    let (off_b, off) = or_false (covers n b) (member n ivs) out in
    elim (Bool-cases (ltb n b.start)) [
      | inl c ↦
          let here : covers n (gap_of a b) ≡ true = in_gap n a b s g low (ltb→lt n b.start c) in
          rw here
      | inr c ↦
          let past = past_end n b off_b (not-ltb→le n b.start c) in
          rw
            (gaps_complete n m b ivs h.2 past off lt
              (or_right (covers m b) (member m ivs) (off_past m b (omega (arith, past, lt))) e))
            (ground arith)
    ]

-- A range of normal ones before the first that holds the number.
starts_by :
    (l : ℕ) (a : Interval) (ivs : List Interval)
    → IsNormal (a ∷ ivs)
    → member l (a ∷ ivs) ≡ true
    → a.start ≤ l
starts_by l a [] h e = ground arith
starts_by l a (b ∷ ivs) h e = elim (Bool-cases (covers l a)) [
  | inl c ↦ ground arith
  | inr c ↦ let later = starts_by l b ivs h.2 (rw c at e) in omega (arith, h.1, h.0.ordered, later)
]

pub gaps-member :
    (n low high : ℕ) (ivs : List Interval)
    → IsNormal ivs
    → low < n
    → n < high
    → member low ivs ≡ true
    → member high ivs ≡ true
    → member n ivs ≡ false
    → member n (gaps ivs) ≡ true
gaps-member n low high [] h l g a b out = cc
gaps-member n low high (a ∷ ivs) h l g e f out =
    let first = starts_by low a ivs h e in
    let (off_a, off) = or_false (covers n a) (member n ivs) out in
    let past = past_end n a off_a (omega (arith, first, l)) in
    gaps_complete n high a ivs h past off g
      (or_right (covers high a) (member high ivs) (off_past high a (omega (arith, past, g))) f)

-- A number in a gap is in no range.
gaps-unheld :
    (n : ℕ) (a : Interval) (ivs : List Interval)
    → IsNormal (a ∷ ivs)
    → member n (gaps (a ∷ ivs)) ≡ true
    → member n (a ∷ ivs) ≡ false
unfolding gaps
gaps-unheld n a [] h e = cc
gaps-unheld n a (b ∷ ivs) h e =
    let (s, g) = gap_ends a b h.0 h.2.0 h.1 in
    elim (Bool-cases (covers n (gap_of a b))) [
      | inl c ↦ elim (Bool-cases (member n (b ∷ ivs))) [
        | inl m ↦ absurd (ground (arith, starts_by n b ivs h.2 m))
        | inr m ↦ rw m (ground arith)
      ]
      | inr c ↦
          let off = gaps-unheld n b ivs h.2 (rw c at e) in
          let (past, later) = gaps_sound n b ivs h.2 (rw c at e) in
          rw off (ground (arith, h.0, h.1, h.2.0))
    ]

pub gaps-member_between :
    (n : ℕ) (ivs : List Interval)
    → IsNormal ivs
    → member n (gaps ivs) ≡ true
    → (low : ℕ) × (high : ℕ) × (low < n)
      × (n < high)
      × (member low ivs ≡ true)
      × (member high ivs ≡ true)
      × (member n ivs ≡ false)
unfolding gaps
gaps-member_between n [] h e = cc
gaps-member_between n (a ∷ ivs) h e =
    let (low, later) = gaps_sound n a ivs h e in
    let (m, lt, f) = later in
    (a.end, m, low, lt, ground (arith, h.0), rw f (ground arith), gaps-unheld n a ivs h e)
