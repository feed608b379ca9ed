-- ===== src/Gtid/Set/Containment.antt =====
-- Contains and Equal decide inclusion and equality of the transactions held.
use cnmsql.Base.{
  ℕ, ◌≡◌, ◌↔◌, refl, sym, ap, ◌∙◌, Bool, true, false, ◌&&◌, List, [], ◌∷◌, some, All, Text, lookup,
  HasDistinctKeys, text_Eq, text_eq, text_eq_iff, text_eq_refl, is_empty, arith, Bool-cases,
  Option-cases, inl, inr,
}
use cnmsql.Gtid.Interval.{Interval, intervals_cover, member, covers, IsNormal}
use cnmsql.Gtid.Interval.Cover.{intervals_cover_iff}
use cnmsql.Gtid.Set.{GtidSet, slot, cover_all, contains, equal, holds, IsEntry, IsGtidSet}
use cnmsql.Gtid.Set.Meaning.{slot-cons, slot-IsNormal, slot_absent}

cover_all_sound :
    (mine ivs : List Interval) (n : ℕ)
    → IsNormal mine
    → IsNormal ivs
    → cover_all mine ivs ≡ true
    → member n ivs ≡ true
    → member n mine ≡ true
unfolding cover_all
cover_all_sound mine [] n hm hi h m = cc
cover_all_sound mine (iv ∷ ivs) n hm hi h m = elim (Bool-cases (covers n iv)) [
  | inl c ↦ (intervals_cover_iff mine iv hm hi.0).0 (ground arith) n c
  | inr c ↦ cover_all_sound mine ivs n hm hi.2 (ground arith) (rw c at m)
]

cover_all_complete :
    (mine ivs : List Interval)
    → IsNormal mine
    → IsNormal ivs
    → ((n : ℕ) → member n ivs ≡ true → member n mine ≡ true)
    → cover_all mine ivs ≡ true
unfolding cover_all
cover_all_complete mine [] hm hi h = refl
cover_all_complete mine (iv ∷ ivs) hm hi h = rw (
  (intervals_cover_iff mine iv hm hi.0).1 (λ n c. h n (rw c refl)),
  cover_all_complete mine ivs hm hi.2 (λ n m. h n (ground arith)),
)

-- The transactions of one set are all in another.
abbrev pub IsIncluded : GtidSet → GtidSet → Type 0
IsIncluded other s = (u : Text) (n : ℕ) → holds other u n ≡ true → holds s u n ≡ true

slot_found : (s : GtidSet) (u : Text) {ivs : List Interval} → lookup u s ≡ some ivs → slot s u ≡ ivs
unfolding slot
slot_found s u h = rw (h, slot)

-- A source with ranges is looked up and compared; one that `s` lacks covers none of them.
contains_round :
    (s : GtidSet) (v : Text) (ivs : List Interval) (other : GtidSet)
    → is_empty ivs ≡ false
    → contains s ((v, ivs) ∷ other) ≡ (cover_all (slot s v) ivs && contains s other)
unfolding contains
contains_round s v [] other h = cc
contains_round s v (iv ∷ ivs) other h = elim (Option-cases (lookup v s)) [
  | inl e ↦ rw (e, contains, slot_absent s v e) (unfold cover_all intervals_cover in refl)
  | inr (mine, e) ↦
      rw (e, contains, slot_found s v e)
        (ground (arith, ap (λ x. cover_all x ivs) (slot_found s v e)))
]

contains_sound :
    (s other : GtidSet)
    → All IsEntry s
    → All IsEntry other
    → contains s other ≡ true
    → IsIncluded other s
contains_sound s [] hs ho h u n m = cc (ap (member n) (slot_absent [] u (unfold lookup in refl)))
contains_sound s ((v, ivs) ∷ other) hs ho h u n m = elim (Bool-cases (text_eq v u)) [
  | inl e ↦
      let here : member n ivs ≡ true = rw (slot-cons u v ivs other, e) at m in
      rw (← (text_eq_iff v u).0 e)
        (cover_all_sound (slot s v) ivs n (slot-IsNormal s v hs) ho.0.normal parts.0 here)
  | inr e ↦ contains_sound s other hs ho.1 parts.1 u n (rw (slot-cons u v ivs other, e) at m)
]
  where
    parts : (cover_all (slot s v) ivs ≡ true) × (contains s other ≡ true)
    parts = ground (arith, contains_round s v ivs other ho.0.occupied)

contains_complete :
    (s other : GtidSet)
    → All IsEntry s
    → HasDistinctKeys other
    → All IsEntry other
    → IsIncluded other s
    → contains s other ≡ true
contains_complete s [] hs hd ho h = unfold contains in refl
contains_complete s ((v, ivs) ∷ other) hs hd ho h = rw (
  contains_round s v ivs other ho.0.occupied,
  cover_all_complete (slot s v) ivs (slot-IsNormal s v hs) ho.0.normal
      (λ n m. h v n (rw (slot-cons v v ivs other, text_eq_refl v) m)),
  contains_complete s other hs hd.1 ho.1 later,
)
  where
    later : IsIncluded other s
    later u n m = elim (Bool-cases (text_eq v u)) [
      | inl e ↦
          let gone : slot other u ≡ [] = slot_absent other u (rw ((text_eq_iff v u).0 e) at hd.0) in
          cc (ap (member n) gone)
      | inr e ↦ h u n (rw (slot-cons u v ivs other, e) m)
    ]

-- `Contains` holds exactly when every transaction of the other set is in this one.
pub contains_iff :
    (s other : GtidSet)
    → IsGtidSet s
    → IsGtidSet other
    → (contains s other ≡ true) ↔ IsIncluded other s
contains_iff s other hs ho = (
  contains_sound s other hs.entries ho.entries,
  contains_complete s other hs.entries ho.distinct ho.entries,
)

-- `Equal` holds exactly when both sets hold the same transactions.
equal_iff :
    (s other : GtidSet)
    → IsGtidSet s
    → IsGtidSet other
    → (equal s other ≡ true) ↔ ((u : Text) (n : ℕ) → holds s u n ≡ holds other u n)
unfolding equal
equal_iff s other hs ho = (same, both)
  where
    agree : (a b : Bool) → (a ≡ true → b ≡ true) → (b ≡ true → a ≡ true) → a ≡ b
    agree true b f g = sym (f refl)
    agree false true f g = g refl
    agree false false f g = refl

    same :
        (contains s other && contains other s) ≡ true
        → (u : Text) (n : ℕ) → holds s u n ≡ holds other u n
    same h u n =
        agree (holds s u n) (holds other u n) ((contains_iff other s ho hs).0 (ground arith) u n)
          ((contains_iff s other hs ho).0 (ground arith) u n)

    both :
        ((u : Text) (n : ℕ) → holds s u n ≡ holds other u n)
        → (contains s other && contains other s) ≡ true
    both h = rw (
      (contains_iff s other hs ho).1 (λ u n m. h u n ∙ m),
      (contains_iff other s ho hs).1 (λ u n m. sym (h u n) ∙ m),
    )
