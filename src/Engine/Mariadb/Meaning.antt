-- ===== src/Engine/Mariadb/Meaning.antt =====
-- What the operations on MariaDB positions say of the sequence number reached in each domain.
use mathlib.Core.Path.{subst}
use cnmsql.Base.{
  ℕ, ◌+◌, ◌-◌, ◌≤◌, min, max, ◌≡◌, ◌↔◌, refl, sym, ap, ◌∙◌, true, [], ◌∷◌, Option, none, some,
  if◌then◌else◌, ltb, leb, leb→le, le→leb, ◌==◌, ==_iff, lookup, nat_eq, lookup-insert,
  HasDistinctKeys, insert-HasDistinctKeys, arith, Bool-cases, Option-cases, inl, inr, All,
}
use cnmsql.Base.Int64.{max_int64, lt64-ltb, add64-add, sub64-sub}
use cnmsql.Engine.Mariadb.{
  MariaEntry, MariaPos, keep_highest, replaces, reaches, add_domain, contains, add_saturating,
  missing_loop, merge,
}

-- The sequence number reached in a domain, `none` where the position has no entry.
abbrev seq_of : Option MariaEntry → Option ℕ
seq_of none = none
seq_of (some e) = some e.seq

abbrev pub reached : MariaPos → ℕ → Option ℕ
reached pos d = seq_of (lookup d pos)

-- The order of reached sequence numbers; a domain without an entry is below every other.
abbrev pub IsReachedBy : Option ℕ → Option ℕ → Type 0
IsReachedBy none b = Unit
IsReachedBy (some n) none = ⊥
IsReachedBy (some n) (some m) = n ≤ m

pub IsBelow : MariaPos → MariaPos → Type 0
IsBelow sub super = (d : ℕ) → IsReachedBy (reached sub d) (reached super d)

-- The higher of two reached sequence numbers.
abbrev pub higher : Option ℕ → Option ℕ → Option ℕ
higher none b = b
higher (some n) none = some n
higher (some n) (some m) = some (max n m)

IsBelow-cons :
    (d : ℕ) (e : MariaEntry) (sub super : MariaPos)
    → lookup d sub ≡ none
    → (IsBelow ((d, e) ∷ sub) super)
      ↔ (IsReachedBy (some e.seq) (reached super d) × IsBelow sub super)
unfolding IsBelow lookup
IsBelow-cons d e sub super f = (λ h. (here h, λ k. there h k), λ h k. back h k)
  where
    here : IsBelow ((d, e) ∷ sub) super → IsReachedBy (some e.seq) (reached super d)
    here h =
        subst (λ b. IsReachedBy (seq_of (if b then some e else lookup d sub)) (reached super d))
          ((==_iff d d).1 refl) (h d)

    there : IsBelow ((d, e) ∷ sub) super → (k : ℕ) → IsReachedBy (reached sub k) (reached super k)
    there h k = elim (Bool-cases (d == k)) [
      | inl g ↦ rw (sym ((==_iff d k).0 g), f) tt
      | inr g ↦
          subst (λ b. IsReachedBy (seq_of (if b then some e else lookup k sub)) (reached super k)) g
            (h k)
    ]

    back :
        IsReachedBy (some e.seq) (reached super d) × IsBelow sub super
        → (k : ℕ) → IsReachedBy (reached ((d, e) ∷ sub) k) (reached super k)
    back h k = elim (Bool-cases (d == k)) [
      | inl g ↦ rw (g, sym ((==_iff d k).0 g)) h.0
      | inr g ↦ rw g (h.1 k)
    ]

reaches_iff :
    (mine : Option MariaEntry) (e : MariaEntry)
    → (reaches mine e ≡ true) ↔ IsReachedBy (some e.seq) (seq_of mine)
reaches_iff none e = (λ h. cc, λ h. absurd h)
reaches_iff (some mine) e = (leb→le e.seq mine.seq, le→leb e.seq mine.seq)

-- One position contains another exactly when it has reached, in each domain of the other, at least the same
-- sequence number, whichever servers wrote.
pub contains_iff :
    (super sub : MariaPos) → HasDistinctKeys sub → (contains super sub ≡ true) ↔ IsBelow sub super
unfolding contains
contains_iff super [] h = (λ e. unfold IsBelow in λ d. unfold lookup in tt, λ b. refl)
contains_iff super ((d, e) ∷ sub) h =
    step (IsBelow-cons d e sub super h.0) (contains_iff super sub h.1)
  where
    step :
        (IsBelow ((d, e) ∷ sub) super)
          ↔ (IsReachedBy (some e.seq) (reached super d) × IsBelow sub super)
        → (contains super sub ≡ true) ↔ IsBelow sub super
        → (contains super ((d, e) ∷ sub) ≡ true) ↔ IsBelow ((d, e) ∷ sub) super
    step cons rest = (
      λ t. cons.1 ((reaches_iff (lookup d super) e).0 (ground arith), rest.0 (ground arith)),
      λ b. rw ((reaches_iff (lookup d super) e).1 (cons.0 b).0, rest.1 (cons.0 b).1),
    )

pub keep_highest-reached :
    (d : ℕ) (e : MariaEntry) (pos : MariaPos) (k : ℕ)
    → reached (keep_highest d e pos) k
      ≡ (if d == k then higher (some e.seq) (reached pos d) else reached pos k)
unfolding keep_highest
keep_highest-reached d e pos k = elim (Option-cases (lookup d pos)) [
  | inl n ↦ rw (n, lookup-insert d k e pos) (ground arith)
  | inr (old, o) ↦ rw o (elim (Bool-cases (leb old.seq e.seq)) [
    | inl g ↦ rw (g, lookup-insert d k e pos) (ground arith)
    | inr g ↦ rw g (ground (arith, ==_iff d k))
  ])
]

pub keep_highest-HasDistinctKeys :
    (d : ℕ) (e : MariaEntry) (pos : MariaPos)
    → HasDistinctKeys pos
    → HasDistinctKeys (keep_highest d e pos)
unfolding keep_highest
keep_highest-HasDistinctKeys d e pos h = elim (Bool-cases (replaces e (lookup d pos))) [
  | inl n ↦ rw n (insert-HasDistinctKeys d e pos h)
  | inr n ↦ rw n h
]

add_saturating-min :
    (total n : ℕ) → total ≤ max_int64 → add_saturating total n ≡ min max_int64 (total + n)
unfolding add_saturating
add_saturating-min total n h = elim (Bool-cases (ltb max_int64 n)) [
  | inl e ↦ rw e (ground arith)
  | inr e ↦
      rw
        (
          e,
          sub64-sub max_int64 total (omega arith) h,
          lt64-ltb (max_int64 - total) n (omega arith) (ground arith),
        )
        (elim (Bool-cases (ltb (max_int64 - total) n)) [
          | inl g ↦ rw g (ground arith)
          | inr g ↦ rw (g, add64-add total n (ground arith)) (ground arith)
        ])
]

-- What `want` has in each domain beyond `have`, added up.
abbrev lacking : Option MariaEntry → MariaEntry → ℕ
lacking none wanted = wanted.seq
lacking (some mine) wanted = wanted.seq - mine.seq

abbrev pub shortfall : MariaPos → MariaPos → ℕ
shortfall have [] = 0
shortfall have ((domain, wanted) ∷ want) = lacking (lookup domain have) wanted + shortfall have want

-- The sequence numbers fit 64 bits.
abbrev pub IsSized : MariaPos → Type 0
IsSized = All (λ entry. entry.1.seq ≤ 18446744073709551615)

add_domain-min :
    (mine : Option MariaEntry) (wanted : MariaEntry) (missing : ℕ)
    → wanted.seq ≤ 18446744073709551615
    → missing ≤ max_int64
    → add_domain mine wanted missing ≡ min max_int64 (missing + lacking mine wanted)
add_domain-min none wanted missing hw h = add_saturating-min missing wanted.seq h
add_domain-min (some mine) wanted missing hw h = elim (Bool-cases (ltb mine.seq wanted.seq)) [
  | inl g ↦ rw g (
      ap (add_saturating missing) (ground arith)
      ∙ add_saturating-min missing (wanted.seq - mine.seq) h)
  | inr g ↦ rw g (ground arith)
]

pub missing_loop-shortfall :
    (have want : MariaPos) (missing : ℕ)
    → IsSized want
    → missing ≤ max_int64
    → missing_loop have want missing ≡ min max_int64 (missing + shortfall have want)
unfolding missing_loop
missing_loop-shortfall have [] missing hw h = omega arith
missing_loop-shortfall have ((domain, wanted) ∷ want) missing hw h =
    rw (add_domain-min (lookup domain have) wanted missing hw.0 h)
      (missing_loop-shortfall have want _ hw.1 (omega arith) ∙ omega arith)

pub merge-reached :
    (pos union : MariaPos) (k : ℕ)
    → HasDistinctKeys pos
    → reached (merge pos union) k ≡ higher (reached pos k) (reached union k)
unfolding merge lookup
merge-reached [] union k h = refl
merge-reached ((d, e) ∷ pos) union k h =
    merge-reached pos (keep_highest d e union) k h.1
    ∙ rw (keep_highest-reached d e union k)
        (elim (Bool-cases (d == k)) [ inl g ↦ rw (g, sym ((==_iff d k).0 g), h.0) | inr g ↦ rw g ])

pub merge-HasDistinctKeys :
    (pos union : MariaPos) → HasDistinctKeys union → HasDistinctKeys (merge pos union)
unfolding merge
merge-HasDistinctKeys [] union h = h
merge-HasDistinctKeys ((d, e) ∷ pos) union h =
    merge-HasDistinctKeys pos (keep_highest d e union) (keep_highest-HasDistinctKeys d e union h)
