-- ===== src/Quorum/Survivor.antt =====
-- Which member a lost group is formed again from.
use mathlib.Core.Path.{subst}
use cnmsql.Base.{
  ltb, ℕ, ◌≤◌, ◌≡◌, refl, sym, ◌∙◌, Bool, true, false, ◌||◌, List, [], ◌∷◌, Option, none, some,
  some_inj, Text, text_eq, text_eq_iff, text_eq_refl, text_lt, sort, any-sort, is_empty, length,
  if◌then◌else◌, arith, Bool-cases, inl, inr,
}
use cnmsql.Base.Int64.{le64, lt64, lt64-ltb, IsNonneg, max_int64}
use cnmsql.Failover.{get, has}
use cnmsql.Gtid.Texts.{gtid_contains}
use cnmsql.Quorum.{
  is_contained, gtid_dominates_all, first_rebootstrap, names_of, select_rebootstrap_survivor,
}

-- The member reported a position, and it contains the position of every other member that is named.
pub record IsDominant (names : List Text) (gtids : List (Text × Text)) (name : Text) : Type 0 where
  pub named : has name names ≡ true
  pub positioned : is_empty (get [] name gtids) ≡ false
  pub contains_all :
      (other : Text)
      → has other names ≡ true
      → text_eq other name ≡ false
      → gtid_contains (get [] name gtids) (get [] other gtids) ≡ some true

contained : (o : Option Bool) → is_contained o ≡ true → o ≡ some true
contained none h = cc
contained (some true) h = refl
contained (some false) h = cc

contains-step :
    (b : Bool) (o : Option Bool) (rest : Bool)
    → (if b then rest else if is_contained o then rest else false) ≡ true
    → (rest ≡ true) × (b ≡ false → o ≡ some true)
contains-step true o rest h = (h, λ z. cc)
contains-step false none rest h = cc
contains-step false (some false) rest h = cc
contains-step false (some true) rest h = (h, λ z. refl)

gtid_dominates_all-contains :
    (gtid : Text) (names : List Text) (candidate : Text) (gtids : List (Text × Text)) (other : Text)
    → gtid_dominates_all gtid names candidate gtids ≡ true
    → has other names ≡ true
    → text_eq other candidate ≡ false
    → gtid_contains gtid (get [] other gtids) ≡ some true
unfolding gtid_dominates_all
gtid_dominates_all-contains gtid [] candidate gtids other d m n = cc
gtid_dominates_all-contains gtid (o ∷ names) candidate gtids other d m n =
    let (rest, here) = contains-step _ _ _ d in
    elim (Bool-cases (text_eq other o)) [
      | inl g ↦
          subst (λ x. gtid_contains gtid (get [] x gtids) ≡ some true)
            (sym ((text_eq_iff other o).0 g))
            (here (subst (λ x. text_eq x candidate ≡ false) ((text_eq_iff other o).0 g) n))
      | inr g ↦ gtid_dominates_all-contains gtid names candidate gtids other rest (rw g at m) n
    ]

first_rebootstrap-IsDominant :
    (candidates names : List Text) (gtids : List (Text × Text)) (name : Text)
    → ((n : Text) → has n candidates ≡ true → has n names ≡ true)
    → first_rebootstrap candidates names gtids ≡ some name
    → IsDominant names gtids name
unfolding first_rebootstrap
first_rebootstrap-IsDominant [] names gtids name s h = cc
first_rebootstrap-IsDominant (c ∷ candidates) names gtids name s h =
    step (is_empty (get [] c gtids)) (gtid_dominates_all (get [] c gtids) names c gtids) refl refl h
      (first_rebootstrap-IsDominant candidates names gtids name (λ n m. s n (ground arith)))
  where
    step :
        (e d : Bool)
        → is_empty (get [] c gtids) ≡ e
        → gtid_dominates_all (get [] c gtids) names c gtids ≡ d
        → (if e
            then first_rebootstrap candidates names gtids
            else if d
            then some c
            else first_rebootstrap candidates names gtids)
          ≡ some name
        → (first_rebootstrap candidates names gtids ≡ some name → IsDominant names gtids name)
        → IsDominant names gtids name
    step true d p q r later = later r
    step false false p q r later = later r
    step false true p q r later = subst (IsDominant names gtids) (some_inj r) (record {
      named = s c (rw text_eq_refl);
      positioned = p;
      contains_all =
          λ other m n. gtid_dominates_all-contains (get [] c gtids) names c gtids other q m n;
    })

-- The member that selectRebootstrapSurvivor returns has a position that is not empty, and it contains the position of
-- every other entry of the map; and the map has an entry for as many members as are configured.
pub rebootstrap_survivor-IsDominant :
    (gtids : List (Text × Text)) (configured : ℕ) (name : Text)
    → IsNonneg configured
    → length gtids ≤ max_int64
    → select_rebootstrap_survivor gtids configured ≡ some name
    → (configured ≤ length gtids) × IsDominant (names_of gtids) gtids name
unfolding select_rebootstrap_survivor
rebootstrap_survivor-IsDominant gtids configured name hc hl h =
    step (le64 configured 0) (lt64 (length gtids) configured) refl
      (rw (lt64-ltb (length gtids) configured hl hc)) h
  where
    sorted : List Text
    sorted = sort text_lt (names_of gtids)

    unsorted : IsDominant sorted gtids name → IsDominant (names_of gtids) gtids name
    unsorted d = record {
      named = sym (any-sort text_lt (text_eq name) (names_of gtids)) ∙ d.named;
      positioned = d.positioned;
      contains_all = λ other m n.
          d.contains_all other (any-sort text_lt (text_eq other) (names_of gtids) ∙ m) n;
    }

    step :
        (z l : Bool)
        → le64 configured 0 ≡ z
        → ltb (length gtids) configured ≡ l
        → (if z || l then none else first_rebootstrap sorted sorted gtids) ≡ some name
        → (configured ≤ length gtids) × IsDominant (names_of gtids) gtids name
    step true l p q r = cc
    step false true p q r = cc
    step false false p q r = (
      ground arith,
      unsorted (first_rebootstrap-IsDominant sorted sorted gtids name (λ n m. m) r),
    )
