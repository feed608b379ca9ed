-- ===== src/Schedule/Ranks.antt =====
-- How many backups are as new as the one at an index of sortNewestFirst:
-- internal/controller/scheduledbackup_retention.go.
use cnmsql.Base.{
  ℕ, suc, ◌+◌, ◌≤◌, ◌<◌, ◌≡◌, refl, ◌∙◌, Bool, false, not, ◌&&◌, List, [], ◌∷◌, Text, text_eq, sort,
  insert_sorted, any, any-insert_sorted, All, Bool-cases, arith, inl, inr, if◌then◌else◌, ltb,
}
use cnmsql.Schedule.{Backup, in_phase, is_newer, sort_newest_first}

abbrev pub count : (Backup → Bool) → List Backup → ℕ
count p [] = 0
count p (x ∷ xs) = let rest = count p xs in if p x then suc rest else rest

-- `x` was not created before `e`.
abbrev pub is_as_new : Backup → Backup → Bool
is_as_new e x = not (ltb x.created_at e.created_at)

-- The index of each entry in the list is below its rank.
abbrev pub IsRanked : (Backup → ℕ) → ℕ → List Backup → Type 0
IsRanked rank i [] = Unit
IsRanked rank i (e ∷ es) = (i < rank e) × IsRanked rank (suc i) es

abbrev is_older_than : Backup → Backup → Bool
is_older_than e x = ltb x.created_at e.created_at

IsSorted : List Backup → Type 0
IsSorted [] = Unit
IsSorted (x ∷ xs) = (any (λ y. is_older_than y x) xs ≡ false) × IsSorted xs

any-later :
    (x y : Backup) (ys : List Backup)
    → is_older_than y x ≡ false
    → any (λ z. is_older_than z y) ys ≡ false
    → any (λ z. is_older_than z x) ys ≡ false
any-later x y [] h a = refl
any-later x y (z ∷ ys) h a = ground (arith, any-later x y ys h)

insert_sorted-IsSorted :
    (x : Backup) (ys : List Backup) → IsSorted ys → IsSorted (insert_sorted is_newer x ys)
unfolding insert_sorted IsSorted is_newer
insert_sorted-IsSorted x [] s = (refl, tt)
insert_sorted-IsSorted x (y ∷ ys) s = elim (Bool-cases (is_newer y x)) [
  | inl g ↦ rw g (
    any-insert_sorted is_newer (λ z. is_older_than z y) x ys ∙ ground (arith, s.0),
    insert_sorted-IsSorted x ys s.1,
  )
  | inr g ↦ rw g (ground (arith, any-later x y ys (ground arith) s.0), s)
]

sort-IsSorted : (xs : List Backup) → IsSorted (sort is_newer xs)
unfolding sort
sort-IsSorted [] = unfold IsSorted in tt
sort-IsSorted (x ∷ xs) = insert_sorted-IsSorted x (sort is_newer xs) (sort-IsSorted xs)

count-insert_sorted :
    (p : Backup → Bool) (x : Backup) (ys : List Backup)
    → count p (insert_sorted is_newer x ys) ≡ count p (x ∷ ys)
unfolding insert_sorted
count-insert_sorted p x [] = refl
count-insert_sorted p x (y ∷ ys) = ground (arith, count-insert_sorted p x ys)

count-sort : (p : Backup → Bool) (xs : List Backup) → count p (sort is_newer xs) ≡ count p xs
unfolding sort
count-sort p [] = refl
count-sort p (x ∷ xs) = ground (arith, count-insert_sorted p x (sort is_newer xs), count-sort p xs)

count-in_phase :
    (p : Backup → Bool) (phase : Text) (xs : List Backup)
    → count p (in_phase phase xs) ≡ count (λ e. text_eq e.phase phase && p e) xs
unfolding in_phase
count-in_phase p phase [] = refl
count-in_phase p phase (x ∷ xs) = ground (arith, count-in_phase p phase xs)

-- The rank of each entry counts those of the list and `i` more.
abbrev IsCounted : (Backup → ℕ) → ℕ → List Backup → List Backup → Type 0
IsCounted rank i xs = All (λ e. i + count (is_as_new e) xs ≤ rank e)

rest-IsCounted :
    (rank : Backup → ℕ) (i : ℕ) (x : Backup) (xs ys : List Backup)
    → any (λ y. is_older_than y x) ys ≡ false
    → IsCounted rank i (x ∷ xs) ys
    → IsCounted rank (suc i) xs ys
rest-IsCounted rank i x xs [] s h = tt
rest-IsCounted rank i x xs (y ∷ ys) s h =
    (ground (arith, h.0, s), rest-IsCounted rank i x xs ys (ground (arith, s)) h.1)

sorted-IsRanked :
    (rank : Backup → ℕ) (i : ℕ) (xs : List Backup)
    → IsSorted xs
    → IsCounted rank i xs xs
    → IsRanked rank i xs
unfolding IsSorted
sorted-IsRanked rank i [] s h = tt
sorted-IsRanked rank i (x ∷ xs) s h = (
  ground (arith, h.0),
  sorted-IsRanked rank (suc i) xs s.1 (rest-IsCounted rank i x xs xs s.0 h.1),
)

All-always : (P : Backup → Type 0) (xs : List Backup) → ((e : Backup) → P e) → All P xs
All-always P [] f = tt
All-always P (x ∷ xs) f = (f x, All-always P xs f)

-- How many children of the phase are as new as the backup.
abbrev pub rank_in : Text → List Backup → Backup → ℕ
rank_in phase children e = count (λ x. text_eq x.phase phase && is_as_new e x) children

pub sort_newest_first-IsRanked :
    (phase : Text) (children : List Backup)
    → IsRanked (rank_in phase children) 0 (sort_newest_first (in_phase phase children))
unfolding sort_newest_first
sort_newest_first-IsRanked phase children =
    sorted-IsRanked _ 0 (sort is_newer (in_phase phase children)) (sort-IsSorted _) (
      All-always _ _ (λ e. omega (
        arith,
        count-sort (is_as_new e) (in_phase phase children),
        count-in_phase (is_as_new e) phase children,
      )))
