-- ===== src/Schedule/Floor.antt =====
-- What planBackupGC keeps: internal/controller/scheduledbackup_retention.go.
use cnmsql.Base.{
  ℕ, suc, ◌≡◌, inl, inr, refl, ap, ◌∙◌, sym, Bool, true, false, ◌&&◌, ◌||◌, List, [], ◌∷◌, Option,
  Text, text_eq, text_Eq, text_eq_iff, text_eq_refl, insert, sort, insert_sorted, any, any-sort,
  any-insert_sorted, All, Bool-cases, arith, ltb, ◌==◌,
}
use cnmsql.Schedule.{
  Backup, phase_completed, in_phase, is_newer, sort_newest_first, over_count, over_age,
  collect_from, delete_key, spare_floor, values, plan_sorted, plan_backup_gc,
}

-- Each candidate stands under its own name.
abbrev IsNamed : List (Text × Backup) → Type 0
IsNamed = All (λ c. c.0 ≡ c.1.name)

insert-IsNamed : (e : Backup) (m : List (Text × Backup)) → IsNamed m → IsNamed (insert e.name e m)
unfolding insert
insert-IsNamed e [] a = (refl, tt)
insert-IsNamed e ((j, x) ∷ m) a = elim (Bool-cases (text_eq j e.name)) [
  | inl q ↦ rw q ((text_eq_iff j e.name).0 q, a.1)
  | inr q ↦ rw q (a.0, insert-IsNamed e m a.1)
]

collect_from-IsNamed :
    (window now : ℕ) (limit : Option ℕ) (i : ℕ) (entries : List Backup) (m : List (Text × Backup))
    → IsNamed m
    → IsNamed (collect_from window now limit i entries m)
unfolding collect_from
collect_from-IsNamed window now limit i [] m a = a
collect_from-IsNamed window now limit i (e ∷ entries) m a =
    collect_from-IsNamed window now limit (suc i) entries _
      (elim (Bool-cases (over_count limit i || over_age window now e)) [
        | inl q ↦ rw q (insert-IsNamed e m a)
        | inr q ↦ rw q a
      ])

abbrev has_name : Text → List Backup → Bool
has_name name = any (λ e. text_eq e.name name)

delete_key-gone :
    (name : Text) (m : List (Text × Backup))
    → IsNamed m
    → has_name name (values (delete_key name m)) ≡ false
unfolding delete_key values
delete_key-gone name [] a = refl
delete_key-gone name ((j, x) ∷ m) a = elim (Bool-cases (text_eq j name)) [
  | inl q ↦ rw q (delete_key-gone name m a.1)
  | inr q ↦ rw q (ground (arith, delete_key-gone name m a.1, ap (λ n. text_eq n name) a.0))
]

abbrev is_created_after : Backup → Backup → Bool
is_created_after newest e = ltb newest.created_at e.created_at

-- Nothing in the list was created after its first entry.
IsLatestFirst : List Backup → Type 0
IsLatestFirst [] = Unit
IsLatestFirst (x ∷ xs) = any (is_created_after x) xs ≡ false

any-later :
    (x y : Backup) (ys : List Backup)
    → is_created_after x y ≡ false
    → any (is_created_after y) ys ≡ false
    → any (is_created_after x) ys ≡ false
any-later x y [] h a = refl
any-later x y (z ∷ ys) h a = ground (arith, any-later x y ys h)

insert_sorted-IsLatestFirst :
    (x : Backup) (ys : List Backup) → IsLatestFirst ys → IsLatestFirst (insert_sorted is_newer x ys)
unfolding insert_sorted IsLatestFirst is_newer
insert_sorted-IsLatestFirst x [] s = refl
insert_sorted-IsLatestFirst x (y ∷ ys) s = elim (Bool-cases (is_newer y x)) [
  | inl g ↦ rw g (any-insert_sorted is_newer (is_created_after y) x ys ∙ ground (arith, s))
  | inr g ↦ rw g (ground (arith, any-later x y ys (ground arith) s))
]

sort-IsLatestFirst : (xs : List Backup) → IsLatestFirst (sort is_newer xs)
unfolding sort
sort-IsLatestFirst [] = unfold IsLatestFirst in tt
sort-IsLatestFirst (x ∷ xs) =
    insert_sorted-IsLatestFirst x (sort is_newer xs) (sort-IsLatestFirst xs)

abbrev is_in : Text → Backup → Bool
is_in phase e = text_eq e.phase phase

abbrev is_same : Backup → Backup → Bool
is_same a b = text_eq a.name b.name && a.created_at == b.created_at

any-in_phase :
    (p : Backup → Bool) (phase : Text) (xs : List Backup)
    → any p (in_phase phase xs) ≡ any (λ e. is_in phase e && p e) xs
unfolding in_phase
any-in_phase p phase [] = refl
any-in_phase p phase (x ∷ xs) = ground (arith, any-in_phase p phase xs)

-- A completed backup among the children, with none completed created after it, that the plan does not name.
pub record IsFloor (children plan : List Backup) (floor : Backup) : Type 0 where
  pub among : any (λ e. is_in phase_completed e && is_same floor e) children ≡ true
  pub latest : any (λ e. is_in phase_completed e && is_created_after floor e) children ≡ false
  pub spared : has_name floor.name plan ≡ false

any-always : (p : Backup → Bool) (xs : List Backup) → any (λ e. p e && true) xs ≡ any p xs
any-always p [] = refl
any-always p (x ∷ xs) = ground (arith, any-always p xs)

sorted-IsFloor :
    (children sorted failed : List Backup) (succ_limit fail_limit : Option ℕ) (window now : ℕ)
    → any (is_in phase_completed) children ≡ true
    → ((p : Backup → Bool) → any p sorted ≡ any (λ e. is_in phase_completed e && p e) children)
    → IsLatestFirst sorted
    → (floor : Backup) × IsFloor children
        (plan_sorted sorted failed succ_limit fail_limit window now)
        floor
unfolding plan_sorted spare_floor IsLatestFirst
sorted-IsFloor children [] failed sl fl window now c an s =
    cc (an (λ e. true), any-always (is_in phase_completed) children, c)
sorted-IsFloor children (x ∷ sorted) failed sl fl window now c an s = (
  x,
  record {
    among = sym (an (is_same x)) ∙ ground (arith, text_eq_refl x.name);
    latest = sym (an (is_created_after x)) ∙ ground (arith, s);
    spared = delete_key-gone x.name _ (
        collect_from-IsNamed window now fl 0 failed _
          (collect_from-IsNamed window now sl 0 (x ∷ sorted) [] tt));
  },
)

-- If a child is completed, planBackupGC spares a completed one that no completed one was created after.
pub plan_backup_gc-IsFloor :
    (children : List Backup) (succ_limit fail_limit : Option ℕ) (window now : ℕ)
    → any (is_in phase_completed) children ≡ true
    → (floor : Backup) × IsFloor children
        (plan_backup_gc children succ_limit fail_limit window now)
        floor
unfolding plan_backup_gc sort_newest_first
plan_backup_gc-IsFloor children sl fl window now c =
    sorted-IsFloor children (sort is_newer completed) _ sl fl window now c
      (λ p. any-sort is_newer p completed ∙ any-in_phase p phase_completed children)
      (sort-IsLatestFirst completed)
  where
    completed : List Backup
    completed = in_phase phase_completed children
