-- ===== src/Schedule/Expiry.antt =====
-- What planBackupGC deletes: internal/controller/scheduledbackup_retention.go.
use cnmsql.Base.{
  ℕ, suc, ◌<◌, ◌≡◌, refl, ◌⊎◌, inl, inr, true, ◌||◌, List, [], ◌∷◌, Option, none, some, Text,
  text_eq, text_Eq, text_eq_iff, insert, All, All-sort, Bool-cases,
}
use cnmsql.Base.Int64.{le64}
use cnmsql.Schedule.Ranks.{IsRanked, rank_in, sort_newest_first-IsRanked}
use cnmsql.Schedule.{
  Backup, phase_completed, phase_failed, in_phase, is_newer, sort_newest_first, over_count,
  over_age, collect_from, delete_key, spare_floor, values, plan_sorted, plan_backup_gc,
}

-- The limit is at most `n`, which is below the rank.
abbrev pub IsOverCount : Option ℕ → ℕ → Type 0
IsOverCount limit rank = (k : ℕ) × (n : ℕ) × (limit ≡ some k) × (le64 k n ≡ true) × (n < rank)

-- Enough backups of its phase are as new, or it was created before the window.
abbrev IsDue : ℕ → ℕ → Option ℕ → ℕ → Backup → Type 0
IsDue window now limit rank e = IsOverCount limit rank ⊎ (over_age window now e ≡ true)

-- A terminal backup that its phase's limit or the window expires.
abbrev pub IsExpired : List Backup → Option ℕ → Option ℕ → ℕ → ℕ → Backup → Type 0
IsExpired children succ_limit fail_limit window now e =
    ((e.phase ≡ phase_completed)
      × IsDue window now succ_limit (rank_in phase_completed children e) e)
    ⊎ ((e.phase ≡ phase_failed) × IsDue window now fail_limit (rank_in phase_failed children e) e)

over_count-IsDue :
    (window now : ℕ) (limit : Option ℕ) (i rank : ℕ) (e : Backup)
    → i < rank
    → (over_count limit i || over_age window now e) ≡ true
    → IsDue window now limit rank e
unfolding over_count
over_count-IsDue window now none i rank e r h = inr h
over_count-IsDue window now (some k) i rank e r h = elim (Bool-cases (le64 k i)) [
  | inl q ↦ inl (k, i, refl, q, r)
  | inr q ↦ inr (rw q at h)
]

module _ (P : Backup → Type 0) where
  -- Each candidate has the property.
  abbrev AllValues : List (Text × Backup) → Type 0
  AllValues = All (λ c. P c.1)

  insert-AllValues :
      (k : Text) (e : Backup) (m : List (Text × Backup))
      → P e
      → AllValues m
      → AllValues (insert k e m)
  unfolding insert
  insert-AllValues k e [] h a = (h, tt)
  insert-AllValues k e ((j, x) ∷ m) h a = elim (Bool-cases (text_eq j k)) [
    | inl q ↦ rw q (h, a.1)
    | inr q ↦ rw q (a.0, insert-AllValues k e m h a.1)
  ]

  collect_from-AllValues :
      (window now : ℕ) (limit : Option ℕ) (rank : Backup → ℕ) (i : ℕ) (entries : List Backup)
      (m : List (Text × Backup))
      → IsRanked rank i entries
      → All (λ e. IsDue window now limit (rank e) e → P e) entries
      → AllValues m
      → AllValues (collect_from window now limit i entries m)
  unfolding collect_from
  collect_from-AllValues window now limit rank i [] m r h a = a
  collect_from-AllValues window now limit rank i (e ∷ entries) m r h a =
      collect_from-AllValues window now limit rank (suc i) entries _ r.1 h.1
        (elim (Bool-cases (over_count limit i || over_age window now e)) [
          | inl q ↦ rw q (
              insert-AllValues e.name e m
                (h.0 (over_count-IsDue window now limit i (rank e) e r.0 q)) a)
          | inr q ↦ rw q a
        ])

  delete_key-AllValues :
      (n : Text) (m : List (Text × Backup)) → AllValues m → AllValues (delete_key n m)
  unfolding delete_key
  delete_key-AllValues n [] a = tt
  delete_key-AllValues n ((j, x) ∷ m) a = elim (Bool-cases (text_eq j n)) [
    | inl q ↦ rw q (delete_key-AllValues n m a.1)
    | inr q ↦ rw q (a.0, delete_key-AllValues n m a.1)
  ]

  values-All : (m : List (Text × Backup)) → AllValues m → All P (values m)
  unfolding values
  values-All [] a = tt
  values-All ((j, x) ∷ m) a = (a.0, values-All m a.1)

  spare_floor-AllValues :
      (completed : List Backup) (m : List (Text × Backup))
      → AllValues m
      → AllValues (spare_floor completed m)
  unfolding spare_floor
  spare_floor-AllValues [] m a = a
  spare_floor-AllValues (floor ∷ completed) m a = delete_key-AllValues floor.name m a

  in_phase-All :
      (phase : Text) (children : List Backup)
      → All P children
      → All (λ e. P e × (e.phase ≡ phase)) (in_phase phase children)
  unfolding in_phase
  in_phase-All phase [] a = tt
  in_phase-All phase (x ∷ children) a = elim (Bool-cases (text_eq x.phase phase)) [
    | inl q ↦ rw q ((a.0, (text_eq_iff x.phase phase).0 q), in_phase-All phase children a.1)
    | inr q ↦ rw q (in_phase-All phase children a.1)
  ]

  sorted-All :
      (phase : Text) (children : List Backup)
      → All P children
      → All (λ e. P e × (e.phase ≡ phase)) (sort_newest_first (in_phase phase children))
  unfolding sort_newest_first
  sorted-All phase children a =
      All-sort is_newer (λ e. P e × (e.phase ≡ phase)) _ (in_phase-All phase children a)

All-weaken :
    (P Q : Backup → Type 0) (xs : List Backup) → ((e : Backup) → P e → Q e) → All P xs → All Q xs
All-weaken P Q [] f a = tt
All-weaken P Q (x ∷ xs) f a = (f x a.0, All-weaken P Q xs f a.1)

-- Each backup that planBackupGC deletes is one of the children, so it has what they all have; it is completed
-- or failed; and of the children in that phase more than the phase's limit are as new as it, itself
-- included, or its age is above the window.
pub plan_backup_gc-IsExpired :
    (P : Backup → Type 0) (children : List Backup) (succ_limit fail_limit : Option ℕ)
    (window now : ℕ)
    → All P children
    → All
        (λ e. P e × IsExpired children succ_limit fail_limit window now e)
        (plan_backup_gc children succ_limit fail_limit window now)
unfolding plan_backup_gc plan_sorted
plan_backup_gc-IsExpired P children succ_limit fail_limit window now a = values-All Q _ (
    spare_floor-AllValues Q _ _ (
      collect_from-AllValues Q window now fail_limit (rank_in phase_failed children) 0 _ _
        (sort_newest_first-IsRanked phase_failed children)
        (All-weaken _ _ _ (λ e p d. (p.0, inr (p.1, d))) (sorted-All P phase_failed children a))
        (collect_from-AllValues Q window now succ_limit (rank_in phase_completed children) 0 _ []
          (sort_newest_first-IsRanked phase_completed children)
          (All-weaken _ _ _ (λ e p d. (p.0, inl (p.1, d)))
            (sorted-All P phase_completed children a))
          tt)))
  where
    Q : Backup → Type 0
    Q e = P e × IsExpired children succ_limit fail_limit window now e
