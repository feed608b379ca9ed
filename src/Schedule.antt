-- ===== src/Schedule.antt =====
-- Which Backups of a ScheduledBackup are garbage-collected: planBackupGC of
-- internal/controller/scheduledbackup_retention.go. A limit is an int64 bit pattern.
pub mod Floor
mod Ranks
pub mod Expiry
use cnmsql.Base.{
  ℕ, zero, suc, ◌-◌, Bool, true, false, ◌&&◌, ◌||◌, List, [], ◌∷◌, Option, none, some,
  if◌then◌else◌, ◌==◌, ltb, Text, codes, text_eq, text_Eq, text_lt, insert, sort,
}
use cnmsql.Base.Int64.{lt64, le64}

-- The fields of a Backup that are read.
pub record Backup : Type 0 where
  pub name : Text
  pub phase : Text
  pub created_at : ℕ

abbrev pub phase_completed : Text
phase_completed = codes "completed"

abbrev pub phase_failed : Text
phase_failed = codes "failed"

-- What the first loop gathers for one of the two phases.
unfoldable pub in_phase : Text → List Backup → List Backup
in_phase phase [] = []
in_phase phase (child ∷ children) =
    let rest = in_phase phase children in if text_eq child.phase phase then child ∷ rest else rest

-- The order of `sortNewestFirst`.
unfoldable pub is_newer : Backup → Backup → Bool
is_newer a b =
    if a.created_at == b.created_at then text_lt b.name a.name else ltb b.created_at a.created_at

unfoldable pub sort_newest_first : List Backup → List Backup
sort_newest_first entries = sort is_newer entries

unfoldable pub over_count : Option ℕ → ℕ → Bool
over_count none i = false
over_count (some limit) i = le64 limit i

unfoldable pub over_age : ℕ → ℕ → Backup → Bool
over_age window now entry = lt64 0 window && ltb entry.created_at (now - window)

-- The loop of `collect` from the index `i` on.
unfoldable pub collect_from :
    ℕ → ℕ → Option ℕ → ℕ → List Backup → List (Text × Backup) → List (Text × Backup)
collect_from window now limit i [] candidates = candidates
collect_from window now limit i (entry ∷ entries) candidates =
    collect_from window now limit (suc i) entries (
      if over_count limit i || over_age window now entry
      then insert entry.name entry candidates
      else candidates)

-- `delete(candidates, name)`.
unfoldable pub delete_key : Text → List (Text × Backup) → List (Text × Backup)
delete_key name [] = []
delete_key name ((k, entry) ∷ candidates) =
    let rest = delete_key name candidates in if text_eq k name then rest else (k, entry) ∷ rest

unfoldable pub spare_floor : List Backup → List (Text × Backup) → List (Text × Backup)
spare_floor [] candidates = candidates
spare_floor (floor ∷ completed) candidates = delete_key floor.name candidates

unfoldable pub values : List (Text × Backup) → List Backup
values [] = []
values ((k, entry) ∷ candidates) = entry ∷ values candidates

-- planBackupGC behind the sorting.
unfoldable pub plan_sorted : List Backup → List Backup → Option ℕ → Option ℕ → ℕ → ℕ → List Backup
plan_sorted completed failed succ_limit fail_limit window now = values (
    spare_floor completed (
      collect_from window now fail_limit 0 failed
        (collect_from window now succ_limit 0 completed [])))

unfoldable pub plan_backup_gc : List Backup → Option ℕ → Option ℕ → ℕ → ℕ → List Backup
plan_backup_gc children succ_limit fail_limit window now =
    plan_sorted (sort_newest_first (in_phase phase_completed children))
      (sort_newest_first (in_phase phase_failed children)) succ_limit fail_limit window now
