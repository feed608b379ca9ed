-- ===== src/Tests/Schedule.antt =====
-- Garbage collection of scheduled backups: internal/controller/scheduledbackup_retention.go.
use cnmsql.Base.{
  ℕ, ◌≡◌, ◌≢◌, refl, true, List, [], ◌∷◌, none, some, Text, codes, text_eq, text_Eq, text_lt,
  insert, sort, insert_sorted, any, All,
}
use cnmsql.Base.Int64.{lt64, le64}
use cnmsql.Schedule.{
  Backup, phase_completed, phase_failed, in_phase, is_newer, sort_newest_first, over_count,
  over_age, collect_from, delete_key, spare_floor, values, plan_sorted, plan_backup_gc,
}
use cnmsql.Schedule.Floor.{IsFloor, plan_backup_gc-IsFloor}
use cnmsql.Schedule.Expiry.{IsExpired, plan_backup_gc-IsExpired}

abbrev backup : Text → Text → ℕ → Backup
backup name phase at = record { name = name; phase = phase; created_at = at }

abbrev children : List Backup
children =
    backup (codes "a") phase_completed 10
    ∷ backup (codes "b") phase_completed 30
    ∷ backup (codes "c") phase_failed 20
    ∷ backup (codes "d") (codes "running") 5
    ∷ []

-- With no success kept, all but the floor go.
collected : plan_backup_gc children (some 0) none 0 100 ≡ backup (codes "a") phase_completed 10 ∷ []
unfolding plan_backup_gc plan_sorted sort_newest_first sort insert_sorted in_phase is_newer
    collect_from over_count over_age lt64 le64 insert spare_floor delete_key values text_eq text_lt
collected = refl

aged :
    plan_backup_gc children none none 50 75
    ≡ backup (codes "a") phase_completed 10 ∷ backup (codes "c") phase_failed 20 ∷ []
unfolding plan_backup_gc plan_sorted sort_newest_first sort insert_sorted in_phase is_newer
    collect_from over_count over_age lt64 le64 insert spare_floor delete_key values text_eq text_lt
aged = refl

one_completed : any (λ e. text_eq e.phase phase_completed) children ≡ true
unfolding text_eq
one_completed = refl

plan_backup_gc-IsFloor_example :
    (floor : Backup) × IsFloor children (plan_backup_gc children (some 0) none 0 100) floor
plan_backup_gc-IsFloor_example = plan_backup_gc-IsFloor children (some 0) none 0 100 one_completed

plan_backup_gc-IsExpired_example :
    All
      (λ e. (e.name ≢ []) × IsExpired children (some 0) none 0 100 e)
      (plan_backup_gc children (some 0) none 0 100)
plan_backup_gc-IsExpired_example =
    plan_backup_gc-IsExpired (λ e. e.name ≢ []) children (some 0) none 0 100
      ((λ p. cc), ((λ p. cc), ((λ p. cc), ((λ p. cc), tt))))
