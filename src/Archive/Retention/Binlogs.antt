-- ===== src/Archive/Retention/Binlogs.antt =====
-- Which binary logs a plan deletes, and what its rewritten index still names.
use mathlib.Core.Path.{subst}
use cnmsql.Base.{
  some_inj, ==_iff, is_empty, ℕ, ◌≡◌, refl, sym, ap, ◌∙◌, Bool, true, false, not, ◌&&◌, ◌||◌, ◌==◌,
  if◌then◌else◌, List, [], ◌∷◌, Option, none, some, Text, text_eq, text_Eq, text_eq_iff, lookup,
  any, sort, arith, Bool-cases, inl, inr,
}
use cnmsql.Archive.{ArchiveIndex, ArchiveSegment}
use cnmsql.Archive.Retention.{
  BackupEntry, BinlogEntry, Deleted, horizon_of, expire, completes_before, or_none, collect,
  without, rewrite_segment, keep_segment, rewrite_segments, rewrite_index, RetentionPlan,
  plan_collected, apply_binlog_gc, plan_expired, plan_retention, nothing,
}
use cnmsql.Archive.Retention.Collected.{
  is_deleted, ends_before, keys_before, collect-is_deleted, collect-keys, ends_before-zero,
  keys_before-zero, empty-is_deleted,
}
use cnmsql.Archive.Retention.Horizon.{IsOldestKept, horizon_of-IsOldestKept}
use cnmsql.Failover.{has}

-- Some segment of the server names the file.
abbrev pub names_file : List ArchiveSegment → Text → Text → Bool
names_file segments uuid name =
    any (λ seg. text_eq seg.server_uuid uuid && has name seg.binlogs) segments

without-has :
    (gone names : List Text) (name : Text)
    → has name (without gone names) ≡ (has name names && not (has name gone))
unfolding without
without-has gone [] name = refl
without-has gone (n ∷ names) name =
    step (has n gone) (λ e. ap (λ x. has x gone) ((text_eq_iff name n).0 e))
      (without-has gone names name)
  where
    step :
        (b : Bool)
        → (text_eq name n ≡ true → has name gone ≡ b)
        → has name (without gone names) ≡ (has name names && not (has name gone))
        → has name (if b then without gone names else n ∷ without gone names)
          ≡ ((text_eq name n || has name names) && not (has name gone))
    step true same ind = elim (Bool-cases (text_eq name n)) [
      | inl g ↦ rw (g, same g) (ind ∙ rw (same g) (ground arith))
      | inr g ↦ rw g ind
    ]
    step false same ind = elim (Bool-cases (text_eq name n)) [
      | inl g ↦ rw (g, same g)
      | inr g ↦ rw g ind
    ]

rewrite_segment-names_file :
    (seg : ArchiveSegment) (kept : List Text) (rest : List ArchiveSegment) (uuid name : Text)
    → names_file (rewrite_segment seg kept rest) uuid name
      ≡ ((text_eq seg.server_uuid uuid && has name kept) || names_file rest uuid name)
rewrite_segment-names_file seg [] rest uuid name = ground arith
rewrite_segment-names_file seg (n ∷ kept) rest uuid name = refl

keep_segment-names_file :
    (seg : ArchiveSegment) (gone : Option (List Text)) (rest : List ArchiveSegment)
    (uuid name : Text)
    → names_file (keep_segment seg gone rest) uuid name ≡ (
        (text_eq seg.server_uuid uuid && has name seg.binlogs && not (has name (or_none gone)))
        || names_file rest uuid name)
keep_segment-names_file seg none rest uuid name = ground arith
keep_segment-names_file seg (some gone) rest uuid name =
    rewrite_segment-names_file seg (without gone seg.binlogs) rest uuid name
    ∙ rw (without-has gone seg.binlogs name) (ground arith)

-- The rewritten segments name a file exactly when the old ones do and it is not deleted.
pub rewrite_segments-names_file :
    (deleted : Deleted) (segments : List ArchiveSegment) (uuid name : Text)
    → names_file (rewrite_segments deleted segments) uuid name
      ≡ (names_file segments uuid name && not (is_deleted deleted uuid name))
unfolding rewrite_segments
rewrite_segments-names_file deleted [] uuid name = refl
rewrite_segments-names_file deleted (seg ∷ segments) uuid name =
    keep_segment-names_file seg (lookup seg.server_uuid deleted) (rewrite_segments deleted segments)
      uuid name
    ∙ rw (rewrite_segments-names_file deleted segments uuid name)
        (elim (Bool-cases (text_eq seg.server_uuid uuid)) [
          | inl g ↦ rw (g, (text_eq_iff seg.server_uuid uuid).0 g) (ground arith)
          | inr g ↦ rw g
        ])

-- What the binlog part of a plan promises.
pub record IsInStep (binlogs : List BinlogEntry) (index : ArchiveIndex) (plan : RetentionPlan)
    : Type 0 where
  pub ended :
      (uuid name : Text)
      → is_deleted plan.deleted_binlogs uuid name ≡ ends_before plan.horizon binlogs uuid name
  pub keys : (key : Text) → has key plan.delete_binlog_keys ≡ keys_before plan.horizon binlogs key
  pub rewritten :
      (new_index : ArchiveIndex) (uuid name : Text)
      → plan.new_index ≡ some new_index
      → names_file new_index.segments uuid name
        ≡ (names_file index.segments uuid name && not (is_deleted plan.deleted_binlogs uuid name))
  pub memory :
      (new_index : ArchiveIndex)
      → plan.new_index ≡ some new_index
      → (new_index.disowned ≡ index.disowned) × (new_index.generation ≡ index.generation)

-- A plan that deletes a backup keeps the binary logs from the start of the oldest backup that it retains on; one that
-- deletes none keeps them all.
abbrev pub IsFromOldest : List BackupEntry → ℕ → RetentionPlan → Type 0
IsFromOldest backups cutoff plan =
    (is_empty plan.delete_backup_prefixes ≡ false → IsOldestKept backups cutoff plan.horizon)
    × (is_empty plan.delete_backup_prefixes ≡ true → plan.horizon ≡ 0)

rewrite_index-IsRewritten :
    (now : ℕ) (index new_index : ArchiveIndex) (deleted : Deleted) (e : Bool)
    → (if e then none else some (rewrite_index now index deleted)) ≡ some new_index
    → ((uuid name : Text)
        → names_file new_index.segments uuid name
          ≡ (names_file index.segments uuid name && not (is_deleted deleted uuid name)))
      × (new_index.disowned ≡ index.disowned)
      × (new_index.generation ≡ index.generation)
rewrite_index-IsRewritten now index new_index deleted true h = cc
rewrite_index-IsRewritten now index new_index deleted false h =
    subst
      (λ i.
        ((uuid name : Text)
          → names_file i.segments uuid name
            ≡ (names_file index.segments uuid name && not (is_deleted deleted uuid name)))
        × (i.disowned ≡ index.disowned)
        × (i.generation ≡ index.generation))
      (some_inj h)
      (unfold rewrite_index in (rewrite_segments-names_file deleted index.segments, refl, refl))

plan_collected-IsInStep :
    (now : ℕ) (prefixes : List Text) (horizon : ℕ) (binlogs : List BinlogEntry)
    (index : ArchiveIndex) (found : List Text × Deleted)
    → ((uuid name : Text) → is_deleted found.1 uuid name ≡ ends_before horizon binlogs uuid name)
    → ((key : Text) → has key found.0 ≡ keys_before horizon binlogs key)
    → IsInStep binlogs index (plan_collected now prefixes horizon index found)
unfolding plan_collected
plan_collected-IsInStep now prefixes horizon binlogs index (keys, deleted) h k = record {
  ended = h;
  keys = k;
  rewritten = λ i uuid name e.
      (rewrite_index-IsRewritten now index i deleted (is_empty deleted) e).0 uuid name;
  memory = λ i e.
      let (names, d, g) = rewrite_index-IsRewritten now index i deleted (is_empty deleted) e in
      (d, g);
}

nothing-IsInStep :
    (binlogs : List BinlogEntry) (index : ArchiveIndex) → IsInStep binlogs index nothing
nothing-IsInStep binlogs index = record {
  ended = λ uuid name. empty-is_deleted uuid name ∙ sym (ends_before-zero binlogs uuid name);
  keys = λ key. sym (keys_before-zero binlogs key);
  rewritten = λ i uuid name e. cc e;
  memory = λ i e. cc e;
}

apply_binlog_gc-IsInStep :
    (now : ℕ) (prefixes : List Text) (horizon : ℕ) (binlogs : List BinlogEntry)
    (index : ArchiveIndex)
    → IsInStep binlogs index (apply_binlog_gc now prefixes horizon binlogs (some index))
unfolding apply_binlog_gc
apply_binlog_gc-IsInStep now prefixes horizon binlogs index =
    choose (horizon == 0) (λ e. (==_iff horizon 0).0 e)
  where
    choose :
        (b : Bool)
        → (b ≡ true → horizon ≡ 0)
        → IsInStep binlogs index (
            if b
            then plan_collected now prefixes horizon index ([], [])
            else plan_collected now prefixes horizon index (collect horizon binlogs ([], [])))
    choose true z =
        plan_collected-IsInStep now prefixes horizon binlogs index _
          (λ uuid name.
            empty-is_deleted uuid name ∙ rw (z refl) (sym (ends_before-zero binlogs uuid name)))
          (λ key. rw (z refl) (sym (keys_before-zero binlogs key)))
    choose false z =
        plan_collected-IsInStep now prefixes horizon binlogs index _
          (λ uuid name.
            collect-is_deleted horizon binlogs ([], []) uuid name ∙ rw (empty-is_deleted uuid name))
          (λ key. collect-keys horizon binlogs ([], []) key)

-- The fields that the collected files do not change.
apply_binlog_gc-passed :
    (now : ℕ) (prefixes : List Text) (horizon : ℕ) (binlogs : List BinlogEntry)
    (index : ArchiveIndex)
    → let plan = apply_binlog_gc now prefixes horizon binlogs (some index) in
      (plan.delete_backup_prefixes ≡ prefixes) × (plan.horizon ≡ horizon)
unfolding apply_binlog_gc plan_collected
apply_binlog_gc-passed now prefixes horizon binlogs index = choose (horizon == 0)
  where
    choose :
        (b : Bool)
        → let plan =
            if b
            then plan_collected now prefixes horizon index ([], [])
            else plan_collected now prefixes horizon index (collect horizon binlogs ([], [])) in
          (plan.delete_backup_prefixes ≡ prefixes) × (plan.horizon ≡ horizon)
    choose true = (refl, refl)
    choose false = (refl, refl)

plan_expired-IsInStep :
    (now : ℕ) (found : List Text × List BackupEntry) (binlogs : List BinlogEntry)
    (index : ArchiveIndex)
    → IsInStep binlogs index (plan_expired now found binlogs (some index))
unfolding plan_expired
plan_expired-IsInStep now ([], retained) binlogs index = nothing-IsInStep binlogs index
plan_expired-IsInStep now (p ∷ ps, retained) binlogs index =
    apply_binlog_gc-IsInStep now (p ∷ ps) (horizon_of retained) binlogs index

plan_expired-IsFromOldest :
    (now cutoff : ℕ) (backups : List BackupEntry) (found : List Text × List BackupEntry)
    (binlogs : List BinlogEntry) (index : ArchiveIndex)
    → IsOldestKept backups cutoff (horizon_of found.1)
    → IsFromOldest backups cutoff (plan_expired now found binlogs (some index))
unfolding plan_expired
plan_expired-IsFromOldest now cutoff backups ([], retained) binlogs index k = (λ e. cc e, λ e. refl)
plan_expired-IsFromOldest now cutoff backups (p ∷ ps, retained) binlogs index k =
    let (prefixes, time) =
      apply_binlog_gc-passed now (p ∷ ps) (horizon_of retained) binlogs index in
    (λ e. subst (IsOldestKept backups cutoff) (sym time) k, λ e. cc e)

-- With an index, a plan deletes exactly the binary logs whose last event, at a known time, is before the horizon, and
-- exactly the keys of these files and their manifests; the index that it writes, if any, names a file exactly when
-- the old one does and the plan does not delete it, and keeps the disowned transactions and the generation of the
-- old one. The horizon of a plan that deletes a backup is the start of the first to complete of those that
-- completed at the cutoff or later, or of the last to complete if there is none; that of other plans is 0.
pub plan_retention-IsInStep :
    (now : ℕ) (backups : List BackupEntry) (binlogs : List BinlogEntry) (index : ArchiveIndex)
    (cutoff : ℕ)
    → IsInStep binlogs index (plan_retention now backups binlogs (some index) cutoff)
      × IsFromOldest backups cutoff (plan_retention now backups binlogs (some index) cutoff)
unfolding plan_retention
plan_retention-IsInStep now [] binlogs index cutoff =
    (nothing-IsInStep binlogs index, (λ e. cc e, λ e. refl))
plan_retention-IsInStep now (b ∷ backups) binlogs index cutoff = (
  plan_expired-IsInStep now (expire cutoff (sort completes_before (b ∷ backups))) binlogs index,
  plan_expired-IsFromOldest now cutoff (b ∷ backups)
      (expire cutoff (sort completes_before (b ∷ backups))) binlogs index
      (horizon_of-IsOldestKept cutoff (b ∷ backups) refl),
)

-- Without an index a plan deletes no binary log and writes no index.
plan_retention-parked :
    (now : ℕ) (backups : List BackupEntry) (binlogs : List BinlogEntry) (cutoff : ℕ)
    → ((plan_retention now backups binlogs none cutoff).delete_binlog_keys ≡ [])
      × ((plan_retention now backups binlogs none cutoff).new_index ≡ none)
      × ((plan_retention now backups binlogs none cutoff).deleted_binlogs ≡ [])
unfolding plan_retention
plan_retention-parked now [] binlogs cutoff = (refl, refl, refl)
plan_retention-parked now (b ∷ backups) binlogs cutoff =
    parked (expire cutoff (sort completes_before (b ∷ backups)))
  where
    parked :
        (found : List Text × List BackupEntry)
        → ((plan_expired now found binlogs none).delete_binlog_keys ≡ [])
          × ((plan_expired now found binlogs none).new_index ≡ none)
          × ((plan_expired now found binlogs none).deleted_binlogs ≡ [])
    parked ([], retained) = unfold plan_expired in (refl, refl, refl)
    parked (p ∷ ps, retained) = unfold plan_expired apply_binlog_gc in (refl, refl, refl)
