-- ===== src/Archive/Update/Rewrite.antt =====
-- rewriteArchiveIndex of pkg/management/mysql/objectstore/retention.go: what retention does to the index that the
-- archiver writes at the same time. `now` is the time that rewriteIndex reads.
use mathlib.Core.Path.{subst}
use cnmsql.Base.{
  ℕ, ◌≡◌, refl, ◌⊎◌, inl, inr, true, false, not, ◌&&◌, Option, none, some, Text, if◌then◌else◌,
  is_empty,
}
use cnmsql.Archive.{ArchiveIndex}
use cnmsql.Archive.Retention.{Deleted, rewrite_index}
use cnmsql.Archive.Retention.Binlogs.{names_file, rewrite_segments-names_file}
use cnmsql.Archive.Retention.Collected.{is_deleted}
use cnmsql.Archive.Update.{VersionedStore, Mutate, UpdateReply, done, refusal, update_archive_index}
use cnmsql.Archive.Update.Refinement.{
  IsVersioned, seen, Others, Applied, Declined, Atomic, update_archive_index-Atomic,
}

-- The function that rewriteArchiveIndex updates with.
abbrev pub drop_deleted : ℕ → Deleted → Mutate
drop_deleted now deleted idx false = record { index = idx; write = false; error = none }
drop_deleted now deleted idx true = record {
  index = rewrite_index now idx deleted;
  write = true;
  error = none;
}

unfoldable pub rewrite_archive_index :
    {W : Type 0} → VersionedStore W → ℕ → Deleted → (ℕ → W → W) → W → W × UpdateReply
rewrite_archive_index store now deleted meanwhile w =
    if is_empty deleted
    then (w, done)
    else update_archive_index store (drop_deleted now deleted) meanwhile w

module _ {W : Type 0} (now : ℕ) (deleted : Deleted) (meanwhile : ℕ → W → W)
    (content : W → Option ArchiveIndex) where
  -- There was no index, or the files that the index names are those that it named right before, less the deleted.
  abbrev pub HasDropped : W → W → Type 0
  HasDropped w w' =
      (at : W) × Others (drop_deleted now deleted) meanwhile content w at
      × ((content at ≡ none)
          ⊎ ((old : ArchiveIndex) × (new : ArchiveIndex) × (content at ≡ some old)
              × (content w' ≡ some new)
              × ((uuid name : Text)
                  → names_file new.segments uuid name
                    ≡ (names_file old.segments uuid name && not (is_deleted deleted uuid name)))))

  rewritten :
      (w0 w' at : W) (c : Option ArchiveIndex)
      → let m = drop_deleted now deleted (seen c).0 (seen c).1 in
        Others (drop_deleted now deleted) meanwhile content w0 at
        → content at ≡ c
        → refusal m.error m.write ≡ none
        → content w' ≡ some m.index
        → HasDropped w0 w'
  unfolding refusal rewrite_index
  rewritten w0 w' at none o e g f = cc
  rewritten w0 w' at (some idx) o e g f = (
    at,
    o,
    inr (
      idx,
      rewrite_index now idx deleted,
      e,
      f,
      λ uuid name. rewrite_segments-names_file deleted idx.segments uuid name,
    ),
  )

  declined :
      (c : Option ArchiveIndex)
      → let m = drop_deleted now deleted (seen c).0 (seen c).1 in
        refusal m.error m.write ≡ some done → c ≡ none
  unfolding refusal
  declined none e = refl
  declined (some idx) e = cc

  atomic-HasDropped :
      (w0 w' : W)
      → Applied (drop_deleted now deleted) meanwhile content w0 w'
        ⊎ Declined (drop_deleted now deleted) meanwhile content done w0 w'
      → HasDropped w0 w'
  atomic-HasDropped w0 w' (inl (at, o, g, f)) = rewritten w0 w' at (content at) o refl g f
  atomic-HasDropped w0 w' (inr (at, o, o', g)) = (at, o, inl (declined (content at) g))

  -- When retention has files to drop and its rewrite returns nil, there was no index to rewrite, or the index then
  -- names exactly the files that it named right before the write, less the deleted ones: what the archiver added
  -- since the plan was made is still there.
  pub rewrite_archive_index-HasDropped :
      (store : VersionedStore W) {version : W → Text}
      → IsVersioned store meanwhile content version
      → is_empty deleted ≡ false
      → (w : W) → (rewrite_archive_index store now deleted meanwhile w).1 ≡ done
      → HasDropped w (rewrite_archive_index store now deleted meanwhile w).0
  unfolding rewrite_archive_index
  rewrite_archive_index-HasDropped store law files w e = rw files (
      atomic-HasDropped w _ (
        subst
          (λ r.
            Atomic (drop_deleted now deleted) meanwhile content r w
              (update_archive_index store (drop_deleted now deleted) meanwhile w).0)
          (rw files at e)
          (update_archive_index-Atomic (drop_deleted now deleted) meanwhile content store law w)))
