-- ===== src/Tests/Update.antt =====
-- The archive index under concurrent writers: pkg/management/mysql/objectstore/index_cas.go.
use cnmsql.Base.{
  ℕ, suc, ◌==◌, ◌≡◌, ◌≢◌, refl, sym, ap, inl, inr, Bool, true, false, List, [], ◌∷◌, Option, none,
  some, Text, codes, text_eq, text_eq_iff, if◌then◌else◌, Bool-cases, arith,
}
use cnmsql.Archive.{ArchiveIndex, ArchiveSegment}
use cnmsql.Archive.Update.{
  got, get_failed, GetReply, PutReply, stored, precondition_failed, put_failed, VersionedStore,
  update_archive_index, done, zero_index, refusal,
}
use cnmsql.Archive.Update.Refinement.{IsVersioned, Atomic, update_archive_index-Atomic}
use cnmsql.Archive.Update.Contention.{update_archive_index-contention}
use cnmsql.Archive.Update.Rewrite.{
  drop_deleted, rewrite_archive_index, HasDropped, rewrite_archive_index-HasDropped,
}

-- An object with the number of times that it was written.
abbrev Bucket : Type 0
Bucket = ℕ × ArchiveIndex

abbrev version : Bucket → Text
version w = w.0 ∷ []

abbrev content : Bucket → Option ArchiveIndex
content w = some w.1

abbrev put_at : Bool → Bucket → ArchiveIndex → Bucket × PutReply
put_at true w idx = ((suc w.0, idx), stored)
put_at false w idx = (w, precondition_failed)

abbrev bucket_store : VersionedStore Bucket
bucket_store = record {
  get_json_version = λ w. got (version w) true w.1;
  put_json_if = λ w idx etag. put_at (text_eq (version w) etag) w idx;
}

segment : Text → ArchiveSegment
segment uuid = record {
  server_uuid = uuid;
  instance_name = uuid;
  binlogs = codes "x" ∷ codes "z" ∷ [];
  gtid_set = [];
  start_gtid_set = [];
  fork = none;
  started_at = 1;
  ended_at = 2;
}

abbrev with_segment : ArchiveIndex → ArchiveSegment → ArchiveIndex
with_segment idx seg = record idx { segments = seg ∷ idx.segments }

-- The archiver adds a segment during the first attempt only, or during every one.
abbrev archive_once : ℕ → Bucket → Bucket
archive_once k w = if k == 7 then (suc w.0, with_segment w.1 (segment (codes "v"))) else w

abbrev archive_always : ℕ → Bucket → Bucket
archive_always k w = (suc w.0, with_segment w.1 (segment (codes "v")))

abbrev first_bucket : Bucket
first_bucket = (1, with_segment zero_index (segment (codes "u")))

put_at-stored :
    (b : Bool) (w w' : Bucket) (idx : ArchiveIndex)
    → put_at b w idx ≡ (w', stored)
    → (b ≡ true) × (content w' ≡ some idx)
put_at-stored true w w' idx e = (refl, ap (λ p. some p.0.1) (sym e))
put_at-stored false w w' idx e = cc (ap (λ p. p.1) e)

put_at-lost :
    (b : Bool) (w w' : Bucket) (idx : ArchiveIndex)
    → put_at b w idx ≡ (w', precondition_failed)
    → (b ≡ false) × (content w' ≡ content w)
put_at-lost true w w' idx e = cc (ap (λ p. p.1) e)
put_at-lost false w w' idx e = (refl, ap (λ p. some p.0.1) (sym e))

put_at-failed :
    (b : Bool) (w w' : Bucket) (idx : ArchiveIndex) (m : Text) → put_at b w idx ≢ (w', put_failed m)
put_at-failed true w w' idx m e = cc (ap (λ p. p.1) e)
put_at-failed false w w' idx m e = cc (ap (λ p. p.1) e)

abbrev etag_of : GetReply → Text
etag_of (got etag exists idx) = etag
etag_of (get_failed m) = m

abbrev pair_of : GetReply → ArchiveIndex × Bool
pair_of (got etag exists idx) = (idx, exists)
pair_of (get_failed m) = (zero_index, false)

bucket-IsVersioned :
    (meanwhile : ℕ → Bucket → Bucket)
    → ((n : ℕ) (w : Bucket) → version (meanwhile n w) ≡ version w → meanwhile n w ≡ w)
    → IsVersioned bucket_store meanwhile content version
bucket-IsVersioned meanwhile quiet = record {
  reads = λ w e. (ap etag_of e, ap pair_of e);
  stores = λ w w' e. let (b, c) = put_at-stored _ w w' _ e in ((text_eq_iff _ _).0 b, c);
  loses = λ w w' e. (put_at-lost _ w w' _ e).1;
  fails = λ w w' e. absurd (put_at-failed _ w w' _ _ e);
  pins = λ n w e. ap content (quiet n w e);
}

bucket_honest :
    (w w' : Bucket) (idx : ArchiveIndex) (etag : Text)
    → bucket_store.put_json_if w idx etag ≡ (w', precondition_failed)
    → version w ≢ etag
bucket_honest w w' idx etag e v =
    let same = (text_eq_iff (version w) etag).1 v in let other = (put_at-lost _ w w' idx e).0 in cc

abbrev number_of : Text → ℕ
number_of [] = 0
number_of (n ∷ rest) = n

written-version : (w : Bucket) → suc w.0 ∷ [] ≢ version w
written-version w e = let same : suc w.0 ≡ w.0 = ap number_of e in omega arith

once-quiet : (n : ℕ) (w : Bucket) → version (archive_once n w) ≡ version w → archive_once n w ≡ w
once-quiet n w e = elim (Bool-cases (n == 7)) [
  | inl i ↦ absurd (written-version w (rw i at e))
  | inr i ↦ rw i
]

always-quiet :
    (n : ℕ) (w : Bucket) → version (archive_always n w) ≡ version w → archive_always n w ≡ w
always-quiet n w e = absurd (written-version w e)

abbrev drop_x : List (Text × List Text)
drop_x = (codes "u", codes "x" ∷ []) ∷ []

-- The update loses its first write, and its second keeps the segment that the archiver added.
update_archive_index-Atomic_example :
    Atomic
      (drop_deleted 9 drop_x)
      archive_once
      content
      done
      first_bucket
      (update_archive_index bucket_store (drop_deleted 9 drop_x) archive_once first_bucket).0
unfolding update_archive_index refusal text_eq
update_archive_index-Atomic_example =
    update_archive_index-Atomic (drop_deleted 9 drop_x) archive_once content bucket_store
      (bucket-IsVersioned archive_once once-quiet) first_bucket

lost_once :
    (update_archive_index bucket_store (drop_deleted 9 drop_x) archive_once first_bucket).0.0 ≡ 3
unfolding update_archive_index refusal text_eq
lost_once = refl

update_archive_index-contention_example :
    (at : Bucket) × (version (archive_always 3 at) ≢ version at)
unfolding update_archive_index refusal text_eq
update_archive_index-contention_example =
    update_archive_index-contention bucket_store (drop_deleted 9 drop_x) archive_always
      {content = content} {version = version} (bucket-IsVersioned archive_always always-quiet)
      bucket_honest first_bucket refl 3 (omega arith)

rewrite_archive_index-HasDropped_example :
    HasDropped 9 drop_x archive_once content first_bucket
      (rewrite_archive_index bucket_store 9 drop_x archive_once first_bucket).0
unfolding rewrite_archive_index update_archive_index refusal text_eq
rewrite_archive_index-HasDropped_example =
    rewrite_archive_index-HasDropped 9 drop_x archive_once content bucket_store
      (bucket-IsVersioned archive_once once-quiet) refl first_bucket refl
