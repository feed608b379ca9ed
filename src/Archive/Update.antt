-- ===== src/Archive/Update.antt =====
-- UpdateArchiveIndex of pkg/management/mysql/objectstore/index_cas.go, over the interface VersionedStore. `W` is the
-- state of the store; `meanwhile k` is what the other writers do between the read and the write of the attempt
-- that has `k` more attempts after it.
pub mod Refinement
pub mod Contention
pub mod Rewrite
use cnmsql.Base.{
  ℕ, zero, suc, Bool, true, false, [], Option, none, some, Text, if◌then◌else◌, is_empty,
}
use cnmsql.Archive.{ArchiveIndex, BinlogMetadata}
use cnmsql.Archive.Retention.{rewrite_index}

pub data GetReply : Type 0 where
  got : Text → Bool → ArchiveIndex → GetReply
  get_failed : Text → GetReply

pub data PutReply : Type 0 where
  stored precondition_failed : PutReply
  put_failed : Text → PutReply

-- A write that fails leaves the state that it returns.
pub record VersionedStore (W : Type 0) : Type 0 where
  pub get_json_version : W → GetReply
  pub put_json_if : W → ArchiveIndex → Text → W × PutReply

-- What `mutate` leaves: the index, whether to write it, and its error.
pub record Mutation : Type 0 where
  pub index : ArchiveIndex
  pub write : Bool
  pub error : Option Text

abbrev pub Mutate : Type 0
Mutate = ArchiveIndex → Bool → Mutation

-- The errors that UpdateArchiveIndex returns, and `done` for nil.
pub data UpdateReply : Type 0 where
  done contention : UpdateReply
  get_error mutate_error put_error : Text → UpdateReply

abbrev pub index_update_attempts : ℕ
index_update_attempts = 8

abbrev pub zero_index : ArchiveIndex
zero_index = record {
  cluster_name = [];
  cluster_uid = [];
  segments = [];
  covered_gtid_set = [];
  updated_at = 0;
  fork_check = none;
  generation = 0;
  disowned = none;
  archived_through = 0;
  mariadb_timeline = [];
}

-- `err != nil || !write`: the reply with which the loop returns before it writes.
unfoldable pub refusal : Option Text → Bool → Option UpdateReply
refusal (some e) write = some (mutate_error e)
refusal none true = none
refusal none false = some done

module _ {W : Type 0} (store : VersionedStore W) (mutate : Mutate) where
  -- The end of one attempt: `again` is the rest of the loop.
  unfoldable pub after_put : (W → W × UpdateReply) → W × PutReply → W × UpdateReply
  after_put again (w, stored) = (w, done)
  after_put again (w, precondition_failed) = again w
  after_put again (w, put_failed e) = (w, put_error e)

  unfoldable pub after_mutate :
      (W → W × UpdateReply) → W → Text → ArchiveIndex → Option UpdateReply → W × UpdateReply
  unfolding after_put
  after_mutate again w etag idx (some reply) = (w, reply)
  after_mutate again w etag idx none = after_put again (store.put_json_if w idx etag)

  unfoldable pub after_get : (W → W × UpdateReply) → W → GetReply → W × UpdateReply
  unfolding after_mutate
  after_get again w (get_failed e) = (w, get_error e)
  after_get again w (got etag exists idx) =
      let m = mutate idx exists in after_mutate again w etag m.index (refusal m.error m.write)

  -- The loop, with the number of attempts left.
  unfoldable pub attempts : (ℕ → W → W) → ℕ → W → W × UpdateReply
  unfolding after_get
  attempts meanwhile zero w = (w, contention)
  attempts meanwhile (suc n) w =
      after_get (λ w'. attempts meanwhile n w') (meanwhile n w) (store.get_json_version w)

  unfoldable pub update_archive_index : (ℕ → W → W) → W → W × UpdateReply
  unfolding attempts
  update_archive_index meanwhile w = attempts meanwhile index_update_attempts w
