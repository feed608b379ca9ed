-- ===== src/Archive/Update/Contention.antt =====
-- When UpdateArchiveIndex gives up: only if every one of its attempts lost its write to another writer.
use mathlib.Core.Path.{subst}
use cnmsql.Base.{
  ℕ, zero, suc, ◌<◌, ==_iff, Bool-cases, ◌==◌, ◌≡◌, ◌≢◌, refl, sym, ap, ◌∙◌, inl, inr, Bool, true,
  false, Option, none, some, Text, arith,
}
use cnmsql.Archive.{ArchiveIndex}
use cnmsql.Archive.Update.Refinement.{IsVersioned}
use cnmsql.Archive.Update.{
  GetReply, got, get_failed, PutReply, stored, precondition_failed, put_failed, VersionedStore,
  Mutate, UpdateReply, contention, refusal, after_put, after_mutate, after_get, attempts,
  update_archive_index, index_update_attempts,
}

module _ {W : Type 0} (store : VersionedStore W) (mutate : Mutate) (meanwhile : ℕ → W → W) where
  -- The store refused a write with the token that it gave in this state, once the others had acted.
  abbrev Lost : ℕ → W → Type 0
  Lost n w =
      (etag : Text) × (exists : Bool) × (idx : ArchiveIndex) × (w' : W) × (store.get_json_version w
        ≡ got etag exists idx)
      × (store.put_json_if (meanwhile n w) (mutate idx exists).index etag
          ≡ (w', precondition_failed))

  put-contention :
      (again : W → W × UpdateReply) (reply : W × PutReply)
      → (after_put store mutate again reply).1 ≡ contention
      → (w' : W) × (reply ≡ (w', precondition_failed)) × ((again w').1 ≡ contention)
  unfolding after_put
  put-contention again (w, stored) e = cc
  put-contention again (w, precondition_failed) e = (w, refl, e)
  put-contention again (w, put_failed m) e = cc

  refusal-contention : (err : Option Text) (write : Bool) → refusal err write ≢ some contention
  unfolding refusal
  refusal-contention (some m) write e = cc
  refusal-contention none true e = cc
  refusal-contention none false e = cc

  mutate-contention :
      (again : W → W × UpdateReply) (w : W) (etag : Text) (idx : ArchiveIndex)
      (refused : Option UpdateReply)
      → refused ≢ some contention
      → (after_mutate store mutate again w etag idx refused).1 ≡ contention
      → (w' : W) × (store.put_json_if w idx etag ≡ (w', precondition_failed))
        × ((again w').1 ≡ contention)
  unfolding after_mutate
  mutate-contention again w etag idx (some r) unlike e = absurd (unlike (ap some e))
  mutate-contention again w etag idx none unlike e = put-contention again _ e

  get-contention :
      (again : W → W × UpdateReply) (n : ℕ) (w : W) (reply : GetReply)
      → store.get_json_version w ≡ reply
      → (after_get store mutate again (meanwhile n w) reply).1 ≡ contention
      → Lost n w × ((w' : W) × ((again w').1 ≡ contention))
  unfolding after_get
  get-contention again n w (get_failed m) g e = cc
  get-contention again n w (got etag exists idx) g e =
      let (w', p, c) =
        mutate-contention again (meanwhile n w) etag _ _ (refusal-contention _ _) e in
      ((etag, exists, idx, w', g, p), (w', c))

  attempts-contention :
      (n : ℕ) (w : W)
      → (attempts store mutate meanwhile n w).1 ≡ contention
      → (k : ℕ) → k < n
      → (at : W) × Lost k at
  unfolding attempts
  attempts-contention zero w e k lt = absurd (omega arith)
  attempts-contention (suc n) w e k lt =
      let (lost, (w', c)) =
        get-contention (λ w'. attempts store mutate meanwhile n w') n w _ refl e in
      elim (Bool-cases (k == n)) [
        | inl i ↦ subst (λ m. (at : W) × Lost m at) (sym ((==_iff k n).0 i)) (w, lost)
        | inr i ↦ attempts-contention n w' c k (ground arith)
      ]

  -- If a store refuses a conditional write only where the version is another, UpdateArchiveIndex gives up only
  -- after eight attempts, in each of which another writer changed the version between the read and the write.
  pub update_archive_index-contention :
      {content : W → Option ArchiveIndex} {version : W → Text}
      → IsVersioned store meanwhile content version
      → ((w w' : W) (idx : ArchiveIndex) (etag : Text)
          → store.put_json_if w idx etag ≡ (w', precondition_failed)
          → version w ≢ etag)
      → (w : W) → (update_archive_index store mutate meanwhile w).1 ≡ contention
      → (k : ℕ) → k < index_update_attempts
      → (at : W) × (version (meanwhile k at) ≢ version at)
  unfolding update_archive_index
  update_archive_index-contention law honest w e k lt =
      let (at, lost) = attempts-contention index_update_attempts w e k lt in
      let (etag, exists, idx, w', g, p) = lost in
      (at, λ v. honest _ w' _ etag p (v ∙ (law.reads at g).0))
