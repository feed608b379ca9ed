-- ===== src/Archive/Update/Refinement.antt =====
-- What UpdateArchiveIndex promises over a store that keeps its word: an update is one atomic change of the index.
use cnmsql.Base.{
  ℕ, zero, suc, ◌≡◌, refl, sym, ap, ◌∙◌, ◌⊎◌, inl, inr, Bool, true, false, Option, none, some, Text,
}
use cnmsql.Archive.{ArchiveIndex}
use cnmsql.Archive.Update.{
  GetReply, got, get_failed, PutReply, stored, precondition_failed, put_failed, VersionedStore,
  Mutation, Mutate, UpdateReply, done, contention, get_error, mutate_error, put_error, zero_index,
  refusal, after_put, after_mutate, after_get, attempts, update_archive_index,
  index_update_attempts,
}

-- What `mutate` is given for an object: the index and whether it exists.
abbrev pub seen : Option ArchiveIndex → ArchiveIndex × Bool
seen none = (zero_index, false)
seen (some idx) = (idx, true)

-- What the store documents, of the content of the object and its version token: a token that is still current after
-- the other writers acted stands for the same content.
pub record IsVersioned {W : Type 0} (store : VersionedStore W) (meanwhile : ℕ → W → W)
    (content : W → Option ArchiveIndex) (version : W → Text) : Type 0 where
  pub reads :
      (w : W) {etag : Text} {exists : Bool} {idx : ArchiveIndex}
      → store.get_json_version w ≡ got etag exists idx
      → (version w ≡ etag) × (seen (content w) ≡ (idx, exists))
  pub stores :
      (w w' : W) {idx : ArchiveIndex} {etag : Text}
      → store.put_json_if w idx etag ≡ (w', stored)
      → (version w ≡ etag) × (content w' ≡ some idx)
  pub loses :
      (w w' : W) {idx : ArchiveIndex} {etag : Text}
      → store.put_json_if w idx etag ≡ (w', precondition_failed)
      → content w' ≡ content w
  pub fails :
      (w w' : W) {idx : ArchiveIndex} {etag e : Text}
      → store.put_json_if w idx etag ≡ (w', put_failed e)
      → (content w' ≡ content w) ⊎ ((version w ≡ etag) × (content w' ≡ some idx))
  pub pins :
      (n : ℕ) (w : W) → version (meanwhile n w) ≡ version w → content (meanwhile n w) ≡ content w

module _ {W : Type 0} (mutate : Mutate) (meanwhile : ℕ → W → W)
    (content : W → Option ArchiveIndex) where
  -- From `w` on, only the other writers changed the object.
  pub data Others (w : W) : W → Type 0 where
    here : Others w w
    acted : {w' : W} (k : ℕ) → Others w w' → Others w (meanwhile k w')
    kept : {w' : W} (w'' : W) → content w'' ≡ content w' → Others w w' → Others w w''

  abbrev pub mutated : W → Mutation
  mutated w = mutate (seen (content w)).0 (seen (content w)).1

  -- The object was changed once by `mutate`, from the content it had right before.
  abbrev pub Applied : W → W → Type 0
  Applied w w' =
      (at : W) × Others w at
      × (refusal (mutated at).error (mutated at).write ≡ none)
      × (content w' ≡ some (mutated at).index)

  -- `mutate` declined to write, with this reply, for a content that the object had.
  abbrev pub Declined : UpdateReply → W → W → Type 0
  Declined reply w w' =
      (at : W) × Others w at
      × Others w w'
      × (refusal (mutated at).error (mutated at).write ≡ some reply)

  -- The atomic update, by its reply.
  abbrev pub Atomic : UpdateReply → W → W → Type 0
  Atomic done w w' = Applied w w' ⊎ Declined done w w'
  Atomic contention w w' = Others w w'
  Atomic (get_error e) w w' = Others w w'
  Atomic (mutate_error e) w w' = Declined (mutate_error e) w w'
  Atomic (put_error e) w w' = Others w w' ⊎ Applied w w'

  -- Where the content is what was read, so is what `mutate` gives.
  mutated-read :
      (w : W) {idx : ArchiveIndex} {exists : Bool}
      → seen (content w) ≡ (idx, exists)
      → mutated w ≡ mutate idx exists
  mutated-read w e = ap (λ s. mutate s.0 s.1) e

  module _ (store : VersionedStore W) {version : W → Text}
      (law : IsVersioned store meanwhile content version) where
    put-Atomic :
        (again : W → W × UpdateReply) (w0 w : W) {etag : Text}
        → ((w' : W) → Others w0 w' → Atomic (again w').1 w0 (again w').0)
        → Others w0 w
        → (version w ≡ etag → refusal (mutated w).error (mutated w).write ≡ none)
        → (idx : ArchiveIndex) → (version w ≡ etag → (mutated w).index ≡ idx)
        → (reply : W × PutReply) → store.put_json_if w idx etag ≡ reply
        → Atomic (after_put store mutate again reply).1 w0 (after_put store mutate again reply).0
    unfolding after_put
    put-Atomic again w0 w ih o goes idx same (w', stored) e =
        let (v, c) = law.stores w w' e in inl (w, o, goes v, c ∙ ap some (sym (same v)))
    put-Atomic again w0 w ih o goes idx same (w', precondition_failed) e =
        ih w' (kept w' (law.loses w w' e) o)
    put-Atomic again w0 w ih o goes idx same (w', put_failed m) e = elim (law.fails w w' e) [
      | inl c ↦ inl (kept w' c o)
      | inr (v, c) ↦ inr (w, o, goes v, c ∙ ap some (sym (same v)))
    ]

    declined-Atomic :
        (w0 w w' : W) (reply : UpdateReply)
        → Others w0 w
        → Others w0 w'
        → refusal (mutated w).error (mutated w).write ≡ some reply
        → Atomic reply w0 w'
    declined-Atomic w0 w w' done o o' e = inr (w, o, o', e)
    declined-Atomic w0 w w' contention o o' e = o'
    declined-Atomic w0 w w' (get_error m) o o' e = o'
    declined-Atomic w0 w w' (mutate_error m) o o' e = (w, o, o', e)
    declined-Atomic w0 w w' (put_error m) o o' e = inl o'

    mutate-Atomic :
        (again : W → W × UpdateReply) (w0 w : W) (n : ℕ) {etag : Text} {exists : Bool}
        {idx : ArchiveIndex}
        → ((w' : W) → Others w0 w' → Atomic (again w').1 w0 (again w').0)
        → Others w0 w
        → version w ≡ etag
        → mutated w ≡ mutate idx exists
        → (refused : Option UpdateReply)
        → refusal (mutate idx exists).error (mutate idx exists).write ≡ refused
        → let out =
            after_mutate store mutate again
              (meanwhile n w)
              etag
              (mutate idx exists).index
              refused in
          Atomic out.1 w0 out.0
    unfolding after_mutate
    mutate-Atomic again w0 w n ih o v m (some reply) e =
        declined-Atomic w0 w (meanwhile n w) reply o (acted n o)
          (ap (λ x. refusal x.error x.write) m ∙ e)
    mutate-Atomic again w0 w n {etag} {exists} {idx} ih o v m none e =
        put-Atomic again w0 (meanwhile n w) ih (acted n o)
          (λ v'. ap (λ x. refusal x.error x.write) (still v') ∙ e) _
          (λ v'. ap (λ x. x.index) (still v')) _ refl
      where
        still : version (meanwhile n w) ≡ etag → mutated (meanwhile n w) ≡ mutate idx exists
        still v' = ap (λ c. mutate (seen c).0 (seen c).1) (law.pins n w (v' ∙ sym v)) ∙ m

    get-Atomic :
        (again : W → W × UpdateReply) (w0 w : W) (n : ℕ)
        → ((w' : W) → Others w0 w' → Atomic (again w').1 w0 (again w').0)
        → Others w0 w
        → (reply : GetReply) → store.get_json_version w ≡ reply
        → let out = after_get store mutate again (meanwhile n w) reply in Atomic out.1 w0 out.0
    unfolding after_get
    get-Atomic again w0 w n ih o (get_failed m) e = acted n o
    get-Atomic again w0 w n ih o (got etag exists idx) e =
        let (v, c) = law.reads w e in mutate-Atomic again w0 w n ih o v (mutated-read w c) _ refl

    attempts-Atomic :
        (n : ℕ) (w0 w : W)
        → Others w0 w
        → let out = attempts store mutate meanwhile n w in Atomic out.1 w0 out.0
    unfolding attempts
    attempts-Atomic zero w0 w o = o
    attempts-Atomic (suc n) w0 w o =
        get-Atomic (λ w'. attempts store mutate meanwhile n w') w0 w n
          (λ w' o'. attempts-Atomic n w0 w' o') o _ refl

    -- An update is atomic, whatever the other writers do between its reads and its writes: with nil, the index was
    -- changed once, by `mutate`, from the content it had right before, or `mutate` declined; with an error before a
    -- write, this update changed nothing; with one of a write, it changed nothing or changed the index so once.
    pub update_archive_index-Atomic :
        (w : W) → let out = update_archive_index store mutate meanwhile w in Atomic out.1 w out.0
    unfolding update_archive_index
    update_archive_index-Atomic w = attempts-Atomic index_update_attempts w w here
