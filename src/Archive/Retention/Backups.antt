-- ===== src/Archive/Retention/Backups.antt =====
-- Which base backups a plan deletes.
use cnmsql.Base.{
  ℕ, ◌≡◌, refl, sym, ap, ◌∙◌, Bool, true, false, ◌&&◌, if◌then◌else◌, List, [], ◌∷◌, Option, none,
  some, Text, text_eq, text_eq_comm, ◌⊎◌, inl, inr, any, any-sort, any-insert_sorted, sort,
  insert_sorted, is_empty, ltb, ◌==◌, arith, Bool-cases,
}
use cnmsql.Archive.{ArchiveIndex}
use cnmsql.Archive.Retention.{
  BackupEntry, BinlogEntry, completes_before, expire, plan_retention, plan_expired, apply_binlog_gc,
  plan_collected, horizon_of, collect, Deleted,
}
use cnmsql.Failover.{has}

-- The entry stands in the list.
abbrev pub Among : BackupEntry → List BackupEntry → Type 0
Among e [] = ⊥
Among e (x ∷ xs) = (e ≡ x) ⊎ Among e xs

pub any-Among :
    (p : BackupEntry → Bool) (e : BackupEntry) (xs : List BackupEntry)
    → any p xs ≡ false
    → Among e xs
    → p e ≡ false
any-Among p e [] h a = absurd a
any-Among p e (x ∷ xs) h (inl q) = ap p q ∙ ground arith
any-Among p e (x ∷ xs) h (inr a) = any-Among p e xs (ground arith) a

insert_sorted-Among :
    (e x : BackupEntry) (ys : List BackupEntry)
    → Among e (insert_sorted completes_before x ys)
    → (e ≡ x) ⊎ Among e ys
unfolding insert_sorted
insert_sorted-Among e x [] a = a
insert_sorted-Among e x (y ∷ ys) a = step (completes_before y x) a (insert_sorted-Among e x ys)
  where
    step :
        (b : Bool)
        → Among e (if b then y ∷ insert_sorted completes_before x ys else x ∷ y ∷ ys)
        → (Among e (insert_sorted completes_before x ys) → (e ≡ x) ⊎ Among e ys)
        → (e ≡ x) ⊎ ((e ≡ y) ⊎ Among e ys)
    step false a ind = a
    step true (inl q) ind = inr (inl q)
    step true (inr a) ind = elim (ind a) [ inl q ↦ inl q | inr m ↦ inr (inr m) ]

pub sort-Among :
    (e : BackupEntry) (xs : List BackupEntry) → Among e (sort completes_before xs) → Among e xs
unfolding sort
sort-Among e [] a = a
sort-Among e (x ∷ xs) a = elim (insert_sorted-Among e x (sort completes_before xs) a) [
  | inl q ↦ inl q
  | inr m ↦ inr (sort-Among e xs m)
]

-- No two backups lie under the same prefix.
abbrev pub HasDistinctPrefixes : List BackupEntry → Type 0
HasDistinctPrefixes [] = Unit
HasDistinctPrefixes (x ∷ xs) =
    (any (λ y. text_eq x.prefix y.prefix) xs ≡ false) × HasDistinctPrefixes xs

insert_sorted-HasDistinctPrefixes :
    (x : BackupEntry) (ys : List BackupEntry)
    → any (λ y. text_eq x.prefix y.prefix) ys ≡ false
    → HasDistinctPrefixes ys
    → HasDistinctPrefixes (insert_sorted completes_before x ys)
unfolding insert_sorted
insert_sorted-HasDistinctPrefixes x [] h d = (refl, tt)
insert_sorted-HasDistinctPrefixes x (y ∷ ys) h d = ground (
  arith,
  any-insert_sorted completes_before (λ z. text_eq y.prefix z.prefix) x ys,
  text_eq_comm x.prefix y.prefix,
  insert_sorted-HasDistinctPrefixes x ys (ground arith) d.1,
)

sort-HasDistinctPrefixes :
    (xs : List BackupEntry)
    → HasDistinctPrefixes xs
    → HasDistinctPrefixes (sort completes_before xs)
unfolding sort
sort-HasDistinctPrefixes [] d = tt
sort-HasDistinctPrefixes (x ∷ xs) d =
    insert_sorted-HasDistinctPrefixes x (sort completes_before xs)
      (any-sort completes_before (λ y. text_eq x.prefix y.prefix) xs ∙ d.0)
      (sort-HasDistinctPrefixes xs d.1)

unfoldable pub IsSorted : List BackupEntry → Type 0
IsSorted [] = Unit
IsSorted (x ∷ xs) = (any (λ y. completes_before y x) xs ≡ false) × IsSorted xs

any-earlier :
    (x y : BackupEntry) (ys : List BackupEntry)
    → completes_before y x ≡ false
    → any (λ z. completes_before z y) ys ≡ false
    → any (λ z. completes_before z x) ys ≡ false
any-earlier x y [] h a = refl
any-earlier x y (z ∷ ys) h a = ground (arith, any-earlier x y ys h)

insert_sorted-IsSorted :
    (x : BackupEntry) (ys : List BackupEntry)
    → IsSorted ys
    → IsSorted (insert_sorted completes_before x ys)
unfolding insert_sorted IsSorted
insert_sorted-IsSorted x [] s = (refl, tt)
insert_sorted-IsSorted x (y ∷ ys) s = elim (Bool-cases (completes_before y x)) [
  | inl g ↦ rw g (
    any-insert_sorted completes_before (λ z. completes_before z y) x ys ∙ ground (arith, s.0),
    insert_sorted-IsSorted x ys s.1,
  )
  | inr g ↦ rw g (ground (arith, any-earlier x y ys g s.0), s)
]

pub sort-IsSorted : (xs : List BackupEntry) → IsSorted (sort completes_before xs)
unfolding sort
sort-IsSorted [] = unfold IsSorted in tt
sort-IsSorted (x ∷ xs) = insert_sorted-IsSorted x (sort completes_before xs) (sort-IsSorted xs)

-- A backup that no other one completed after, and that is not deleted.
pub record IsKeptNewest (backups : List BackupEntry) (prefixes : List Text) (newest : BackupEntry)
    : Type 0 where
  pub among : Among newest backups
  pub latest : any (λ e. completes_before newest e) backups ≡ false
  pub undeleted : has newest.prefix prefixes ≡ false

expire-IsKeptNewest :
    (cutoff : ℕ) (x : BackupEntry) (xs : List BackupEntry)
    → IsSorted (x ∷ xs)
    → HasDistinctPrefixes (x ∷ xs)
    → (newest : BackupEntry) × IsKeptNewest (x ∷ xs) (expire cutoff (x ∷ xs)).0 newest
unfolding expire IsSorted
expire-IsKeptNewest cutoff x [] s d =
    (x, record { among = inl refl; latest = ground arith; undeleted = refl })
expire-IsKeptNewest cutoff x (y ∷ ys) s d =
    let (newest, k) = expire-IsKeptNewest cutoff y ys s.1 d.1 in
    (
      newest,
      record {
        among = inr k.among;
        latest =
            ground
              (arith, k.latest, any-Among (λ z. completes_before z x) newest (y ∷ ys) s.0 k.among);
        undeleted = ground (
          arith,
          k.undeleted,
          any-Among (λ z. text_eq x.prefix z.prefix) newest (y ∷ ys) d.0 k.among,
          text_eq_comm x.prefix newest.prefix,
        );
      },
    )

expire-expired :
    (cutoff : ℕ) (p : Text) (xs : List BackupEntry)
    → has p (expire cutoff xs).0 ≡ true
    → any (λ e. text_eq p e.prefix && ltb e.meta.completed_at cutoff) xs ≡ true
unfolding expire
expire-expired cutoff p [] h = cc
expire-expired cutoff p (x ∷ []) h = cc
expire-expired cutoff p (x ∷ y ∷ ys) h = ground (arith, expire-expired cutoff p (y ∷ ys))

abbrev expire_sorted : ℕ → List BackupEntry → List Text
expire_sorted cutoff backups = (expire cutoff (sort completes_before backups)).0

sorted-IsKeptNewest :
    (cutoff : ℕ) (xs sorted : List BackupEntry)
    → is_empty xs ≡ false
    → sorted ≡ sort completes_before xs
    → IsSorted sorted
    → HasDistinctPrefixes sorted
    → ((e : BackupEntry) → Among e sorted → Among e xs)
    → ((p : BackupEntry → Bool) → any p sorted ≡ any p xs)
    → (newest : BackupEntry) × IsKeptNewest xs (expire cutoff sorted).0 newest
sorted-IsKeptNewest cutoff [] sorted o q s d am an = cc
sorted-IsKeptNewest cutoff (x ∷ xs) [] o q s d am an = cc (an (λ e. true))
sorted-IsKeptNewest cutoff (x ∷ xs) (y ∷ sorted) o q s d am an =
    let (newest, k) = expire-IsKeptNewest cutoff y sorted s d in
    (
      newest,
      record {
        among = am newest k.among;
        latest = sym (an (completes_before newest)) ∙ k.latest;
        undeleted = k.undeleted;
      },
    )

-- A plan deletes no prefix, or those that the loop over the sorted backups found.
plan_expired-prefixes :
    (now : ℕ) (found : List Text × List BackupEntry) (binlogs : List BinlogEntry)
    (index : Option ArchiveIndex)
    → (plan_expired now found binlogs index).delete_backup_prefixes ≡ found.0
unfolding plan_expired apply_binlog_gc
plan_expired-prefixes now ([], retained) binlogs index = refl
plan_expired-prefixes now (p ∷ ps, retained) binlogs none = refl
plan_expired-prefixes now (p ∷ ps, retained) binlogs (some index) =
    choose (horizon_of retained == 0)
  where
    choose :
        (b : Bool)
        → (if b
            then plan_collected now (p ∷ ps) (horizon_of retained) index ([], [])
            else plan_collected now
                (p ∷ ps)
                (horizon_of retained)
                index
                (collect (horizon_of retained) binlogs ([], []))).delete_backup_prefixes
          ≡ p ∷ ps
    choose true = unfold plan_collected in refl
    choose false = collected (collect (horizon_of retained) binlogs ([], []))
      where
        collected :
            (found : List Text × Deleted)
            → (plan_collected now (p ∷ ps) (horizon_of retained) index found).delete_backup_prefixes
              ≡ p ∷ ps
        collected (keys, deleted) = unfold plan_collected in refl

plan_retention-prefixes :
    (now : ℕ) (backups : List BackupEntry) (binlogs : List BinlogEntry)
    (index : Option ArchiveIndex) (cutoff : ℕ)
    → (plan_retention now backups binlogs index cutoff).delete_backup_prefixes
      ≡ expire_sorted cutoff backups
unfolding plan_retention
plan_retention-prefixes now [] binlogs index cutoff = unfold sort expire in refl
plan_retention-prefixes now (b ∷ backups) binlogs index cutoff =
    plan_expired-prefixes now _ binlogs index

-- Of backups with prefixes of their own, if there is any, a backup that none completed after is not deleted.
pub plan_retention-IsKeptNewest :
    (now : ℕ) (backups : List BackupEntry) (binlogs : List BinlogEntry)
    (index : Option ArchiveIndex) (cutoff : ℕ)
    → is_empty backups ≡ false
    → HasDistinctPrefixes backups
    → (newest : BackupEntry) × IsKeptNewest backups
        (plan_retention now backups binlogs index cutoff).delete_backup_prefixes
        newest
plan_retention-IsKeptNewest now backups binlogs index cutoff o d =
    rw (plan_retention-prefixes now backups binlogs index cutoff) (
      sorted-IsKeptNewest cutoff backups (sort completes_before backups) o refl
        (sort-IsSorted backups) (sort-HasDistinctPrefixes backups d) (λ e. sort-Among e backups)
        (λ p. any-sort completes_before p backups))

-- A prefix that is deleted is that of a backup completed before the cutoff.
pub plan_retention-expired :
    (now : ℕ) (backups : List BackupEntry) (binlogs : List BinlogEntry)
    (index : Option ArchiveIndex) (cutoff : ℕ) (p : Text)
    → has p (plan_retention now backups binlogs index cutoff).delete_backup_prefixes ≡ true
    → any (λ e. text_eq p e.prefix && ltb e.meta.completed_at cutoff) backups ≡ true
plan_retention-expired now backups binlogs index cutoff p h =
    sym (
      any-sort completes_before (λ e. text_eq p e.prefix && ltb e.meta.completed_at cutoff) backups)
    ∙ expire-expired cutoff p (sort completes_before backups)
        (rw (plan_retention-prefixes now backups binlogs index cutoff) at h)
