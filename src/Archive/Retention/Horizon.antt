-- ===== src/Archive/Retention/Horizon.antt =====
-- From which time on a plan keeps the binary logs: the oldest backup that it retains.
use cnmsql.Base.{
  ℕ, ◌≡◌, refl, sym, ◌∙◌, Bool, true, false, not, ◌&&◌, List, [], ◌∷◌, ◌⊎◌, inl, inr, any, any-sort,
  sort, ltb, is_empty, Bool-cases, arith,
}
use cnmsql.Archive.Retention.{BackupEntry, completes_before, expire, horizon_of}
use cnmsql.Archive.Retention.Backups.{Among, any-Among, sort-Among, IsSorted, sort-IsSorted}

-- The time is the start of a backup that did not complete before the cutoff or that none completed after; and each
-- backup that completed before it completed before the cutoff.
pub record IsOldestKept (backups : List BackupEntry) (cutoff horizon : ℕ) : Type 0 where
  pub oldest : BackupEntry
  pub among : Among oldest backups
  pub start : oldest.meta.started_at ≡ horizon
  pub kept :
      (ltb oldest.meta.completed_at cutoff ≡ false)
      ⊎ (any (completes_before oldest) backups ≡ false)
  pub first :
      any (λ e. completes_before e oldest && not (ltb e.meta.completed_at cutoff)) backups ≡ false

any-and :
    (p q : BackupEntry → Bool) (xs : List BackupEntry)
    → any p xs ≡ false
    → any (λ e. p e && q e) xs ≡ false
any-and p q [] h = refl
any-and p q (x ∷ xs) h = ground (arith, any-and p q xs)

expired-IsOldestKept :
    (cutoff horizon : ℕ) (x : BackupEntry) (xs : List BackupEntry)
    → ltb x.meta.completed_at cutoff ≡ true
    → any (λ z. completes_before z x) xs ≡ false
    → IsOldestKept xs cutoff horizon
    → IsOldestKept (x ∷ xs) cutoff horizon
expired-IsOldestKept cutoff horizon x xs e s k = record {
  oldest = k.oldest;
  among = inr k.among;
  start = k.start;
  kept = elim k.kept [
    | inl a ↦ inl a
    | inr a ↦ inr (ground (arith, any-Among (λ z. completes_before z x) k.oldest xs s k.among))
  ];
  first = ground (arith, k.first);
}

expire-IsOldestKept :
    (cutoff : ℕ) (x : BackupEntry) (xs : List BackupEntry)
    → IsSorted (x ∷ xs)
    → IsOldestKept (x ∷ xs) cutoff (horizon_of (expire cutoff (x ∷ xs)).1)
unfolding expire IsSorted
expire-IsOldestKept cutoff x [] s = record {
  oldest = x;
  among = inl refl;
  start = refl;
  kept = inr (ground arith);
  first = ground arith;
}
expire-IsOldestKept cutoff x (y ∷ ys) s = elim (Bool-cases (ltb x.meta.completed_at cutoff)) [
  | inl e ↦
      rw e (expired-IsOldestKept cutoff _ x (y ∷ ys) e s.0 (expire-IsOldestKept cutoff y ys s.1))
  | inr e ↦ rw e (record {
    oldest = x;
    among = inl refl;
    start = refl;
    kept = inl e;
    first = ground (
      arith,
      any-and (λ z. completes_before z x) (λ z. not (ltb z.meta.completed_at cutoff)) (y ∷ ys) s.0,
    );
  })
]

unsorted-IsOldestKept :
    (cutoff horizon : ℕ) (backups : List BackupEntry)
    → IsOldestKept (sort completes_before backups) cutoff horizon
    → IsOldestKept backups cutoff horizon
unsorted-IsOldestKept cutoff horizon backups k = record {
  oldest = k.oldest;
  among = sort-Among k.oldest backups k.among;
  start = k.start;
  kept = elim k.kept [
    | inl a ↦ inl a
    | inr a ↦ inr (sym (any-sort completes_before (completes_before k.oldest) backups) ∙ a)
  ];
  first = sym (any-sort completes_before _ backups) ∙ k.first;
}

-- The loop over the sorted backups retains one at least, and the first that it retains gives the time.
pub horizon_of-IsOldestKept :
    (cutoff : ℕ) (backups : List BackupEntry)
    → is_empty backups ≡ false
    → IsOldestKept backups cutoff (horizon_of (expire cutoff (sort completes_before backups)).1)
horizon_of-IsOldestKept cutoff backups o = unsorted-IsOldestKept cutoff _ backups (
    of_sorted (sort completes_before backups) (sort-IsSorted backups)
      (any-sort completes_before (λ e. true) backups ∙ occupied backups o))
  where
    occupied : (xs : List BackupEntry) → is_empty xs ≡ false → any (λ e. true) xs ≡ true
    occupied [] h = cc
    occupied (x ∷ xs) h = refl

    of_sorted :
        (xs : List BackupEntry)
        → IsSorted xs
        → any (λ e. true) xs ≡ true
        → IsOldestKept xs cutoff (horizon_of (expire cutoff xs).1)
    of_sorted [] s h = cc
    of_sorted (x ∷ xs) s h = expire-IsOldestKept cutoff x xs s
