-- ===== src/Recovery/Gaps/Meaning.antt =====
-- What a recovery that VerifyReplayedGTIDs passes has: pkg/management/mysql/binlog/replay.go.
use cnmsql.Base.{
  ℕ, ◌≤◌, ◌<◌, ◌≡◌, refl, sym, ◌⊎◌, inl, inr, Bool, true, false, not, ◌&&◌, ◌||◌, if◌then◌else◌,
  List, [], ◌∷◌, some, Text, text_Eq, ltb→lt, not-ltb→le, is_empty, ltb, Bool-cases, arith,
}
use cnmsql.Gtid.Interval.{Interval, member, covers, IsInterval, IsNormal}
use cnmsql.Gtid.Parse.{parse_gtid_set}
use cnmsql.Gtid.Parse.Sound.{parse_gtid_set-IsGtidSet}
use cnmsql.Gtid.Set
use cnmsql.Gtid.Set.{GtidSet, slot, holds, add_interval, IsEntry, IsGtidSet}
use cnmsql.Gtid.Set.Holes.{IsHole, holds-holes, holes-IsHole, holes-IsGtidSet}
use cnmsql.Gtid.Set.Meaning.{slot-IsNormal, blank-holds, holds-difference}
use cnmsql.Gtid.Set.Merge.{holds-union, union-IsGtidSet}
use cnmsql.Recovery.{ok, err, archive_gap}
use cnmsql.Recovery.Gaps.{add_leading, unexplained, check_mysql_gaps}
use cnmsql.Recovery.Gaps.Leading.{Leads, IsLed, add_leading-IsLed}

-- What a set recovered on top of a backup has: a transaction that it lacks between two that it has was disowned, or is
-- lacking between two of the backup; and one that it lacks before one that it has, of a source that the backup
-- lacks, was disowned.
pub record IsGapless (anchor got disowned : GtidSet) : Type 0 where
  pub between :
      (u : Text) (n : ℕ) → IsHole got u n → (holds disowned u n ≡ true) ⊎ IsHole anchor u n
  pub leading :
      (u : Text) (n m : ℕ)
      → is_empty (slot anchor u) ≡ true
      → 1 ≤ n
      → n < m
      → holds got u m ≡ true
      → holds got u n ≡ false
      → holds disowned u n ≡ true

explained : (x a b : Bool) → (x && not (a || b)) ≡ false → x ≡ true → (a ≡ true) ⊎ (b ≡ true)
explained x true b h e = inl refl
explained x false true h e = inr refl
explained x false false h e = cc

or_off : (a b : Bool) → (a || b) ≡ false → a ≡ false
or_off a b h = ground arith

first_held : (a : Interval) (ivs : List Interval) → IsInterval a → member a.start (a ∷ ivs) ≡ true
first_held a ivs h = ground (arith, h)

strictly_after :
    (n : ℕ) (a : Interval) → IsInterval a → covers n a ≡ false → a.start ≤ n → a.start < n
strictly_after n a h out le = ground (arith, h)

-- A number that is missing before one that is held leads the ranges, or follows one that is held.
Leads-member :
    (n m : ℕ) (ivs : List Interval)
    → IsNormal ivs
    → 1 ≤ n
    → member m ivs ≡ true
    → member n ivs ≡ false
    → Leads n ivs ⊎ ((l : ℕ) × (l < n) × (member l ivs ≡ true))
Leads-member n m [] h p e out = cc
Leads-member n m (a ∷ ivs) h p e out = elim (Bool-cases (ltb n a.start)) [
  | inl c ↦ inl (p, ltb→lt n a.start c)
  | inr c ↦ inr (
    a.start,
    strictly_after n a h.0 (or_off (covers n a) (member n ivs) out) (not-ltb→le n a.start c),
    first_held a ivs h.0,
  )
]

unheld_source : (s : GtidSet) (u : Text) (n : ℕ) → is_empty (slot s u) ≡ true → holds s u n ≡ false
unheld_source s u n h = unheld (slot s u) h
  where
    unheld : (ivs : List Interval) → is_empty ivs ≡ true → member n ivs ≡ false
    unheld [] e = refl
    unheld (iv ∷ ivs) e = cc

module _ (anchor got disowned : GtidSet) (ha : IsGtidSet anchor) (hg : IsGtidSet got)
    (hd : IsGtidSet disowned)
    (clean : Set.has_no_transactions (unexplained anchor got disowned) ≡ true) where
  loop : IsLed anchor got (Set.holes got) (add_leading anchor got (Set.holes got))
  loop = add_leading-IsLed anchor got (Set.holes got) hg.entries (holes-IsGtidSet got hg)

  missing-explained :
      (u : Text) (n : ℕ)
      → holds (add_leading anchor got (Set.holes got)) u n ≡ true
      → (holds disowned u n ≡ true) ⊎ (holds (Set.holes anchor) u n ≡ true)
  unfolding unexplained
  missing-explained u n e =
      let known = union-IsGtidSet disowned (Set.holes anchor) hd (holes-IsGtidSet anchor ha) in
      explained _ _ _
        (rw
          (
            sym (holds-union disowned (Set.holes anchor) u n hd (holes-IsGtidSet anchor ha)),
            sym (
                holds-difference _ (Set.union disowned (Set.holes anchor)) u n
                  loop.extended.well_formed known),
          )
          (blank-holds _ u n clean))
        e

  hole-explained :
      (u : Text) (n : ℕ)
      → IsHole got u n
      → (holds disowned u n ≡ true) ⊎ (holds (Set.holes anchor) u n ≡ true)
  hole-explained u n hole =
      missing-explained u n (loop.extended.kept u n (holds-holes got u n hg hole))

  lacking-explained :
      (u : Text) (n : ℕ)
      → is_empty (slot anchor u) ≡ true
      → (holds disowned u n ≡ true) ⊎ (holds (Set.holes anchor) u n ≡ true)
      → holds disowned u n ≡ true
  lacking-explained u n e (inl d) = d
  lacking-explained u n e (inr h) =
      let hole = holes-IsHole anchor u n ha h in
      cc (hole.low_held, unheld_source anchor u hole.low e)

  unexplained-IsGapless : IsGapless anchor got disowned
  unexplained-IsGapless = record {
    between = λ u n hole. elim (hole-explained u n hole) [
      | inl d ↦ inl d
      | inr h ↦ inr (holes-IsHole anchor u n ha h)
    ];
    leading = λ u n m e p lt held out.
        lacking-explained u n e
          (elim (Leads-member n m (slot got u) (slot-IsNormal got u hg.entries) p held out) [
            | inl l ↦ missing-explained u n (loop.led u n e l)
            | inr (l, below, low) ↦ hole-explained u n (record {
              low = l;
              high = m;
              after = below;
              before = lt;
              low_held = low;
              high_held = held;
              lacked = out;
            })
          ]);
  }

reported : (b : Bool) → (if b then ok tt else err archive_gap) ≡ ok tt → b ≡ true
reported true h = refl
reported false h = cc

-- A recovered set that checkMySQLGaps lets through has no gap: what it lacks between two of its transactions of a
-- source was disowned, or is lacking between two of the backup's as well; and what it lacks, of a source that the
-- backup lacks, before a transaction that it has was disowned.
pub check_mysql_gaps-IsGapless :
    (anchor_gtid recovered disowned_gtids : Text) {anchor got disowned : GtidSet}
    → parse_gtid_set anchor_gtid ≡ some anchor
    → parse_gtid_set recovered ≡ some got
    → parse_gtid_set disowned_gtids ≡ some disowned
    → check_mysql_gaps anchor_gtid recovered disowned_gtids ≡ ok tt
    → IsGapless anchor got disowned
unfolding check_mysql_gaps
check_mysql_gaps-IsGapless anchor_gtid recovered disowned_gtids {anchor} {got} {disowned} ea eg ed
      h =
    unexplained-IsGapless anchor got disowned (parse_gtid_set-IsGtidSet anchor_gtid ea)
      (parse_gtid_set-IsGtidSet recovered eg) (parse_gtid_set-IsGtidSet disowned_gtids ed)
      (reported (Set.has_no_transactions (unexplained anchor got disowned)) (rw (ea, eg, ed) at h))
