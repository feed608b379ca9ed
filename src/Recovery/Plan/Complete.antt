-- ===== src/Recovery/Plan/Complete.antt =====
-- What a MySQL plan covers: planReplayWithOps of pkg/management/mysql/binlog/replay.go.
use mathlib.Core.Path.{subst}
use cnmsql.Base.{
  ℕ, ◌≡◌, refl, sym, ap, ◌∙◌, inl, inr, Bool, true, false, not, ◌||◌, if◌then◌else◌, List, [], ◌∷◌,
  some, some_inj, Text, is_empty, Bool-cases,
}
use cnmsql.Archive.{ArchiveIndex}
use cnmsql.Gtid.Set.{GtidSet, holds, IsGtidSet}
use cnmsql.Gtid.Set.Meaning.{slot-nil}
use cnmsql.Recovery.{
  PlanError, target_before_backup, target_beyond_archive, forked_timeline, Planned, ok, err,
  >>-eq-ok, result, or_malformed, malformed-eq-ok, mysql_parse, mysql_ops, RecoveryTarget,
  ReplaySegment, ReplayPlan,
}
use cnmsql.Recovery.Plan.{
  is_beyond_archive, plan_segments, check_coverage, plan_of, apply_target, plan_replay_from,
  plan_replay_with_ops,
}
use cnmsql.Recovery.Plan.Coverage.{
  parse-IsGtidSet, contains-holds, set_of, set_of-parsed, planned_holds, archived_holds, IsFrontier,
  plan_segments-IsFrontier,
}

-- What a plan promises of the archive, the backup's anchor and the target: each transaction that the archive holds
-- or declares is the backup's or in a planned segment, and so is each of the target, which has all of the backup's.
pub record IsComplete (idx : ArchiveIndex) (anchor_gtid : Text) (target : RecoveryTarget)
    (plan : ReplayPlan) : Type 0 where
  pub archived :
      (u : Text) (n : ℕ)
      → archived_holds idx.segments u n ≡ true
      → (holds (set_of anchor_gtid) u n || planned_holds plan.segments u n) ≡ true
  pub covered :
      (u : Text) (n : ℕ)
      → holds (set_of idx.covered_gtid_set) u n ≡ true
      → (holds (set_of anchor_gtid) u n || planned_holds plan.segments u n) ≡ true
  pub reached :
      is_empty target.gtid ≡ false
      → (u : Text) (n : ℕ) → holds (set_of target.gtid) u n ≡ true
      → (holds (set_of anchor_gtid) u n || planned_holds plan.segments u n) ≡ true
  pub after_backup :
      is_empty target.gtid ≡ false
      → (u : Text) (n : ℕ) → holds (set_of anchor_gtid) u n ≡ true
      → holds (set_of target.gtid) u n ≡ true

blank_text :
    (text : Text) (u : Text) (n : ℕ) → is_empty text ≡ true → holds (set_of text) u n ≡ false
unfolding mysql_ops mysql_parse
blank_text [] u n h = rw (slot-nil u) refl
blank_text (c ∷ text) u n h = cc

-- The sets of two texts, as they were read.
read_holds :
    (a b : Text) {s t : GtidSet}
    → mysql_ops.parse a ≡ some s
    → mysql_ops.parse b ≡ some t
    → mysql_ops.contains s t ≡ true
    → (u : Text) (n : ℕ) → holds (set_of b) u n ≡ true
    → holds (set_of a) u n ≡ true
read_holds a b {s} {t} ea eb c u n h = rw (set_of-parsed a ea) (
    contains-holds s t u n (parse-IsGtidSet a ea) (parse-IsGtidSet b eb) c
      (rw (set_of-parsed b eb) at h))

accepted :
    {A : Type 0} (b : Bool) {a c : A} (e : PlanError)
    → (if b then ok a else err e) ≡ ok c
    → (b ≡ true) × (a ≡ c)
accepted true e h = (refl, some_inj (ap result h))
accepted false e h = cc

unrefused :
    {A : Type 0} (b : Bool) {m : Planned A} {c : A} (e : PlanError)
    → (if not b then err e else m) ≡ ok c
    → (b ≡ true) × (m ≡ ok c)
unrefused true e h = (refl, h)
unrefused false e h = cc

untroubled :
    {A : Type 0} (b : Bool) {m : Planned A} {c : A} (e : PlanError)
    → (if b then err e else m) ≡ ok c
    → (b ≡ false) × (m ≡ ok c)
untroubled true e h = cc
untroubled false e h = (refl, h)

check_coverage-holds :
    (frontier : GtidSet) (text : Text) {f : GtidSet}
    → IsGtidSet frontier
    → check_coverage mysql_ops frontier text ≡ ok f
    → (f ≡ frontier)
      × ((u : Text) (n : ℕ) → holds (set_of text) u n ≡ true → holds frontier u n ≡ true)
check_coverage-holds frontier text {f} hf h = elim (Bool-cases (is_empty text)) [
  | inl e ↦ (sym (some_inj (ap result (rw e at h))), λ u n m. cc (blank_text text u n e, m))
  | inr e ↦
      let (s, p, g) = >>-eq-ok (or_malformed (mysql_ops.parse text)) _ (rw e at h) in
      let parsed = malformed-eq-ok (mysql_ops.parse text) p in
      let (c, same) = accepted (mysql_ops.contains frontier s) forked_timeline g in
      (
        sym same,
        λ u n m.
            contains-holds frontier s u n hf (parse-IsGtidSet text parsed) c
              (rw (set_of-parsed text parsed) at m),
      )
]

apply_target-kept :
    (plan : ReplayPlan) (frontier anchor : GtidSet) (anchor_gtid : Text) (target : RecoveryTarget)
    {done : ReplayPlan}
    → IsGtidSet frontier
    → mysql_ops.parse anchor_gtid ≡ some anchor
    → apply_target mysql_ops plan frontier anchor target ≡ ok done
    → (done.segments ≡ plan.segments)
      × (is_empty target.gtid ≡ false
          → ((u : Text) (n : ℕ) → holds (set_of target.gtid) u n ≡ true → holds frontier u n ≡ true)
            × ((u : Text) (n : ℕ)
                → holds (set_of anchor_gtid) u n ≡ true
                → holds (set_of target.gtid) u n ≡ true))
unfolding apply_target
apply_target-kept plan frontier anchor anchor_gtid target {done} hf ea h =
    elim (Bool-cases (is_empty target.gtid)) [
      | inl e ↦ (ap segments_of (sym (rw e at h)), λ w. cc (e, w))
      | inr e ↦
          let (want, p, g) = >>-eq-ok (or_malformed (mysql_ops.parse target.gtid)) _ (rw e at h) in
          let parsed = malformed-eq-ok (mysql_ops.parse target.gtid) p in
          let (c, g') = unrefused (mysql_ops.contains want anchor) target_before_backup g in
          let (d, g'') = unrefused (mysql_ops.contains frontier want) target_beyond_archive g' in
          (
            ap segments_of (sym g''),
            λ w. (
              λ u n m.
                  contains-holds frontier want u n hf (parse-IsGtidSet target.gtid parsed) d
                    (rw (set_of-parsed target.gtid parsed) at m),
              λ u n m. read_holds target.gtid anchor_gtid parsed ea c u n m,
            ),
          )
    ]
  where
    segments_of : Planned ReplayPlan → List ReplaySegment
    segments_of (ok p) = p.segments
    segments_of (err e) = []

-- The promise, from what each step established.
planned-IsComplete :
    (idx : ArchiveIndex) (anchor_gtid : Text) (target : RecoveryTarget) (anchor last : GtidSet)
    (planned : List ReplaySegment) (plan : ReplayPlan)
    → mysql_ops.parse anchor_gtid ≡ some anchor
    → IsFrontier anchor idx.segments planned last
    → ((u : Text) (n : ℕ) → holds (set_of idx.covered_gtid_set) u n ≡ true → holds last u n ≡ true)
    → apply_target mysql_ops (plan_of mysql_ops idx anchor planned) last anchor target ≡ ok plan
    → IsComplete idx anchor_gtid target plan
planned-IsComplete idx anchor_gtid target anchor last planned plan ea reach declared h =
    let (kept, aimed) =
      apply_target-kept (plan_of mysql_ops idx anchor planned) last anchor anchor_gtid target
        reach.well_formed ea h in
    record {
      archived = λ u n m. within kept u n (reach.passed u n m);
      covered = λ u n m. within kept u n (declared u n m);
      reached = λ w u n m. within kept u n ((aimed w).0 u n m);
      after_backup = λ w u n m. (aimed w).1 u n m;
    }
  where
    within :
        plan.segments ≡ planned
        → (u : Text) (n : ℕ) → holds last u n ≡ true
        → (holds (set_of anchor_gtid) u n || planned_holds plan.segments u n) ≡ true
    within kept u n m = rw (kept, set_of-parsed anchor_gtid ea) (sym (reach.made u n) ∙ m)

-- A plan that is made covers the archive, what the archive declares, and the target.
pub plan_replay-IsComplete :
    (idx : ArchiveIndex) (anchor_gtid : Text) (target : RecoveryTarget) {plan : ReplayPlan}
    → plan_replay_with_ops mysql_ops (some idx) anchor_gtid target ≡ ok plan
    → IsComplete idx anchor_gtid target plan
unfolding plan_replay_with_ops plan_replay_from
plan_replay-IsComplete idx anchor_gtid target {plan} h =
    let (late, h1) = untroubled (is_beyond_archive idx target) target_beyond_archive h in
    let (anchor, p, h2) = >>-eq-ok (or_malformed (mysql_ops.parse anchor_gtid)) _ h1 in
    let ea = malformed-eq-ok (mysql_ops.parse anchor_gtid) p in
    let (found, q, h3) = >>-eq-ok (plan_segments mysql_ops anchor idx.segments) _ h2 in
    let (frontier, r, h4) = >>-eq-ok (check_coverage mysql_ops found.1 idx.covered_gtid_set) _ h3 in
    let reach = plan_segments-IsFrontier anchor idx.segments (parse-IsGtidSet anchor_gtid ea) q in
    let (same, declared) = check_coverage-holds found.1 idx.covered_gtid_set reach.well_formed r in
    planned-IsComplete idx anchor_gtid target anchor found.1 found.0 plan ea reach declared (
      subst
        (λ f.
          apply_target mysql_ops (plan_of mysql_ops idx anchor found.0) f anchor target ≡ ok plan)
        same h4)
