-- ===== src/Recovery/Plan/Coverage.antt =====
-- What the loop over the segments of a MySQL plan covers: planReplayWithOps of pkg/management/mysql/binlog/replay.go.
use mathlib.Core.Path.{subst}
use cnmsql.Base.{
  ℕ, ◌≡◌, refl, ap, ◌∙◌, inl, inr, Bool, true, not, ◌&&◌, ◌||◌, if◌then◌else◌, List, [], ◌∷◌,
  Option, none, some, some_inj, Text, is_empty, any, Bool-cases, arith,
}
use cnmsql.Archive.{ArchiveSegment}
use cnmsql.Gtid.Parse.Sound.{parse_gtid_set-IsGtidSet}
use cnmsql.Gtid.Set
use cnmsql.Gtid.Set.{GtidSet, holds, IsGtidSet}
use cnmsql.Gtid.Set.Containment.{contains_iff}
use cnmsql.Gtid.Set.Meaning.{empty-IsGtidSet, blank-holds}
use cnmsql.Gtid.Set.Merge.{union-IsGtidSet, holds-union}
use cnmsql.Recovery.{
  Planned, ok, ◌>>◌, >>-eq-ok, result, or_malformed, malformed-eq-ok, mysql_parse, mysql_contains,
  mysql_ops, ReplaySegment, replay_segment,
}
use cnmsql.Recovery.Plan.{plan_segments}

pub parse-IsGtidSet : (raw : Text) {s : GtidSet} → mysql_ops.parse raw ≡ some s → IsGtidSet s
unfolding mysql_ops mysql_parse
parse-IsGtidSet raw h = elim (Bool-cases (is_empty raw)) [
  | inl e ↦ subst IsGtidSet (some_inj (rw e at h)) empty-IsGtidSet
  | inr e ↦ parse_gtid_set-IsGtidSet raw (rw e at h)
]

pub contains-holds :
    (a b : GtidSet) (u : Text) (n : ℕ)
    → IsGtidSet a
    → IsGtidSet b
    → mysql_ops.contains a b ≡ true
    → holds b u n ≡ true
    → holds a u n ≡ true
unfolding mysql_ops mysql_contains
contains-holds a b u n ha hb h m = elim (Bool-cases (Set.has_no_transactions b)) [
  | inl e ↦ cc (blank-holds b u n e, m)
  | inr e ↦ (contains_iff a b ha hb).0 (rw e at h) u n m
]

-- The set that a segment's text stands for; a text that cannot be read has none.
abbrev pub set_of : Text → GtidSet
set_of raw = read_set (mysql_ops.parse raw)
  where
    read_set : Option GtidSet → GtidSet
    read_set none = []
    read_set (some s) = s

pub set_of-parsed : (raw : Text) {s : GtidSet} → mysql_ops.parse raw ≡ some s → set_of raw ≡ s
set_of-parsed raw h = rw h

-- Some planned segment, or some segment of the archive, holds the transaction.
abbrev pub planned_holds : List ReplaySegment → Text → ℕ → Bool
planned_holds segments u n = any (λ seg. holds (set_of seg.gtid_set) u n) segments

abbrev pub archived_holds : List ArchiveSegment → Text → ℕ → Bool
archived_holds segments u n = any (λ seg. holds (set_of seg.gtid_set) u n) segments

-- The last frontier: well formed, made of the first one and the planned segments, and past the whole archive.
pub record IsFrontier (first : GtidSet) (segments : List ArchiveSegment)
    (planned : List ReplaySegment) (last : GtidSet) : Type 0 where
  pub well_formed : IsGtidSet last
  pub made : (u : Text) (n : ℕ) → holds last u n ≡ (holds first u n || planned_holds planned u n)
  pub passed : (u : Text) (n : ℕ) → archived_holds segments u n ≡ true → holds last u n ≡ true

or_assoc : (a b c : Bool) → ((a || b) || c) ≡ (a || (b || c))
or_assoc a b c = ground arith

skip-IsFrontier :
    (first : GtidSet) (seg : ArchiveSegment) (segments : List ArchiveSegment)
    (planned : List ReplaySegment) (last s : GtidSet)
    → IsGtidSet first
    → mysql_ops.parse seg.gtid_set ≡ some s
    → mysql_ops.contains first s ≡ true
    → IsFrontier first segments planned last
    → IsFrontier first (seg ∷ segments) planned last
skip-IsFrontier first seg segments planned last s hf p c f = record {
  well_formed = f.well_formed;
  made = f.made;
  passed = λ u n h.
      let inside = contains-holds first s u n hf (parse-IsGtidSet seg.gtid_set p) c in
      let here : holds (set_of seg.gtid_set) u n ≡ holds s u n =
        rw (set_of-parsed seg.gtid_set p) refl in
      ground (arith, f.made u n, f.passed u n, inside, here, h);
}

take-IsFrontier :
    (first : GtidSet) (seg : ArchiveSegment) (segments : List ArchiveSegment)
    (planned : List ReplaySegment) (last s : GtidSet)
    → IsGtidSet first
    → mysql_ops.parse seg.gtid_set ≡ some s
    → IsFrontier (mysql_ops.union first s) segments planned last
    → IsFrontier first (seg ∷ segments) (replay_segment seg ∷ planned) last
unfolding mysql_ops replay_segment
take-IsFrontier first seg segments planned last s hf p f = record {
  well_formed = f.well_formed;
  made = λ u n.
      f.made u n
      ∙ rw
          (
            holds-union first s u n hf (parse-IsGtidSet seg.gtid_set p),
            set_of-parsed seg.gtid_set p,
          )
          (or_assoc (holds first u n) _ _);
  passed = λ u n h.
      let both = holds-union first s u n hf (parse-IsGtidSet seg.gtid_set p) in
      let here : holds (set_of seg.gtid_set) u n ≡ holds s u n =
        rw (set_of-parsed seg.gtid_set p) refl in
      ground (arith, f.made u n, f.passed u n, both, here, h);
}

ops_union-IsGtidSet : (a b : GtidSet) → IsGtidSet a → IsGtidSet b → IsGtidSet (mysql_ops.union a b)
unfolding mysql_ops
ops_union-IsGtidSet a b ha hb = union-IsGtidSet a b ha hb

and_right : (a b : Bool) → (a && b) ≡ true → b ≡ true
and_right a b h = ground arith

-- One round of the loop, with what the rest of it establishes.
round-IsFrontier :
    (first : GtidSet) (seg : ArchiveSegment) (segments : List ArchiveSegment) (s : GtidSet)
    (skipped taken : Planned (List ReplaySegment × GtidSet)) {found : List ReplaySegment × GtidSet}
    → IsGtidSet first
    → mysql_ops.parse seg.gtid_set ≡ some s
    → ((f : List ReplaySegment × GtidSet) → skipped ≡ ok f → IsFrontier first segments f.0 f.1)
    → ((f : List ReplaySegment × GtidSet)
        → taken ≡ ok f
        → IsFrontier (mysql_ops.union first s) segments f.0 f.1)
    → (if not (mysql_ops.is_blank s) && mysql_ops.contains first s
        then skipped
        else (taken >> λ f. ok (replay_segment seg ∷ f.0, f.1)))
      ≡ ok found
    → IsFrontier first (seg ∷ segments) found.0 found.1
round-IsFrontier first seg segments s skipped taken {found} hf p skip take h =
    elim (Bool-cases (not (mysql_ops.is_blank s) && mysql_ops.contains first s)) [
      | inl c ↦
          skip-IsFrontier first seg segments found.0 found.1 s hf p (and_right _ _ c)
            (skip found (rw c at h))
      | inr c ↦
          let (f, t, e) = >>-eq-ok taken _ (rw c at h) in
          subst (λ g. IsFrontier first (seg ∷ segments) g.0 g.1) (some_inj (ap result e))
            (take-IsFrontier first seg segments f.0 f.1 s hf p (take f t))
    ]

pub plan_segments-IsFrontier :
    (first : GtidSet) (segments : List ArchiveSegment) {found : List ReplaySegment × GtidSet}
    → IsGtidSet first
    → plan_segments mysql_ops first segments ≡ ok found
    → IsFrontier first segments found.0 found.1
unfolding plan_segments
plan_segments-IsFrontier first [] {found} hf h =
    subst (λ f. IsFrontier first [] f.0 f.1) (some_inj (ap result h))
      (record { well_formed = hf; made = λ u n. ground arith; passed = λ u n e. cc })
plan_segments-IsFrontier first (seg ∷ segments) {found} hf h =
    let (s, p, g) = >>-eq-ok (or_malformed (mysql_ops.parse seg.gtid_set)) _ h in
    let parsed = malformed-eq-ok (mysql_ops.parse seg.gtid_set) p in
    round-IsFrontier first seg segments s (plan_segments mysql_ops first segments)
      (plan_segments mysql_ops (mysql_ops.union first s) segments) hf parsed
      (λ f e. plan_segments-IsFrontier first segments hf e)
      (λ f e.
        plan_segments-IsFrontier (mysql_ops.union first s) segments
          (ops_union-IsGtidSet first s hf (parse-IsGtidSet seg.gtid_set parsed)) e)
      g
