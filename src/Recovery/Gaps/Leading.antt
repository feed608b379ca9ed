-- ===== src/Recovery/Gaps/Leading.antt =====
-- What comes before the first transaction of a source, in checkMySQLGaps of pkg/management/mysql/binlog/replay.go.
use mathlib.Core.Path.{subst}
use cnmsql.Base.{
  ℕ, ◌-◌, ◌≤◌, ◌<◌, ◌≡◌, refl, sym, ◌∙◌, ◌⊎◌, inl, inr, Bool, true, false, not, ◌&&◌, ◌||◌,
  if◌then◌else◌, List, [], ◌∷◌, All, Text, to_lower, text_Eq, text_eq, text_eq_iff, text_eq_refl,
  leb→le, is_empty, leb, not-leb→lt, Bool-cases, arith,
}
use cnmsql.Base.Int64.{le64, sub64, le64-leb, sub64-sub}
use cnmsql.Gtid.Interval.{Interval, IsInterval, IsNormal}
use cnmsql.Gtid.Set.{GtidSet, slot, holds, IsEntry, IsGtidSet}
use cnmsql.Gtid.Set.Meaning.{slot-cons, slot-nil}
use cnmsql.Gtid.Set.Merge.{holds-add_interval, add_interval-IsGtidSet}
use cnmsql.Recovery.Gaps.{missing_before, add_leading}

-- The number comes before every range.
abbrev pub Leads : ℕ → List Interval → Type 0
Leads n [] = ⊥
Leads n (first ∷ ivs) = (1 ≤ n) × (n < first.start)

abbrev head_range : Interval → Interval
head_range first = record { start = 1; end = sub64 first.start 1 }

head_end :
    (f : Interval)
    → IsInterval f
    → le64 f.start 1 ≡ false
    → (1 < f.start) × (sub64 f.start 1 ≡ f.start - 1)
head_end f h e = (
  not-leb→lt f.start 1
      (sym (le64-leb f.start 1 (omega (arith, h.ordered, h.fits)) (omega arith)) ∙ e),
  sub64-sub f.start 1 (omega (arith, h.ordered, h.fits)) h.positive,
)

head-IsInterval : (f : Interval) → IsInterval f → le64 f.start 1 ≡ false → IsInterval (head_range f)
head-IsInterval f h e =
    let (lt, s) = head_end f h e in
    record {
      positive = omega arith;
      ordered = omega (arith, lt, s);
      fits = omega (arith, s, h.ordered, h.fits);
    }

-- What adding one source's leading range does.
pub record IsExtended (missing out : GtidSet) : Type 0 where
  pub well_formed : IsGtidSet out
  pub kept : (u : Text) (n : ℕ) → holds missing u n ≡ true → holds out u n ≡ true

before-IsExtended :
    (b : Bool) (v : Text) (ivs : List Interval) (missing : GtidSet)
    → IsNormal ivs
    → IsGtidSet missing
    → IsExtended missing (missing_before b v ivs missing)
before-IsExtended true v ivs missing hi hm = record { well_formed = hm; kept = λ u n e. e }
before-IsExtended false v [] missing hi hm = record { well_formed = hm; kept = λ u n e. e }
before-IsExtended false v (first ∷ ivs) missing hi hm = elim (Bool-cases (le64 first.start 1)) [
  | inl e ↦ rw e (record { well_formed = hm; kept = λ u n e. e })
  | inr e ↦
      let valid = head-IsInterval first hi.0 e in
      rw e (record {
        well_formed = add_interval-IsGtidSet missing v (head_range first) hm valid;
        kept = λ u n h. rw (holds-add_interval missing v (head_range first) hm valid u n, h) refl;
      })
]

before-holds :
    (v : Text) (ivs : List Interval) (missing : GtidSet) (n : ℕ)
    → to_lower v ≡ v
    → IsNormal ivs
    → IsGtidSet missing
    → Leads n ivs
    → holds (missing_before false v ivs missing) v n ≡ true
before-holds v [] missing n l hi hm h = absurd h
before-holds v (first ∷ ivs) missing n l hi hm h = elim (Bool-cases (le64 first.start 1)) [
  | inl e ↦ absurd (not_leading first hi.0 e h.0 h.1)
  | inr e ↦
      let (lt, s) = head_end first hi.0 e in
      rw
        (
          e,
          holds-add_interval missing v (head_range first) hm (head-IsInterval first hi.0 e) v n,
          l,
          text_eq_refl v,
          s,
        )
        (leading_covered (holds missing v n) n first.start h.0 h.1)
]
  where
    not_leading : (f : Interval) → IsInterval f → le64 f.start 1 ≡ true → 1 ≤ n → n < f.start → ⊥
    not_leading f h e a b =
        let low =
          leb→le f.start 1
            (sym (le64-leb f.start 1 (omega (arith, h.ordered, h.fits)) (omega arith)) ∙ e) in
        omega (arith, low, a, b)

    leading_covered :
        (b : Bool) (k start : ℕ) → 1 ≤ k → k < start → (b || (leb 1 k && leb k (start - 1))) ≡ true
    leading_covered b k start x y = ground arith

-- The loop keeps what is missing already, and adds what leads a source that the backup lacks.
pub record IsLed (anchor got missing out : GtidSet) : Type 0 where
  pub extended : IsExtended missing out
  pub led :
      (u : Text) (n : ℕ)
      → is_empty (slot anchor u) ≡ true
      → Leads n (slot got u)
      → holds out u n ≡ true

-- One round, before the rest of the loop.
cons-IsLed :
    (anchor got missing out : GtidSet) (v : Text) (ivs : List Interval)
    → IsEntry (v, ivs)
    → IsGtidSet missing
    → IsLed anchor got (missing_before (not (is_empty (slot anchor v))) v ivs missing) out
    → IsLed anchor ((v, ivs) ∷ got) missing out
cons-IsLed anchor got missing out v ivs h hm rest = record {
  extended = record {
    well_formed = rest.extended.well_formed;
    kept = λ u n e. rest.extended.kept u n (first.kept u n e);
  };
  led = λ u n e l.
      led_by u n e (Bool-cases (text_eq v u)) (subst (Leads n) (slot-cons u v ivs got) l);
}
  where
    first : IsExtended missing (missing_before (not (is_empty (slot anchor v))) v ivs missing)
    first = before-IsExtended _ v ivs missing h.normal hm

    own : (n : ℕ) → is_empty (slot anchor v) ≡ true → Leads n ivs → holds out v n ≡ true
    own n e l = rest.extended.kept v n (
        subst (λ b. holds (missing_before (not b) v ivs missing) v n ≡ true) (sym e)
          (before-holds v ivs missing n h.lowered h.normal hm l))

    led_by :
        (u : Text) (n : ℕ)
        → is_empty (slot anchor u) ≡ true
        → (text_eq v u ≡ true) ⊎ (text_eq v u ≡ false)
        → Leads n (if text_eq v u then ivs else slot got u)
        → holds out u n ≡ true
    led_by u n e (inl same) l =
        let here : v ≡ u = (text_eq_iff v u).0 same in
        subst (λ w. holds out w n ≡ true) here
          (own n (subst (λ w. is_empty (slot anchor w) ≡ true) (sym here) e)
            (subst (λ b. Leads n (if b then ivs else slot got u)) same l))
    led_by u n e (inr other) l =
        rest.led u n e (subst (λ b. Leads n (if b then ivs else slot got u)) other l)

pub add_leading-IsLed :
    (anchor got missing : GtidSet)
    → All IsEntry got
    → IsGtidSet missing
    → IsLed anchor got missing (add_leading anchor got missing)
unfolding add_leading
add_leading-IsLed anchor [] missing h hm = record {
  extended = record { well_formed = hm; kept = λ u n e. e };
  led = λ u n e l. absurd (subst (Leads n) (slot-nil u) l);
}
add_leading-IsLed anchor ((v, ivs) ∷ got) missing h hm =
    cons-IsLed anchor got missing _ v ivs h.0 hm (
      add_leading-IsLed anchor got _ h.1
        (before-IsExtended _ v ivs missing h.0.normal hm).well_formed)
