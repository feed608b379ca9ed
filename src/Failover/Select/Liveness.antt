-- ===== src/Failover/Select/Liveness.antt =====
-- When an election succeeds, and what its refusals mean.
use mathlib.Core.Path.{subst}
use cnmsql.Base.{
  ℕ, ◌⊎◌, ◌≡◌, ◌↔◌, refl, sym, ◌∙◌, Bool, true, false, List, [], ◌∷◌, Option, none, some, Text,
  text_eq, text_Eq, text_eq_iff, text_eq_refl, if◌then◌else◌, arith, Bool-cases, inl, inr,
}
use cnmsql.Failover.{Election, get, has, no_instance}
use cnmsql.Failover.Measure.{within, within_bound, writes_behind, transactions_behind}
use cnmsql.Failover.Select.{
  dominates, settle, first_dominating, elect_within_lag, elect_within_bound, elect_measured,
  elect_among, select_failover_candidate,
}
use cnmsql.Failover.Select.Candidates.{within_lag_bound-has, ordered-has}
use cnmsql.Failover.Select.Safety.{
  IsWithinBounds, Covers, candidates_of, counts_of, pool_of, timely_among, pool_of-IsWithinBounds,
}
use cnmsql.Gtid.Parse.{◌>>=◌}

-- The comparison of two executed positions.
abbrev pub compared : Election → Text → Text → Option Bool
compared e name other =
    (e.gtid).contains (get no_instance name e.observed.instances).gtid
      (get no_instance other e.observed.instances).gtid

has-head : (o : Text) (os : List Text) → has o (o ∷ os) ≡ true
has-head o os = rw text_eq_refl

has-tail : (other o : Text) (os : List Text) → has other os ≡ true → has other (o ∷ os) ≡ true
has-tail other o os h = ground arith

dominates_all :
    (e : Election) (name : Text) (pool : List Text)
    → ((other : Text)
        → has other pool ≡ true
        → text_eq name other ≡ false
        → compared e name other ≡ some true)
    → dominates e name pool ≡ some true
unfolding dominates
dominates_all e name [] h = refl
dominates_all e name (o ∷ os) h = elim (Bool-cases (text_eq name o)) [
  | inl g ↦ rw g (dominates_all e name os (λ other m. h other (has-tail other o os m)))
  | inr g ↦
      rw (g, h o (has-head o os) g)
        (dominates_all e name os (λ other m. h other (has-tail other o os m)))
]

dominates_total :
    (e : Election) (name : Text) (pool : List Text)
    → ((other : Text) → has other pool ≡ true → (b : Bool) × (compared e name other ≡ some b))
    → (b : Bool) × (dominates e name pool ≡ some b)
unfolding dominates
dominates_total e name [] h = (true, refl)
dominates_total e name (o ∷ os) h =
    step (text_eq name o) (h o (has-head o os))
      (dominates_total e name os (λ other m. h other (has-tail other o os m)))
  where
    step :
        (s : Bool) {c rest : Option Bool}
        → (b : Bool) × (c ≡ some b)
        → (b : Bool) × (rest ≡ some b)
        → (b : Bool) × ((if s
              then rest
              else (c >>= λ contained. if contained then rest else some false))
            ≡ some b)
    step true c r = r
    step false (true, c) r = (r.0, rw (c, r.1))
    step false (false, c) r = (false, rw c)

first_dominating_found :
    (e : Election) (behind : List (Text × ℕ)) (time_behind : List (Text × Option ℕ))
    (pool names : List Text) (name : Text)
    → has name names ≡ true
    → dominates e name pool ≡ some true
    → ((n : Text) → has n names ≡ true → (b : Bool) × (dominates e n pool ≡ some b))
    → (first_dominating e behind time_behind pool names).reason ≡ none
unfolding first_dominating
first_dominating_found e behind time_behind pool [] name m d t = cc
first_dominating_found e behind time_behind pool (n ∷ names) name m d t =
    step (t n (has-head n names)) (elim (Bool-cases (text_eq name n)) [
      | inl g ↦ inl (subst (λ x. dominates e x pool ≡ some true) ((text_eq_iff name n).0 g) d)
      | inr g ↦ inr (
          first_dominating_found e behind time_behind pool names name (rw g at m) d
            (λ x mx. t x (has-tail x n names mx)))
    ])
  where
    step :
        {o : Option Bool}
        → (b : Bool) × (o ≡ some b)
        → (o ≡ some true) ⊎ ((first_dominating e behind time_behind pool names).reason ≡ none)
        → (settle o
            (record {
              name = n;
              transactions_behind = get 0 n behind;
              time_behind = get none n time_behind;
              reason = none;
            })
            (first_dominating e behind time_behind pool names)).reason
          ≡ none
    step (true, e) later = rw e
    step (false, e) (inl d) = cc
    step (false, e) (inr r) = rw e r

elect_within_lag_found :
    (e : Election) (behind : List (Text × ℕ)) (time_behind : List (Text × Option ℕ))
    (eligible pool : List Text) (name : Text)
    → has name pool ≡ true
    → ((other : Text)
        → has other pool ≡ true
        → text_eq name other ≡ false
        → compared e name other ≡ some true)
    → ((a b : Text)
        → has a pool ≡ true
        → has b pool ≡ true
        → (x : Bool) × (compared e a b ≡ some x))
    → (elect_within_lag e behind time_behind eligible pool).reason ≡ none
unfolding elect_within_lag
elect_within_lag_found e behind time_behind eligible [] name m d t = cc
elect_within_lag_found e behind time_behind eligible (p ∷ pool) name m d t =
    first_dominating_found e behind time_behind _ _ name (ordered-has e name (p ∷ pool) ∙ m)
      (dominates_all e name _ (λ other o n. d other (sym (ordered-has e other (p ∷ pool)) ∙ o) n))
      (λ a ma. dominates_total e a _ (λ b mb.
        t a b (sym (ordered-has e a (p ∷ pool)) ∙ ma) (sym (ordered-has e b (p ∷ pool)) ∙ mb)))

timely_among-empty :
    (e : Election) (behind : List (Text × ℕ)) (name : Text)
    → ¬ (has name (timely_among e behind []) ≡ true)
timely_among-empty e behind name m = cc (
    sym (
      within_lag_bound-has [] (writes_behind e.observed [] behind e.primary_down_for)
        e.max_replication_lag name)
    ∙ m)

pool_of-empty :
    (e : Election) (behind : List (Text × ℕ)) (name : Text)
    → ¬ (has name (pool_of e behind []) ≡ true)
pool_of-empty e behind name m = bound e.max_transactions_behind m
  where
    bound : (b : Option ℕ) → ¬ (has name (timely_among e behind (within_bound [] behind b)) ≡ true)
    bound none m = timely_among-empty e behind name (unfold within_bound in m)
    bound (some b) m = timely_among-empty e behind name (unfold within_bound within in m)

elect_within_bound_found :
    (e : Election) (behind : List (Text × ℕ)) (first : Text) (names eligible : List Text)
    (name : Text)
    → has name (timely_among e behind eligible) ≡ true
    → ((other : Text)
        → has other (timely_among e behind eligible) ≡ true
        → text_eq name other ≡ false
        → compared e name other ≡ some true)
    → ((a b : Text)
        → has a (timely_among e behind eligible) ≡ true
        → has b (timely_among e behind eligible) ≡ true
        → (x : Bool) × (compared e a b ≡ some x))
    → (elect_within_bound e behind first names eligible).reason ≡ none
unfolding elect_within_bound
elect_within_bound_found e behind first names [] name m d t =
    absurd (timely_among-empty e behind name m)
elect_within_bound_found e behind first names (n ∷ eligible) name m d t =
    elect_within_lag_found e behind _ (n ∷ eligible) _ name m d t

elect_among_found :
    (e : Election) (candidates : List Text) (k : ℕ) (behind : List (Text × ℕ)) (name : Text)
    → transactions_behind e.observed e.gtid candidates e.reference_gtid ≡ some behind
    → has name (pool_of e behind candidates) ≡ true
    → ((other : Text)
        → has other (pool_of e behind candidates) ≡ true
        → text_eq name other ≡ false
        → compared e name other ≡ some true)
    → ((a b : Text)
        → has a (pool_of e behind candidates) ≡ true
        → has b (pool_of e behind candidates) ≡ true
        → (x : Bool) × (compared e a b ≡ some x))
    → (elect_among e candidates k).reason ≡ none
unfolding elect_among elect_measured
elect_among_found e [] k behind name c m d t = absurd (pool_of-empty e behind name m)
elect_among_found e (n ∷ names) k behind name c m d t =
    rw c (elect_within_bound_found e behind n names _ name m d t)

-- An election whose counts are known names an instance as soon as one candidate within both bounds covers every
-- other one, provided that the positions of the candidates within the bounds can be compared.
pub select-elects :
    (e : Election) (behind : List (Text × ℕ)) (name : Text)
    → counts_of e ≡ some behind
    → IsWithinBounds e behind name
    → ((other : Text)
        → IsWithinBounds e behind other
        → text_eq name other ≡ false
        → Covers e name other)
    → ((a b : Text)
        → IsWithinBounds e behind a
        → IsWithinBounds e behind b
        → (x : Bool) × (compared e a b ≡ some x))
    → (select_failover_candidate e).reason ≡ none
unfolding select_failover_candidate
select-elects e behind name c w d t =
    elect_among_found e (candidates_of e) _ behind name c ((pool name).1 w)
      (λ other o n. d other ((pool other).0 o) n)
      (λ a b ma mb. t a b ((pool a).0 ma) ((pool b).0 mb))
  where
    pool :
        (n : Text) → (has n (pool_of e behind (candidates_of e)) ≡ true) ↔ IsWithinBounds e behind n
    pool = pool_of-IsWithinBounds e behind
