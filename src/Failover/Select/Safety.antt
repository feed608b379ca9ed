-- ===== src/Failover/Select/Safety.antt =====
-- What an election guarantees of the replica it chooses, and when it chooses one.
use mathlib.Core.Path.{subst}
use cnmsql.Base.{
  ℕ, ◌≡◌, ◌↔◌, refl, sym, ◌∙◌, Bool, true, false, ◌&&◌, List, [], ◌∷◌, Option, none, some, Text,
  text_eq, text_Eq, text_eq_iff, text_eq_refl, if◌then◌else◌, arith, Bool-cases, inl, inr,
}
use cnmsql.Failover.{Election, FailoverCandidate, get, has, no_instance}
use cnmsql.Failover.Measure.{
  within_bound, within_lag_bound, writes_behind, lost_writes, transactions_behind,
}
use cnmsql.Failover.Select.{
  gather, dominates, settle, first_dominating, elect_within_lag, elect_within_bound, elect_measured,
  elect_among, select_failover_candidate, ordered,
}
use cnmsql.Failover.Select.Candidates.{
  IsElectable, gather-IsElectable, is_admitted, is_timely, within_bound-has, within_lag_bound-has,
  ordered-has, get-writes_behind,
}
use cnmsql.Gtid.Parse.{◌>>=◌}

-- The candidates of the election.
abbrev pub candidates_of : Election → List Text
candidates_of e = (gather e e.observed.instance_names).0

-- The counts of transactions that the candidates lack.
abbrev pub counts_of : Election → Option (List (Text × ℕ))
counts_of e = transactions_behind e.observed e.gtid (candidates_of e) e.reference_gtid

-- The seconds of writes that a promotion of the instance would lose, given the counts.
abbrev pub loss_of : Election → List (Text × ℕ) → Text → Option ℕ
loss_of e behind name =
    lost_writes (get no_instance name e.observed.instances).heartbeat_age (get 0 name behind)
      e.primary_down_for

-- A candidate within both bounds.
pub record IsWithinBounds (e : Election) (behind : List (Text × ℕ)) (name : Text) : Type 0 where
  pub electable : IsElectable e name
  pub admitted : is_admitted e.max_transactions_behind (get 0 name behind) ≡ true
  pub timely : is_timely e.max_replication_lag (loss_of e behind name) ≡ true

-- The first has executed every transaction that the second has.
abbrev pub Covers : Election → Text → Text → Type 0
Covers e name other =
    (e.gtid).contains (get no_instance name e.observed.instances).gtid
      (get no_instance other e.observed.instances).gtid
    ≡ some true

dominates-step :
    (b : Bool) (c rest : Option Bool)
    → (if b then rest else (c >>= λ x. if x then rest else some false)) ≡ some true
    → (rest ≡ some true) × (b ≡ false → c ≡ some true)
dominates-step true c rest h = (h, λ z. cc)
dominates-step false none rest h = cc
dominates-step false (some false) rest h = cc
dominates-step false (some true) rest h = (h, λ z. refl)

dominates-Covers :
    (e : Election) (name : Text) (pool : List Text) (other : Text)
    → dominates e name pool ≡ some true
    → has other pool ≡ true
    → text_eq name other ≡ false
    → Covers e name other
unfolding dominates
dominates-Covers e name [] other d h n = cc
dominates-Covers e name (o ∷ os) other d h n =
    let (rest, here) = dominates-step _ _ _ d in
    elim (Bool-cases (text_eq other o)) [
      | inl g ↦
          subst (λ x. Covers e name x) (sym ((text_eq_iff other o).0 g))
            (here (subst (λ x. text_eq name x ≡ false) ((text_eq_iff other o).0 g) n))
      | inr g ↦ dominates-Covers e name os other rest (rw g at h) n
    ]

-- The outcome that names an instance.
abbrev elected : Election → List (Text × ℕ) → List (Text × Option ℕ) → Text → FailoverCandidate
elected e behind time_behind name = record {
  name = name;
  transactions_behind = get 0 name behind;
  time_behind = get none name time_behind;
  reason = none;
}

first_dominating-chosen :
    (e : Election) (behind : List (Text × ℕ)) (time_behind : List (Text × Option ℕ))
    (pool names : List Text)
    → (first_dominating e behind time_behind pool names).reason ≡ none
    → (name : Text) × (has name names ≡ true)
      × (dominates e name pool ≡ some true)
      × (first_dominating e behind time_behind pool names ≡ elected e behind time_behind name)
unfolding first_dominating
first_dominating-chosen e behind time_behind pool [] h = cc
first_dominating-chosen e behind time_behind pool (n ∷ names) h =
    step (dominates e n pool) refl h (first_dominating-chosen e behind time_behind pool names)
  where
    rest : FailoverCandidate
    rest = first_dominating e behind time_behind pool names

    step :
        (d : Option Bool)
        → dominates e n pool ≡ d
        → (settle d (elected e behind time_behind n) rest).reason ≡ none
        → (rest.reason ≡ none
            → (name : Text) × (has name names ≡ true)
              × (dominates e name pool ≡ some true)
              × (rest ≡ elected e behind time_behind name))
        → (name : Text) × (has name (n ∷ names) ≡ true)
          × (dominates e name pool ≡ some true)
          × (settle d (elected e behind time_behind n) rest ≡ elected e behind time_behind name)
    step none p r later = cc
    step (some true) p r later = (n, rw text_eq_refl, p, refl)
    step (some false) p r later = let (name, m, d, eq) = later r in (name, ground arith, d, eq)

-- The eligible ones within the lag bound, as the election computes them.
abbrev pub timely_among : Election → List (Text × ℕ) → List Text → List Text
timely_among e behind eligible =
    within_lag_bound eligible (writes_behind e.observed eligible behind e.primary_down_for)
      e.max_replication_lag

abbrev pub pool_of : Election → List (Text × ℕ) → List Text → List Text
pool_of e behind candidates =
    timely_among e behind (within_bound candidates behind e.max_transactions_behind)

record IsChosen (e : Election) (behind : List (Text × ℕ)) (pool : List Text) (c : FailoverCandidate)
    : Type 0 where
  in_pool : has c.name pool ≡ true
  dominating :
      (other : Text) → has other pool ≡ true → text_eq c.name other ≡ false → Covers e c.name other
  count : c.transactions_behind ≡ get 0 c.name behind
  loss : c.time_behind ≡ loss_of e behind c.name

conjuncts : (a b : Bool) → (a && b) ≡ true → (a ≡ true) × (b ≡ true)
conjuncts true true h = (refl, refl)
conjuncts true false h = cc
conjuncts false b h = cc

elect_within_lag-IsChosen :
    (e : Election) (behind : List (Text × ℕ)) (eligible pool : List Text)
    → ((name : Text) → has name pool ≡ true → has name eligible ≡ true)
    → (elect_within_lag e behind
        (writes_behind e.observed eligible behind e.primary_down_for)
        eligible
        pool).reason
      ≡ none
    → IsChosen e behind pool (
        elect_within_lag e behind
          (writes_behind e.observed eligible behind e.primary_down_for)
          eligible
          pool)
unfolding elect_within_lag
elect_within_lag-IsChosen e behind eligible [] sub h = cc
elect_within_lag-IsChosen e behind eligible (p ∷ pool) sub h =
    let (name, m, d, eq) =
      first_dominating-chosen e behind _ (ordered e (p ∷ pool)) (ordered e (p ∷ pool)) h in
    let inside = sym (ordered-has e name (p ∷ pool)) ∙ m in
    subst (IsChosen e behind (p ∷ pool)) (sym eq) (record {
      in_pool = inside;
      dominating =
          λ other o n. dominates-Covers e name _ other d (ordered-has e other (p ∷ pool) ∙ o) n;
      count = refl;
      loss = get-writes_behind e.observed eligible behind e.primary_down_for name (sub name inside);
    })

elect_within_bound-IsChosen :
    (e : Election) (behind : List (Text × ℕ)) (first : Text) (names eligible : List Text)
    → (elect_within_bound e behind first names eligible).reason ≡ none
    → IsChosen e behind
        (timely_among e behind eligible)
        (elect_within_bound e behind first names eligible)
unfolding elect_within_bound
elect_within_bound-IsChosen e behind first names [] h = cc
elect_within_bound-IsChosen e behind first names (n ∷ eligible) h =
    elect_within_lag-IsChosen e behind (n ∷ eligible) _
      (λ name m.
        (conjuncts _ _
          (sym (within_lag_bound-has (n ∷ eligible) _ e.max_replication_lag name) ∙ m)).0)
      h

-- The outcome has a choice that the counts justify.
abbrev HasChoice : Election → List Text → Option (List (Text × ℕ)) → FailoverCandidate → Type 0
HasChoice e candidates counts c =
    (behind : List (Text × ℕ)) × (counts ≡ some behind)
    × IsChosen e behind (pool_of e behind candidates) c

elect_measured-IsChosen :
    (e : Election) (n : Text) (names : List Text) (counts : Option (List (Text × ℕ)))
    → (elect_measured e n names counts).reason ≡ none
    → HasChoice e (n ∷ names) counts (elect_measured e n names counts)
unfolding elect_measured
elect_measured-IsChosen e n names none h = cc
elect_measured-IsChosen e n names (some behind) h =
    (behind, refl, elect_within_bound-IsChosen e behind n names _ h)

elect_among-IsChosen :
    (e : Election) (candidates : List Text) (k : ℕ)
    → (elect_among e candidates k).reason ≡ none
    → HasChoice e candidates
        (transactions_behind e.observed e.gtid candidates e.reference_gtid)
        (elect_among e candidates k)
unfolding elect_among
elect_among-IsChosen e [] k h = cc
elect_among-IsChosen e (n ∷ names) k h = elect_measured-IsChosen e n names _ h

-- The instances of the pool are those within both bounds.
pub pool_of-IsWithinBounds :
    (e : Election) (behind : List (Text × ℕ)) (name : Text)
    → (has name (pool_of e behind (candidates_of e)) ≡ true) ↔ IsWithinBounds e behind name
pool_of-IsWithinBounds e behind name = (there, back)
  where
    eligible : List Text
    eligible = within_bound (candidates_of e) behind e.max_transactions_behind

    there : has name (pool_of e behind (candidates_of e)) ≡ true → IsWithinBounds e behind name
    there m =
        let (inside, t) =
          conjuncts _ _ (sym (within_lag_bound-has eligible _ e.max_replication_lag name) ∙ m) in
        let (candidate, a) = conjuncts _ _ (
          sym (within_bound-has (candidates_of e) behind e.max_transactions_behind name)
          ∙ inside) in
        record {
          electable = (gather-IsElectable e name).0 candidate;
          admitted = a;
          timely =
              rw (get-writes_behind e.observed eligible behind e.primary_down_for name inside) at t;
        }

    back : IsWithinBounds e behind name → has name (pool_of e behind (candidates_of e)) ≡ true
    back w =
        within_lag_bound-has eligible _ e.max_replication_lag name
        ∙ rw (
          within_bound-has (candidates_of e) behind e.max_transactions_behind name,
          (gather-IsElectable e name).1 w.electable,
          w.admitted,
          get-writes_behind e.observed eligible behind e.primary_down_for name inside,
          w.timely,
        )
      where
        inside : has name eligible ≡ true
        inside =
            within_bound-has (candidates_of e) behind e.max_transactions_behind name
            ∙ rw ((gather-IsElectable e name).1 w.electable, w.admitted)

-- What an election promises of the instance it names: it is a candidate within both bounds, the counts reported are
-- its own, and it has executed all that any other candidate within the bounds has.
pub record IsSafe (e : Election) (c : FailoverCandidate) : Type 0 where
  pub behind : List (Text × ℕ)
  pub counted : counts_of e ≡ some behind
  pub bounded : IsWithinBounds e behind c.name
  pub count : c.transactions_behind ≡ get 0 c.name behind
  pub loss : c.time_behind ≡ loss_of e behind c.name
  pub dominating :
      (other : Text)
      → IsWithinBounds e behind other
      → text_eq c.name other ≡ false
      → Covers e c.name other

-- Whenever an election gives no reason for refusing, the instance it names is safe: an electable replica within
-- both bounds, with its own counts, that covers every other candidate within the bounds.
pub select-IsSafe :
    (e : Election)
    → (select_failover_candidate e).reason ≡ none
    → IsSafe e (select_failover_candidate e)
unfolding select_failover_candidate
select-IsSafe e h =
    let (behind, counted, chosen) = elect_among-IsChosen e (candidates_of e) _ h in
    record {
      behind = behind;
      counted = counted;
      bounded = (pool_of-IsWithinBounds e behind _).0 chosen.in_pool;
      count = chosen.count;
      loss = chosen.loss;
      dominating =
          λ other w n. chosen.dominating other ((pool_of-IsWithinBounds e behind other).1 w) n;
    }
