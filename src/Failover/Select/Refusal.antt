-- ===== src/Failover/Select/Refusal.antt =====
-- An election names an instance, or gives its reason for refusing.
use cnmsql.Base.{
  ℕ, ◌≡◌, refl, ap, ◌⊎◌, inl, inr, Bool, true, false, List, [], ◌∷◌, Option, none, some, Text,
  is_empty,
}
use cnmsql.Failover.{Election, FailoverCandidate}
use cnmsql.Failover.Select.{
  select_failover_candidate, elect_among, elect_measured, elect_within_bound, elect_within_lag,
  first_dominating, settle,
}

-- An election that gives a reason names no instance.
abbrev IsDecided : FailoverCandidate → Type 0
IsDecided c = (c.reason ≡ none) ⊎ (c.name ≡ [])

settle-IsDecided :
    (o : Option Bool) (chosen otherwise : FailoverCandidate)
    → chosen.reason ≡ none
    → IsDecided otherwise
    → IsDecided (settle o chosen otherwise)
settle-IsDecided none chosen otherwise e h = inr refl
settle-IsDecided (some true) chosen otherwise e h = inl e
settle-IsDecided (some false) chosen otherwise e h = h

first_dominating-IsDecided :
    (e : Election) (behind : List (Text × ℕ)) (time_behind : List (Text × Option ℕ))
    (pool names : List Text)
    → IsDecided (first_dominating e behind time_behind pool names)
unfolding first_dominating
first_dominating-IsDecided e behind time_behind pool [] = inr refl
first_dominating-IsDecided e behind time_behind pool (name ∷ names) =
    settle-IsDecided _ _ _ refl (first_dominating-IsDecided e behind time_behind pool names)

within_lag-IsDecided :
    (e : Election) (behind : List (Text × ℕ)) (time_behind : List (Text × Option ℕ))
    (eligible timely : List Text)
    → IsDecided (elect_within_lag e behind time_behind eligible timely)
unfolding elect_within_lag
within_lag-IsDecided e behind time_behind eligible [] = inr refl
within_lag-IsDecided e behind time_behind eligible (name ∷ names) =
    first_dominating-IsDecided e behind time_behind _ _

within_bound-IsDecided :
    (e : Election) (behind : List (Text × ℕ)) (first : Text) (candidates eligible : List Text)
    → IsDecided (elect_within_bound e behind first candidates eligible)
unfolding elect_within_bound
within_bound-IsDecided e behind first candidates [] = inr refl
within_bound-IsDecided e behind first candidates (name ∷ names) =
    within_lag-IsDecided e behind _ _ _

measured-IsDecided :
    (e : Election) (first : Text) (candidates : List Text) (behind : Option (List (Text × ℕ)))
    → IsDecided (elect_measured e first candidates behind)
unfolding elect_measured
measured-IsDecided e first candidates none = inr refl
measured-IsDecided e first candidates (some behind) =
    within_bound-IsDecided e behind first candidates _

among-IsDecided :
    (e : Election) (candidates : List Text) (skipped : ℕ)
    → IsDecided (elect_among e candidates skipped)
unfolding elect_among
among-IsDecided e [] skipped = inr refl
among-IsDecided e (first ∷ candidates) skipped = measured-IsDecided e first candidates _

-- An election that names an instance gives no reason for refusing.
pub named-reason :
    (e : Election)
    → is_empty (select_failover_candidate e).name ≡ false
    → (select_failover_candidate e).reason ≡ none
unfolding select_failover_candidate
named-reason e h = elim (among-IsDecided e _ _) [
  | inl r ↦ r
  | inr n ↦ absurd (named_empty (ap is_empty n) h)
]
  where
    named_empty : {b : Bool} → b ≡ true → b ≡ false → ⊥
    named_empty t f = cc
