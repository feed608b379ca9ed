-- ===== src/Failover/Policy.antt =====
-- internal/controller/topology/failover_policy.go, with the getters of api/v1alpha1/cluster_funcs.go that it calls.
-- A time is a number of nanoseconds after the zero time, a duration an int64 bit pattern. The clock is read once, `now`.
pub mod Cooldown
pub mod Targets
use cnmsql.Base.{
  ℕ, zero, ◌+◌, ◌-◌, min, Bool, true, false, not, ◌&&◌, ◌||◌, ◌==◌, if◌then◌else◌, List, [], ◌∷◌,
  ◌++◌, Option, none, some, Text, text_eq, text_Eq, is_empty, lookup, ltb, leb,
}
use cnmsql.Base.Int64.{le64, max_int64}
use cnmsql.Failover.{FailoverInstance, FailoverState, has}

pub record FailoverPolicy : Type 0 where
  pub max_transactions_behind : Option ℕ
  pub max_replication_lag : Option ℕ
  pub preferred_primary : List Text
  pub min_time_between_failovers : Option ℕ
  pub primary_stability_window : Option ℕ

-- The fields of a Cluster that the policy reads.
pub record Cluster : Type 0 where
  pub failover_policy : Option FailoverPolicy
  pub current_primary : Text
  pub target_primary : Text
  pub diverged_instances : List Text
  pub last_failover_timestamp : Option ℕ
  pub primary_healthy_since : Option ℕ
  pub current_primary_timestamp : Option ℕ

abbrev or_zero : Option ℕ → ℕ
or_zero none = 0
or_zero (some d) = d

abbrev pub preferred_primary : Option FailoverPolicy → List Text
preferred_primary none = []
preferred_primary (some policy) = policy.preferred_primary

-- `nil` is no bound.
abbrev pub max_transactions_behind : Option FailoverPolicy → Option ℕ
max_transactions_behind none = none
max_transactions_behind (some policy) = policy.max_transactions_behind

abbrev pub max_replication_lag : Option FailoverPolicy → Option ℕ
max_replication_lag none = none
max_replication_lag (some policy) = policy.max_replication_lag

abbrev pub min_time_between_failovers : Option FailoverPolicy → ℕ
min_time_between_failovers none = 0
min_time_between_failovers (some policy) = or_zero policy.min_time_between_failovers

abbrev pub primary_stability_window : Option FailoverPolicy → ℕ
primary_stability_window none = 0
primary_stability_window (some policy) = or_zero policy.primary_stability_window

-- The later of the stamp and the election, the zero time without a stamp.
abbrev pub healthy_since : Option ℕ → Option ℕ → ℕ
healthy_since none elected = 0
healthy_since (some since) none = since
healthy_since (some since) (some elected) = if ltb since elected then elected else since

unfoldable pub primary_healthy_since : Cluster → ℕ
primary_healthy_since cluster =
    healthy_since cluster.primary_healthy_since cluster.current_primary_timestamp

abbrev pub settled_at : ℕ → ℕ → ℕ → ℕ
settled_at settled window healthy =
    if le64 window 0
    then settled
    else if not (healthy == 0) && ltb settled (healthy + window)
    then healthy + window
    else settled

unfoldable pub primary_settled_at : Cluster → ℕ
unfolding primary_healthy_since
primary_settled_at cluster =
    settled_at (or_zero cluster.last_failover_timestamp)
      (primary_stability_window cluster.failover_policy) (primary_healthy_since cluster)

-- `max(time.Until(t), 0)`: a difference of times stops at the largest duration.
abbrev pub until : ℕ → ℕ → ℕ
until now t = min max_int64 (t - now)

abbrev pub remaining_of : ℕ → ℕ → ℕ → ℕ
remaining_of now cooldown settled =
    if le64 cooldown 0 || settled == 0 then 0 else until now (settled + cooldown)

unfoldable pub failover_cooldown_remaining : ℕ → Cluster → ℕ
unfolding primary_settled_at
failover_cooldown_remaining now cluster =
    remaining_of now (min_time_between_failovers cluster.failover_policy)
      (primary_settled_at cluster)

abbrev pub is_serving_primary : Option FailoverInstance → Bool
is_serving_primary none = false
is_serving_primary (some status) = status.ready && status.primary

unfoldable pub primary_movable : ℕ → Cluster → FailoverState → Bool
unfolding failover_cooldown_remaining
primary_movable now cluster observed =
    let current = cluster.current_primary in
    if is_empty current || is_empty observed.primary_name
    then false
    else if not (is_empty cluster.target_primary) && not (text_eq cluster.target_primary current)
    then false
    else if not (is_serving_primary (lookup current observed.instances))
    then false
    else if has current observed.terminating
    then false
    else not (ltb 0 (failover_cooldown_remaining now cluster))

unfoldable pub candidate_eligible : Cluster → FailoverState → Text → Bool
candidate_eligible cluster observed name =
    not (has name observed.fenced)
    && not (has name observed.diverged)
    && not (has name cluster.diverged_instances)
    && not (has name observed.terminating)

-- The walk of `PreferredFailbackTarget`; "" is no target.
unfoldable pub walk_preferred : Cluster → FailoverState → (Text → Bool) → List Text → Text
unfolding candidate_eligible
walk_preferred cluster observed promotable [] = []
walk_preferred cluster observed promotable (name ∷ preferred) =
    let rest = walk_preferred cluster observed promotable preferred in
    if text_eq name cluster.current_primary
    then []
    else if candidate_eligible cluster observed name && promotable name
    then name
    else rest

unfoldable pub preferred_failback_target : ℕ → Cluster → FailoverState → (Text → Bool) → Text
unfolding primary_movable walk_preferred
preferred_failback_target now cluster observed promotable =
    let preferred = preferred_primary cluster.failover_policy in
    if is_empty preferred || not (primary_movable now cluster observed)
    then []
    else walk_preferred cluster observed promotable preferred

-- The instances that the preference does not name follow those that it does.
unfoldable pub append_missing : List Text → List Text → List Text
append_missing candidates [] = candidates
append_missing candidates (name ∷ names) =
    append_missing (if has name candidates then candidates else candidates ++ name ∷ []) names

unfoldable pub walk_in_range :
    Cluster → FailoverState → (Text → Bool) → (Text → Bool) → List Text → Text
unfolding candidate_eligible
walk_in_range cluster observed in_range promotable [] = []
walk_in_range cluster observed in_range promotable (name ∷ candidates) =
    let rest = walk_in_range cluster observed in_range promotable candidates in
    if text_eq name cluster.current_primary
      || not (in_range name)
      || not (candidate_eligible cluster observed name)
    then rest
    else if promotable name
    then name
    else rest

unfoldable pub in_range_switchover_target :
    ℕ → Cluster → FailoverState → (Text → Bool) → (Text → Bool) → Text
unfolding append_missing walk_in_range primary_movable
in_range_switchover_target now cluster observed in_range promotable =
    let current = cluster.current_primary in
    if is_empty current || in_range current || not (primary_movable now cluster observed)
    then []
    else walk_in_range cluster observed in_range promotable
        (append_missing (preferred_primary cluster.failover_policy) observed.instance_names)
