-- ===== src/Failover/Select.antt =====
-- SelectFailoverCandidate of internal/controller/async/cluster_failover.go, and holdsDisowned of
-- internal/controller/async/cluster_observation.go.
pub mod Candidates
pub mod Safety
pub mod Liveness
pub mod Refusal
use cnmsql.Base.{
  ℕ, zero, suc, Bool, true, false, not, ◌||◌, if◌then◌else◌, List, [], ◌∷◌, Option, none, some,
  Text, text_eq, text_Eq, is_empty, lookup, ltb,
}
use cnmsql.Engine.{GtidModel}
use cnmsql.Failover.{
  Election, FailoverCandidate, FailoverInstance, FailoverState, Reason, get, has, no_instance,
}
use cnmsql.Failover.Measure.{
  transactions_behind, within_bound, closest_of, writes_behind, within_lag_bound, lag_block_reason,
}
use cnmsql.Failover.Order.{order_by_preference, order_by_archive_continuity}
use cnmsql.Gtid.Parse.{parse_gtid_set, ◌>>=◌}
use cnmsql.Gtid.Set
use cnmsql.Gtid.Set.{GtidSet}

-- Whether one set, if it can be read, meets the disowned transactions.
meets : GtidSet → Option GtidSet → Bool
meets disowned none = false
meets disowned (some set) = not (Set.has_no_transactions (Set.intersect set disowned))

unfoldable pub holds_disowned : GtidSet → List Text → Bool
unfolding meets
holds_disowned disowned [] = false
holds_disowned disowned (raw ∷ sets) =
    meets disowned (parse_gtid_set raw) || holds_disowned disowned sets

abbrev pub is_disowned : Option GtidSet → FailoverInstance → Bool
is_disowned none status = false
is_disowned (some set) status = holds_disowned set (status.gtid ∷ status.retrieved_gtid ∷ [])

-- What the loop over the instances does with one of them.
pub data Standing : Type 0 where
  passed_over skipped_as_diverged candidate : Standing

abbrev pub standing_of_status : Election → Option FailoverInstance → Standing
standing_of_status e none = Standing.passed_over
standing_of_status e (some status) =
    if not status.replica || not status.sql_running || is_empty status.gtid
    then Standing.passed_over
    else if is_disowned e.disowned status
    then Standing.skipped_as_diverged
    else Standing.candidate

unfoldable pub standing : Election → Text → Standing
standing e name =
    if text_eq name e.observed.primary_name || has name e.observed.fenced
    then Standing.passed_over
    else if has name e.known_diverged
    then Standing.skipped_as_diverged
    else standing_of_status e (lookup name e.observed.instances)

abbrev pub count_standing : Standing → Text → List Text × ℕ → List Text × ℕ
count_standing Standing.passed_over name rest = rest
count_standing Standing.skipped_as_diverged name rest = (rest.0, suc rest.1)
count_standing Standing.candidate name rest = (name ∷ rest.0, rest.1)

-- The candidates, and how many instances were skipped as diverged.
unfoldable pub gather : Election → List Text → List Text × ℕ
unfolding standing
gather e [] = ([], 0)
gather e (name ∷ names) = count_standing (standing e name) name (gather e names)

abbrev pub refuse : ℕ → Reason → FailoverCandidate
refuse behind reason = record {
  name = [];
  transactions_behind = behind;
  time_behind = none;
  reason = some reason;
}

-- `none` is an error of the comparison.
unfoldable pub dominates : Election → Text → List Text → Option Bool
dominates e name [] = some true
dominates e name (other ∷ others) =
    let rest = dominates e name others in
    if text_eq name other
    then rest
    else ((e.gtid).contains (get no_instance name e.observed.instances).gtid
          (get no_instance other e.observed.instances).gtid
        >>= λ contained. if contained then rest else some false)

abbrev pub settle : Option Bool → FailoverCandidate → FailoverCandidate → FailoverCandidate
settle none chosen otherwise = refuse 0 Reason.comparing_failed
settle (some true) chosen otherwise = chosen
settle (some false) chosen otherwise = otherwise

unfoldable pub first_dominating :
    Election → List (Text × ℕ) → List (Text × Option ℕ) → List Text → List Text → FailoverCandidate
unfolding dominates
first_dominating e behind time_behind pool [] = refuse 0 Reason.no_candidate_dominates
first_dominating e behind time_behind pool (name ∷ names) =
    settle (dominates e name pool)
      (record {
        name = name;
        transactions_behind = get 0 name behind;
        time_behind = get none name time_behind;
        reason = none;
      })
      (first_dominating e behind time_behind pool names)

abbrev pub ordered : Election → List Text → List Text
ordered e eligible =
    order_by_archive_continuity (order_by_preference eligible e.preferred) e.preferred e.observed
      e.archive_covered

unfoldable pub elect_within_lag :
    Election → List (Text × ℕ) → List (Text × Option ℕ) → List Text → List Text → FailoverCandidate
unfolding first_dominating
elect_within_lag e behind time_behind eligible [] =
    refuse 0 (lag_block_reason eligible time_behind e.max_replication_lag)
elect_within_lag e behind time_behind eligible (name ∷ names) =
    first_dominating e behind time_behind (ordered e (name ∷ names)) (ordered e (name ∷ names))

unfoldable pub elect_within_bound :
    Election → List (Text × ℕ) → Text → List Text → List Text → FailoverCandidate
unfolding elect_within_lag
elect_within_bound e behind first candidates [] =
    let closest = closest_of behind first candidates in
    refuse (get 0 closest behind)
      (Reason.too_many_transactions_behind closest (get 0 closest behind) e.max_transactions_behind)
elect_within_bound e behind first candidates (name ∷ names) =
    let time_behind = writes_behind e.observed (name ∷ names) behind e.primary_down_for in
    elect_within_lag e behind time_behind (name ∷ names)
      (within_lag_bound (name ∷ names) time_behind e.max_replication_lag)

unfoldable pub elect_measured :
    Election → Text → List Text → Option (List (Text × ℕ)) → FailoverCandidate
unfolding elect_within_bound
elect_measured e first candidates none = refuse 0 Reason.measuring_failed
elect_measured e first candidates (some behind) =
    elect_within_bound e behind first candidates
      (within_bound (first ∷ candidates) behind e.max_transactions_behind)

unfoldable pub elect_among : Election → List Text → ℕ → FailoverCandidate
unfolding elect_measured
elect_among e [] diverged_skipped =
    refuse 0
      (if ltb 0 diverged_skipped then Reason.every_replica_diverged else Reason.no_healthy_replica)
elect_among e (name ∷ names) diverged_skipped =
    elect_measured e name names
      (transactions_behind e.observed e.gtid (name ∷ names) e.reference_gtid)

unfoldable pub select_failover_candidate : Election → FailoverCandidate
unfolding elect_among gather
select_failover_candidate e =
    let found = gather e e.observed.instance_names in elect_among e found.0 found.1
