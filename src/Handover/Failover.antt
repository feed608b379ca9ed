-- ===== src/Handover/Failover.antt =====
-- ReconcileFailover of internal/controller/async/cluster_failover.go.
pub mod Promotion
pub mod Safety
pub mod Spacing
use cnmsql.Base.{
  ℕ, ◌+◌, ◌-◌, ◌*◌, max, Bool, true, false, not, ◌&&◌, ◌||◌, if◌then◌else◌, List, [], ◌++◌, Option,
  none, some, Text, codes, text_eq, text_Eq, is_empty, lookup, ltb,
}
use cnmsql.Base.Int64.{sub64}
use cnmsql.Engine.{GtidModel}
use cnmsql.Failover.{Election, FailoverCandidate, FailoverInstance, FailoverState, get, has}
use cnmsql.Failover.Policy.{
  failover_cooldown_remaining, preferred_primary, max_transactions_behind, max_replication_lag,
  min_time_between_failovers,
}
use cnmsql.Failover.Select.{select_failover_candidate}
use cnmsql.Handover.{
  FailoverResult, no_result, phase_result, claiming, Spec, Status, Phase, blocked, degraded,
  failing_over, Message, failover_disabled, unreachable_waiting, too_recent, cannot_fail_over,
  lease_still_held, failing_over_to, policy_view, Api, Outcome, ok, err, Pass, Act, bind, ◌>>=◌,
  ◌>>◌, pure,
}
use cnmsql.Handover.Election.{gtid_model, archive_covered, disowned_set}
use cnmsql.Handover.Guards.{
  second, on_by_default, is_set, is_archiving_enabled, primary_healthy, has_observed_replica,
  switchover_in_flight, is_instance_hash_stale, primary_lease_status, target_holds_promotion_lease,
  patch_cluster_status, fence_instance_pod, record_primary_failing, record_primary_healthy,
}

pub record FailoverRequest : Type 0 where
  pub instances : ℕ
  pub observed : FailoverState
  pub provisioning_retry : ℕ
  pub disowned_gtids : Text

-- A refusal, which leaves the rest of the pass to run.
abbrev pub blocked_result : Message → FailoverResult
blocked_result reason = record {
  handled = false;
  requeue_after = 0;
  phase = some (record { phase = blocked; reason = reason; progressing = true });
}

-- A cluster that is still being provisioned has no replica to wait for.
abbrev pub without_candidate : Bool → Message → FailoverResult
without_candidate false reason = no_result
without_candidate true reason = blocked_result reason

-- The grace of a primary whose instance manager is being replaced.
abbrev pub extended : Bool → ℕ → ℕ
extended false delay = delay
extended true delay = max delay (30 * second)

abbrev pub is_upgrading : Option FailoverInstance → Bool
is_upgrading none = false
is_upgrading (some status) = status.in_place_upgrading

unfoldable pub grace : Spec → Text → Status → FailoverState → ℕ
grace spec operator_hash status observed =
    let name = observed.primary_name in
    extended (is_upgrading (lookup name observed.instances)) (
      extended
        (spec.in_place_instance_manager_updates
          && not (is_empty operator_hash)
          && is_instance_hash_stale status name operator_hash)
        (spec.failover_delay * second))

abbrev pub mark_failing_over : ℕ → Text → FailoverCandidate → Status → Status
mark_failing_over now old elected s = record s {
  target_primary = elected.name;
  target_primary_timestamp = some now;
  primary_failing_since = none;
  primary_healthy_since = none;
  last_failover_timestamp = some now;
  phase = failing_over;
  phase_reason = failing_over_to old elected.name elected.transactions_behind elected.time_behind;
}

module _ {W : Type 0} (api : Api W) (now : ℕ) (spec : Spec) (operator_hash : Text)
    (request : FailoverRequest) where
  abbrev old_primary : Text
  old_primary = request.observed.primary_name

  -- The input of the election, from the status and from when the primary has been failing.
  abbrev pub failover_election : GtidModel → List Text → ℕ → Status → Election
  failover_election gtid known_diverged since status = record {
    observed = request.observed;
    known_diverged = known_diverged;
    gtid = gtid;
    max_transactions_behind = max_transactions_behind spec.failover_policy;
    archive_covered = archive_covered spec status;
    preferred = preferred_primary spec.failover_policy;
    reference_gtid = get [] old_primary status.gtid_executed_by_instance;
    max_replication_lag = max_replication_lag spec.failover_policy;
    primary_down_for = sub64 now since;
    disowned = disowned_set spec.flavor request.disowned_gtids;
  }

  unfoldable pub record_promotion : FailoverCandidate → Act W FailoverResult
  record_promotion elected = do
    claiming (patch_cluster_status api now spec (mark_failing_over now old_primary elected))
    pure (record { handled = true; requeue_after = request.provisioning_retry; phase = none })

  unfoldable pub promote : FailoverCandidate → Act W FailoverResult
  unfolding record_promotion
  promote elected =
      claiming (fence_instance_pod api now spec old_primary) >> record_promotion elected

  unfoldable pub after_lease : FailoverCandidate → Option ℕ → Act W FailoverResult
  unfolding promote
  after_lease elected (some retry_after) =
      pure (phase_result retry_after degraded (lease_still_held old_primary))
  after_lease elected none = promote elected

  unfoldable pub after_election : FailoverCandidate → Act W FailoverResult
  unfolding after_lease
  after_election elected p =
      if is_empty elected.name
      then (
        p,
        ok (
            without_candidate (has_observed_replica request.observed)
              (cannot_fail_over old_primary elected.reason)),
      )
      else (do
        lease ← claiming (primary_lease_status api now spec old_primary)
        after_lease elected lease)
          p

  unfoldable pub with_engine : List Text → ℕ → Option GtidModel → Act W FailoverResult
  unfolding after_election
  with_engine known_diverged since none p = (p, err false spec.flavor)
  with_engine known_diverged since (some gtid) p =
      after_election
        (select_failover_candidate (failover_election gtid known_diverged since p.status)) p

  unfoldable pub after_failing : List Text → ℕ → Act W FailoverResult
  unfolding with_engine
  after_failing known_diverged since p =
      let delay = grace spec operator_hash p.status request.observed in
      let cooldown = failover_cooldown_remaining now (policy_view spec p.status) in
      if ltb now (since + delay)
      then (
        p,
        ok (
            phase_result (since + delay - now) degraded
              (unreachable_waiting old_primary (since + delay - now))),
      )
      else if ltb 0 cooldown
      then (
        p,
        ok (
            blocked_result
              (too_recent old_primary (min_time_between_failovers spec.failover_policy) cooldown)),
      )
      else with_engine known_diverged since (gtid_model spec.flavor) p

  unfoldable pub after_hold : List Text → Bool → Act W FailoverResult
  unfolding after_failing
  after_hold known_diverged holds p =
      if switchover_in_flight now spec p.status request.observed known_diverged holds
      then (p, ok no_result)
      else if not (on_by_default spec.enable_failover)
      then (p, ok (blocked_result (failover_disabled old_primary)))
      else (do
        since ← claiming (record_primary_failing api now spec)
        after_failing known_diverged since)
          p

  abbrev pub is_unacknowledged : Status → Bool
  is_unacknowledged status =
      has old_primary request.observed.fenced && not (has old_primary status.fenced_instances)

  unfoldable pub reconcile_failover : Act W FailoverResult
  unfolding after_hold
  reconcile_failover p =
      let known_diverged = request.observed.diverged ++ p.status.diverged_instances in
      if is_empty p.status.current_primary || is_empty old_primary || ltb request.instances 2
      then (p, ok no_result)
      else if primary_healthy request.observed
      then (record_primary_healthy api now spec >> pure no_result) p
      else if is_unacknowledged p.status
      then (p, ok no_result)
      else (do
        holds ← claiming (target_holds_promotion_lease api now spec known_diverged)
        after_hold known_diverged holds)
          p
