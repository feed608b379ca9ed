-- ===== src/Handover/Switchover.antt =====
-- ReconcileSwitchover and ReconcileDrainSwitchover of internal/controller/async/cluster_switchover.go.
pub mod Abort
pub mod Drain
use cnmsql.Base.{
  ℕ, Bool, true, false, not, ◌&&◌, ◌||◌, if◌then◌else◌, List, [], ◌++◌, Option, none, some, Text,
  text_eq, text_Eq, is_empty, lookup,
}
use cnmsql.Engine.{GtidModel}
use cnmsql.Failover.{Election, FailoverState, get, has, no_instance}
use cnmsql.Failover.Policy.{preferred_primary, max_transactions_behind}
use cnmsql.Failover.Select.{select_failover_candidate}
use cnmsql.Handover.{
  Spec, Status, Phase, blocked, switchover, Message, not_recorded, waiting_for_record,
  waiting_for_promotion, switching_over_to, aborted, draining, Api, Outcome, ok, err, Pass, Act,
  bind, ◌>>=◌, ◌>>◌, pure, FailoverResult, no_result, phase_result, claiming,
}
use cnmsql.Handover.Election.{gtid_model, archive_covered, disowned_set}
use cnmsql.Handover.Guards.{
  on_by_default, is_fit_primary, primary_healthy, validate_switchover_target, is_overdue,
  primary_lease_status, patch_cluster_status, fence_instance_pod, ensure_switchover_started,
}

-- A pass that claims to have been handled, with nothing to report.
abbrev pub handled_result : FailoverResult
handled_result = record { handled = true; requeue_after = 0; phase = none }

abbrev pub stopped_result : Message → FailoverResult
stopped_result reason = record {
  handled = true;
  requeue_after = 0;
  phase = some (record { phase = blocked; reason = reason; progressing = false });
}

abbrev pub mark_aborted : ℕ → Text → Text → Status → Status
mark_aborted delay current target s = record s {
  target_primary = current;
  target_primary_timestamp = none;
  phase = blocked;
  phase_reason = aborted target delay;
}

abbrev pub mark_draining : ℕ → Text → Text → Status → Status
mark_draining now current candidate s = record s {
  target_primary = candidate;
  target_primary_timestamp = some now;
  phase = switchover;
  phase_reason = draining current candidate;
}

module _ {W : Type 0} (api : Api W) (now : ℕ) (spec : Spec) (observed : FailoverState) where
  unfoldable pub record_abort : Text → Text → Act W FailoverResult
  record_abort current target =
      patch_cluster_status api now spec (mark_aborted spec.max_switchover_delay current target)
      >> pure handled_result

  unfoldable pub abort_switchover : Text → Text → Act W FailoverResult
  unfolding record_abort
  abort_switchover current target =
      claiming (fence_instance_pod api now spec target) >> record_abort current target

  -- A switchover that may still be undone: it is, once it is overdue.
  unfoldable pub unless_overdue : Text → Text → Message → ℕ → Act W FailoverResult
  unfolding abort_switchover
  unless_overdue current target waiting started p =
      if is_overdue now spec started
      then abort_switchover current target p
      else (p, ok (phase_result 0 switchover waiting))

  unfoldable pub wait_for : Text → Text → Message → Act W FailoverResult
  unfolding unless_overdue
  wait_for current target waiting =
      ensure_switchover_started api now spec >>= unless_overdue current target waiting

  -- The target took the role: this is waited for, and never undone.
  unfoldable pub unless_stuck : Text → ℕ → Act W FailoverResult
  unless_stuck target started p =
      if is_overdue now spec started
      then (p, ok (stopped_result (not_recorded target spec.max_switchover_delay)))
      else (p, ok (phase_result 0 switchover (waiting_for_record target)))

  unfoldable pub after_target_lease : Text → Text → Message → Option ℕ → Act W FailoverResult
  unfolding wait_for
  after_target_lease current target reason (some retry_after) =
      wait_for current target (waiting_for_promotion target)
  after_target_lease current target reason none = pure (stopped_result reason)

  unfoldable pub unfit : Text → Text → Message → Act W FailoverResult
  unfolding after_target_lease unless_stuck
  unfit current target reason p =
      if is_fit_primary (lookup target observed.instances)
      then (ensure_switchover_started api now spec >>= unless_stuck target) p
      else (primary_lease_status api now spec target >>= after_target_lease current target reason) p

  unfoldable pub after_validation : Text → Text → Option Message → Act W FailoverResult
  unfolding unfit
  after_validation current target none = wait_for current target (switching_over_to target)
  after_validation current target (some reason) = unfit current target reason

  unfoldable pub reconcile_switchover : Act W FailoverResult
  unfolding after_validation
  reconcile_switchover p =
      let target = p.status.target_primary in
      let current = p.status.current_primary in
      if is_empty target || text_eq target current || is_empty current
      then (p, ok no_result)
      else after_validation current target (validate_switchover_target observed target) p

  -- The primary is up, so its position is the one to measure against.
  abbrev pub drain_election : Text → GtidModel → Status → Election
  drain_election disowned_gtids gtid status = record {
    observed = observed;
    known_diverged = observed.diverged ++ status.diverged_instances;
    gtid = gtid;
    max_transactions_behind = max_transactions_behind spec.failover_policy;
    archive_covered = archive_covered spec status;
    preferred = preferred_primary spec.failover_policy;
    reference_gtid = (get no_instance status.current_primary observed.instances).gtid;
    max_replication_lag = none;
    primary_down_for = 0;
    disowned = disowned_set spec.flavor disowned_gtids;
  }

  unfoldable pub switch_to : Text → Act W FailoverResult
  switch_to candidate p =
      if is_empty candidate
      then (p, ok no_result)
      else (claiming (
              patch_cluster_status api now spec
                (mark_draining now p.status.current_primary candidate))
            >> pure handled_result)
          p

  unfoldable pub drain_with : Text → Option GtidModel → Act W FailoverResult
  unfolding switch_to
  drain_with disowned_gtids none p = (p, err false spec.flavor)
  drain_with disowned_gtids (some gtid) p =
      switch_to (select_failover_candidate (drain_election disowned_gtids gtid p.status)).name p

  -- A switchover to another instance is under way.
  abbrev pub is_moving : Status → Bool
  is_moving status =
      not (is_empty status.target_primary)
      && not (text_eq status.target_primary status.current_primary)

  -- The guards of ReconcileDrainSwitchover, in one test.
  abbrev pub is_drained : Status → Bool
  is_drained status =
      on_by_default spec.enable_switchover_on_drain
      && not (is_empty status.current_primary || is_empty observed.primary_name)
      && has status.current_primary observed.terminating
      && not (is_moving status)
      && primary_healthy observed

  unfoldable pub reconcile_drain_switchover : Text → Act W FailoverResult
  unfolding drain_with
  reconcile_drain_switchover disowned_gtids p =
      if not (is_drained p.status)
      then (p, ok no_result)
      else drain_with disowned_gtids (gtid_model spec.flavor) p
