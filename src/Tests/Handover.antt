-- ===== src/Tests/Handover.antt =====
-- The primary change: internal/controller/async.
use cnmsql.Base.{
  ℕ, ◌+◌, ◌≤◌, ◌≡◌, ◌⊎◌, refl, sym, ap, arith, text_Eq, true, false, [], ◌∷◌, Option, none, some,
  Text, codes, text_eq, lookup, insert, sort,
}
use cnmsql.Base.Int64.{lt64, le64, sub64, add64, max64}
use cnmsql.Base.Split.{split, strip_spaces}
use cnmsql.Base.Decimal.{parse_uint32, parse_uint64, format_uint}
use cnmsql.Engine.Mariadb.{
  mariadb_gtid, mariadb_contains, mariadb_missing_count, mariadb_union, contains, missing_loop,
  merge, string, union_positions, parse_maria_pos, add_saturating,
}
use cnmsql.Failover.{FailoverInstance, FailoverState}
use cnmsql.Failover.Policy.{failover_cooldown_remaining}
use cnmsql.Failover.Measure.{transactions_behind, within_bound, writes_behind, within_lag_bound}
use cnmsql.Failover.Order.{order_by_preference, order_by_archive_continuity}
use cnmsql.Failover.Select.{select_failover_candidate}
use cnmsql.Handover.{
  Spec, Status, ready, nothing, Fetched, fetched, not_found, fetch_failed, deleted, Api, ok, Pass,
}
use cnmsql.Handover.Election.{disowned_set}
use cnmsql.Handover.Guards.{
  primary_healthy, target_holds_promotion_lease, switchover_in_flight, record_primary_failing,
  has_observed_replica, primary_lease_status, patch_cluster_status, fence_instance_pod,
  validate_switchover_target, switchover_overdue, is_fit_primary, ensure_switchover_started,
}
use cnmsql.Handover.Inversion.{settles}
use cnmsql.Handover.Failover.{FailoverRequest, grace, reconcile_failover}
use cnmsql.Handover.Failover.Safety.{IsPromotion, reconcile_failover-IsPromotion}
use cnmsql.Handover.Failover.Spacing.{HasFailedOver, reconcile_failover-spaced}
use cnmsql.Handover.Deferral.{in_flight-overdue}
use cnmsql.Handover.Switchover.{reconcile_switchover, reconcile_drain_switchover}
use cnmsql.Handover.Switchover.Abort.{HasUndone, reconcile_switchover-HasUndone}
use cnmsql.Handover.Switchover.Drain.{IsMovedAway, reconcile_drain_switchover-IsMovedAway}

abbrev instance_at : FailoverInstance
instance_at = record {
  ready = true;
  primary = false;
  replica = true;
  role = codes "replica";
  io_running = true;
  sql_running = true;
  gtid = codes "0-1-9";
  retrieved_gtid = [];
  gtid_purged = [];
  heartbeat_age = some 7;
  in_place_upgrading = false;
}

-- A primary "p" that does not answer, and a replica "b".
abbrev lost_primary : FailoverState
lost_primary = record {
  primary_name = codes "p";
  instance_names = codes "p" ∷ codes "b" ∷ [];
  instances = (codes "b", instance_at) ∷ [];
  fenced = [];
  diverged = [];
  terminating = [];
}

-- The same with the primary on its way out.
abbrev draining_primary : FailoverState
draining_primary = record {
  primary_name = codes "p";
  instance_names = codes "p" ∷ codes "b" ∷ [];
  instances =
      (codes "p", record instance_at { primary = true; replica = false })
      ∷ (codes "b", instance_at)
      ∷ [];
  fenced = [];
  diverged = [];
  terminating = codes "p" ∷ [];
}

abbrev spec : Spec
spec = record {
  flavor = codes "mariadb";
  failover_policy = none;
  max_switchover_delay = 3;
  failover_delay = 5;
  enable_failover = none;
  enable_primary_lease = none;
  enable_switchover_on_drain = none;
  in_place_instance_manager_updates = false;
  continuous_archiving = none;
  has_backup_object_store = false;
}

abbrev status : Text → Status
status target = record {
  current_primary = codes "p";
  target_primary = target;
  current_primary_timestamp = some 1;
  target_primary_timestamp = some 2000000000;
  diverged_instances = [];
  fenced_instances = [];
  primary_failing_since = some 4000000000;
  primary_healthy_since = none;
  last_failover_timestamp = none;
  gtid_executed_by_instance = (codes "p", codes "0-1-9") ∷ [];
  executable_hash_by_instance = [];
  covered_gtid_set = none;
  phase = ready;
  phase_reason = nothing;
}

-- The state of the objects is the status; every Pod runs, and no lease is taken.
abbrev api : Api Status
api = record {
  get_lease = λ w. not_found;
  get_pod = λ w name. fetched (record { deletion_timestamp = none; fencing = [] });
  delete_pod = λ w name. (w, deleted);
  get_status = λ w. fetched w;
  patch_status = λ w before after. (after, none);
}

abbrev pass_to : Text → Pass Status
pass_to target = record { world = status target; status = status target }

abbrev request : FailoverRequest
request = record {
  instances = 2;
  observed = lost_primary;
  provisioning_retry = 10;
  disowned_gtids = [];
}

abbrev now : ℕ
now = 10000000000

promoted : settles (reconcile_failover api now spec [] request (pass_to (codes "p"))).1 ≡ true
unfolding reconcile_failover primary_healthy target_holds_promotion_lease switchover_in_flight
    record_primary_failing grace failover_cooldown_remaining disowned_set has_observed_replica
    primary_lease_status patch_cluster_status fence_instance_pod select_failover_candidate
    mariadb_gtid mariadb_contains mariadb_missing_count mariadb_union contains missing_loop merge
    string union_positions parse_maria_pos strip_spaces split parse_uint32 parse_uint64 format_uint
    insert lookup text_eq sort lt64 le64 sub64 add64 max64 transactions_behind within_bound
    writes_behind within_lag_bound order_by_preference order_by_archive_continuity add_saturating
promoted = refl

reconcile_failover-IsPromotion_example :
    IsPromotion api now spec [] request
      (pass_to (codes "p"))
      (reconcile_failover api now spec [] request (pass_to (codes "p"))).0.status
reconcile_failover-IsPromotion_example =
    reconcile_failover-IsPromotion api now spec [] request (pass_to (codes "p")) promoted

undone : settles (reconcile_switchover api now spec lost_primary (pass_to (codes "b"))).1 ≡ true
unfolding reconcile_switchover text_eq validate_switchover_target lookup ensure_switchover_started
    fence_instance_pod
undone = refl

reconcile_switchover-HasUndone_example :
    HasUndone api now spec lost_primary
      (codes "p")
      (codes "b")
      (pass_to (codes "b"))
      (reconcile_switchover api now spec lost_primary (pass_to (codes "b"))).0.status
reconcile_switchover-HasUndone_example =
    reconcile_switchover-HasUndone api now spec lost_primary (pass_to (codes "b")) undone

drained :
    settles (reconcile_drain_switchover api now spec draining_primary [] (pass_to [])).1 ≡ true
unfolding reconcile_drain_switchover primary_healthy disowned_set patch_cluster_status
    select_failover_candidate mariadb_gtid mariadb_contains mariadb_missing_count mariadb_union
    contains missing_loop merge string union_positions parse_maria_pos strip_spaces split
    parse_uint32 parse_uint64 format_uint insert lookup text_eq sort lt64 le64 sub64 add64 max64
    transactions_behind within_bound writes_behind within_lag_bound order_by_preference
    order_by_archive_continuity add_saturating
drained = refl

reconcile_drain_switchover-IsMovedAway_example :
    IsMovedAway api now spec draining_primary []
      (pass_to [])
      (reconcile_drain_switchover api now spec draining_primary [] (pass_to [])).0.status
reconcile_drain_switchover-IsMovedAway_example =
    reconcile_drain_switchover-IsMovedAway api now spec draining_primary [] (pass_to []) drained

abbrev spaced_spec : Spec
spaced_spec = record spec {
  failover_policy = some (record {
    max_transactions_behind = none;
    max_replication_lag = none;
    preferred_primary = [];
    min_time_between_failovers = some 3000000000;
    primary_stability_window = none;
  });
}

-- The object and the pass's copy of it record a failover at one second.
abbrev spaced_pass : Pass Status
spaced_pass = record {
  world = record (status (codes "p")) { last_failover_timestamp = some 1000000000 };
  status = record (status (codes "p")) { last_failover_timestamp = some 1000000000 };
}

spaced-HasFailedOver : HasFailedOver api now spaced_spec [] request 1000000000 spaced_pass
spaced-HasFailedOver = record { own = refl; served = λ s e. ap stamp_of (sym e) }
  where
    stamp_of : Fetched Status → Option ℕ
    stamp_of (fetched s) = s.last_failover_timestamp
    stamp_of not_found = none
    stamp_of (fetch_failed m) = none

spaced_promoted : settles (reconcile_failover api now spaced_spec [] request spaced_pass).1 ≡ true
unfolding reconcile_failover primary_healthy target_holds_promotion_lease switchover_in_flight
    record_primary_failing grace failover_cooldown_remaining disowned_set has_observed_replica
    primary_lease_status patch_cluster_status fence_instance_pod select_failover_candidate
    mariadb_gtid mariadb_contains mariadb_missing_count mariadb_union contains missing_loop merge
    string union_positions parse_maria_pos strip_spaces split parse_uint32 parse_uint64 format_uint
    insert lookup text_eq sort lt64 le64 sub64 add64 max64 transactions_behind within_bound
    writes_behind within_lag_bound order_by_preference order_by_archive_continuity add_saturating
spaced_promoted = refl

reconcile_failover-spaced_example : 1000000000 + 3000000000 ≤ now
reconcile_failover-spaced_example =
    reconcile_failover-spaced api now spaced_spec [] request 1000000000 spaced_pass
      spaced-HasFailedOver (omega arith, omega arith) (omega arith) spaced_promoted

in_flight : switchover_in_flight now spec (status (codes "b")) lost_primary [] false ≡ true
unfolding switchover_in_flight validate_switchover_target lookup text_eq
in_flight = refl

overdue : switchover_overdue now spec (status (codes "b")) ≡ true
unfolding switchover_overdue
overdue = refl

asked :
    target_holds_promotion_lease api now spec [] (pass_to (codes "b"))
    ≡ (pass_to (codes "b"), ok false)
unfolding target_holds_promotion_lease text_eq primary_lease_status
asked = refl

in_flight-overdue_example :
    (validate_switchover_target lost_primary (codes "b") ≡ none)
    ⊎ (is_fit_primary (lookup (codes "b") lost_primary.instances) ≡ true)
in_flight-overdue_example =
    in_flight-overdue api now spec lost_primary [] (pass_to (codes "b")) (pass_to (codes "b")) false
      overdue asked in_flight
