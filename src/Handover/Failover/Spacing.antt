-- ===== src/Handover/Failover/Spacing.antt =====
-- How far apart ReconcileFailover moves the primary role.
use mathlib.Core.Path.{subst}
use cnmsql.Base.{ℕ, ◌+◌, ◌≤◌, ◌≡◌, refl, sym, ap, ◌∙◌, true, Option, none, some, Text}
use cnmsql.Failover.Policy.{min_time_between_failovers}
use cnmsql.Failover.Policy.Cooldown.{IsPositive, cooldown-promoted}
use cnmsql.Handover.{Spec, Status, policy_view, fetched, Api, Outcome, ok, err, Pass, Act, bind}
use cnmsql.Handover.Deferral.{target_holds-overdue}
use cnmsql.Handover.Guards.{patch_cluster_status, or_stamp, record_primary_failing, this_second}
use cnmsql.Handover.Inversion.{settles, patch_recorded}
use cnmsql.Handover.Failover.{FailoverRequest, reconcile_failover}
use cnmsql.Handover.Failover.Safety.{reconcile_failover-IsPromotion}

module _ {W : Type 0} (api : Api W) (now : ℕ) (spec : Spec) (operator_hash : Text)
    (request : FailoverRequest) where
  -- The pass's own status, and the one that the API serves as the pass begins, have their last failover at `t`.
  pub record HasFailedOver (t : ℕ) (p : Pass W) : Type 0 where
    pub own : p.status.last_failover_timestamp ≡ some t
    pub served :
        (s : Status) → api.get_status p.world ≡ fetched s → s.last_failover_timestamp ≡ some t

  abbrev stamp : Act W (Unit {0})
  stamp =
      patch_cluster_status api now spec
        (λ s. record s { primary_failing_since = some (this_second api now spec) })

  stamped :
      (t : ℕ) (p at : Pass W) {since : ℕ} (m : Pass W × Outcome (Unit {0}))
      → HasFailedOver t p
      → stamp p ≡ m
      → bind m (λ _ q. (q, ok (this_second api now spec))) ≡ (at, ok since)
      → at.status.last_failover_timestamp ≡ some t
  stamped t p at (q, ok u) f e h =
      let (latest, read, same) = patch_recorded api now spec _ p q e in
      ap (λ x. x.0.status.last_failover_timestamp) (sym h)
      ∙ ap (λ s. s.last_failover_timestamp) same
      ∙ f.served latest read
  stamped t p at (q, err c m) f e h = cc (ap (λ x. x.1) h)

  failing-kept :
      (t : ℕ) (p at : Pass W) (since : ℕ) (existing : Option ℕ)
      → HasFailedOver t p
      → or_stamp api now spec existing stamp p ≡ (at, ok since)
      → at.status.last_failover_timestamp ≡ some t
  failing-kept t p at since (some s) f h =
      ap (λ x. x.0.status.last_failover_timestamp) (sym h) ∙ f.own
  failing-kept t p at since none f h = stamped t p at (stamp p) f refl h

  failing_step-kept :
      (t : ℕ) (p at : Pass W) (since : ℕ)
      → HasFailedOver t p
      → record_primary_failing api now spec p ≡ (at, ok since)
      → at.status.last_failover_timestamp ≡ some t
  unfolding record_primary_failing
  failing_step-kept t p at since f h = failing-kept t p at since p.status.primary_failing_since f h

  -- With minTimeBetweenFailovers set, ReconcileFailover does not move the role again before that time has passed
  -- since the last failover that the status records, if the API serves the same record as the pass begins.
  pub reconcile_failover-spaced :
      (t : ℕ) (p : Pass W)
      → HasFailedOver t p
      → IsPositive (min_time_between_failovers spec.failover_policy)
      → 1 ≤ t
      → settles (reconcile_failover api now spec operator_hash request p).1 ≡ true
      → t + min_time_between_failovers spec.failover_policy ≤ now
  reconcile_failover-spaced t p f positive early h =
      let done = reconcile_failover-IsPromotion api now spec operator_hash request p h in
      let going = done.unimpeded in
      let (same, _) = target_holds-overdue api now spec _ p done.checked done.holds done.asked in
      cooldown-promoted now t (policy_view spec going.at.status) positive early
        (failing_step-kept t done.checked going.at going.since
          (subst (HasFailedOver t) (sym same) f) going.failing)
        going.due.cooled
