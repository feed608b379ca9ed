-- ===== src/Handover/Switchover/Drain.antt =====
-- When ReconcileDrainSwitchover moves the role away from a primary that is being drained.
use cnmsql.Base.{
  ◌≡◌, ◌≢◌, refl, ap, ◌∙◌, ◌⊎◌, inl, inr, Bool, true, false, Option, none, some, some_inj, ℕ, Text,
  text_eq_iff, text_Eq, is_empty, lookup, Bool-cases, arith,
}
use cnmsql.Engine.{GtidModel}
use cnmsql.Failover.{FailoverInstance, FailoverState, has}
use cnmsql.Failover.Select.{select_failover_candidate}
use cnmsql.Failover.Select.Refusal.{named-reason}
use cnmsql.Failover.Select.Safety.{IsSafe, select-IsSafe}
use cnmsql.Handover.{Spec, Status, Api, ok, Pass}
use cnmsql.Handover.Election.{gtid_model}
use cnmsql.Handover.Guards.{on_by_default, is_fit_primary, primary_healthy, patch_cluster_status}
use cnmsql.Handover.Inversion.{settles, bind-claimed-settles, patch_recorded}
use cnmsql.Handover.Switchover.{
  handled_result, mark_draining, drain_election, switch_to, drain_with, is_drained,
  reconcile_drain_switchover,
}

module _ {W : Type 0} (api : Api W) (now : ℕ) (spec : Spec) (observed : FailoverState) where
  switch_to-recorded :
      (candidate : Text) (p : Pass W)
      → settles (switch_to api now spec observed candidate p).1 ≡ true
      → (latest : Status) × (is_empty candidate ≡ false)
        × ((switch_to api now spec observed candidate p).0.status
            ≡ mark_draining now p.status.current_primary candidate latest)
  unfolding switch_to
  switch_to-recorded candidate p h = elim (Bool-cases (is_empty candidate)) [
    | inl n ↦ absurd (ground (arith, rw n at h))
    | inr n ↦
        let mark = mark_draining now p.status.current_primary candidate in
        let (p1, u, written, e, h') =
          bind-claimed-settles (patch_cluster_status api now spec mark p)
            (λ _ p'. (p', ok handled_result)) (rw n at h) in
        let (latest, read, same) = patch_recorded api now spec mark p p1 written in
        (latest, n, rw n (ap (λ x. x.0.status) e ∙ same))
  ]

  -- The drain is enabled; the current primary is on its way out, no other instance is the target, and the instance seen
  -- as the primary is ready and reports the role.
  pub record IsDraining (status : Status) : Type 0 where
    pub enabled : spec.enable_switchover_on_drain ≢ some false
    pub named : (is_empty status.current_primary ≡ false) × (is_empty observed.primary_name ≡ false)
    pub terminating : has status.current_primary observed.terminating ≡ true
    pub settled :
        (is_empty status.target_primary ≡ true) ⊎ (status.target_primary ≡ status.current_primary)
    pub primary : FailoverInstance
    pub seen : lookup observed.primary_name observed.instances ≡ some primary
    pub healthy : (primary.ready ≡ true) × (primary.primary ≡ true)

  on_by_default_lem : (o : Option Bool) → on_by_default o ≡ true → o ≢ some false
  on_by_default_lem none h = λ e. cc
  on_by_default_lem (some b) h = λ e. cc (some_inj e)

  -- A fit primary reports, is ready and has the role.
  seen-fit :
      (o : Option FailoverInstance)
      → is_fit_primary o ≡ true
      → (i : FailoverInstance) × (o ≡ some i) × ((i.ready ≡ true) × (i.primary ≡ true))
  seen-fit none h = cc
  seen-fit (some i) h = (i, refl, (ground arith, ground arith))

  drained-IsDraining :
      (status : Status) → is_drained api now spec observed status ≡ true → IsDraining status
  unfolding primary_healthy
  drained-IsDraining status d =
      let (i, seen, fit) =
        seen-fit (lookup observed.primary_name observed.instances) (ground arith) in
      record {
        enabled = on_by_default_lem spec.enable_switchover_on_drain (ground arith);
        named = (ground arith, ground arith);
        terminating = ground arith;
        settled = elim (Bool-cases (is_empty status.target_primary)) [
          | inl e ↦ inl e
          | inr e ↦
              inr ((text_eq_iff status.target_primary status.current_primary).0 (ground arith))
        ];
        primary = i;
        seen = seen;
        healthy = fit;
      }

  -- The primary is draining; the election measured against its own position
  -- named a safe replica, and that is recorded as the target.
  pub record IsMovedAway (disowned_gtids : Text) (p : Pass W) (after : Status) : Type 0 where
    pub drained : IsDraining p.status
    pub gtid : GtidModel
    pub engine : gtid_model spec.flavor ≡ some gtid
    pub safe : IsSafe (drain_election api now spec observed disowned_gtids gtid p.status) (
        select_failover_candidate
          (drain_election api now spec observed disowned_gtids gtid p.status))
    pub latest : Status
    pub targeted :
        after.target_primary
        ≡ (select_failover_candidate
            (drain_election api now spec observed disowned_gtids gtid p.status)).name
    pub stamped : after.target_primary_timestamp ≡ some now
    pub recorded :
        after
        ≡ mark_draining now p.status.current_primary
            (select_failover_candidate
              (drain_election api now spec observed disowned_gtids gtid p.status)).name
            latest

  engine-IsMovedAway :
      (disowned_gtids : Text) (p : Pass W) (gtid : Option GtidModel)
      → is_drained api now spec observed p.status ≡ true
      → gtid_model spec.flavor ≡ gtid
      → settles (drain_with api now spec observed disowned_gtids gtid p).1 ≡ true
      → IsMovedAway disowned_gtids p
          (drain_with api now spec observed disowned_gtids gtid p).0.status
  unfolding drain_with
  engine-IsMovedAway disowned_gtids p none d e h = cc
  engine-IsMovedAway disowned_gtids p (some gtid) d e h =
      let (latest, named, same) = switch_to-recorded _ p h in
      record {
        drained = drained-IsDraining p.status d;
        targeted = ap (λ s. s.target_primary) same;
        stamped = ap (λ s. s.target_primary_timestamp) same;
        gtid = gtid;
        engine = e;
        safe = select-IsSafe _ (named-reason _ named);
        latest = latest;
        recorded = same;
      }

  -- A drain moves the role only if it is enabled, the current primary is terminating, the instance seen as the primary
  -- is ready and reports the role, and no other instance is the target; the replica that it records, with the time,
  -- is one that an election against the current primary's own position finds safe.
  pub reconcile_drain_switchover-IsMovedAway :
      (disowned_gtids : Text) (p : Pass W)
      → settles (reconcile_drain_switchover api now spec observed disowned_gtids p).1 ≡ true
      → IsMovedAway disowned_gtids p
          (reconcile_drain_switchover api now spec observed disowned_gtids p).0.status
  unfolding reconcile_drain_switchover
  reconcile_drain_switchover-IsMovedAway disowned_gtids p h =
      elim (Bool-cases (is_drained api now spec observed p.status)) [
        | inr d ↦ absurd (ground (arith, rw d at h))
        | inl d ↦
            rw d (engine-IsMovedAway disowned_gtids p (gtid_model spec.flavor) d refl (rw d at h))
      ]
