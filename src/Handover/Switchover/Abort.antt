-- ===== src/Handover/Switchover/Abort.antt =====
-- When ReconcileSwitchover undoes a switchover.
use mathlib.Core.Path.{subst}
use cnmsql.Base.{
  ℕ, ◌+◌, ◌*◌, ◌≤◌, ◌<◌, ◌≡◌, refl, sym, ap, ◌∙◌, ◌⊎◌, inl, inr, true, false, ◌&&◌, ◌||◌, Option,
  none, some, Text, text_eq, text_Eq, is_empty, lookup, Bool-cases, arith,
}
use cnmsql.Failover.{FailoverInstance, FailoverState}
use cnmsql.Handover.{
  Spec, Status, Message, switching_over_to, waiting_for_promotion, Api, ok, Pass, bind,
}
use cnmsql.Handover.Guards.{
  is_fit_primary, validate_status, validate_switchover_target, is_overdue, primary_lease_status,
  fence_instance_pod, patch_cluster_status, ensure_switchover_started,
}
use cnmsql.Handover.Fencing.{
  IsFenced, fence_instance_pod-IsFenced, HoldsLease, primary_lease_status-HoldsLease,
}
use cnmsql.Handover.Inversion.{settles, bind-settles, bind-claimed-settles, patch_recorded}
use cnmsql.Handover.Switchover.{
  handled_result, mark_aborted, record_abort, abort_switchover, unless_overdue, wait_for,
  unless_stuck, after_target_lease, unfit, after_validation, reconcile_switchover,
}

module _ {W : Type 0} (api : Api W) (now : ℕ) (spec : Spec) (observed : FailoverState) where
  -- The switchover was overdue; the target's Pod was gone, stopped or deleted, and then the current primary was recorded
  -- as the target.
  pub record IsUndone (current target : Text) (asked : Pass W) (after : Status) : Type 0 where
    pub started : ℕ
    pub stamped : Pass W
    pub stamp : ensure_switchover_started api now spec asked ≡ (stamped, ok started)
    pub overdue :
        (1 ≤ spec.max_switchover_delay) × (started + spec.max_switchover_delay * 1000000000 < now)
    pub fenced_pass : Pass W
    pub fenced : fence_instance_pod api now spec target stamped ≡ (fenced_pass, ok tt)
    pub stopped : IsFenced api now spec target stamped
    pub retargeted : after.target_primary ≡ current
    pub cleared : after.target_primary_timestamp ≡ none
    pub latest : Status
    pub recorded : after ≡ mark_aborted spec.max_switchover_delay current target latest

  record-recorded :
      (current target : Text) (p : Pass W)
      → settles (record_abort api now spec observed current target p).1 ≡ true
      → (latest : Status) × ((record_abort api now spec observed current target p).0.status
          ≡ mark_aborted spec.max_switchover_delay current target latest)
  unfolding record_abort
  record-recorded current target p h =
      let (p1, u, written, e, h') =
        bind-settles
          (patch_cluster_status api now spec (mark_aborted spec.max_switchover_delay current target)
            p)
          (λ _ p'. (p', ok handled_result)) h in
      let (latest, read, same) = patch_recorded api now spec _ p p1 written in
      (latest, ap (λ x. x.0.status) e ∙ same)

  overdue_delay :
      (started : ℕ)
      → is_overdue now spec started ≡ true
      → (1 ≤ spec.max_switchover_delay) × (started + spec.max_switchover_delay * 1000000000 < now)
  overdue_delay started h = (ground arith, ground arith)

  overdue-IsUndone :
      (current target : Text) (waiting : Message) (asked p : Pass W) (started : ℕ)
      → ensure_switchover_started api now spec asked ≡ (p, ok started)
      → settles (unless_overdue api now spec observed current target waiting started p).1 ≡ true
      → IsUndone current target asked
          (unless_overdue api now spec observed current target waiting started p).0.status
  unfolding unless_overdue abort_switchover
  overdue-IsUndone current target waiting asked p started s h =
      elim (Bool-cases (is_overdue now spec started)) [
        | inr o ↦ absurd (ground (arith, rw o at h))
        | inl o ↦
            let (p1, u, fenced, e, h') =
              bind-claimed-settles (fence_instance_pod api now spec target p)
                (λ _. record_abort api now spec observed current target) (rw o at h) in
            let (latest, same) = record-recorded current target p1 h' in
            rw o (record {
              started = started;
              stamped = p;
              stamp = s;
              overdue = overdue_delay started o;
              fenced_pass = p1;
              fenced = fenced;
              stopped = fence_instance_pod-IsFenced api now spec target p p1 fenced;
              retargeted = ap (λ x. x.0.status.target_primary) e ∙ ap (λ s. s.target_primary) same;
              cleared =
                  ap (λ x. x.0.status.target_primary_timestamp) e
                  ∙ ap (λ s. s.target_primary_timestamp) same;
              latest = latest;
              recorded = ap (λ x. x.0.status) e ∙ same;
            })
      ]

  wait-IsUndone :
      (current target : Text) (waiting : Message) (p : Pass W)
      → settles (wait_for api now spec observed current target waiting p).1 ≡ true
      → IsUndone current target p (wait_for api now spec observed current target waiting p).0.status
  unfolding wait_for
  wait-IsUndone current target waiting p h =
      let (p1, started, s, e, h') =
        bind-settles (ensure_switchover_started api now spec p)
          (unless_overdue api now spec observed current target waiting) h in
      subst (λ x. IsUndone current target p x.0.status) (sym e)
        (overdue-IsUndone current target waiting p p1 started s h')

  -- The target reports that it is ready and a replica whose threads both run.
  pub record IsFitReplica (target : Text) : Type 0 where
    pub instance_status : FailoverInstance
    pub seen : lookup target observed.instances ≡ some instance_status
    pub ready : instance_status.ready ≡ true
    pub replica : instance_status.replica ≡ true
    pub running : (instance_status.io_running ≡ true) × (instance_status.sql_running ≡ true)

  validated-IsFitReplica :
      (target : Text) (o : Option FailoverInstance)
      → lookup target observed.instances ≡ o
      → validate_status target o ≡ none
      → IsFitReplica target
  validated-IsFitReplica target none e h = cc
  validated-IsFitReplica target (some i) e h = record {
    instance_status = i;
    seen = e;
    ready = ground arith;
    replica = ground arith;
    running = (ground arith, ground arith);
  }

  -- The target is not both ready and reporting the role.
  abbrev pub IsUnpromoted : Text → Type 0
  IsUnpromoted target =
      (i : FailoverInstance)
      → lookup target observed.instances ≡ some i
      → i.ready ≡ true
      → i.primary ≡ false

  unfit-IsUnpromoted :
      (target : Text)
      → is_fit_primary (lookup target observed.instances) ≡ false
      → IsUnpromoted target
  unfit-IsUnpromoted target f i e r = unready i (subst (λ o. is_fit_primary o ≡ false) e f) r
    where
      unready :
          (i : FailoverInstance)
          → (i.ready && i.primary) ≡ false
          → i.ready ≡ true
          → i.primary ≡ false
      unready i f r = ground arith

  -- The target is a fit replica, or is not both ready and reporting the role and holds the lease.
  abbrev pub MayTakeOver : Text → Pass W → Pass W → Type 0
  MayTakeOver target p asked =
      (IsFitReplica target × (asked ≡ p))
      ⊎ (IsUnpromoted target
          × HoldsLease api now spec target p
          × ((retry_after : ℕ) × (primary_lease_status api now spec target p
                ≡ (asked, ok (some retry_after)))))

  abbrev pub HasUndone : Text → Text → Pass W → Status → Type 0
  HasUndone current target p after =
      (asked : Pass W) × MayTakeOver target p asked × IsUndone current target asked after

  lease-HasUndone :
      (current target : Text) (reason : Message) (p asked : Pass W) (lease : Option ℕ)
      → is_fit_primary (lookup target observed.instances) ≡ false
      → primary_lease_status api now spec target p ≡ (asked, ok lease)
      → settles (after_target_lease api now spec observed current target reason lease asked).1
        ≡ true
      → HasUndone current target p
          (after_target_lease api now spec observed current target reason lease asked).0.status
  unfolding after_target_lease
  lease-HasUndone current target reason p asked none u l h = cc
  lease-HasUndone current target reason p asked (some r) u l h = (
    asked,
    inr (
      unfit-IsUnpromoted target u,
      primary_lease_status-HoldsLease api now spec target p asked l,
      (r, l),
    ),
    wait-IsUndone current target (waiting_for_promotion target) asked h,
  )

  stuck-settles :
      (current target : Text) (p : Pass W) (started : ℕ)
      → settles (unless_stuck api now spec observed target started p).1 ≡ false
  unfolding unless_stuck
  stuck-settles current target p started = ground arith

  unfit-else :
      (current target : Text) (reason : Message) (p : Pass W)
      → is_fit_primary (lookup target observed.instances) ≡ false
      → unfit api now spec observed current target reason p
        ≡ bind
            (primary_lease_status api now spec target p)
            (after_target_lease api now spec observed current target reason)
  unfolding unfit
  unfit-else current target reason p f = rw f

  unfit-HasUndone :
      (current target : Text) (reason : Message) (p : Pass W)
      → settles (unfit api now spec observed current target reason p).1 ≡ true
      → HasUndone current target p (unfit api now spec observed current target reason p).0.status
  unfolding unfit
  unfit-HasUndone current target reason p h =
      elim (Bool-cases (is_fit_primary (lookup target observed.instances))) [
        | inl f ↦
            let (p1, started, s, e, h') =
              bind-settles (ensure_switchover_started api now spec p)
                (unless_stuck api now spec observed target) (rw f at h) in
            absurd (ground (arith, stuck-settles current target p1 started))
        | inr f ↦
            let (p1, lease, l, e, h') =
              bind-settles (primary_lease_status api now spec target p)
                (after_target_lease api now spec observed current target reason) (rw f at h) in
            subst (λ x. HasUndone current target p x.0.status)
              (sym (unfit-else current target reason p f ∙ e))
              (lease-HasUndone current target reason p p1 lease f l h')
      ]

  validated-HasUndone :
      (current target : Text) (p : Pass W) (validated : Option Message)
      → validate_switchover_target observed target ≡ validated
      → settles (after_validation api now spec observed current target validated p).1 ≡ true
      → HasUndone current target p
          (after_validation api now spec observed current target validated p).0.status
  unfolding after_validation
  validated-HasUndone current target p none v h = (
    p,
    inl (validated-IsFitReplica target _ refl (unfold validate_switchover_target in v), refl),
    wait-IsUndone current target (switching_over_to target) p h,
  )
  validated-HasUndone current target p (some reason) v h = unfit-HasUndone current target reason p h

  -- ReconcileSwitchover undoes a switchover only once it is overdue, and only if its target is still a fit replica,
  -- or is not both ready and reporting the role, and holds a lease that has not run out; the target's Pod is gone,
  -- on its way out, acknowledged as fenced, or deleted before the current primary is recorded as the target again.
  pub reconcile_switchover-HasUndone :
      (p : Pass W)
      → settles (reconcile_switchover api now spec observed p).1 ≡ true
      → HasUndone p.status.current_primary p.status.target_primary p
          (reconcile_switchover api now spec observed p).0.status
  unfolding reconcile_switchover
  reconcile_switchover-HasUndone p h =
      let target = p.status.target_primary in
      let current = p.status.current_primary in
      elim (Bool-cases (is_empty target || text_eq target current || is_empty current)) [
        | inl n ↦ absurd (ground (arith, rw n at h))
        | inr n ↦ rw n (
            validated-HasUndone current target p (validate_switchover_target observed target) refl
              (rw n at h))
      ]
