-- ===== src/Handover/Failover/Promotion.antt =====
-- When ReconcileFailover promotes a replica.
use mathlib.Core.Path.{subst}
use cnmsql.Base.{
  ℕ, ◌≡◌, sym, ap, ◌∙◌, inl, inr, Bool, true, false, List, Option, none, some, Text, is_empty,
  Bool-cases,
}
use cnmsql.Engine.{GtidModel}
use cnmsql.Failover.{FailoverCandidate}
use cnmsql.Failover.Select.{select_failover_candidate}
use cnmsql.Failover.Select.Refusal.{named-reason}
use cnmsql.Failover.Select.Safety.{IsSafe, select-IsSafe}
use cnmsql.Handover.{claimed, Spec, Status, cannot_fail_over, Api, ok, Pass, bind}
use cnmsql.Handover.Guards.{
  has_observed_replica, primary_lease_status, patch_cluster_status, fence_instance_pod,
}
use cnmsql.Handover.Fencing.{
  IsFenced, fence_instance_pod-IsFenced, HoldsNoLease, primary_lease_status-HoldsNoLease,
}
use cnmsql.Handover.Inversion.{settles, bind-claimed-settles, patch_recorded}
use cnmsql.Handover.Election.{gtid_model}
use cnmsql.Handover.Failover.{
  FailoverRequest, without_candidate, mark_failing_over, failover_election, record_promotion,
  promote, after_lease, after_election, with_engine,
}

module _ {W : Type 0} (api : Api W) (now : ℕ) (spec : Spec) (operator_hash : Text)
    (request : FailoverRequest) where
  abbrev old_primary : Text
  old_primary = request.observed.primary_name

  -- The replica was elected in the state `at`, with the primary failing since then.
  abbrev elected : GtidModel → List Text → ℕ → Pass W → FailoverCandidate
  elected gtid known since at =
      select_failover_candidate
        (failover_election api now spec operator_hash request gtid known since at.status)

  -- What was done from `at` on for the role to go to the replica.
  pub record IsHandedOver (at : Pass W) (c : FailoverCandidate) (after : Status) : Type 0 where
    pub lease_read : Pass W
    pub lease_free : primary_lease_status api now spec old_primary at ≡ (lease_read, ok none)
    pub fenced_pass : Pass W
    pub fenced : fence_instance_pod api now spec old_primary lease_read ≡ (fenced_pass, ok tt)
    pub latest : Status
    pub recorded : after ≡ mark_failing_over now old_primary c latest
    pub unheld : HoldsNoLease api now spec old_primary at
    pub stopped : IsFenced api now spec old_primary lease_read
    pub targeted : after.target_primary ≡ c.name
    pub stamped :
        (after.target_primary_timestamp ≡ some now) × (after.last_failover_timestamp ≡ some now)
    pub restarted : (after.primary_failing_since ≡ none) × (after.primary_healthy_since ≡ none)

  record-recorded :
      (c : FailoverCandidate) (p : Pass W)
      → settles (record_promotion api now spec operator_hash request c p).1 ≡ true
      → (latest : Status) × ((record_promotion api now spec operator_hash request c p).0.status
          ≡ mark_failing_over now old_primary c latest)
  unfolding record_promotion
  record-recorded c p h =
      let (p1, u, written, e, h') =
        bind-claimed-settles
          (patch_cluster_status api now spec (mark_failing_over now old_primary c) p)
          (λ _ p'. (
            p',
            ok (record {
              handled = true;
              requeue_after = request.provisioning_retry;
              phase = none;
            }),
          ))
          h in
      let (latest, read, same) = patch_recorded api now spec _ p p1 written in
      (latest, ap (λ x. x.0.status) e ∙ same)

  promote-IsHandedOver :
      (c : FailoverCandidate) (at p : Pass W)
      → primary_lease_status api now spec old_primary at ≡ (p, ok none)
      → settles (promote api now spec operator_hash request c p).1 ≡ true
      → IsHandedOver at c (promote api now spec operator_hash request c p).0.status
  unfolding promote
  promote-IsHandedOver c at p free h =
      let (p1, u, fenced, e, h') =
        bind-claimed-settles (fence_instance_pod api now spec old_primary p)
          (λ _. record_promotion api now spec operator_hash request c) h in
      let (latest, same) = record-recorded c p1 h' in
      let marked = ap (λ x. x.0.status) e ∙ same in
      record {
        unheld = primary_lease_status-HoldsNoLease api now spec old_primary at p free;
        stopped = fence_instance_pod-IsFenced api now spec old_primary p p1 fenced;
        targeted = ap (λ s. s.target_primary) marked;
        stamped = (
          ap (λ s. s.target_primary_timestamp) marked,
          ap (λ s. s.last_failover_timestamp) marked,
        );
        restarted =
            (ap (λ s. s.primary_failing_since) marked, ap (λ s. s.primary_healthy_since) marked);
        lease_read = p;
        lease_free = free;
        fenced_pass = p1;
        fenced = fenced;
        latest = latest;
        recorded = marked;
      }

  lease-IsHandedOver :
      (c : FailoverCandidate) (at p : Pass W) (lease : Option ℕ)
      → primary_lease_status api now spec old_primary at ≡ (p, ok lease)
      → settles (after_lease api now spec operator_hash request c lease p).1 ≡ true
      → IsHandedOver at c (after_lease api now spec operator_hash request c lease p).0.status
  unfolding after_lease
  lease-IsHandedOver c at p (some retry_after) free h = cc
  lease-IsHandedOver c at p none free h = promote-IsHandedOver c at p free h

  election-IsHandedOver :
      (c : FailoverCandidate) (at : Pass W)
      → settles (after_election api now spec operator_hash request c at).1 ≡ true
      → (is_empty c.name ≡ false)
        × IsHandedOver at c (after_election api now spec operator_hash request c at).0.status
  unfolding after_election
  election-IsHandedOver c at h = elim (Bool-cases (is_empty c.name)) [
    | inl n ↦ absurd (unnamed (has_observed_replica request.observed) (rw n at h))
    | inr n ↦ (n, rw n (named (rw n at h)))
  ]
    where
      unnamed :
          (b : Bool)
          → settles (ok (without_candidate b (cannot_fail_over old_primary c.reason))) ≡ true
          → ⊥
      unnamed true f = cc
      unnamed false f = cc

      named :
          settles
              (bind
                (claimed (primary_lease_status api now spec old_primary at))
                (λ lease. after_lease api now spec operator_hash request c lease)).1
            ≡ true
          → IsHandedOver at c
              (bind
                (claimed (primary_lease_status api now spec old_primary at))
                (λ lease. after_lease api now spec operator_hash request c lease)).0.status
      named f =
          let (p1, lease, free, e, f') =
            bind-claimed-settles (primary_lease_status api now spec old_primary at)
              (λ lease. after_lease api now spec operator_hash request c lease) f in
          subst (λ x. IsHandedOver at c x.0.status) (sym e)
            (lease-IsHandedOver c at p1 lease free f')

  -- The election in the state `at` named a replica that it finds safe, and the role was handed over to it.
  pub record IsElection (known : List Text) (since : ℕ) (at : Pass W) (after : Status)
      : Type 0 where
    pub gtid : GtidModel
    pub engine : gtid_model spec.flavor ≡ some gtid
    pub safe :
        IsSafe
          (failover_election api now spec operator_hash request gtid known since at.status)
          (elected gtid known since at)
    pub handed_over : IsHandedOver at (elected gtid known since at) after

  pub engine-IsElection :
      (known : List Text) (since : ℕ) (at : Pass W) (gtid : Option GtidModel)
      → gtid_model spec.flavor ≡ gtid
      → settles (with_engine api now spec operator_hash request known since gtid at).1 ≡ true
      → IsElection known since at
          (with_engine api now spec operator_hash request known since gtid at).0.status
  unfolding with_engine
  engine-IsElection known since at none e h = cc
  engine-IsElection known since at (some gtid) e h =
      let (named, done) = election-IsHandedOver (elected gtid known since at) at h in
      record {
        gtid = gtid;
        engine = e;
        safe = select-IsSafe _ (named-reason _ named);
        handed_over = done;
      }
