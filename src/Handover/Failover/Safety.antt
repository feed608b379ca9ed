-- ===== src/Handover/Failover/Safety.antt =====
-- What held when ReconcileFailover moved the primary role.
use mathlib.Core.Path.{subst}
use cnmsql.Base.{
  ℕ, ◌+◌, ◌≤◌, ◌≡◌, refl, sym, inl, inr, Bool, true, false, ◌||◌, List, ◌++◌, Text, is_empty, ltb,
  Bool-cases, not-ltb→le, arith,
}
use cnmsql.Failover.Policy.{failover_cooldown_remaining}
use cnmsql.Handover.{no_result, claimed, Spec, Status, policy_view, Api, ok, Pass, bind, ◌>>◌, pure}
use cnmsql.Handover.Guards.{
  on_by_default, primary_healthy, switchover_in_flight, target_holds_promotion_lease,
  record_primary_failing, record_primary_healthy,
}
use cnmsql.Handover.Election.{gtid_model}
use cnmsql.Handover.Failover.{
  FailoverRequest, grace, is_unacknowledged, after_failing, after_hold, reconcile_failover,
}
use cnmsql.Handover.Inversion.{settles, bind-settles, bind-claimed-settles}
use cnmsql.Handover.Failover.Promotion.{IsElection, engine-IsElection}

module _ {W : Type 0} (api : Api W) (now : ℕ) (spec : Spec) (operator_hash : Text)
    (request : FailoverRequest) where
  abbrev old_primary : Text
  old_primary = request.observed.primary_name

  abbrev known_diverged : Status → List Text
  known_diverged status = request.observed.diverged ++ status.diverged_instances

  -- The primary was failing for long enough, the last promotion is long enough ago, and the election followed.
  pub record IsDue (known : List Text) (since : ℕ) (at : Pass W) (after : Status) : Type 0 where
    pub elapsed : since + grace spec operator_hash at.status request.observed ≤ now
    pub cooled : failover_cooldown_remaining now (policy_view spec at.status) ≡ 0
    pub election : IsElection api now spec operator_hash request known since at after

  failing-IsDue :
      (known : List Text) (since : ℕ) (at : Pass W)
      → settles (after_failing api now spec operator_hash request known since at).1 ≡ true
      → IsDue known since at
          (after_failing api now spec operator_hash request known since at).0.status
  unfolding after_failing
  failing-IsDue known since at h =
      elim (Bool-cases (ltb now (since + grace spec operator_hash at.status request.observed))) [
        | inl w ↦ absurd (ground (arith, rw w at h))
        | inr w ↦
            elim (Bool-cases
              (ltb 0 (failover_cooldown_remaining now (policy_view spec at.status)))) [
                | inl c ↦ absurd (ground (arith, rw (w, c) at h))
                | inr c ↦
                    rw (w, c)
                      (record {
                        elapsed = not-ltb→le _ _ w;
                        cooled = omega (arith, not-ltb→le _ _ c);
                        election =
                            engine-IsElection api now spec operator_hash request known since at
                              (gtid_model spec.flavor) refl (rw (w, c) at h);
                      })
              ]
      ]

  -- No switchover was in flight and failover is enabled; the primary is marked as failing, and the rest followed.
  pub record IsUnimpeded (known : List Text) (holds : Bool) (checked : Pass W) (after : Status)
      : Type 0 where
    pub not_in_flight :
        switchover_in_flight now spec checked.status request.observed known holds ≡ false
    pub enabled : on_by_default spec.enable_failover ≡ true
    pub since : ℕ
    pub at : Pass W
    pub failing : record_primary_failing api now spec checked ≡ (at, ok since)
    pub due : IsDue known since at after

  enabled-IsUnimpeded :
      (known : List Text) (holds : Bool) (checked : Pass W)
      → switchover_in_flight now spec checked.status request.observed known holds ≡ false
      → on_by_default spec.enable_failover ≡ true
      → let out =
          bind
            (claimed (record_primary_failing api now spec checked))
            (λ since. after_failing api now spec operator_hash request known since) in
        settles out.1 ≡ true → IsUnimpeded known holds checked out.0.status
  enabled-IsUnimpeded known holds checked f e h =
      let (at, since, failing, same, h') =
        bind-claimed-settles (record_primary_failing api now spec checked)
          (λ since. after_failing api now spec operator_hash request known since) h in
      subst (λ x. IsUnimpeded known holds checked x.0.status) (sym same)
        (record {
          not_in_flight = f;
          enabled = e;
          since = since;
          at = at;
          failing = failing;
          due = failing-IsDue known since at h';
        })

  hold-IsUnimpeded :
      (known : List Text) (holds : Bool) (checked : Pass W)
      → settles (after_hold api now spec operator_hash request known holds checked).1 ≡ true
      → IsUnimpeded known holds checked
          (after_hold api now spec operator_hash request known holds checked).0.status
  unfolding after_hold
  hold-IsUnimpeded known holds checked h =
      elim (Bool-cases
        (switchover_in_flight now spec checked.status request.observed known holds)) [
          | inl f ↦ absurd (ground (arith, rw f at h))
          | inr f ↦ elim (Bool-cases (on_by_default spec.enable_failover)) [
            | inl e ↦ rw (f, e) (enabled-IsUnimpeded known holds checked f e (rw (f, e) at h))
            | inr e ↦ absurd (ground (arith, rw (f, e) at h))
          ]
        ]

  -- The old primary is down, its fence, if there is one, is acknowledged, and the rest followed.
  pub record IsPromotion (before : Pass W) (after : Status) : Type 0 where
    pub unhealthy : primary_healthy request.observed ≡ false
    pub acknowledged : is_unacknowledged api now spec operator_hash request before.status ≡ false
    pub holds : Bool
    pub checked : Pass W
    pub asked :
        target_holds_promotion_lease api now spec (known_diverged before.status) before
        ≡ (checked, ok holds)
    pub unimpeded : IsUnimpeded (known_diverged before.status) holds checked after

  asked-IsPromotion :
      (p : Pass W)
      → primary_healthy request.observed ≡ false
      → is_unacknowledged api now spec operator_hash request p.status ≡ false
      → let out =
          bind
            (claimed (target_holds_promotion_lease api now spec (known_diverged p.status) p))
            (λ holds.
              after_hold api now spec operator_hash request (known_diverged p.status) holds) in
        settles out.1 ≡ true → IsPromotion p out.0.status
  asked-IsPromotion p u a h =
      let (checked, holds, asked, same, h') =
        bind-claimed-settles (target_holds_promotion_lease api now spec (known_diverged p.status) p)
          (λ holds. after_hold api now spec operator_hash request (known_diverged p.status) holds)
          h in
      subst (λ x. IsPromotion p x.0.status) (sym same)
        (record {
          unhealthy = u;
          acknowledged = a;
          holds = holds;
          checked = checked;
          asked = asked;
          unimpeded = hold-IsUnimpeded (known_diverged p.status) holds checked h';
        })

  healthy_stays :
      (p : Pass W)
      → settles ((record_primary_healthy api now spec >> pure no_result) p).1 ≡ true
      → ⊥
  healthy_stays p h =
      let (p1, u, e, same, h') =
        bind-settles (record_primary_healthy api now spec p) (λ _ p'. (p', ok no_result)) h in
      cc

  -- ReconcileFailover moves the primary role only if the primary is unhealthy, no fence of it waits to be
  -- acknowledged, no switchover is in flight, failover is enabled, the delay since it was marked as failing has
  -- passed, no cooldown is left, and the election, with all that is known then, names a replica that is safe; the
  -- old primary then holds no running lease, where leases are in use, and its Pod was gone, on its way out,
  -- acknowledged as fenced, or deleted before the replica is recorded as the target, with the time of the failover.
  pub reconcile_failover-IsPromotion :
      (p : Pass W)
      → settles (reconcile_failover api now spec operator_hash request p).1 ≡ true
      → IsPromotion p (reconcile_failover api now spec operator_hash request p).0.status
  unfolding reconcile_failover
  reconcile_failover-IsPromotion p h =
      elim (Bool-cases
        (is_empty p.status.current_primary || is_empty old_primary || ltb request.instances 2)) [
          | inl n ↦ absurd (ground (arith, rw n at h))
          | inr n ↦ elim (Bool-cases (primary_healthy request.observed)) [
            | inl u ↦ absurd (healthy_stays p (rw (n, u) at h))
            | inr u ↦
                elim (Bool-cases (is_unacknowledged api now spec operator_hash request p.status)) [
                  | inl a ↦ absurd (ground (arith, rw (n, u, a) at h))
                  | inr a ↦ rw (n, u, a) (asked-IsPromotion p u a (rw (n, u, a) at h))
                ]
          ]
        ]
