-- ===== src/Handover/Fencing.antt =====
-- What a lease that is held says, and what a fencing that went through left: PrimaryLeaseStatus of
-- internal/controller/async/cluster_primary_lease.go and fenceInstancePod of cluster_failover.go.
use cnmsql.Base.{
  ℕ, ◌+◌, ◌<◌, ◌≡◌, ◌≢◌, refl, ap, ◌∙◌, ◌⊎◌, inl, inr, Bool, true, false, Option, none, some,
  some_inj, Text, codes, text_eq, text_eq_iff, leb, not-leb→lt, leb→le, ◌≤◌, Bool-cases, arith,
}
use cnmsql.Failover.{has}
use cnmsql.Handover.{
  Spec, Status, Lease, Pod, Fetched, fetched, not_found, fetch_failed, Deletion, deleted,
  already_gone, delete_failed, Api, ok, Pass,
}
use cnmsql.Handover.Guards.{
  is_set, lease_duration, held_by, lease_reply, on_by_default, primary_lease_status, is_kept,
  delete_reply, fence_fetched, fence_instance_pod,
}

-- The lease names the holder, and has not run out.
pub record IsHolding (now : ℕ) (holder : Text) (lease : Lease) : Type 0 where
  pub identity : lease.holder_identity ≡ some holder
  pub renewed : ℕ
  pub renewal : lease.renew_time ≡ some renewed
  pub running : now < renewed + lease_duration lease.duration_seconds

held_by-IsHolding :
    (now : ℕ) (holder : Text) (lease : Lease) (identity : Option Text) (renew : Option ℕ) {r : ℕ}
    → lease.holder_identity ≡ identity
    → lease.renew_time ≡ renew
    → held_by now holder identity renew lease.duration_seconds ≡ some r
    → IsHolding now holder lease
held_by-IsHolding now holder lease none renew i t h = cc
held_by-IsHolding now holder lease (some identity) none i t h = cc
held_by-IsHolding now holder lease (some identity) (some renewed) i t h =
    elim (Bool-cases (text_eq identity holder)) [
      | inr e ↦ cc (rw e at h)
      | inl e ↦ elim (Bool-cases (leb (renewed + lease_duration lease.duration_seconds) now)) [
        | inl l ↦ cc (rw (e, l) at h)
        | inr l ↦ record {
          identity = i ∙ ap some ((text_eq_iff identity holder).0 e);
          renewed = renewed;
          renewal = t;
          running = not-leb→lt _ now l;
        }
      ]
    ]

module _ {W : Type 0} (api : Api W) (now : ℕ) (spec : Spec) where
  -- Leases are in use, and the one that the API serves is held.
  pub record HoldsLease (holder : Text) (p : Pass W) : Type 0 where
    pub enabled : spec.enable_primary_lease ≢ some false
    pub lease : Lease
    pub served : api.get_lease p.world ≡ fetched lease
    pub holding : IsHolding now holder lease

  on_by_default_lem : (o : Option Bool) → on_by_default o ≡ true → o ≢ some false
  on_by_default_lem none h = λ e. cc
  on_by_default_lem (some b) h = λ e. cc (some_inj e)

  reply-HoldsLease :
      (holder : Text) (p p' : Pass W) (reply : Fetched Lease) {r : ℕ}
      → spec.enable_primary_lease ≢ some false
      → api.get_lease p.world ≡ reply
      → lease_reply now holder reply p ≡ (p', ok (some r))
      → HoldsLease holder p
  reply-HoldsLease holder p p' (fetched lease) {r} n e h = record {
    enabled = n;
    lease = lease;
    served = e;
    holding =
        held_by-IsHolding now holder lease lease.holder_identity lease.renew_time {r = r} refl refl
          (cc (ap (λ x. x.1) h));
  }
  reply-HoldsLease holder p p' not_found n e h = cc (ap (λ x. x.1) h)
  reply-HoldsLease holder p p' (fetch_failed m) n e h = cc (ap (λ x. x.1) h)

  pub primary_lease_status-HoldsLease :
      (holder : Text) (p p' : Pass W) {r : ℕ}
      → primary_lease_status api now spec holder p ≡ (p', ok (some r))
      → HoldsLease holder p
  unfolding primary_lease_status
  primary_lease_status-HoldsLease holder p p' h =
      elim (Bool-cases (on_by_default spec.enable_primary_lease)) [
        | inr o ↦ cc (ap (λ x. x.1) (rw o at h))
        | inl o ↦
            reply-HoldsLease holder p p' (api.get_lease p.world)
              (on_by_default_lem spec.enable_primary_lease o) refl (rw o at h)
      ]

  -- While leases are in use, the one that the API serves, if it is the holder's and was renewed, has run out.
  abbrev pub HoldsNoLease : Text → Pass W → Type 0
  HoldsNoLease holder p =
      (lease : Lease) (renewed : ℕ)
      → spec.enable_primary_lease ≢ some false
      → api.get_lease p.world ≡ fetched lease
      → lease.holder_identity ≡ some holder
      → lease.renew_time ≡ some renewed
      → renewed + lease_duration lease.duration_seconds ≤ now

  enabled-on_by_default : (o : Option Bool) → o ≢ some false → on_by_default o ≡ true
  enabled-on_by_default none h = refl
  enabled-on_by_default (some true) h = refl
  enabled-on_by_default (some false) h = absurd (h refl)

  held_by-none :
      (holder : Text) (lease : Lease) (renewed : ℕ) (identity : Option Text) (renew : Option ℕ)
      → identity ≡ some holder
      → renew ≡ some renewed
      → held_by now holder identity renew lease.duration_seconds ≡ none
      → renewed + lease_duration lease.duration_seconds ≤ now
  held_by-none holder lease renewed none renew i t h = cc i
  held_by-none holder lease renewed (some identity) none i t h = cc t
  held_by-none holder lease renewed (some identity) (some r) i t h =
      elim (Bool-cases (leb (renewed + lease_duration lease.duration_seconds) now)) [
        | inl l ↦ leb→le _ now l
        | inr l ↦ cc (rw ((text_eq_iff identity holder).1 (some_inj i), some_inj t, l) at h)
      ]

  reply-HoldsNoLease :
      (holder : Text) (p p' : Pass W) (lease : Lease) (renewed : ℕ)
      → lease.holder_identity ≡ some holder
      → lease.renew_time ≡ some renewed
      → lease_reply now holder (fetched lease) p ≡ (p', ok none)
      → renewed + lease_duration lease.duration_seconds ≤ now
  reply-HoldsNoLease holder p p' lease renewed i t h =
      held_by-none holder lease renewed lease.holder_identity lease.renew_time i t
        (cc (ap (λ x. x.1) h))

  pub primary_lease_status-HoldsNoLease :
      (holder : Text) (p p' : Pass W)
      → primary_lease_status api now spec holder p ≡ (p', ok none)
      → HoldsNoLease holder p
  unfolding primary_lease_status
  primary_lease_status-HoldsNoLease holder p p' h lease renewed n e i t =
      reply-HoldsNoLease holder p p' lease renewed i t
        (rw (enabled-on_by_default spec.enable_primary_lease n, e) at h)

  -- The Pod is on its way out, or the fence that it asks for was acknowledged.
  abbrev pub IsStopped : Pod → Text → Status → Type 0
  IsStopped pod name status =
      (pod.deletion_timestamp ≢ none)
      ⊎ ((pod.fencing ≡ codes "true") × (has name status.fenced_instances ≡ true))

  -- The API took the deletion, or found nothing to delete.
  abbrev pub IsDeleted : Deletion → Type 0
  IsDeleted reply = (reply ≡ deleted) ⊎ (reply ≡ already_gone)

  -- There is no Pod, it is stopped, or it was deleted.
  abbrev pub IsFenced : Text → Pass W → Type 0
  IsFenced name p =
      (api.get_pod p.world name ≡ not_found)
      ⊎ ((pod : Pod) × (api.get_pod p.world name ≡ fetched pod)
          × (IsStopped pod name p.status ⊎ IsDeleted (api.delete_pod p.world name).1))

  set-some : {A : Type 0} (o : Option A) → is_set o ≡ true → o ≢ none
  set-some none h = cc
  set-some (some a) h = λ e. cc

  kept-IsStopped :
      (pod : Pod) (name : Text) (status : Status)
      → is_kept api now spec pod name status ≡ true
      → IsStopped pod name status
  kept-IsStopped pod name status h = elim (Bool-cases (is_set pod.deletion_timestamp)) [
    | inl e ↦ inl (set-some pod.deletion_timestamp e)
    | inr e ↦ inr ((text_eq_iff pod.fencing (codes "true")).0 (ground arith), ground arith)
  ]

  reply-IsDeleted :
      (p p' : Pass W) (w : W) (reply : Deletion)
      → delete_reply api now spec (w, reply) p ≡ (p', ok tt)
      → IsDeleted reply
  reply-IsDeleted p p' w deleted h = inl refl
  reply-IsDeleted p p' w already_gone h = inr refl
  reply-IsDeleted p p' w (delete_failed e) h = cc (ap (λ x. x.1) h)

  fetched-IsFenced :
      (name : Text) (p p' : Pass W) (reply : Fetched Pod)
      → api.get_pod p.world name ≡ reply
      → fence_fetched api now spec name reply p ≡ (p', ok tt)
      → IsFenced name p
  fetched-IsFenced name p p' not_found e h = inl e
  fetched-IsFenced name p p' (fetch_failed m) e h = cc (ap (λ x. x.1) h)
  fetched-IsFenced name p p' (fetched pod) e h =
      elim (Bool-cases (is_kept api now spec pod name p.status)) [
        | inl k ↦ inr (pod, e, inl (kept-IsStopped pod name p.status k))
        | inr k ↦ inr (
          pod,
          e,
          inr (
              reply-IsDeleted p p' (api.delete_pod p.world name).0 (api.delete_pod p.world name).1
                (rw k at h)),
        )
      ]

  pub fence_instance_pod-IsFenced :
      (name : Text) (p p' : Pass W)
      → fence_instance_pod api now spec name p ≡ (p', ok tt)
      → IsFenced name p
  unfolding fence_instance_pod
  fence_instance_pod-IsFenced name p p' h =
      fetched-IsFenced name p p' (api.get_pod p.world name) refl h
