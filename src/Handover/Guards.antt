-- ===== src/Handover/Guards.antt =====
-- The tests and the single steps of the primary change: the helpers of
-- internal/controller/async/cluster_failover.go, cluster_switchover.go and cluster_primary_lease.go.
use cnmsql.Base.{
  ℕ, ◌+◌, ◌-◌, ◌*◌, ◌%◌, Bool, true, false, not, ◌&&◌, ◌||◌, if◌then◌else◌, List, Option, none,
  some, Text, codes, text_eq, text_Eq, is_empty, lookup, ltb, leb, any,
}
use cnmsql.Failover.{FailoverInstance, FailoverState, has}
use cnmsql.Handover.{
  Spec, Status, Message, not_reporting, not_ready, not_a_replica, not_replicating, Lease, Pod,
  Fetched, fetched, not_found, fetch_failed, Deletion, deleted, already_gone, delete_failed, Api,
  Outcome, ok, err, Pass, Act, bind, ◌>>=◌, pure,
}

abbrev pub second : ℕ
second = 1000000000

-- A setting that is on unless it is set to false.
abbrev pub on_by_default : Option Bool → Bool
on_by_default none = true
on_by_default (some b) = b

-- A pointer that is not nil.
abbrev pub is_set {ℓ} : {A : Type ℓ} → Option A → Bool
is_set none = false
is_set (some a) = true

abbrev pub or_false : Option Bool → Bool
or_false none = false
or_false (some b) = b

abbrev pub is_archiving_enabled : Spec → Bool
is_archiving_enabled spec = or_false spec.continuous_archiving && spec.has_backup_object_store

abbrev pub is_fit_primary : Option FailoverInstance → Bool
is_fit_primary none = false
is_fit_primary (some status) = status.ready && status.primary

unfoldable pub primary_healthy : FailoverState → Bool
primary_healthy observed = is_fit_primary (lookup observed.primary_name observed.instances)

unfoldable pub has_observed_replica : FailoverState → Bool
has_observed_replica observed =
    any (λ i. not (text_eq i.0 observed.primary_name)) observed.instances

abbrev pub validate_status : Text → Option FailoverInstance → Option Message
validate_status target none = some (not_reporting target)
validate_status target (some status) =
    if not status.ready
    then some (not_ready target)
    else if not status.replica
    then some (not_a_replica target)
    else if not status.io_running || not status.sql_running
    then some (not_replicating target)
    else none

-- `none` is no error.
unfoldable pub validate_switchover_target : FailoverState → Text → Option Message
validate_switchover_target observed target =
    validate_status target (lookup target observed.instances)

abbrev pub is_valid : Option Message → Bool
is_valid none = true
is_valid (some e) = false

-- `maxDelay > 0 && time.Since(startedAt) > maxDelay`.
abbrev pub is_overdue : ℕ → Spec → ℕ → Bool
is_overdue now spec started =
    let delay = spec.max_switchover_delay * second in ltb 0 delay && ltb (started + delay) now

abbrev pub overdue_at : ℕ → Spec → Option ℕ → Bool
overdue_at now spec none = false
overdue_at now spec (some started) = is_overdue now spec started

unfoldable pub switchover_overdue : ℕ → Spec → Status → Bool
switchover_overdue now spec status = overdue_at now spec status.target_primary_timestamp

abbrev pub on_its_way : Option FailoverInstance → Bool → Bool
on_its_way none overdue = false
on_its_way (some status) overdue =
    if status.ready && status.primary
    then true
    else status.replica && status.sql_running && not overdue

unfoldable pub switchover_in_flight : ℕ → Spec → Status → FailoverState → List Text → Bool → Bool
unfolding validate_switchover_target switchover_overdue
switchover_in_flight now spec status observed known_diverged target_holds_lease =
    let target = status.target_primary in
    if is_empty target || text_eq target status.current_primary
    then false
    else if has target known_diverged
    then false
    else if is_valid (validate_switchover_target observed target)
    then true
    else if target_holds_lease
    then true
    else on_its_way (lookup target observed.instances) (switchover_overdue now spec status)

abbrev pub stale_hash : Text → Option Text → Bool
stale_hash operator_hash none = false
stale_hash operator_hash (some hash) = not (is_empty hash) && not (text_eq hash operator_hash)

unfoldable pub is_instance_hash_stale : Status → Text → Text → Bool
is_instance_hash_stale status name operator_hash =
    stale_hash operator_hash (lookup name status.executable_hash_by_instance)

-- PrimaryLeaseStatus: how long the lease is still held by the instance, `none` where it is not held.
abbrev pub lease_duration : Option ℕ → ℕ
lease_duration none = 15 * second
lease_duration (some seconds) = seconds * second

abbrev pub held_until : ℕ → ℕ → ℕ → Option ℕ
held_until now renewed duration =
    if leb (renewed + duration) now then none else some (renewed + duration - now)

abbrev pub held_by : ℕ → Text → Option Text → Option ℕ → Option ℕ → Option ℕ
held_by now holder (some identity) (some renewed) seconds =
    if not (text_eq identity holder) then none else held_until now renewed (lease_duration seconds)
held_by now holder (some identity) none seconds = none
held_by now holder none renewed seconds = none

abbrev pub lease_reply : {W : Type 0} → ℕ → Text → Fetched Lease → Act W (Option ℕ)
lease_reply now holder (fetched lease) p =
    (p, ok (held_by now holder lease.holder_identity lease.renew_time lease.duration_seconds))
lease_reply now holder not_found p = (p, ok none)
lease_reply now holder (fetch_failed e) p = (p, err false e)

-- The reconciler, with the calls that it makes and what stays the same in a pass.
module _ {W : Type 0} (api : Api W) (now : ℕ) (spec : Spec) where
  unfoldable pub primary_lease_status : Text → Act W (Option ℕ)
  primary_lease_status holder p =
      if not (on_by_default spec.enable_primary_lease)
      then (p, ok none)
      else lease_reply now holder (api.get_lease p.world) p

  unfoldable pub target_holds_promotion_lease : List Text → Act W Bool
  unfolding primary_lease_status switchover_overdue
  target_holds_promotion_lease known_diverged p =
      let target = p.status.target_primary in
      if is_empty target || text_eq target p.status.current_primary || has target known_diverged
      then (p, ok false)
      else (do
        lease ← primary_lease_status target
        pure (is_set lease && not (switchover_overdue now spec p.status)))
          p

  abbrev pub patch_reply : Status → W × Option Text → Pass W → Pass W × Outcome (Unit {0})
  patch_reply after (w, none) p = (record { world = w; status = after }, ok tt)
  patch_reply after (w, some e) p = (record { world = w; status = p.status }, err false e)

  abbrev pub patch_fetched : (Status → Status) → Fetched Status → Act W (Unit {0})
  patch_fetched mutate (fetched latest) p =
      patch_reply (mutate latest) (api.patch_status p.world latest (mutate latest)) p
  patch_fetched mutate not_found p = (p, err false (codes "not found"))
  patch_fetched mutate (fetch_failed e) p = (p, err false e)

  -- PatchClusterStatus: the status is read again, changed, and kept once it is written.
  unfoldable pub patch_cluster_status : (Status → Status) → Act W (Unit {0})
  patch_cluster_status mutate p = patch_fetched mutate (api.get_status p.world) p

  -- `client.IgnoreNotFound` of a deletion.
  abbrev pub delete_reply : W × Deletion → Act W (Unit {0})
  delete_reply (w, deleted) p = (record p { world = w }, ok tt)
  delete_reply (w, already_gone) p = (record p { world = w }, ok tt)
  delete_reply (w, delete_failed e) p = (record p { world = w }, err false e)

  -- A Pod that is kept: it is on its way out, or its fence was acknowledged.
  abbrev pub is_kept : Pod → Text → Status → Bool
  is_kept pod name status =
      is_set pod.deletion_timestamp
      || (text_eq pod.fencing (codes "true") && has name status.fenced_instances)

  abbrev pub fence_fetched : Text → Fetched Pod → Act W (Unit {0})
  fence_fetched name not_found p = (p, ok tt)
  fence_fetched name (fetch_failed e) p = (p, err false e)
  fence_fetched name (fetched pod) p =
      if is_kept pod name p.status then (p, ok tt) else delete_reply (api.delete_pod p.world name) p

  unfoldable pub fence_instance_pod : Text → Act W (Unit {0})
  fence_instance_pod name p = fence_fetched name (api.get_pod p.world name) p

  -- `time.Now().Truncate(time.Second)`.
  abbrev pub this_second : ℕ
  this_second = now - now % second

  abbrev pub or_stamp : Option ℕ → Act W (Unit {0}) → Act W ℕ
  or_stamp (some existing) stamp p = (p, ok existing)
  or_stamp none stamp p = bind (stamp p) (λ _. pure this_second)

  unfoldable pub record_primary_failing : Act W ℕ
  unfolding patch_cluster_status
  record_primary_failing p =
      or_stamp p.status.primary_failing_since
        (patch_cluster_status (λ s. record s { primary_failing_since = some this_second })) p

  unfoldable pub ensure_switchover_started : Act W ℕ
  unfolding patch_cluster_status
  ensure_switchover_started p =
      or_stamp p.status.target_primary_timestamp
        (patch_cluster_status (λ s. record s { target_primary_timestamp = some this_second })) p

  unfoldable pub record_primary_healthy : Act W (Unit {0})
  unfolding patch_cluster_status
  record_primary_healthy p =
      if not (is_set p.status.primary_failing_since) && is_set p.status.primary_healthy_since
      then (p, ok tt)
      else patch_cluster_status
          (λ s. record s { primary_failing_since = none; primary_healthy_since = some this_second })
          p
