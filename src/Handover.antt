-- ===== src/Handover.antt =====
-- The change of the primary on asynchronous replication: internal/controller/async/cluster_failover.go,
-- cluster_switchover.go and cluster_primary_lease.go. The calls of the Kubernetes API are a parameter, `Api W` with
-- the state `W` of the cluster's objects. The clock is read once in a pass, `now`; a time is a number of
-- nanoseconds after the zero time. A message is the data that it prints. Events and log lines are left out.
pub mod Guards
pub mod Fencing
pub mod Inversion
pub mod Deferral
pub mod Election
pub mod Failover
pub mod Switchover
use cnmsql.Base.{ℕ, Bool, false, true, ◌||◌, ◌==◌, List, Option, none, some, Text, text_eq}
use cnmsql.Failover.{FailoverState, Reason}
use cnmsql.Failover.Policy
use cnmsql.Failover.Policy.{FailoverPolicy}

-- The fields of a Cluster that the primary change reads, by part. A delay is in seconds.
pub record Spec : Type 0 where
  pub flavor : Text
  pub failover_policy : Option FailoverPolicy
  pub max_switchover_delay : ℕ
  pub failover_delay : ℕ
  pub enable_failover : Option Bool
  pub enable_primary_lease : Option Bool
  pub enable_switchover_on_drain : Option Bool
  pub in_place_instance_manager_updates : Bool
  pub continuous_archiving : Option Bool
  pub has_backup_object_store : Bool

pub data Phase : Type 0 where
  ready blocked switchover degraded failing_over : Phase

-- The messages of the phases.
pub data Message : Type 0 where
  nothing all_ready : Message
  failover_disabled : Text → Message
  unreachable_waiting : Text → ℕ → Message
  too_recent : Text → ℕ → ℕ → Message
  cannot_fail_over : Text → Option Reason → Message
  lease_still_held : Text → Message
  failing_over_to : Text → Text → ℕ → Option ℕ → Message
  not_reporting not_ready not_a_replica not_replicating : Text → Message
  not_recorded : Text → ℕ → Message
  waiting_for_record waiting_for_promotion switching_over_to : Text → Message
  aborted : Text → ℕ → Message
  draining : Text → Text → Message

pub record Status : Type 0 where
  pub current_primary : Text
  pub target_primary : Text
  pub current_primary_timestamp : Option ℕ
  pub target_primary_timestamp : Option ℕ
  pub diverged_instances : List Text
  pub fenced_instances : List Text
  pub primary_failing_since : Option ℕ
  pub primary_healthy_since : Option ℕ
  pub last_failover_timestamp : Option ℕ
  pub gtid_executed_by_instance : List (Text × Text)
  pub executable_hash_by_instance : List (Text × Text)
  pub covered_gtid_set : Option Text
  pub phase : Phase
  pub phase_reason : Message

-- The part of the cluster that the failover policy reads.
abbrev pub policy_view : Spec → Status → Policy.Cluster
policy_view spec status = record {
  failover_policy = spec.failover_policy;
  current_primary = status.current_primary;
  target_primary = status.target_primary;
  diverged_instances = status.diverged_instances;
  last_failover_timestamp = status.last_failover_timestamp;
  primary_healthy_since = status.primary_healthy_since;
  current_primary_timestamp = status.current_primary_timestamp;
}

pub record Lease : Type 0 where
  pub holder_identity : Option Text
  pub renew_time : Option ℕ
  pub duration_seconds : Option ℕ

-- A Pod, with the value of its fencing annotation.
pub record Pod : Type 0 where
  pub deletion_timestamp : Option ℕ
  pub fencing : Text

pub data Fetched (A : Type 0) : Type 0 where
  fetched : A → Fetched A
  not_found : Fetched A
  fetch_failed : Text → Fetched A

pub data Deletion : Type 0 where
  deleted already_gone : Deletion
  delete_failed : Text → Deletion

-- The calls of the API: the status that a patch starts from comes before the one that it ends with.
pub record Api (W : Type 0) : Type 0 where
  pub get_lease : W → Fetched Lease
  pub get_pod : W → Text → Fetched Pod
  pub delete_pod : W → Text → W × Deletion
  pub get_status : W → Fetched Status
  pub patch_status : W → Status → Status → W × Option Text

-- An error comes with whether the pass claims to have been handled.
pub data Outcome (A : Type 0) : Type 0 where
  ok : A → Outcome A
  err : Bool → Text → Outcome A

-- What a pass changes: the objects, and its own copy of the status.
pub record Pass (W : Type 0) : Type 0 where
  pub world : W
  pub status : Status

abbrev pub Act : Type 0 → Type 0 → Type 0
Act W A = Pass W → Pass W × Outcome A

abbrev pub bind : {W A B : Type 0} → Pass W × Outcome A → (A → Act W B) → Pass W × Outcome B
bind (p, ok a) f = f a p
bind (p, err handled e) f = (p, err handled e)

infixl 5 ◌>>=◌ ◌>>◌
abbrev pub ◌>>=◌ : {W A B : Type 0} → Act W A → (A → Act W B) → Act W B
(m >>= f) p = bind (m p) f

abbrev pub ◌>>◌ : {W A B : Type 0} → Act W A → Act W B → Act W B
m >> k = m >>= λ _. k

abbrev pub pure : {W A : Type 0} → A → Act W A
pure a p = (p, ok a)

pub record OperationPhase : Type 0 where
  pub phase : Phase
  pub reason : Message
  pub progressing : Bool

pub record FailoverResult : Type 0 where
  pub handled : Bool
  pub requeue_after : ℕ
  pub phase : Option OperationPhase

-- FailoverResult{}.
abbrev pub no_result : FailoverResult
no_result = record { handled = false; requeue_after = 0; phase = none }

abbrev pub phase_result : ℕ → Phase → Message → FailoverResult
phase_result requeue_after phase reason = record {
  handled = true;
  requeue_after = requeue_after;
  phase = some (record { phase = phase; reason = reason; progressing = true });
}

-- The error of another handler's step claims the pass.
abbrev pub claimed : {W A : Type 0} → Pass W × Outcome A → Pass W × Outcome A
claimed (p, ok a) = (p, ok a)
claimed (p, err handled e) = (p, err true e)

abbrev pub claiming : {W A : Type 0} → Act W A → Act W A
claiming m p = claimed (m p)
