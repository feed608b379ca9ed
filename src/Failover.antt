-- ===== src/Failover.antt =====
-- Automatic failover on asynchronous replication: the observed state of
-- internal/controller/topology/reconciler.go and the election and the failback built on it.
pub mod Measure
pub mod Order
pub mod Select
pub mod Policy
use cnmsql.Base.{
  ℕ, Bool, false, ◌||◌, List, [], Option, none, some, Text, text_eq, text_Eq, lookup, any,
}
use cnmsql.Engine.{GtidModel}
use cnmsql.Gtid.Set.{GtidSet}

pub record FailoverInstance : Type 0 where
  pub ready : Bool
  pub primary : Bool
  pub replica : Bool
  pub role : Text
  pub io_running : Bool
  pub sql_running : Bool
  pub gtid : Text
  pub retrieved_gtid : Text
  pub gtid_purged : Text
  pub heartbeat_age : Option ℕ
  pub in_place_upgrading : Bool

-- The zero value, which a map yields for a missing key.
abbrev pub no_instance : FailoverInstance
no_instance = record {
  ready = false;
  primary = false;
  replica = false;
  role = [];
  io_running = false;
  sql_running = false;
  gtid = [];
  retrieved_gtid = [];
  gtid_purged = [];
  heartbeat_age = none;
  in_place_upgrading = false;
}

pub record FailoverState : Type 0 where
  pub primary_name : Text
  pub instance_names : List Text
  pub instances : List (Text × FailoverInstance)
  pub fenced : List Text
  pub diverged : List Text
  pub terminating : List Text

abbrev or_else {ℓ} : {A : Type ℓ} → A → Option A → A
or_else a none = a
or_else a (some b) = b

-- `m[key]` on a map whose zero value is given.
abbrev pub get {ℓ} : {A : Type ℓ} → A → Text → List (Text × A) → A
get zero_value key m = or_else zero_value (lookup key m)

-- `slices.Contains(names, name)`.
abbrev pub has : Text → List Text → Bool
has name = any (text_eq name)

-- Election: durations and counts are int64 bit patterns; `none` is a nil pointer or set.
pub record Election : Type 1 where
  pub observed : FailoverState
  pub known_diverged : List Text
  pub gtid : GtidModel
  pub max_transactions_behind : Option ℕ
  pub archive_covered : Text
  pub preferred : List Text
  pub reference_gtid : Text
  pub max_replication_lag : Option ℕ
  pub primary_down_for : ℕ
  pub disowned : Option GtidSet

-- The messages that a refused election gives.
pub data Reason : Type 0 where
  every_replica_diverged no_healthy_replica measuring_failed : Reason
  too_many_transactions_behind : Text → ℕ → Option ℕ → Reason
  lag_not_measured : Option ℕ → Reason
  too_many_writes_behind : Text → Option ℕ → Option ℕ → Reason
  comparing_failed no_candidate_dominates : Reason

pub record FailoverCandidate : Type 0 where
  pub name : Text
  pub transactions_behind : ℕ
  pub time_behind : Option ℕ
  pub reason : Option Reason
