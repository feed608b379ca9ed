-- ===== src/Tests/Failover.antt =====
-- The failover election and the failover policy: internal/controller/async and internal/controller/topology.
use cnmsql.Base.{
  ℕ, ◌+◌, ◌≤◌, ◌≡◌, ◌⊎◌, inl, inr, Bool-cases, refl, Bool, true, false, List, [], ◌∷◌, none, some,
  Text, codes, arith, lookup, insert, nat_eq, text_Eq, text_eq, text_eq_iff, sort, is_empty,
}
use cnmsql.Base.Int64.{lt64, le64, sub64, add64, max64}
use cnmsql.Base.Split.{split, strip_spaces}
use cnmsql.Base.Decimal.{parse_uint32, parse_uint64, format_uint}
use cnmsql.Engine.Mariadb.{
  mariadb_gtid, mariadb_contains, mariadb_missing_count, mariadb_union, contains, missing_loop,
  merge, string, union_positions, parse_maria_pos, add_saturating,
}
use cnmsql.Failover.{Election, FailoverInstance, FailoverState, has}
use cnmsql.Failover.Measure.{transactions_behind, within_bound, writes_behind, within_lag_bound}
use cnmsql.Failover.Order.{order_by_preference, order_by_archive_continuity}
use cnmsql.Failover.Select.{select_failover_candidate, gather}
use cnmsql.Failover.Select.Candidates.{IsElectable}
use cnmsql.Failover.Select.Safety.{IsSafe, IsWithinBounds, Covers, counts_of, select-IsSafe}
use cnmsql.Failover.Select.Liveness.{compared, select-elects}
use cnmsql.Failover.Policy.{
  Cluster, FailoverPolicy, failover_cooldown_remaining, preferred_failback_target,
}
use cnmsql.Failover.Policy.Cooldown.{cooldown-settled}
use cnmsql.Failover.Policy.Targets.{IsMovable, IsFirstTarget, failback_target-IsFirstTarget}

abbrev instance_at : Bool → Bool → Text → FailoverInstance
instance_at primary replica gtid = record {
  ready = true;
  primary = primary;
  replica = replica;
  role = [];
  io_running = true;
  sql_running = true;
  gtid = gtid;
  retrieved_gtid = [];
  gtid_purged = [];
  heartbeat_age = some 7;
  in_place_upgrading = false;
}

abbrev observed : FailoverState
observed = record {
  primary_name = codes "p";
  instance_names = codes "p" ∷ codes "a" ∷ codes "b" ∷ [];
  instances =
      (codes "p", instance_at true false (codes "0-1-9"))
      ∷ (codes "a", instance_at false true (codes "0-1-7"))
      ∷ (codes "b", instance_at false true (codes "0-1-9"))
      ∷ [];
  fenced = [];
  diverged = [];
  terminating = [];
}

abbrev election : Election
election = record {
  observed = observed;
  known_diverged = [];
  gtid = mariadb_gtid;
  max_transactions_behind = some 5;
  archive_covered = [];
  preferred = codes "a" ∷ [];
  reference_gtid = codes "0-1-10";
  max_replication_lag = some 10;
  primary_down_for = 3;
  disowned = none;
}

elects : (select_failover_candidate election).reason ≡ none
unfolding select_failover_candidate mariadb_gtid mariadb_contains mariadb_missing_count
    mariadb_union contains missing_loop merge string union_positions parse_maria_pos strip_spaces
    split parse_uint32 parse_uint64 format_uint insert lookup text_eq sort lt64 le64 sub64 add64
    max64 transactions_behind within_bound writes_behind within_lag_bound order_by_preference
    order_by_archive_continuity add_saturating
elects = refl

select-IsSafe_example : IsSafe election (select_failover_candidate election)
select-IsSafe_example = select-IsSafe election elects

abbrev counts : List (Text × ℕ)
counts = (codes "a", 3) ∷ (codes "b", 1) ∷ []

counted : counts_of election ≡ some counts
unfolding gather mariadb_gtid mariadb_missing_count mariadb_union missing_loop merge string
    union_positions parse_maria_pos strip_spaces split parse_uint32 parse_uint64 format_uint insert
    lookup text_eq sort lt64 sub64 add64 transactions_behind add_saturating
counted = refl

newest-IsElectable : IsElectable election (codes "b")
unfolding lookup text_eq
newest-IsElectable = record {
  listed = refl;
  other_than_primary = refl;
  unfenced = refl;
  undiverged = refl;
  status = instance_at false true (codes "0-1-9");
  observed_as = refl;
  is_replica = refl;
  applies = refl;
  positioned = refl;
  owned = refl;
}

newest-IsWithinBounds : IsWithinBounds election counts (codes "b")
unfolding lookup text_eq le64 lt64 sub64 max64
newest-IsWithinBounds = record { electable = newest-IsElectable; admitted = refl; timely = refl }

one_listed :
    (other : Text)
    → has other (codes "p" ∷ codes "a" ∷ codes "b" ∷ []) ≡ true
    → text_eq other (codes "p") ≡ false
    → (text_eq other (codes "a") ≡ true) ⊎ (text_eq other (codes "b") ≡ true)
one_listed other l p = elim (Bool-cases (text_eq other (codes "a"))) [
  | inl e ↦ inl e
  | inr e ↦ inr (ground arith)
]

-- The candidates are "a" and "b".
one_of_two :
    (other : Text)
    → IsWithinBounds election counts other
    → (other ≡ codes "a") ⊎ (other ≡ codes "b")
one_of_two other w = elim (one_listed other w.electable.listed w.electable.other_than_primary) [
  | inl e ↦ inl ((text_eq_iff other (codes "a")).0 e)
  | inr e ↦ inr ((text_eq_iff other (codes "b")).0 e)
]

compared_all :
    ((compared election (codes "a") (codes "a") ≡ some true)
      × (compared election (codes "a") (codes "b") ≡ some false))
    × ((compared election (codes "b") (codes "a") ≡ some true)
        × (compared election (codes "b") (codes "b") ≡ some true))
unfolding mariadb_gtid mariadb_contains contains parse_maria_pos strip_spaces split parse_uint32
    parse_uint64 insert lookup text_eq
compared_all = ((refl, refl), (refl, refl))

both_compared :
    (a b : Text)
    → IsWithinBounds election counts a
    → IsWithinBounds election counts b
    → (x : Bool) × (compared election a b ≡ some x)
both_compared a b wa wb = choose (one_of_two a wa) (one_of_two b wb)
  where
    choose :
        (a ≡ codes "a") ⊎ (a ≡ codes "b")
        → (b ≡ codes "a") ⊎ (b ≡ codes "b")
        → (x : Bool) × (compared election a b ≡ some x)
    choose (inl p) (inl q) = rw (p, q) (true, compared_all.0.0)
    choose (inl p) (inr q) = rw (p, q) (false, compared_all.0.1)
    choose (inr p) (inl q) = rw (p, q) (true, compared_all.1.0)
    choose (inr p) (inr q) = rw (p, q) (true, compared_all.1.1)

newest-Covers :
    (other : Text)
    → IsWithinBounds election counts other
    → text_eq (codes "b") other ≡ false
    → Covers election (codes "b") other
newest-Covers other w n = elim (one_of_two other w) [
  | inl e ↦ rw e compared_all.1.0
  | inr e ↦ rw e compared_all.1.1
]

select-elects_example : (select_failover_candidate election).reason ≡ none
select-elects_example =
    select-elects election counts (codes "b") counted newest-IsWithinBounds newest-Covers
      both_compared

abbrev policy : FailoverPolicy
policy = record {
  max_transactions_behind = none;
  max_replication_lag = none;
  preferred_primary = codes "b" ∷ codes "a" ∷ [];
  min_time_between_failovers = some 60;
  primary_stability_window = some 30;
}

abbrev cluster : Cluster
cluster = record {
  failover_policy = some policy;
  current_primary = codes "p";
  target_primary = codes "p";
  diverged_instances = codes "b" ∷ [];
  last_failover_timestamp = some 100;
  primary_healthy_since = some 110;
  current_primary_timestamp = some 105;
}

cooled : failover_cooldown_remaining 200 cluster ≡ 0
unfolding failover_cooldown_remaining le64
cooled = refl

cooldown-settled_example :
    (110 + 30 + 60 ≤ 200)
    × ((elected : ℕ) → some 105 ≡ some elected → elected + 30 + 60 ≤ 200)
    × ((promoted : ℕ) → some 100 ≡ some promoted → promoted + 60 ≤ 200)
cooldown-settled_example =
    cooldown-settled 200 110 cluster (omega arith, omega arith) (omega arith, omega arith) refl
      (omega arith) cooled

accept : Text → Bool
accept name = true

found : is_empty (preferred_failback_target 200 cluster observed accept) ≡ false
unfolding preferred_failback_target le64 lookup text_eq accept
found = refl

failback_target-IsFirstTarget_example :
    IsMovable 200 cluster observed
    × IsFirstTarget cluster observed accept
        (codes "b" ∷ codes "a" ∷ [])
        (preferred_failback_target 200 cluster observed accept)
failback_target-IsFirstTarget_example =
    failback_target-IsFirstTarget 200 cluster observed accept found
