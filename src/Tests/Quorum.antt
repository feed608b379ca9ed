-- ===== src/Tests/Quorum.antt =====
-- Quorum guards and quorum recovery: internal/controller/groupreplication/cluster_quorum.go.
use cnmsql.Base.{
  ◌⊎◌, ◌≤◌, ◌≡◌, ◌↔◌, refl, true, false, List, [], ◌∷◌, none, some, Text, codes, arith, sort,
  text_lt, text_eq, text_Eq, lookup, insert, to_lower,
}
use cnmsql.Base.Int64.{lt64, le64, add64}
use cnmsql.Base.Split.{split, strip_spaces, cut}
use cnmsql.Base.Decimal.{parse_int64}
use cnmsql.Gtid.Interval.{intervals_cover, normalize_intervals}
use cnmsql.Gtid.Parse.{parse_gtid_set, parse_interval}
use cnmsql.Gtid.Set.{slot, contains}
use cnmsql.Gtid.Texts.{gtid_contains}
use cnmsql.Quorum.{
  GroupCluster, GroupMember, GroupReplication, fence_quorum_guard, scale_down_quorum_guard,
  count_active, count_fenced, online, primary_role, select_rebootstrap_survivor,
  select_quorum_survivor, ForceQuorumRecovery, RecoveryAction,
}
use cnmsql.Quorum.Guards.{KeepsQuorum, fence_guard_iff, scale_down_guard_iff}
use cnmsql.Quorum.Forced.{IsAmong, IsAhead, quorum_survivor-IsAmong}

abbrev online_member : Text → GroupMember
online_member name = record {
  instance_name = name;
  state = online;
  role = primary_role;
  reachable = true;
}

abbrev secondary : Text → GroupMember
secondary name = record {
  instance_name = name;
  state = online;
  role = codes "SECONDARY";
  reachable = true;
}

abbrev group : GroupReplication
group = record {
  has_quorum = true;
  members = online_member (codes "a") ∷ online_member (codes "b") ∷ [];
}

abbrev cluster : GroupCluster
cluster = record {
  instances = 3;
  group_replication = some group;
  current_primary = codes "a";
  namespace = codes "n";
}

active_bound : count_active group.members ≤ 4611686018427387903
unfolding count_active text_eq
active_bound = omega arith

fenced_bound : count_fenced (codes "b" ∷ []) group.members ≤ 4611686018427387903
unfolding count_fenced text_eq
fenced_bound = omega arith

fence_guard_iff_example :
    (fence_quorum_guard cluster (codes "b" ∷ []) ≡ none)
    ↔ KeepsQuorum 3 (some group) (codes "b" ∷ [])
fence_guard_iff_example =
    fence_guard_iff cluster (codes "b" ∷ []) (omega arith) (active_bound, fenced_bound)

scale_down_guard_iff_example : (scale_down_quorum_guard cluster ≡ none) ↔ (2 ≤ 3)
scale_down_guard_iff_example = scale_down_guard_iff cluster (omega arith)

abbrev positions : List (Text × Text)
positions = (codes "x", codes "a:1-5") ∷ (codes "y", codes "a:1-9") ∷ []

survivor_found : select_rebootstrap_survivor positions 2 ≡ some (codes "y")
unfolding select_rebootstrap_survivor le64 lt64 sort text_lt lookup text_eq gtid_contains
    parse_gtid_set strip_spaces split to_lower parse_interval cut parse_int64 contains insert
    normalize_intervals add64 intervals_cover slot
survivor_found = refl

-- A group with no member online, and no primary recorded.
abbrev lost_group : GroupReplication
lost_group = record {
  has_quorum = false;
  members =
      record (secondary (codes "x")) { state = codes "OFFLINE" }
      ∷ record (secondary (codes "y")) { state = codes "OFFLINE" }
      ∷ [];
}

abbrev lost_cluster : GroupCluster
lost_cluster = record {
  instances = 2;
  group_replication = some lost_group;
  current_primary = [];
  namespace = codes "n";
}

abbrev rebooted : ForceQuorumRecovery
rebooted = record { action = RecoveryAction.rebootstrap; survivor = codes "y"; forced = [] }

forced_found :
    select_quorum_survivor (secondary (codes "x") ∷ secondary (codes "y") ∷ []) positions
    ≡ some (secondary (codes "y"))
unfolding select_quorum_survivor lookup text_eq gtid_contains parse_gtid_set strip_spaces split
    to_lower parse_interval cut parse_int64 contains insert normalize_intervals lt64 le64
    intervals_cover slot
forced_found = refl

quorum_survivor-IsAmong_example :
    IsAmong (secondary (codes "y")) (secondary (codes "x") ∷ secondary (codes "y") ∷ [])
    × ((secondary (codes "x") ∷ secondary (codes "y") ∷ [] ≡ secondary (codes "y") ∷ [])
        ⊎ ((text_eq (codes "SECONDARY") primary_role ≡ true)
            ⊎ IsAhead
                (secondary (codes "x") ∷ secondary (codes "y") ∷ [])
                positions
                (secondary (codes "y"))))
quorum_survivor-IsAmong_example =
    quorum_survivor-IsAmong (secondary (codes "x") ∷ secondary (codes "y") ∷ []) positions
      (secondary (codes "y")) forced_found
