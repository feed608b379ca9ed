-- ===== src/Quorum.antt =====
-- Quorum guards and quorum recovery of group replication:
-- internal/controller/groupreplication/cluster_quorum.go. A Go int is an int64 bit pattern.
pub mod Guards
pub mod Survivor
pub mod Forced
pub mod Lost
use cnmsql.Base.{
  ℕ, zero, suc, ◌+◌, ◌/◌, Bool, true, false, not, ◌||◌, if◌then◌else◌, List, [], ◌∷◌, ◌++◌, map,
  Option, none, some, Text, codes, text_eq, text_Eq, text_lt, is_empty, lookup, any, length, sort,
}
use cnmsql.Base.Int64.{lt64, le64, sub64, max64, min64}
use cnmsql.Failover.{get, has}
use cnmsql.Gtid.Texts.{gtid_contains}

pub record GroupMember : Type 0 where
  pub instance_name : Text
  pub state : Text
  pub role : Text
  pub reachable : Bool

pub record GroupReplication : Type 0 where
  pub has_quorum : Bool
  pub members : List GroupMember

-- The fields of a Cluster that the quorum logic reads.
pub record GroupCluster : Type 0 where
  pub instances : ℕ
  pub group_replication : Option GroupReplication
  pub current_primary : Text
  pub namespace : Text

abbrev pub online : Text
online = codes "ONLINE"

abbrev pub recovering : Text
recovering = codes "RECOVERING"

abbrev pub primary_role : Text
primary_role = codes "PRIMARY"

unfoldable pub quorum : ℕ → ℕ
quorum members = if le64 members 0 then 1 else members / 2 + 1

-- QuorumResult: a refusal, with the sizes that its message names.
pub record QuorumResult : Type 0 where
  pub blocked : Bool
  pub current_size : ℕ
  pub quorum_size : ℕ

abbrev pub is_active : GroupMember → Bool
is_active member = text_eq member.state online || text_eq member.state recovering

unfoldable pub count_active : List GroupMember → ℕ
count_active [] = 0
count_active (member ∷ members) =
    let rest = count_active members in if is_active member then suc rest else rest

abbrev pub is_member : Text → List GroupMember → Bool
is_member name = any (λ member. text_eq member.instance_name name)

unfoldable pub count_fenced : List Text → List GroupMember → ℕ
count_fenced [] members = 0
count_fenced (name ∷ fence_set) members =
    let rest = count_fenced fence_set members in if is_member name members then suc rest else rest

fence_guard : ℕ → Option GroupReplication → List Text → Option QuorumResult
unfolding count_active count_fenced
fence_guard q none fence_set = none
fence_guard q (some gr) fence_set =
    if lt64 (sub64 (count_active gr.members) (count_fenced fence_set gr.members)) q
    then some (record { blocked = true; current_size = count_active gr.members; quorum_size = q })
    else none

pub fence_quorum_guard : GroupCluster → List Text → Option QuorumResult
unfolding fence_guard quorum
fence_quorum_guard cluster fence_set =
    fence_guard (quorum cluster.instances) cluster.group_replication fence_set

-- The budget's maxUnavailable; its minAvailable is 0.
pub pdb_max_unavailable : GroupCluster → ℕ
unfolding quorum
pdb_max_unavailable cluster =
    min64 (max64 (sub64 cluster.instances (quorum cluster.instances)) 0) 2147483647

pub scale_down_quorum_guard : GroupCluster → Option QuorumResult
unfolding quorum
scale_down_quorum_guard cluster =
    let after = sub64 cluster.instances 1 in
    if le64 cluster.instances 1
    then some (record { blocked = true; current_size = cluster.instances; quorum_size = 1 })
    else if lt64 after (quorum after)
    then some
        (record { blocked = true; current_size = cluster.instances; quorum_size = quorum after })
    else none

-- `err != nil || !contained` is true exactly where this is false.
abbrev pub is_contained : Option Bool → Bool
is_contained none = false
is_contained (some contained) = contained

unfoldable pub dominates_all : GroupMember → Text → List GroupMember → List (Text × Text) → Bool
dominates_all candidate candidate_gtid [] gtids = true
dominates_all candidate candidate_gtid (other ∷ members) gtids =
    let rest = dominates_all candidate candidate_gtid members gtids in
    if text_eq other.instance_name candidate.instance_name
      || is_empty (get [] other.instance_name gtids)
    then rest
    else if is_contained (gtid_contains candidate_gtid (get [] other.instance_name gtids))
    then rest
    else false

unfoldable pub first_primary : List GroupMember → Option GroupMember
first_primary [] = none
first_primary (member ∷ members) =
    let rest = first_primary members in
    if text_eq member.role primary_role then some member else rest

unfoldable pub first_dominant :
    List GroupMember → List GroupMember → List (Text × Text) → Option GroupMember
unfolding dominates_all
first_dominant [] all gtids = none
first_dominant (candidate ∷ members) all gtids =
    let rest = first_dominant members all gtids in
    if is_empty (get [] candidate.instance_name gtids)
    then rest
    else if dominates_all candidate (get [] candidate.instance_name gtids) all gtids
    then some candidate
    else rest

abbrev pub or_else : Option GroupMember → Option GroupMember → Option GroupMember
or_else (some member) other = some member
or_else none other = other

unfoldable pub select_quorum_survivor : List GroupMember → List (Text × Text) → Option GroupMember
unfolding first_primary first_dominant
select_quorum_survivor [] gtids = none
select_quorum_survivor (member ∷ []) gtids = some member
select_quorum_survivor (member ∷ next ∷ members) gtids =
    or_else (first_primary (member ∷ next ∷ members))
      (first_dominant (member ∷ next ∷ members) (member ∷ next ∷ members) gtids)

unfoldable pub gtid_dominates_all : Text → List Text → Text → List (Text × Text) → Bool
gtid_dominates_all candidate_gtid [] candidate gtids = true
gtid_dominates_all candidate_gtid (other ∷ names) candidate gtids =
    let rest = gtid_dominates_all candidate_gtid names candidate gtids in
    if text_eq other candidate
    then rest
    else if is_contained (gtid_contains candidate_gtid (get [] other gtids))
    then rest
    else false

unfoldable pub first_rebootstrap : List Text → List Text → List (Text × Text) → Option Text
unfolding gtid_dominates_all
first_rebootstrap [] names gtids = none
first_rebootstrap (candidate ∷ candidates) names gtids =
    let rest = first_rebootstrap candidates names gtids in
    if is_empty (get [] candidate gtids)
    then rest
    else if gtid_dominates_all (get [] candidate gtids) names candidate gtids
    then some candidate
    else rest

abbrev pub names_of : List (Text × Text) → List Text
names_of gtids = map (λ entry. entry.0) gtids

unfoldable pub select_rebootstrap_survivor : List (Text × Text) → ℕ → Option Text
unfolding first_rebootstrap
select_rebootstrap_survivor gtids configured =
    if le64 configured 0 || lt64 (length gtids) configured
    then none
    else first_rebootstrap (sort text_lt (names_of gtids)) (sort text_lt (names_of gtids)) gtids

pub data RecoveryAction : Type 0 where
  force_members rebootstrap : RecoveryAction

-- memberAddress of cluster_provisioning.go, with the port of pkg/management/mysql/config.
pub member_address : Text → Text → Text
member_address name namespace = name ++ codes "." ++ namespace ++ codes ".svc:33061"

-- ForceQuorumRecovery.
pub record ForceQuorumRecovery : Type 0 where
  pub action : RecoveryAction
  pub survivor : Text
  pub forced : Text

abbrev pub compute_rebootstrap : Option Text → Option ForceQuorumRecovery
compute_rebootstrap none = none
compute_rebootstrap (some survivor) =
    some (record { action = RecoveryAction.rebootstrap; survivor = survivor; forced = [] })

pub online_members : List GroupMember → List GroupMember
online_members [] = []
online_members (member ∷ members) =
    let rest = online_members members in if text_eq member.state online then member ∷ rest else rest

pub force_to : Text → Option GroupMember → Option ForceQuorumRecovery
unfolding member_address
force_to namespace none = none
force_to namespace (some survivor) = some (record {
  action = RecoveryAction.force_members;
  survivor = survivor.instance_name;
  forced = member_address survivor.instance_name namespace;
})

unfoldable pub recover_lost :
    GroupCluster → List (Text × Text) → List GroupMember → Option ForceQuorumRecovery
unfolding select_quorum_survivor select_rebootstrap_survivor
recover_lost cluster gtids [] =
    if is_empty cluster.current_primary
    then compute_rebootstrap (select_rebootstrap_survivor gtids cluster.instances)
    else some (record {
      action = RecoveryAction.rebootstrap;
      survivor = cluster.current_primary;
      forced = [];
    })
recover_lost cluster gtids (member ∷ members) =
    force_to cluster.namespace (select_quorum_survivor (member ∷ members) gtids)

recover_group :
    GroupCluster → List (Text × Text) → Option GroupReplication → Option ForceQuorumRecovery
unfolding recover_lost online_members
recover_group cluster gtids none = none
recover_group cluster gtids (some gr) =
    if gr.has_quorum then none else recover_lost cluster gtids (online_members gr.members)

unfoldable pub compute_force_quorum_recovery :
    GroupCluster → List (Text × Text) → Option ForceQuorumRecovery
unfolding recover_group
compute_force_quorum_recovery cluster gtids = recover_group cluster gtids cluster.group_replication
