-- ===== src/Quorum/Lost.antt =====
-- What a group that lost its quorum is formed again from: ComputeForceQuorumRecovery of
-- internal/controller/groupreplication/cluster_quorum.go.
use cnmsql.Base.{
  ◌≤◌, ◌≡◌, ◌⊎◌, Bool, true, false, List, [], ◌∷◌, Text, text_eq, is_empty, length, any,
}
use cnmsql.Quorum.{
  GroupCluster, GroupMember, ForceQuorumRecovery, RecoveryAction, online, primary_role, names_of,
  member_address, online_members,
}
use cnmsql.Quorum.Forced.{IsAmong, IsAhead}
use cnmsql.Quorum.Survivor.{IsDominant}

abbrev is_online : GroupMember → Bool
is_online m = text_eq m.state online

-- The group is forced to one of its online members: the only one, or a primary, or one that is ahead of those online.
pub record IsMemberForced (cluster : GroupCluster) (gtids : List (Text × Text))
    (members : List GroupMember) (r : ForceQuorumRecovery) : Type 0 where
  pub member : GroupMember
  pub among : IsAmong member members
  pub reachable : is_online member ≡ true
  pub action : r.action ≡ RecoveryAction.force_members
  pub survivor : r.survivor ≡ member.instance_name
  pub address : r.forced ≡ member_address member.instance_name cluster.namespace
  pub chosen :
      (online_members members ≡ member ∷ [])
      ⊎ ((text_eq member.role primary_role ≡ true) ⊎ IsAhead (online_members members) gtids member)

-- No member is online, and the group is bootstrapped again from the recorded primary, or if there is none from a
-- member that dominates, with a position for as many as are configured.
pub record IsRebooted (cluster : GroupCluster) (gtids : List (Text × Text))
    (members : List GroupMember) (r : ForceQuorumRecovery) : Type 0 where
  pub offline : any is_online members ≡ false
  pub action : r.action ≡ RecoveryAction.rebootstrap
  pub chosen :
      ((is_empty cluster.current_primary ≡ false) × (r.survivor ≡ cluster.current_primary))
      ⊎ ((is_empty cluster.current_primary ≡ true)
          × (cluster.instances ≤ length gtids)
          × IsDominant (names_of gtids) gtids r.survivor)
