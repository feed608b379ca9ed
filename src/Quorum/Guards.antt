-- ===== src/Quorum/Guards.antt =====
-- When the quorum guards block.
use cnmsql.Base.{
  ℕ, ◌+◌, ◌-◌, ◌*◌, ◌/◌, ◌≤◌, ◌<◌, ◌≡◌, ◌↔◌, refl, false, none, some, Option, List, Text,
  if◌then◌else◌, arith, Bool-cases, inl, inr, ltb, leb,
}
use cnmsql.Base.Int64.{lt64, sub64, max64, min64, IsNonneg, le64-leb, lt64-ltb, sub64-sub}
use cnmsql.Quorum.{
  GroupCluster, GroupReplication, quorum, scale_down_quorum_guard, fence_quorum_guard, fence_guard,
  pdb_max_unavailable, count_active, count_fenced,
}

quorum_lem : (n : ℕ) → IsNonneg n → quorum n ≡ (if leb n 0 then 1 else n / 2 + 1)
unfolding quorum
quorum_lem n h = rw (le64-leb n 0 h (omega arith))

-- Two sets of a quorum each, among the members, have one in common; and the members are a quorum.
pub quorum-majority :
    (members : ℕ)
    → 1 ≤ members
    → IsNonneg members
    → (members < quorum members * 2) × (quorum members ≤ members)
quorum-majority members h n = rw (quorum_lem members n) (ground arith, ground arith)

quorum-le : (n : ℕ) → 1 ≤ n → IsNonneg n → (quorum n ≤ n) × (1 ≤ quorum n)
quorum-le n h b = rw (quorum_lem n b) (ground arith, ground arith)

-- The scale-down guard blocks exactly when at most one member is configured: with more, the members that stay
-- always are a quorum of themselves.
pub scale_down_guard_iff :
    (cluster : GroupCluster)
    → IsNonneg cluster.instances
    → (scale_down_quorum_guard cluster ≡ none) ↔ (2 ≤ cluster.instances)
unfolding scale_down_quorum_guard
scale_down_guard_iff cluster n = elim (Bool-cases (leb cluster.instances 1)) [
  | inl e ↦
      rw (le64-leb cluster.instances 1 n (omega arith), e) (λ h. cc, λ h. absurd (ground arith))
  | inr e ↦
      rw
        (
          le64-leb cluster.instances 1 n (omega arith),
          e,
          sub64-sub cluster.instances 1 n (ground arith),
          lt64-ltb (cluster.instances - 1) (quorum (cluster.instances - 1)) (omega arith)
              (omega (arith, (staying (ground arith)).0)),
          (staying (ground arith)).1,
        )
        (λ h. ground arith, λ h. refl)
]
  where
    staying :
        2 ≤ cluster.instances
        → (quorum (cluster.instances - 1) ≤ 9223372036854775807)
          × (ltb (cluster.instances - 1) (quorum (cluster.instances - 1)) ≡ false)
    staying h =
        let (l, o) = quorum-le (cluster.instances - 1) (omega arith) (omega (arith, n)) in
        (omega (arith, n), ground (arith, l))

quorum-bound : (n : ℕ) → n ≤ 4611686018427387903 → quorum n ≤ 4611686018427387904
quorum-bound n h = rw (quorum_lem n (omega arith)) (ground arith)

lt64-sub64 :
    (a f q : ℕ)
    → a ≤ 4611686018427387903
    → f ≤ 4611686018427387903
    → q ≤ 4611686018427387904
    → lt64 (sub64 a f) q ≡ ltb a (f + q)
unfolding lt64 sub64
lt64-sub64 a f q ha hf hq = ground arith

-- A group whose counts of members are below 2 ^ 62, if its status is known.
abbrev pub IsCountable : Option GroupReplication → List Text → Type 0
IsCountable none fence_set = Unit
IsCountable (some gr) fence_set =
    (count_active gr.members ≤ 4611686018427387903)
    × (count_fenced fence_set gr.members ≤ 4611686018427387903)

-- The active members, less those named that are members, are still a quorum.
abbrev pub KeepsQuorum : ℕ → Option GroupReplication → List Text → Type 0
KeepsQuorum instances none fence_set = Unit
KeepsQuorum instances (some gr) fence_set =
    quorum instances + count_fenced fence_set gr.members ≤ count_active gr.members

fence_guard_lem :
    (instances : ℕ) (group : Option GroupReplication) (fence_set : List Text)
    → instances ≤ 4611686018427387903
    → IsCountable group fence_set
    → (fence_guard (quorum instances) group fence_set ≡ none)
      ↔ KeepsQuorum instances group fence_set
unfolding fence_guard
fence_guard_lem instances none fence_set n c = (λ h. tt, λ h. refl)
fence_guard_lem instances (some gr) fence_set n (ha, hf) =
    rw
      (lt64-sub64 (count_active gr.members) (count_fenced fence_set gr.members) (quorum instances)
        ha hf (quorum-bound instances n))
      (elim (Bool-cases
        (ltb (count_active gr.members) (count_fenced fence_set gr.members + quorum instances))) [
          | inl e ↦ rw e (λ x. cc, λ x. absurd (ground arith))
          | inr e ↦ rw e (λ x. ground arith, λ x. refl)
        ])

-- The fence guard lets a fencing through exactly when the group's status is not known, or the active members, less
-- those named that are members, are still a quorum of the configured instances; for counts below 2 ^ 62. A
-- member counts as often as it is named.
pub fence_guard_iff :
    (cluster : GroupCluster) (fence_set : List Text)
    → cluster.instances ≤ 4611686018427387903
    → IsCountable cluster.group_replication fence_set
    → (fence_quorum_guard cluster fence_set ≡ none)
      ↔ KeepsQuorum cluster.instances cluster.group_replication fence_set
unfolding fence_quorum_guard
fence_guard_iff cluster fence_set n c =
    fence_guard_lem cluster.instances cluster.group_replication fence_set n c

pdb_round : (n q : ℕ) → q ≤ n → n ≤ 2147483647 → min64 (max64 (sub64 n q) 0) 2147483647 ≡ n - q
unfolding min64 max64
pdb_round n q h b =
    rw (sub64-sub n q (omega arith) h, lt64-ltb (n - q) 0 (omega arith) (omega arith))
      (elim (Bool-cases (ltb (n - q) 0)) [
        | inl e ↦ absurd (ground arith)
        | inr e ↦ rw (e, lt64-ltb 2147483647 (n - q) (omega arith) (omega arith)) (ground arith)
      ])

-- The members outside a disruption budget are exactly a quorum of the configured ones. (Up to 2 ^ 31 - 1 members.)
pdb-quorum :
    (cluster : GroupCluster)
    → 1 ≤ cluster.instances
    → cluster.instances ≤ 2147483647
    → quorum cluster.instances + pdb_max_unavailable cluster ≡ cluster.instances
unfolding pdb_max_unavailable
pdb-quorum cluster h n =
    let l = (quorum-le cluster.instances h (omega arith)).0 in
    rw (pdb_round cluster.instances (quorum cluster.instances) l n) (omega (arith, l))
