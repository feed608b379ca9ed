-- ===== src/Version/Upgrade.antt =====
-- CheckUpgrade: pkg/management/mysql/version/version.go.
use cnmsql.Base.{ℕ, true, ◌≡◌, ◌⊎◌, ◌↔◌, inl, inr, List, [], ◌∷◌, Option, none, some, arith}
use cnmsql.Base.Int64.{lt64, lt64_trans, lt64_irrefl}
use cnmsql.Version.{
  Version, series, series_index, index_of, entry_at, version_eq, upgrade_series_chain,
  check_upgrade, check_hop, at_least, skips,
}

-- The release series of two versions are the same.
abbrev pub IsSameSeries : Version → Version → Type 0
IsSameSeries v w = (v.major ≡ w.major) × (v.minor ≡ w.minor)

-- Neighbours in a chain of series.
abbrev pub IsHop : List Version → Version → Version → Type 0
IsHop [] v w = ⊥
IsHop (s ∷ []) v w = ⊥
IsHop (s ∷ t ∷ chain) v w = (IsSameSeries s v × IsSameSeries t w) ⊎ IsHop (t ∷ chain) v w

-- CheckUpgrade returns nil exactly when the series of the two versions are the same, or are neighbours in the
-- chain of the supported ones, the older one first.
pub check_upgrade_iff :
    (from to : Version)
    → (check_upgrade from to ≡ none) ↔ (IsSameSeries from to ⊎ IsHop upgrade_series_chain from to)
unfolding check_upgrade check_hop series series_index index_of version_eq entry_at
check_upgrade_iff from to = ground arith

-- The series that CheckUpgrade names on a skip exists; going there first is accepted, and so is going on from
-- there to the target.
pub check_upgrade-hint :
    (from to : Version) (entry : Option Version)
    → check_upgrade from to ≡ some (skips entry)
    → (next : Version) × (entry ≡ some next)
      × (check_upgrade from next ≡ none)
      × (check_upgrade next to ≡ none)
unfolding check_upgrade check_hop series series_index index_of version_eq entry_at
check_upgrade-hint from to entry h =
    (record { major = 8; minor = 4; patch = 0 }, ground arith, ground arith, ground arith)

chain_ordered : (lt64 8 9 ≡ true) × (lt64 0 4 ≡ true)
unfolding lt64
chain_ordered = (ground arith, ground arith)

-- A later series passes each version test that an earlier one passes.
IsHop-at_least :
    (from to : Version) (major minor patch : ℕ)
    → IsHop upgrade_series_chain from to
    → at_least from major minor patch ≡ true
    → at_least to major minor patch ≡ true
unfolding at_least
IsHop-at_least from to major minor patch h p =
    ground (
      arith,
      lt64_trans major 8 9,
      lt64_trans minor 0 4,
      lt64_irrefl 9,
      lt64_irrefl 4,
      chain_ordered,
    )

-- Along an accepted upgrade to another series, a version that AtLeast finds reached before is reached after.
pub check_upgrade-at_least :
    (from to : Version) (major minor patch : ℕ)
    → check_upgrade from to ≡ none
    → (IsSameSeries from to → ⊥)
    → at_least from major minor patch ≡ true
    → at_least to major minor patch ≡ true
check_upgrade-at_least from to major minor patch h d p = elim ((check_upgrade_iff from to).0 h) [
  | inl s ↦ absurd (d s)
  | inr s ↦ IsHop-at_least from to major minor patch s p
]
