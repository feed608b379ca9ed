-- ===== src/Failover/Policy/Cooldown.antt =====
-- What the cooldown between automatic failovers waits for.
use mathlib.Core.Path.{subst}
use cnmsql.Base.{some_inj, ℕ, ◌+◌, ◌≤◌, ◌≡◌, false, Option, none, some, arith}
use cnmsql.Base.Int64.{le64, IsNonneg, le64-leb}
use cnmsql.Failover.Policy.{
  Cluster, healthy_since, primary_healthy_since, settled_at, primary_settled_at, remaining_of,
  failover_cooldown_remaining, min_time_between_failovers, primary_stability_window, or_zero,
}

-- A cooldown or a window that is set, as the API admits it.
abbrev pub IsPositive : ℕ → Type 0
IsPositive d = (1 ≤ d) × IsNonneg d

le64_positive : (d : ℕ) → IsPositive d → le64 d 0 ≡ false
le64_positive d h = rw (le64-leb d 0 h.1 (omega arith)) (ground arith)

settled_at-bounds :
    (settled window healthy : ℕ)
    → IsPositive window
    → 1 ≤ healthy
    → (settled ≤ settled_at settled window healthy)
      × (healthy + window ≤ settled_at settled window healthy)
settled_at-bounds settled window healthy hw hh =
    rw (le64_positive window hw) (ground arith, ground arith)

remaining_of-zero :
    (now cooldown settled : ℕ)
    → IsPositive cooldown
    → 1 ≤ settled
    → remaining_of now cooldown settled ≡ 0
    → settled + cooldown ≤ now
remaining_of-zero now cooldown settled hc hs h = ground (arith, rw (le64_positive cooldown hc) at h)

healthy_since-bounds : (since : ℕ) (elected : Option ℕ) → since ≤ healthy_since (some since) elected
healthy_since-bounds since none = omega arith
healthy_since-bounds since (some elected) = ground arith

since_elected :
    (since e : ℕ) (elected : Option ℕ) → elected ≡ some e → e ≤ healthy_since (some since) elected
since_elected since e none h = cc
since_elected since e (some e') h = ground (arith, some_inj h)

promoted-or_zero : (p : ℕ) (promoted : Option ℕ) → promoted ≡ some p → or_zero promoted ≡ p
promoted-or_zero p promoted h = rw h

-- With a cooldown and a stability window set, and a stamp recorded since which the current primary is healthy, no
-- cooldown is left only when the window and then the cooldown have passed since that stamp and since the
-- recorded election of the primary, and the cooldown since the recorded last failover.
pub cooldown-settled :
    (now since : ℕ) (cluster : Cluster)
    → IsPositive (min_time_between_failovers cluster.failover_policy)
    → IsPositive (primary_stability_window cluster.failover_policy)
    → cluster.primary_healthy_since ≡ some since
    → 1 ≤ since
    → failover_cooldown_remaining now cluster ≡ 0
    → (since
          + primary_stability_window cluster.failover_policy
          + min_time_between_failovers cluster.failover_policy
        ≤ now)
      × ((elected : ℕ)
          → cluster.current_primary_timestamp ≡ some elected
          → elected
              + primary_stability_window cluster.failover_policy
              + min_time_between_failovers cluster.failover_policy
            ≤ now)
      × ((promoted : ℕ)
          → cluster.last_failover_timestamp ≡ some promoted
          → promoted + min_time_between_failovers cluster.failover_policy ≤ now)
cooldown-settled now since cluster hc hw p hs h = (
  omega (arith, done, bounds.1, healthy_since-bounds since cluster.current_primary_timestamp),
  λ e q. omega (arith, done, bounds.1, since_elected since e cluster.current_primary_timestamp q),
  λ e q. omega (arith, done, bounds.0, promoted-or_zero e cluster.last_failover_timestamp q),
)
  where
    window : ℕ
    window = primary_stability_window cluster.failover_policy

    cooldown : ℕ
    cooldown = min_time_between_failovers cluster.failover_policy

    promoted : ℕ
    promoted = or_zero cluster.last_failover_timestamp

    healthy : ℕ
    healthy = healthy_since (some since) cluster.current_primary_timestamp

    bounds :
        (promoted ≤ settled_at promoted window healthy)
        × (healthy + window ≤ settled_at promoted window healthy)
    bounds =
        settled_at-bounds promoted window healthy hw
          (omega (arith, hs, healthy_since-bounds since cluster.current_primary_timestamp))

    open_remaining : remaining_of now cooldown (settled_at promoted window healthy) ≡ 0
    open_remaining =
        subst
          (λ s.
            remaining_of now cooldown
              (settled_at promoted window (healthy_since s cluster.current_primary_timestamp))
            ≡ 0)
          p (unfold failover_cooldown_remaining primary_settled_at primary_healthy_since in h)

    done : settled_at promoted window healthy + cooldown ≤ now
    done =
        remaining_of-zero now cooldown (settled_at promoted window healthy) hc
          (omega
            (arith, bounds.1, hs, healthy_since-bounds since cluster.current_primary_timestamp))
          open_remaining

settled_at-le : (settled window healthy : ℕ) → settled ≤ settled_at settled window healthy
settled_at-le settled window healthy = ground arith

-- With a cooldown set, none is left only once it has passed since the last failover.
pub cooldown-promoted :
    (now promoted : ℕ) (cluster : Cluster)
    → IsPositive (min_time_between_failovers cluster.failover_policy)
    → 1 ≤ promoted
    → cluster.last_failover_timestamp ≡ some promoted
    → failover_cooldown_remaining now cluster ≡ 0
    → promoted + min_time_between_failovers cluster.failover_policy ≤ now
unfolding failover_cooldown_remaining primary_settled_at
cooldown-promoted now promoted cluster hc hp e h = omega (arith, passed, later)
  where
    settled : ℕ
    settled =
        settled_at promoted (primary_stability_window cluster.failover_policy)
          (primary_healthy_since cluster)

    later : promoted ≤ settled
    later = settled_at-le promoted _ _

    passed : settled + min_time_between_failovers cluster.failover_policy ≤ now
    passed =
        remaining_of-zero now (min_time_between_failovers cluster.failover_policy) settled hc
          (omega (arith, hp, later))
          (subst
            (λ s.
              remaining_of now (min_time_between_failovers cluster.failover_policy) (
                settled_at (or_zero s) (primary_stability_window cluster.failover_policy)
                  (primary_healthy_since cluster))
              ≡ 0)
            e h)
