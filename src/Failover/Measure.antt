-- ===== src/Failover/Measure.antt =====
-- How far behind the candidates are: transactionsBehind, withinBound, writesBehind, withinLagBound and
-- lagBlockReason of internal/controller/async/cluster_failover.go.
use cnmsql.Base.{
  ℕ, Bool, false, ◌||◌, ◌==◌, if◌then◌else◌, List, [], ◌∷◌, Option, none, some, Text, text_Eq,
  is_empty,
}
use cnmsql.Base.Int64.{lt64, le64, sub64, max64}
use cnmsql.Engine.{GtidModel}
use cnmsql.Failover.{FailoverState, Reason, get, no_instance}
use cnmsql.Gtid.Parse.{◌>>=◌}

module _ (observed : FailoverState) (gtid : GtidModel) where
  -- The positions that the candidates hold, applied or not.
  unfoldable pub held_positions : List Text → Option (List (Text × Text))
  held_positions [] = some []
  held_positions (name ∷ names) = do
    union ← gtid.union (
        (get no_instance name observed.instances).gtid
        ∷ (get no_instance name observed.instances).retrieved_gtid
        ∷ [])
    rest ← held_positions names
    some ((name, union) ∷ rest)

  unfoldable pub positions_of : List (Text × Text) → List Text
  positions_of [] = []
  positions_of ((name, union) ∷ held) = union ∷ positions_of held

  unfoldable pub count_missing : Text → List (Text × Text) → Option (List (Text × ℕ))
  count_missing reference [] = some []
  count_missing reference ((name, union) ∷ held) = do
    missing ← gtid.missing_count union reference
    rest ← count_missing reference held
    some ((name, missing) ∷ rest)

  unfoldable pub transactions_behind : List Text → Text → Option (List (Text × ℕ))
  unfolding held_positions positions_of count_missing
  transactions_behind candidates reference_gtid = do
    held ← held_positions candidates
    reference ← gtid.union (reference_gtid ∷ positions_of held)
    count_missing reference held

unfoldable pub within : (Text → Bool) → List Text → List Text
within p [] = []
within p (name ∷ names) = let rest = within p names in if p name then name ∷ rest else rest

unfoldable pub within_bound : List Text → List (Text × ℕ) → Option ℕ → List Text
unfolding within
within_bound candidates behind none = candidates
within_bound candidates behind (some max_behind) =
    within (λ name. le64 (get 0 name behind) max_behind) candidates

-- `slices.MinFunc(candidates, ...)` past its first element.
pub closest_of : List (Text × ℕ) → Text → List Text → Text
closest_of behind best [] = best
closest_of behind best (name ∷ names) =
    closest_of behind
      (if lt64 (sub64 (get 0 name behind) (get 0 best behind)) 0 then name else best) names

abbrev pub lost_writes : Option ℕ → ℕ → ℕ → Option ℕ
lost_writes age missing primary_down_for = if missing == 0 then some 0 else after age
  where
    after : Option ℕ → Option ℕ
    after none = none
    after (some a) = some (max64 (sub64 a primary_down_for) 0)

unfoldable pub writes_behind :
    FailoverState → List Text → List (Text × ℕ) → ℕ → List (Text × Option ℕ)
writes_behind observed [] behind primary_down_for = []
writes_behind observed (name ∷ names) behind primary_down_for =
    (
      name,
      lost_writes (get no_instance name observed.instances).heartbeat_age (get 0 name behind)
          primary_down_for,
    )
    ∷ writes_behind observed names behind primary_down_for

abbrev pub is_within_lag : Option ℕ → ℕ → Bool
is_within_lag none max_lag = false
is_within_lag (some lost) max_lag = le64 lost max_lag

unfoldable pub within_lag_bound : List Text → List (Text × Option ℕ) → Option ℕ → List Text
unfolding within
within_lag_bound candidates time_behind none = candidates
within_lag_bound candidates time_behind (some max_lag) =
    within (λ name. is_within_lag (get none name time_behind) max_lag) candidates

is_closer : Option ℕ → Option ℕ → Bool
is_closer none best = false
is_closer (some lost) none = false
is_closer (some lost) (some best) = lt64 lost best

-- The candidate with the least loss among those measured; "" before the first of them.
closest_in_time : List (Text × Option ℕ) → Text → List Text → Text
unfolding is_closer
closest_in_time time_behind closest [] = closest
closest_in_time time_behind closest (name ∷ names) = elim (get none name time_behind) [
  | none ↦ closest_in_time time_behind closest names
  | some lost ↦
      closest_in_time time_behind
        (if is_empty closest || is_closer (some lost) (get none closest time_behind)
          then name
          else closest)
        names
]

pub lag_block_reason : List Text → List (Text × Option ℕ) → Option ℕ → Reason
unfolding closest_in_time
lag_block_reason candidates time_behind max_lag =
    let closest = closest_in_time time_behind [] candidates in
    if is_empty closest
    then Reason.lag_not_measured max_lag
    else Reason.too_many_writes_behind closest (get none closest time_behind) max_lag
