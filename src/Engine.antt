-- ===== src/Engine.antt =====
-- Positions of an engine's replication history: pkg/engine/gtid.go.
pub mod Mysql
pub mod Mariadb
pub mod Timeline
use cnmsql.Base.{ℕ, Bool, true, false, Option, none, some, List, Text}

-- How a position relates to another.
pub data Ordering : Type 0 where
  equal ahead behind diverged : Ordering

unfoldable pub ordering_from_containment : Bool → Bool → Ordering
ordering_from_containment true true = equal
ordering_from_containment true false = ahead
ordering_from_containment false true = behind
ordering_from_containment false false = diverged

-- GTIDModel: the operations on position strings that the rest of the operator calls. `none` is an
-- error, such as a position that cannot be parsed.
pub record GtidModel : Type 0 where
  pub contains : Text → Text → Option Bool
  pub missing_count : Text → Text → Option ℕ
  pub union : List Text → Option Text
  pub equal : Text → Text → Option Bool
  pub compare : Text → Text → Option Ordering
  pub is_empty : Text → Option Bool
  pub canonical : Text → Option Text
