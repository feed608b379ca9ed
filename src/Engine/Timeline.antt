-- ===== src/Engine/Timeline.antt =====
-- The MariaDB timeline: pkg/engine/mariadb_timeline.go. The operations on it are methods of a list of epochs,
-- oldest first.
pub mod Verdicts
pub mod Pruning
pub mod Judgement
use cnmsql.Base.{
  ℕ, zero, suc, ◌-◌, ◌+◌, Bool, true, false, not, ◌&&◌, ◌||◌, ◌==◌, if◌then◌else◌, List, [], ◌∷◌,
  ◌++◌, map, Option, none, some, Text, ltb, leb, lookup, nat_eq, is_empty, length, any, sort,
  text_eq, text_lt,
}
use cnmsql.Base.Decimal.{parse_uint32, parse_uint64}
use cnmsql.Engine.Mariadb.{MariaEntry, MariaPos, parse_maria_pos}
use cnmsql.Gtid.Parse.{◌>>=◌}

pub record MariaDbGtid : Type 0 where
  pub domain : ℕ
  pub server : ℕ
  pub seq : ℕ

pub record MariaDbEpoch : Type 0 where
  pub server_id : ℕ
  pub handoff : Text

abbrev pub Timeline : Type 0
Timeline = List MariaDbEpoch

-- One epoch in one domain: where it starts, who wrote what it inherited, and who its primary is.
pub record Stretch : Type 0 where
  pub start : ℕ
  pub handoff_server : ℕ
  pub author : ℕ

abbrev stretch_at : Option MariaEntry → ℕ → Stretch
stretch_at none author = record { start = 0; handoff_server = 0; author = author }
stretch_at (some e) author = record { start = e.seq; handoff_server = e.server; author = author }

-- The loop of `domain`, from the start of the epoch before; `none` is a view that is not valid.
unfoldable pub view_from : ℕ → ℕ → Timeline → Option (List Stretch)
view_from domain previous [] = some []
view_from domain previous (epoch ∷ epochs) = do
  pos ← parse_maria_pos epoch.handoff
  let s = stretch_at (lookup domain pos) epoch.server_id
  rest ← view_from domain s.start epochs
  if ltb s.start previous then none else some (s ∷ rest)

abbrev first_of : List Stretch → Option Stretch
first_of [] = none
first_of (s ∷ rest) = some s

abbrev or_here :
    Option (Stretch × Option Stretch)
    → ℕ
    → Stretch
    → List Stretch
    → Option (Stretch × Option Stretch)
or_here (some found) seq s rest = some found
or_here none seq s rest = if ltb s.start seq then some (s, first_of rest) else none

-- `containing`: the last stretch that starts below the sequence number, with the one after it.
pub locate : ℕ → List Stretch → Option (Stretch × Option Stretch)
locate seq [] = none
locate seq (s ∷ rest) = or_here (locate seq rest) seq s rest

-- The verdict in the stretch that contains the transaction: on the timeline, and known.
judge_in : MariaDbGtid → Stretch × Option Stretch → Bool × Bool
judge_in g (s, none) = (g.server == s.author, true)
judge_in g (s, some next) =
    if not (next.handoff_server == s.author)
    then if g.seq == next.start then (g.server == next.handoff_server, true) else (false, false)
    else (g.server == s.author, true)

judge_located : MariaDbGtid → Option (Stretch × Option Stretch) → Bool × Bool
unfolding judge_in
judge_located g none = (false, false)
judge_located g (some found) = judge_in g found

verdict_in : MariaDbGtid → Option (List Stretch) → Bool × Bool
unfolding judge_located locate
verdict_in g none = (false, false)
verdict_in g (some stretches) = judge_located g (locate g.seq stretches)

-- `Verdict`. An empty timeline has an empty view.
unfoldable pub verdict : Timeline → MariaDbGtid → Bool × Bool
unfolding verdict_in view_from
verdict t g =
    if is_empty t || g.seq == 0 then (false, false) else verdict_in g (view_from g.domain 0 t)

pub record PruneResult : Type 0 where
  pub timeline : Timeline
  pub dropped : ℕ
  pub truncated : Bool
  pub pinned_by : List Text

abbrev is_at_most : Option MariaEntry → ℕ → Bool
is_at_most none seq = false
is_at_most (some floor) seq = leb seq floor.seq

-- Some domain of the position is at or below the floor.
pub sits_below : MariaPos → MariaPos → Bool
sits_below floor [] = false
sits_below floor ((domain, e) ∷ pos) =
    is_at_most (lookup domain floor) e.seq || sits_below floor pos

unfoldable pub pins : Option MariaPos → Option MariaPos → Bool
unfolding sits_below
pins none pos = true
pins (some floor) none = true
pins (some floor) (some pos) = sits_below floor pos

pinning : Option MariaPos → List (Text × Text) → List Text
unfolding pins
pinning floor [] = []
pinning floor ((name, raw) ∷ refs) =
    let rest = pinning floor refs in if pins floor (parse_maria_pos raw) then name ∷ rest else rest

unfoldable pub pinners : MariaDbEpoch → List (Text × Text) → List Text
unfolding pinning
pinners next refs = sort text_lt (pinning (parse_maria_pos next.handoff) refs)

-- The first loop of `PruneMariaDBTimeline`.
pub drop_unpinned : List (Text × Text) → Timeline → ℕ → Timeline × ℕ
drop_unpinned refs [] dropped = ([], dropped)
drop_unpinned refs (e ∷ []) dropped = (e ∷ [], dropped)
drop_unpinned refs (e ∷ next ∷ t) dropped =
    let rest = drop_unpinned refs (next ∷ t) (suc dropped) in
    if is_empty (pinners next refs) then rest else (e ∷ next ∷ t, dropped)

-- The names that are not in the list yet follow it.
add_names : List Text → List Text → List Text
add_names pinned [] = pinned
add_names pinned (name ∷ names) =
    add_names (if any (text_eq name) pinned then pinned else pinned ++ name ∷ []) names

-- The second loop. `ceiling` is not negative; 0 is no ceiling.
pub drop_above : ℕ → List (Text × Text) → Timeline → PruneResult → PruneResult
unfolding add_names
drop_above ceiling refs [] res = res
drop_above ceiling refs (e ∷ []) res = res
drop_above ceiling refs (e ∷ next ∷ t) res =
    let rest = drop_above ceiling refs (next ∷ t) (record {
      timeline = next ∷ t;
      dropped = suc res.dropped;
      truncated = true;
      pinned_by = add_names res.pinned_by (pinners next refs);
    }) in
    if ltb 0 ceiling && ltb ceiling (length (e ∷ next ∷ t)) then rest else res

sort_pinned : PruneResult → PruneResult
sort_pinned res = record res { pinned_by = sort text_lt res.pinned_by }

unfoldable pub prune_timeline : Timeline → List (Text × Text) → ℕ → PruneResult
unfolding drop_unpinned drop_above sort_pinned
prune_timeline t refs ceiling =
    let (kept, dropped) = drop_unpinned refs t 0 in
    sort_pinned (
      drop_above ceiling refs kept
        (record { timeline = kept; dropped = dropped; truncated = false; pinned_by = [] }))
