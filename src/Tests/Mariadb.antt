-- ===== src/Tests/Mariadb.antt =====
-- MariaDB positions and timelines: pkg/engine/gtid_mariadb.go and mariadb_timeline.go.
use cnmsql.Base.{
  false, true, not, ◌&&◌, if◌then◌else◌, ℕ, ◌≡◌, refl, [], ◌∷◌, some, Text, codes, min, lookup,
  insert, nat_eq,
}
use cnmsql.Base.Int64.{max_int64}
use cnmsql.Base.Split.{split, strip_spaces}
use cnmsql.Base.Decimal.{parse_uint32, parse_uint64}
use cnmsql.Engine.{Ordering}
use cnmsql.Engine.Mariadb.{
  MariaEntry, MariaPos, parse_maria_pos, mariadb_compare, mariadb_missing_count, mariadb_union,
  string,
}
use cnmsql.Engine.Mariadb.Meaning.{reached, shortfall}
use cnmsql.Engine.Mariadb.Texts.{
  Relates, mariadb_compare-Relates, mariadb_missing_count-shortfall, highest, mariadb_union-highest,
}
use cnmsql.Engine.Timeline.{
  MariaDbEpoch, Timeline, Stretch, view_from, pins, verdict, prune_timeline,
}
use cnmsql.Engine.Timeline.Verdicts.{verdict-unpinned}
use cnmsql.Engine.Timeline.Judgement.{judge, any_domain, judge-worst}
use cnmsql.Engine.Timeline.Pruning.{IsPruned, prune_timeline-IsPruned}

abbrev left_text : Text
left_text = codes "0-1-100, 1-5-42, 0-2-90"

abbrev right_text : Text
right_text = codes "0-2-120"

abbrev entry : ℕ → ℕ → MariaEntry
entry server seq = record { server = server; seq = seq }

abbrev left : MariaPos
left = (0, entry 1 100) ∷ (1, entry 5 42) ∷ []

abbrev right : MariaPos
right = (0, entry 2 120) ∷ []

left_parsed : parse_maria_pos left_text ≡ some left
unfolding parse_maria_pos strip_spaces split parse_uint32 parse_uint64 insert lookup
left_parsed = refl

right_parsed : parse_maria_pos right_text ≡ some right
unfolding parse_maria_pos strip_spaces split parse_uint32 parse_uint64 insert lookup
right_parsed = refl

mariadb_compare-Relates_example :
    (o : Ordering) × (mariadb_compare left_text right_text ≡ some o) × Relates o left right
mariadb_compare-Relates_example =
    mariadb_compare-Relates left_text right_text left_parsed right_parsed

mariadb_missing_count-shortfall_example :
    mariadb_missing_count left_text right_text ≡ some (min max_int64 (shortfall left right))
mariadb_missing_count-shortfall_example =
    mariadb_missing_count-shortfall left_text right_text left_parsed right_parsed

mariadb_union-highest_example :
    (out : MariaPos) × (mariadb_union (left_text ∷ right_text ∷ []) ≡ some (string out))
    × ((k : ℕ) → reached out k ≡ highest (left ∷ right ∷ []) k)
mariadb_union-highest_example =
    mariadb_union-highest (left_text ∷ right_text ∷ []) (left ∷ right ∷ [])
      (left_parsed, (right_parsed, tt))

abbrev epoch : ℕ → Text → MariaDbEpoch
epoch server handoff = record { server_id = server; handoff = handoff }

abbrev newer : Timeline
newer = epoch 3 (codes "0-2-9") ∷ []

abbrev timeline : Timeline
timeline = epoch 1 [] ∷ epoch 2 (codes "0-1-5") ∷ newer

abbrev stretch : ℕ → ℕ → ℕ → Stretch
stretch start inherited author = record {
  start = start;
  handoff_server = inherited;
  author = author;
}

timeline_view : view_from 0 0 timeline ≡ some (stretch 0 0 1 ∷ stretch 5 1 2 ∷ stretch 9 2 3 ∷ [])
unfolding view_from parse_maria_pos strip_spaces split parse_uint32 parse_uint64 insert lookup
timeline_view = refl

floor_parsed : parse_maria_pos (codes "0-1-5") ≡ some ((0, entry 1 5) ∷ [])
unfolding parse_maria_pos strip_spaces split parse_uint32 parse_uint64 insert lookup
floor_parsed = refl

reference_free : pins (some ((0, entry 1 5) ∷ [])) (some ((0, entry 2 8) ∷ [])) ≡ false
unfolding pins lookup
reference_free = refl

abbrev reference : MariaPos
reference = (0, entry 2 8) ∷ []

reference_found : lookup 0 reference ≡ some (entry 2 8)
unfolding lookup
reference_found = refl

verdict-unpinned_example :
    verdict timeline (record { domain = 0; server = 2; seq = 8 })
    ≡ verdict (epoch 2 (codes "0-1-5") ∷ newer) (record { domain = 0; server = 2; seq = 8 })
verdict-unpinned_example =
    verdict-unpinned (epoch 1 []) (epoch 2 (codes "0-1-5")) newer ((0, entry 1 5) ∷ [])
      ((0, entry 2 8) ∷ []) 0 (entry 2 8) timeline_view floor_parsed reference_free reference_found

prune_timeline-IsPruned_example :
    IsPruned timeline
      ((codes "r", codes "0-2-8") ∷ [])
      1
      (prune_timeline timeline ((codes "r", codes "0-2-8") ∷ []) 1)
prune_timeline-IsPruned_example =
    prune_timeline-IsPruned timeline ((codes "r", codes "0-2-8") ∷ []) 1

judge-worst_example :
    judge timeline right_text
    ≡ some (
        if any_domain (λ g. (verdict timeline g).1 && not (verdict timeline g).0) right
        then (false, true)
        else if any_domain (λ g. not (verdict timeline g).1) right
        then (false, false)
        else (true, true))
judge-worst_example = judge-worst timeline right_text right right_parsed
