-- ===== src/Engine/Timeline/Judgement.antt =====
-- ParseMariaDBPosition and Judge: pkg/engine/mariadb_timeline.go.
use cnmsql.Base.{
  Bool, true, false, not, ◌&&◌, ◌||◌, ◌≡◌, refl, ap, ◌∙◌, if◌then◌else◌, List, [], ◌∷◌, Option,
  some, Text, ltb, any, any-sort, sort, arith,
}
use cnmsql.Gtid.Parse.{◌>>=◌}
use cnmsql.Engine.Mariadb.{MariaPos, parse_maria_pos}
use cnmsql.Engine.Timeline.{MariaDbGtid, Timeline, verdict}

gtids_of : MariaPos → List MariaDbGtid
gtids_of [] = []
gtids_of ((domain, e) ∷ pos) =
    record { domain = domain; server = e.server; seq = e.seq } ∷ gtids_of pos

abbrev domain_before : MariaDbGtid → MariaDbGtid → Bool
domain_before a b = ltb a.domain b.domain

-- `ParseMariaDBPosition`; an error is `none`.
unfoldable pub parse_mariadb_position : Text → Option (List MariaDbGtid)
unfolding gtids_of
parse_mariadb_position text = do
  pos ← parse_maria_pos text
  some (sort domain_before (gtids_of pos))

abbrev is_off : Bool × Bool → Bool
is_off v = v.1 && not v.0

-- The loop of `Judge`: on the timeline, and known.
judge_all : Timeline → List MariaDbGtid → Bool → Bool × Bool
judge_all t [] all_known = if not all_known then (false, false) else (true, true)
judge_all t (g ∷ gtids) all_known =
    let rest = judge_all t gtids (if not (verdict t g).1 then false else all_known) in
    if is_off (verdict t g) then (false, true) else rest

-- `Judge`.
unfoldable pub judge : Timeline → Text → Option (Bool × Bool)
unfolding judge_all
judge t text = do gtids ← parse_mariadb_position text; some (judge_all t gtids true)

-- Some domain of the position has a transaction that passes the test.
abbrev pub any_domain : (MariaDbGtid → Bool) → MariaPos → Bool
any_domain p [] = false
any_domain p ((domain, e) ∷ pos) =
    p (record { domain = domain; server = e.server; seq = e.seq }) || any_domain p pos

any-gtids_of : (p : MariaDbGtid → Bool) (pos : MariaPos) → any p (gtids_of pos) ≡ any_domain p pos
unfolding gtids_of
any-gtids_of p [] = refl
any-gtids_of p ((domain, e) ∷ pos) =
    ap (λ b. p (record { domain = domain; server = e.server; seq = e.seq }) || b)
      (any-gtids_of p pos)

judge_all_lem :
    (t : Timeline) (gtids : List MariaDbGtid) (all_known : Bool)
    → judge_all t gtids all_known ≡ (
        if any (λ g. is_off (verdict t g)) gtids
        then (false, true)
        else if any (λ g. not (verdict t g).1) gtids || not all_known
        then (false, false)
        else (true, true))
unfolding judge_all
judge_all_lem t [] all_known = refl
judge_all_lem t (g ∷ gtids) all_known =
    ground (arith, judge_all_lem t gtids false, judge_all_lem t gtids all_known)

-- A position that can be read is off the timeline if the verdict on some domain's transaction is that it is off;
-- else there is no verdict if some domain's has none; else the position is on the timeline.
pub judge-worst :
    (t : Timeline) (text : Text) (pos : MariaPos)
    → parse_maria_pos text ≡ some pos
    → judge t text
      ≡ some (
          if any_domain (λ g. (verdict t g).1 && not (verdict t g).0) pos
          then (false, true)
          else if any_domain (λ g. not (verdict t g).1) pos
          then (false, false)
          else (true, true))
unfolding judge parse_mariadb_position
judge-worst t text pos h = rw h (
    ground (
      arith,
      judge_all_lem t (sort domain_before (gtids_of pos)) true,
      settled is_off,
      settled (λ v. not v.1),
    ))
  where
    settled :
        (p : Bool × Bool → Bool)
        → any (λ g. p (verdict t g)) (sort domain_before (gtids_of pos))
          ≡ any_domain (λ g. p (verdict t g)) pos
    settled p =
        any-sort domain_before (λ g. p (verdict t g)) (gtids_of pos)
        ∙ any-gtids_of (λ g. p (verdict t g)) pos
