-- ===== src/Engine/Timeline/Verdicts.antt =====
-- Which verdicts survive that the oldest epoch is dropped.
use cnmsql.Base.{
  ℕ, ◌≤◌, ◌<◌, lt→ltb, ◌≡◌, refl, sym, ap, ◌∙◌, Bool, true, false, List, [], ◌∷◌, Option, none,
  some, some_inj, if◌then◌else◌, ltb, ◌==◌, ==_iff, lookup, nat_eq, arith, Bool-cases, inl, inr,
  ◌||◌,
}
use cnmsql.Engine.Mariadb.{MariaEntry, MariaPos, parse_maria_pos}
use cnmsql.Engine.Timeline.{
  MariaDbGtid, MariaDbEpoch, Timeline, Stretch, view_from, stretch_at, locate, or_here, first_of,
  judge_located, verdict_in, verdict, sits_below, pins, is_at_most,
}
use cnmsql.Gtid.Parse.Sound.{>>=-eq-some}

-- The view of a domain without its oldest epoch is the rest of the view.
view_from-tail :
    (d previous : ℕ) (e : MariaDbEpoch) (t : Timeline) {view : List Stretch}
    → view_from d previous (e ∷ t) ≡ some view
    → (s : Stretch) × (rest : List Stretch) × (view ≡ s ∷ rest)
      × (view_from d s.start t ≡ some rest)
unfolding view_from
view_from-tail d previous e t {view} h =
    let (pos, pe, h') = >>=-eq-some (parse_maria_pos e.handoff) _ h in
    let s = stretch_at (lookup d pos) e.server_id in
    let (rest, re, checked) = >>=-eq-some (view_from d s.start t) _ h' in
    (s, rest, ordered (ltb s.start previous) s rest checked, re)
  where
    ordered :
        (b : Bool) (s : Stretch) (rest : List Stretch)
        → (if b then none else some (s ∷ rest)) ≡ some view
        → view ≡ s ∷ rest
    ordered true s rest q = cc
    ordered false s rest q = sym (some_inj q)

view_from-zero :
    (d previous : ℕ) (t : Timeline) {view : List Stretch}
    → view_from d previous t ≡ some view
    → view_from d 0 t ≡ some view
unfolding view_from
view_from-zero d previous [] h = h
view_from-zero d previous (e ∷ t) {view} h =
    let (pos, pe, h') = >>=-eq-some (parse_maria_pos e.handoff) _ h in
    let (rest, re, checked) =
      >>=-eq-some (view_from d (stretch_at (lookup d pos) e.server_id).start t) _ h' in
    rw (pe, re, ltb_zero (stretch_at (lookup d pos) e.server_id).start)
      (ordered (ltb (stretch_at (lookup d pos) e.server_id).start previous) checked)
  where
    ltb_zero : (n : ℕ) → ltb n 0 ≡ false
    ltb_zero n = ground arith

    ordered :
        (b : Bool) {o : List Stretch}
        → (if b then none else some o) ≡ some view
        → some o ≡ some view
    ordered true q = cc
    ordered false q = q

locate-found :
    (seq : ℕ) (s : Stretch) (rest : List Stretch)
    → s.start < seq
    → (found : Stretch × Option Stretch) × (locate seq (s ∷ rest) ≡ some found)
unfolding locate
locate-found seq s rest h = step (locate seq rest)
  where
    step :
        (o : Option (Stretch × Option Stretch))
        → (found : Stretch × Option Stretch) × (or_here o seq s rest ≡ some found)
    step none = ((s, first_of rest), rw (lt→ltb s.start seq h))
    step (some found) = (found, refl)

-- Where an epoch with this entry in a domain starts.
abbrev pub start_of : Option MariaEntry → ℕ
start_of none = 0
start_of (some e) = e.seq

view_from-start :
    (d previous : ℕ) (e : MariaDbEpoch) (t : Timeline) (floor : MariaPos) {s : Stretch}
    {rest : List Stretch}
    → view_from d previous (e ∷ t) ≡ some (s ∷ rest)
    → parse_maria_pos e.handoff ≡ some floor
    → s.start ≡ start_of (lookup d floor)
unfolding view_from
view_from-start d previous e t floor {s} {rest} h pf =
    let (pos, pe, h') = >>=-eq-some (parse_maria_pos e.handoff) _ h in
    let (rest', re, checked) =
      >>=-eq-some (view_from d (stretch_at (lookup d pos) e.server_id).start t) _ h' in
    ordered (ltb (stretch_at (lookup d pos) e.server_id).start previous) _ _ checked
    ∙ ap (λ p. (stretch_at (lookup d p) e.server_id).start) (some_inj (sym pe ∙ pf))
    ∙ start_lem (lookup d floor)
  where
    start_lem : (o : Option MariaEntry) → (stretch_at o e.server_id).start ≡ start_of o
    start_lem none = refl
    start_lem (some m) = refl

    ordered :
        (b : Bool) (x : Stretch) (rest' : List Stretch)
        → (if b then none else some (x ∷ rest')) ≡ some (s ∷ rest)
        → s.start ≡ x.start
    ordered true x rest' q = cc
    ordered false x rest' q = ap first_start (some_inj (sym q))
      where
        first_start : List Stretch → ℕ
        first_start [] = 0
        first_start (y ∷ ys) = y.start

verdict_in-tail :
    (g : MariaDbGtid) (s n : Stretch) (rest : List Stretch)
    → n.start < g.seq
    → verdict_in g (some (s ∷ n ∷ rest)) ≡ verdict_in g (some (n ∷ rest))
unfolding verdict_in locate
verdict_in-tail g s n rest h =
    let (found, e) = locate-found g.seq n rest h in
    ap (λ o. judge_located g (or_here o g.seq s (n ∷ rest))) e ∙ sym (ap (judge_located g) e)

-- Dropping the oldest epoch keeps the verdict on a transaction past the start of the next one.
verdict-tail :
    (e next : MariaDbEpoch) (t : Timeline) (g : MariaDbGtid) (floor : MariaPos)
    {view : List Stretch}
    → view_from g.domain 0 (e ∷ next ∷ t) ≡ some view
    → parse_maria_pos next.handoff ≡ some floor
    → start_of (lookup g.domain floor) < g.seq
    → verdict (e ∷ next ∷ t) g ≡ verdict (next ∷ t) g
unfolding verdict
verdict-tail e next t g floor h pf lt =
    let (s, rest, eq, hr) = view_from-tail g.domain 0 e (next ∷ t) h in
    let (n, rest', eq', hr') = view_from-tail g.domain s.start next t hr in
    let starts = view_from-start g.domain s.start next t floor (hr ∙ ap (λ x. some x) eq') pf in
    ap (λ v. if g.seq == 0 then (false, false) else v)
      (ap (verdict_in g) (h ∙ ap (λ x. some x) (eq ∙ ap (λ x. s ∷ x) eq'))
        ∙ verdict_in-tail g s n rest' (omega (arith, starts, lt))
        ∙ sym (
            ap (verdict_in g)
              (view_from-zero g.domain s.start (next ∷ t) hr ∙ ap (λ x. some x) eq')))

sits_below-start :
    (floor pos : MariaPos) (d : ℕ) (m : MariaEntry)
    → sits_below floor pos ≡ false
    → lookup d pos ≡ some m
    → 1 ≤ m.seq
    → start_of (lookup d floor) < m.seq
unfolding sits_below lookup
sits_below-start floor [] d m u l o = cc
sits_below-start floor ((k, x) ∷ pos) d m u l o =
    let (here, later) = either_flags (is_at_most (lookup k floor) x.seq) (sits_below floor pos) u in
    elim (Bool-cases (k == d)) [
      | inl g ↦ above (lookup d floor) m.seq o (
          ap (λ y. is_at_most (lookup d floor) y.seq) (sym (some_inj (rw g at l)))
          ∙ ap (λ j. is_at_most (lookup j floor) x.seq) (sym ((==_iff k d).0 g))
          ∙ here)
      | inr g ↦ sits_below-start floor pos d m later (rw g at l) o
    ]
  where
    either_flags : (a b : Bool) → (a || b) ≡ false → (a ≡ false) × (b ≡ false)
    either_flags a b h = (ground arith, ground arith)

    above : (f : Option MariaEntry) (n : ℕ) → 1 ≤ n → is_at_most f n ≡ false → start_of f < n
    above none n p h = p
    above (some f) n p h = ground arith

-- A reference position that does not pin the oldest epoch of a readable timeline is judged, in each domain, the same
-- without that epoch.
pub verdict-unpinned :
    (e next : MariaDbEpoch) (t : Timeline) (floor pos : MariaPos) (d : ℕ) (m : MariaEntry)
    {view : List Stretch}
    → view_from d 0 (e ∷ next ∷ t) ≡ some view
    → parse_maria_pos next.handoff ≡ some floor
    → pins (some floor) (some pos) ≡ false
    → lookup d pos ≡ some m
    → verdict (e ∷ next ∷ t) (record { domain = d; server = m.server; seq = m.seq })
      ≡ verdict (next ∷ t) (record { domain = d; server = m.server; seq = m.seq })
unfolding pins
verdict-unpinned e next t floor pos d m h pf u l = elim (Bool-cases (m.seq == 0)) [
  | inl z ↦ unfold verdict in rw z
  | inr z ↦
      verdict-tail e next t (record { domain = d; server = m.server; seq = m.seq }) floor h pf
        (sits_below-start floor pos d m u l (ground arith))
]
