-- ===== src/Engine/Timeline/Pruning.antt =====
-- What pruning a timeline leaves.
use mathlib.Core.Path.{subst}
use cnmsql.Base.{
  ℕ, zero, suc, ◌+◌, ◌≤◌, ◌≡◌, refl, sym, ap, ◌∙◌, true, false, ◌&&◌, List, [], ◌∷◌, Text, length,
  is_empty, ltb, arith, Bool-cases, inl, inr,
}
use cnmsql.Engine.Timeline.{
  Timeline, PruneResult, pinners, drop_unpinned, drop_above, sort_pinned, prune_timeline,
}

-- The epochs that no reference pins, counted from the oldest of the timeline: each is followed by an epoch without a
-- pinner.
abbrev pub AreUnpinned : List (Text × Text) → ℕ → Timeline → Type 0
AreUnpinned refs zero t = Unit
AreUnpinned refs (suc k) [] = ⊥
AreUnpinned refs (suc k) (e ∷ []) = ⊥
AreUnpinned refs (suc k) (e ∷ next ∷ t) =
    (is_empty (pinners next refs) ≡ true) × AreUnpinned refs k (next ∷ t)

-- The timeline without its oldest epochs.
abbrev pub drop : ℕ → Timeline → Timeline
drop zero t = t
drop (suc k) [] = []
drop (suc k) (e ∷ t) = drop k t

drop_unpinned_lem :
    (refs : List (Text × Text)) (t : Timeline) (dropped : ℕ)
    → (k : ℕ) × ((drop_unpinned refs t dropped).1 ≡ dropped + k)
      × AreUnpinned refs k t
      × ((drop_unpinned refs t dropped).0 ≡ drop k t)
      × (is_empty (drop k t) ≡ is_empty t)
unfolding drop_unpinned
drop_unpinned_lem refs [] dropped = (0, omega arith, tt, refl, refl)
drop_unpinned_lem refs (e ∷ []) dropped = (0, omega arith, tt, refl, refl)
drop_unpinned_lem refs (e ∷ next ∷ t) dropped =
    let (k, c, u, d, o) = drop_unpinned_lem refs (next ∷ t) (suc dropped) in
    elim (Bool-cases (is_empty (pinners next refs))) [
      | inl g ↦ rw g (suc k, c ∙ omega arith, (g, u), d, o)
      | inr g ↦ rw g (0, omega arith, tt, refl, refl)
    ]

drop-nil : (k : ℕ) → drop k [] ≡ []
drop-nil zero = refl
drop-nil (suc k) = refl

drop-drop : (k j : ℕ) (t : Timeline) → drop j (drop k t) ≡ drop (k + j) t
drop-drop zero j t = ap (λ i. drop i t) (omega arith)
drop-drop (suc k) j [] = drop-nil j ∙ sym (drop-nil (suc k + j))
drop-drop (suc k) j (e ∷ t) = drop-drop k j t ∙ ap (λ i. drop i (e ∷ t)) further
  where
    further : suc (k + j) ≡ suc k + j
    further = omega arith

-- What the second loop makes of a result that holds the timeline.
record IsLowered (ceiling : ℕ) (t : Timeline) (res out : PruneResult) : Type 0 where
  more : ℕ
  kept : out.timeline ≡ drop more t
  counted : out.dropped ≡ res.dropped + more
  occupied : is_empty out.timeline ≡ is_empty t
  bounded : 1 ≤ ceiling → length out.timeline ≤ ceiling
  untouched : out.truncated ≡ false → (more ≡ 0) × (res.truncated ≡ false)

drop_above-stop :
    (ceiling : ℕ) (t : Timeline) (res : PruneResult)
    → res.timeline ≡ t
    → (1 ≤ ceiling → length t ≤ ceiling)
    → IsLowered ceiling t res res
drop_above-stop ceiling t res q b = record {
  more = 0;
  kept = q;
  counted = omega arith;
  occupied = ap is_empty q;
  bounded = λ c. subst (λ x. length x ≤ ceiling) (sym q) (b c);
  untouched = λ h. (refl, h);
}

drop_above-IsLowered :
    (ceiling : ℕ) (refs : List (Text × Text)) (t : Timeline) (res : PruneResult)
    → res.timeline ≡ t
    → IsLowered ceiling t res (drop_above ceiling refs t res)
unfolding drop_above
drop_above-IsLowered ceiling refs [] res q = drop_above-stop ceiling [] res q (λ c. omega arith)
drop_above-IsLowered ceiling refs (e ∷ []) res q = drop_above-stop ceiling (e ∷ []) res q (λ c. c)
drop_above-IsLowered ceiling refs (e ∷ next ∷ t) res q =
    elim (Bool-cases (ltb 0 ceiling && ltb ceiling (length (e ∷ next ∷ t)))) [
      | inl g ↦ rw g (further (drop_above-IsLowered ceiling refs (next ∷ t) _ refl))
      | inr g ↦ rw g (drop_above-stop ceiling (e ∷ next ∷ t) res q (λ c. ground arith))
    ]
  where
    further :
        {pinned : List Text} {out : PruneResult}
        → IsLowered ceiling
            (next ∷ t)
            (record {
              timeline = next ∷ t;
              dropped = suc res.dropped;
              truncated = true;
              pinned_by = pinned;
            })
            out
        → IsLowered ceiling (e ∷ next ∷ t) res out
    further l = record {
      more = suc l.more;
      kept = l.kept;
      counted = l.counted ∙ omega arith;
      occupied = l.occupied;
      bounded = l.bounded;
      untouched = λ h. cc ((l.untouched h).1);
    }

-- What pruning promises.
pub record IsPruned (t : Timeline) (refs : List (Text × Text)) (ceiling : ℕ) (out : PruneResult)
    : Type 0 where
  pub kept : out.timeline ≡ drop out.dropped t
  pub occupied : is_empty out.timeline ≡ is_empty t
  pub bounded : 1 ≤ ceiling → length out.timeline ≤ ceiling
  pub unpinned : out.truncated ≡ false → AreUnpinned refs out.dropped t

-- A pruned timeline is the old one without as many of its oldest epochs as are reported; it is empty only if the old
-- one is, and within the ceiling, if there is one; and unless truncation is reported, no epoch that was dropped was
-- pinned by a reference.
pub prune_timeline-IsPruned :
    (t : Timeline) (refs : List (Text × Text)) (ceiling : ℕ)
    → IsPruned t refs ceiling (prune_timeline t refs ceiling)
unfolding prune_timeline sort_pinned
prune_timeline-IsPruned t refs ceiling =
    let (k, c, u, d, o) = drop_unpinned_lem refs t 0 in
    let l = drop_above-IsLowered ceiling refs (drop_unpinned refs t 0).0 _ refl in
    record {
      kept =
          l.kept
          ∙ ap (drop l.more) d
          ∙ drop-drop k l.more t
          ∙ ap (λ i. drop i t) (sym (l.counted ∙ ap (λ i. i + l.more) c ∙ omega arith));
      occupied = l.occupied ∙ ap is_empty d ∙ o;
      bounded = l.bounded;
      unpinned = λ h.
          subst (λ i. AreUnpinned refs i t) (sym (l.counted ∙ omega (arith, c, (l.untouched h).0)))
            u;
    }
