-- ===== src/Failover/Policy/Targets.antt =====
-- What the targets of an automatic planned switchover satisfy.
use mathlib.Core.Path.{subst}
use cnmsql.Base.{
  ℕ, ◌<◌, ◌≡◌, refl, sym, ◌∙◌, Bool, true, false, not, ◌&&◌, ◌||◌, List, [], ◌∷◌, Text, text_eq,
  text_Eq, text_eq_iff, text_eq_refl, is_empty, lookup, ltb, arith, Bool-cases, inl, inr,
  if◌then◌else◌,
}
use cnmsql.Failover.{FailoverState, has}
use cnmsql.Failover.Order.{rank}
use cnmsql.Failover.Policy.{
  Cluster, primary_movable, failover_cooldown_remaining, is_serving_primary, candidate_eligible,
  walk_preferred, preferred_primary, preferred_failback_target,
}

-- When the primary may be moved.
pub record IsMovable (now : ℕ) (cluster : Cluster) (observed : FailoverState) : Type 0 where
  pub serving : is_serving_primary (lookup cluster.current_primary observed.instances) ≡ true
  pub staying : has cluster.current_primary observed.terminating ≡ false
  pub undirected :
      (is_empty cluster.target_primary || text_eq cluster.target_primary cluster.current_primary)
      ≡ true
  pub cooled : failover_cooldown_remaining now cluster ≡ 0

-- A target that may take the role over.
pub record IsTarget (cluster : Cluster) (observed : FailoverState) (promotable : Text → Bool)
    (name : Text) : Type 0 where
  pub moves : text_eq name cluster.current_primary ≡ false
  pub accepted : promotable name ≡ true
  pub unfenced : has name observed.fenced ≡ false
  pub undiverged : has name observed.diverged ≡ false
  pub unrecorded : has name cluster.diverged_instances ≡ false
  pub staying : has name observed.terminating ≡ false

movable_flags :
    (c p t e s r : Bool) (left : ℕ)
    → (if c || p
        then false
        else if not t && not e
        then false
        else if not s
        then false
        else if r
        then false
        else not (ltb 0 left))
      ≡ true
    → (s ≡ true) × (r ≡ false) × ((t || e) ≡ true) × (left ≡ 0)
movable_flags c p t e s r left h = (ground arith, ground arith, ground arith, ground arith)

primary_movable-IsMovable :
    (now : ℕ) (cluster : Cluster) (observed : FailoverState)
    → primary_movable now cluster observed ≡ true
    → IsMovable now cluster observed
unfolding primary_movable
primary_movable-IsMovable now cluster observed h =
    let (s, r, t, l) =
      movable_flags (is_empty cluster.current_primary) (is_empty observed.primary_name)
        (is_empty cluster.target_primary) (text_eq cluster.target_primary cluster.current_primary) _
        _ _ h in
    record { serving = s; staying = r; undirected = t; cooled = l }

target_flags :
    (f d r t p : Bool)
    → ((not f && not d && not r && not t) && p) ≡ true
    → (f ≡ false) × (d ≡ false) × (r ≡ false) × (t ≡ false) × (p ≡ true)
target_flags f d r t p h = (ground arith, ground arith, ground arith, ground arith, ground arith)

candidate-IsTarget :
    (cluster : Cluster) (observed : FailoverState) (promotable : Text → Bool) (name : Text)
    → text_eq name cluster.current_primary ≡ false
    → (candidate_eligible cluster observed name && promotable name) ≡ true
    → IsTarget cluster observed promotable name
unfolding candidate_eligible
candidate-IsTarget cluster observed promotable name m h =
    let (f, d, r, t, p) = target_flags _ _ _ _ _ h in
    record { moves = m; accepted = p; unfenced = f; undiverged = d; unrecorded = r; staying = t }

IsTarget-candidate :
    (cluster : Cluster) (observed : FailoverState) (promotable : Text → Bool) (name : Text)
    → IsTarget cluster observed promotable name
    → (candidate_eligible cluster observed name && promotable name) ≡ true
unfolding candidate_eligible
IsTarget-candidate cluster observed promotable name h =
    rw (h.unfenced, h.undiverged, h.unrecorded, h.staying, h.accepted)

-- The first target of a list that does not come after the current primary.
pub record IsFirstTarget (cluster : Cluster) (observed : FailoverState) (promotable : Text → Bool)
    (preferred : List Text) (t : Text) : Type 0 where
  pub preferred_one : has t preferred ≡ true
  pub target : IsTarget cluster observed promotable t
  pub earlier :
      (other : Text)
      → rank preferred other < rank preferred t
      → (text_eq other cluster.current_primary ≡ false)
        × (¬ IsTarget cluster observed promotable other)

earlier-IsFirstTarget :
    (cluster : Cluster) (observed : FailoverState) (promotable : Text → Bool) (n : Text)
    (preferred : List Text) (t : Text)
    → text_eq n cluster.current_primary ≡ false
    → (candidate_eligible cluster observed n && promotable n) ≡ false
    → IsFirstTarget cluster observed promotable preferred t
    → IsFirstTarget cluster observed promotable (n ∷ preferred) t
unfolding rank
earlier-IsFirstTarget cluster observed promotable n preferred t c r h = record {
  preferred_one = ground (arith, h.preferred_one);
  target = h.target;
  earlier = λ other lt. elim (Bool-cases (text_eq n other)) [
    | inl g ↦
        subst
          (λ x.
            (text_eq x cluster.current_primary ≡ false)
            × (¬ IsTarget cluster observed promotable x))
          ((text_eq_iff n other).0 g)
          (c, λ t. cc (sym (IsTarget-candidate cluster observed promotable n t) ∙ r))
    | inr g ↦ h.earlier other (ground (arith, lt))
  ];
}

walk_preferred-IsFirstTarget :
    (cluster : Cluster) (observed : FailoverState) (promotable : Text → Bool)
    (preferred : List Text)
    → is_empty (walk_preferred cluster observed promotable preferred) ≡ false
    → IsFirstTarget cluster observed promotable preferred
        (walk_preferred cluster observed promotable preferred)
unfolding walk_preferred
walk_preferred-IsFirstTarget cluster observed promotable [] h = cc
walk_preferred-IsFirstTarget cluster observed promotable (n ∷ preferred) h =
    current (text_eq n cluster.current_primary) refl
      (walk_preferred-IsFirstTarget cluster observed promotable preferred) h
  where
    rest : Text
    rest = walk_preferred cluster observed promotable preferred

    found :
        (b : Bool)
        → (candidate_eligible cluster observed n && promotable n) ≡ b
        → text_eq n cluster.current_primary ≡ false
        → (is_empty rest ≡ false → IsFirstTarget cluster observed promotable preferred rest)
        → is_empty (if b then n else rest) ≡ false
        → IsFirstTarget cluster observed promotable (n ∷ preferred) (if b then n else rest)
    found true p c ind o = record {
      preferred_one = rw text_eq_refl;
      target = candidate-IsTarget cluster observed promotable n c p;
      earlier = λ other lt. absurd (unfold rank in omega (arith, rw text_eq_refl at lt));
    }
    found false p c ind o =
        earlier-IsFirstTarget cluster observed promotable n preferred rest c p (ind o)

    current :
        (b : Bool)
        → text_eq n cluster.current_primary ≡ b
        → (is_empty rest ≡ false → IsFirstTarget cluster observed promotable preferred rest)
        → is_empty (
            if b
            then []
            else if candidate_eligible cluster observed n && promotable n
            then n
            else rest)
          ≡ false
        → IsFirstTarget cluster observed promotable (n ∷ preferred) (
            if b
            then []
            else if candidate_eligible cluster observed n && promotable n
            then n
            else rest)
    current true c ind o = cc
    current false c ind o = found _ refl c ind o

-- A failback target is the first preferred instance that may take over, no preferred instance before it being the
-- current primary; and the primary may be moved: it serves, it does not drain, nothing else is in flight and no
-- cooldown is left.
pub failback_target-IsFirstTarget :
    (now : ℕ) (cluster : Cluster) (observed : FailoverState) (promotable : Text → Bool)
    → is_empty (preferred_failback_target now cluster observed promotable) ≡ false
    → IsMovable now cluster observed
      × IsFirstTarget cluster observed promotable
          (preferred_primary cluster.failover_policy)
          (preferred_failback_target now cluster observed promotable)
unfolding preferred_failback_target
failback_target-IsFirstTarget now cluster observed promotable h =
    step (is_empty (preferred_primary cluster.failover_policy))
      (primary_movable now cluster observed) refl h
  where
    target : Text
    target = walk_preferred cluster observed promotable (preferred_primary cluster.failover_policy)

    step :
        (e m : Bool)
        → primary_movable now cluster observed ≡ m
        → is_empty (if e || not m then [] else target) ≡ false
        → IsMovable now cluster observed
          × IsFirstTarget cluster observed promotable
              (preferred_primary cluster.failover_policy)
              (if e || not m then [] else target)
    step true m p o = cc
    step false false p o = cc
    step false true p o = (
      primary_movable-IsMovable now cluster observed p,
      walk_preferred-IsFirstTarget cluster observed promotable _ o,
    )
