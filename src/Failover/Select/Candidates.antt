-- ===== src/Failover/Select/Candidates.antt =====
-- Who the candidates of an election are, and which of them the bounds and the order keep.
use cnmsql.Base.{
  ℕ, ◌≡◌, ◌↔◌, refl, sym, ap, ◌∙◌, Bool, true, false, not, ◌||◌, ◌&&◌, List, [], ◌∷◌, Option, none,
  some, Text, text_eq, text_Eq, text_eq_iff, text_eq_comm, is_empty, lookup, any-sort,
  if◌then◌else◌, arith, Bool-cases, inl, inr,
}
use cnmsql.Base.Int64.{le64}
use cnmsql.Failover.{Election, FailoverInstance, FailoverState, get, has, no_instance}
use cnmsql.Failover.Measure.{
  within, within_bound, within_lag_bound, is_within_lag, writes_behind, lost_writes,
}
use cnmsql.Failover.Order.{order_by_preference, order_by_archive_continuity}
use cnmsql.Failover.Select.{
  Standing, standing, standing_of_status, is_disowned, gather, count_standing, ordered,
}

-- A listed instance that is not the primary, not fenced, not known to have diverged, and observed as a replica
-- with a running applier and a position that has none of the disowned transactions.
pub record IsElectable (e : Election) (name : Text) : Type 0 where
  pub listed : has name e.observed.instance_names ≡ true
  pub other_than_primary : text_eq name e.observed.primary_name ≡ false
  pub unfenced : has name e.observed.fenced ≡ false
  pub undiverged : has name e.known_diverged ≡ false
  pub status : FailoverInstance
  pub observed_as : lookup name e.observed.instances ≡ some status
  pub is_replica : status.replica ≡ true
  pub applies : status.sql_running ≡ true
  pub positioned : is_empty status.gtid ≡ false
  pub owned : is_disowned e.disowned status ≡ false

abbrev is_candidate : Standing → Bool
is_candidate Standing.passed_over = false
is_candidate Standing.skipped_as_diverged = false
is_candidate Standing.candidate = true

gather-has :
    (e : Election) (name : Text) (names : List Text)
    → has name (gather e names).0 ≡ (has name names && is_candidate (standing e name))
unfolding gather
gather-has e name [] = refl
gather-has e name (n ∷ names) =
    step (standing e n) (λ g. ap (standing e) ((text_eq_iff name n).0 g)) (gather-has e name names)
  where
    step :
        (s : Standing)
        → (text_eq name n ≡ true → standing e name ≡ s)
        → has name (gather e names).0 ≡ (has name names && is_candidate (standing e name))
        → has name (count_standing s n (gather e names)).0
          ≡ ((text_eq name n || has name names) && is_candidate (standing e name))
    step Standing.passed_over same ind = elim (Bool-cases (text_eq name n)) [
      | inl g ↦ rw (g, same g) (ind ∙ rw (same g) (ground arith))
      | inr g ↦ rw g ind
    ]
    step Standing.skipped_as_diverged same ind = elim (Bool-cases (text_eq name n)) [
      | inl g ↦ rw (g, same g) (ind ∙ rw (same g) (ground arith))
      | inr g ↦ rw g ind
    ]
    step Standing.candidate same ind = elim (Bool-cases (text_eq name n)) [
      | inl g ↦ rw (g, same g)
      | inr g ↦ rw g ind
    ]

status_flags :
    (r a g o : Bool)
    → is_candidate (
        if not r || not a || g
        then Standing.passed_over
        else if o
        then Standing.skipped_as_diverged
        else Standing.candidate)
      ≡ true
    → (r ≡ true) × (a ≡ true) × (g ≡ false) × (o ≡ false)
status_flags false a g o h = cc
status_flags true false g o h = cc
status_flags true true true o h = cc
status_flags true true false true h = cc
status_flags true true false false h = (refl, refl, refl, refl)

name_flags :
    (p f d : Bool) (s : Standing)
    → is_candidate
        (if p || f then Standing.passed_over else if d then Standing.skipped_as_diverged else s)
      ≡ true
    → (p ≡ false) × (f ≡ false) × (d ≡ false) × (is_candidate s ≡ true)
name_flags true f d s h = cc
name_flags false true d s h = cc
name_flags false false true s h = cc
name_flags false false false s h = (refl, refl, refl, h)

status-IsElectable :
    (e : Election) (name : Text) (found : Option FailoverInstance)
    → lookup name e.observed.instances ≡ found
    → has name e.observed.instance_names ≡ true
    → text_eq name e.observed.primary_name ≡ false
    → has name e.observed.fenced ≡ false
    → has name e.known_diverged ≡ false
    → is_candidate (standing_of_status e found) ≡ true
    → IsElectable e name
status-IsElectable e name none f l p n d c = cc
status-IsElectable e name (some status) f l p n d c =
    let (r, a, g, o) = status_flags _ _ _ _ c in
    record {
      listed = l;
      other_than_primary = p;
      unfenced = n;
      undiverged = d;
      status = status;
      observed_as = f;
      is_replica = r;
      applies = a;
      positioned = g;
      owned = o;
    }

candidate-IsElectable :
    (e : Election) (name : Text)
    → has name e.observed.instance_names ≡ true
    → is_candidate (standing e name) ≡ true
    → IsElectable e name
unfolding standing
candidate-IsElectable e name l c =
    let (p, f, d, st) = name_flags _ _ _ _ c in
    status-IsElectable e name (lookup name e.observed.instances) refl l p f d st

IsElectable-candidate :
    (e : Election) (name : Text) → IsElectable e name → is_candidate (standing e name) ≡ true
unfolding standing
IsElectable-candidate e name h = rw (
  h.other_than_primary, h.unfenced, h.undiverged, h.observed_as, h.owned, h.is_replica, h.applies,
  h.positioned,
)

-- The instances that are gathered are the electable ones.
pub gather-IsElectable :
    (e : Election) (name : Text)
    → (has name (gather e e.observed.instance_names).0 ≡ true) ↔ IsElectable e name
gather-IsElectable e name = (
  λ h.
      both (has name e.observed.instance_names) (is_candidate (standing e name)) refl refl
        (sym (gather-has e name e.observed.instance_names) ∙ h),
  λ h. gather-has e name e.observed.instance_names ∙ rw (h.listed, IsElectable-candidate e name h),
)
  where
    both :
        (a b : Bool)
        → has name e.observed.instance_names ≡ a
        → is_candidate (standing e name) ≡ b
        → (a && b) ≡ true
        → IsElectable e name
    both false b p q h = cc
    both true false p q h = cc
    both true true p q h = candidate-IsElectable e name p q

within-has :
    (p : Text → Bool) (name : Text) (names : List Text)
    → has name (within p names) ≡ (has name names && p name)
unfolding within
within-has p name [] = refl
within-has p name (n ∷ names) =
    step (p n) (λ g. ap p ((text_eq_iff name n).0 g)) (within-has p name names)
  where
    step :
        (b : Bool)
        → (text_eq name n ≡ true → p name ≡ b)
        → has name (within p names) ≡ (has name names && p name)
        → has name (if b then n ∷ within p names else within p names)
          ≡ ((text_eq name n || has name names) && p name)
    step true same ind = elim (Bool-cases (text_eq name n)) [
      | inl g ↦ rw (g, same g)
      | inr g ↦ rw g ind
    ]
    step false same ind = elim (Bool-cases (text_eq name n)) [
      | inl g ↦ rw (g, same g) (ind ∙ rw (same g) (ground arith))
      | inr g ↦ rw g ind
    ]

-- No bound, or a count within it.
abbrev pub is_admitted : Option ℕ → ℕ → Bool
is_admitted none missing = true
is_admitted (some max_behind) missing = le64 missing max_behind

pub within_bound-has :
    (candidates : List Text) (behind : List (Text × ℕ)) (bound : Option ℕ) (name : Text)
    → has name (within_bound candidates behind bound)
      ≡ (has name candidates && is_admitted bound (get 0 name behind))
unfolding within_bound
within_bound-has candidates behind none name = ground arith
within_bound-has candidates behind (some m) name = within-has _ name candidates

-- No bound, or a loss that was measured and is within it.
abbrev pub is_timely : Option ℕ → Option ℕ → Bool
is_timely none lost = true
is_timely (some max_lag) lost = is_within_lag lost max_lag

pub within_lag_bound-has :
    (candidates : List Text) (time_behind : List (Text × Option ℕ)) (bound : Option ℕ) (name : Text)
    → has name (within_lag_bound candidates time_behind bound)
      ≡ (has name candidates && is_timely bound (get none name time_behind))
unfolding within_lag_bound
within_lag_bound-has candidates time_behind none name = ground arith
within_lag_bound-has candidates time_behind (some m) name = within-has _ name candidates

pub ordered-has :
    (e : Election) (name : Text) (names : List Text) → has name (ordered e names) ≡ has name names
ordered-has e name names =
    continuity (order_by_preference names e.preferred) e.archive_covered ∙ preference e.preferred
  where
    continuity :
        (ns : List Text) (covered : Text)
        → has name (order_by_archive_continuity ns e.preferred e.observed covered) ≡ has name ns
    continuity ns [] = unfold order_by_archive_continuity in refl
    continuity ns (c ∷ covered) = unfold order_by_archive_continuity in any-sort _ (text_eq name) ns

    preference : (pref : List Text) → has name (order_by_preference names pref) ≡ has name names
    preference [] = unfold order_by_preference in refl
    preference (p ∷ pref) = unfold order_by_preference in any-sort _ (text_eq name) names

-- The loss of a candidate is computed from its own heartbeat and count.
pub get-writes_behind :
    (observed : FailoverState) (names : List Text) (behind : List (Text × ℕ)) (down : ℕ)
    (name : Text)
    → has name names ≡ true
    → get none name (writes_behind observed names behind down)
      ≡ lost_writes (get no_instance name observed.instances).heartbeat_age (get 0 name behind) down
unfolding writes_behind lookup
get-writes_behind observed [] behind down name h = cc
get-writes_behind observed (n ∷ names) behind down name h = elim (Bool-cases (text_eq n name)) [
  | inl g ↦ rw (g, (text_eq_iff n name).0 g)
  | inr g ↦
      rw g (get-writes_behind observed names behind down name (ground (arith, text_eq_comm n name)))
]
