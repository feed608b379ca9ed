-- ===== src/Quorum/Forced.antt =====
-- Which online member a group that lost its quorum is forced to.
use mathlib.Core.Path.{subst}
use cnmsql.Base.{
  ◌≡◌, refl, sym, ap, ◌∙◌, ◌⊎◌, inl, inr, Bool, true, false, ◌||◌, List, [], ◌∷◌, Option, none,
  some, some_inj, Text, text_eq, is_empty, if◌then◌else◌,
}
use cnmsql.Failover.{get}
use cnmsql.Gtid.Texts.{gtid_contains}
use cnmsql.Quorum.{
  GroupMember, dominates_all, first_dominant, first_primary, is_contained, or_else, primary_role,
  select_quorum_survivor,
}

-- The member stands in the list.
abbrev pub IsAmong : GroupMember → List GroupMember → Type 0
IsAmong m [] = ⊥
IsAmong m (x ∷ xs) = (m ≡ x) ⊎ IsAmong m xs

-- The member reported a position, and it contains that of every other online member that reported one.
pub record IsAhead (members : List GroupMember) (gtids : List (Text × Text)) (m : GroupMember)
    : Type 0 where
  pub reported : is_empty (get [] m.instance_name gtids) ≡ false
  pub contains_others :
      (other : GroupMember)
      → IsAmong other members
      → text_eq other.instance_name m.instance_name ≡ false
      → is_empty (get [] other.instance_name gtids) ≡ false
      → gtid_contains (get [] m.instance_name gtids) (get [] other.instance_name gtids) ≡ some true

ahead-step :
    (b : Bool) (e : Bool) (o : Option Bool) (rest : Bool)
    → (if b || e then rest else if is_contained o then rest else false) ≡ true
    → (rest ≡ true) × (b ≡ false → e ≡ false → o ≡ some true)
ahead-step true e o rest h = (h, λ z w. cc)
ahead-step false true o rest h = (h, λ z w. cc)
ahead-step false false none rest h = cc
ahead-step false false (some false) rest h = cc
ahead-step false false (some true) rest h = (h, λ z w. refl)

dominates_all-contains :
    (m : GroupMember) (gtid : Text) (members : List GroupMember) (gtids : List (Text × Text))
    (other : GroupMember)
    → dominates_all m gtid members gtids ≡ true
    → IsAmong other members
    → text_eq other.instance_name m.instance_name ≡ false
    → is_empty (get [] other.instance_name gtids) ≡ false
    → gtid_contains gtid (get [] other.instance_name gtids) ≡ some true
unfolding dominates_all
dominates_all-contains m gtid [] gtids other d a n o = absurd a
dominates_all-contains m gtid (x ∷ members) gtids other d (inl q) n o =
    subst (λ y. gtid_contains gtid (get [] y.instance_name gtids) ≡ some true) (sym q)
      ((ahead-step (text_eq x.instance_name m.instance_name)
          (is_empty (get [] x.instance_name gtids))
          (gtid_contains gtid (get [] x.instance_name gtids)) _ d).1
        (subst (λ y. text_eq y.instance_name m.instance_name ≡ false) q n)
        (subst (λ y. is_empty (get [] y.instance_name gtids) ≡ false) q o))
dominates_all-contains m gtid (x ∷ members) gtids other d (inr a) n o =
    dominates_all-contains m gtid members gtids other
      (ahead-step (text_eq x.instance_name m.instance_name)
        (is_empty (get [] x.instance_name gtids))
        (gtid_contains gtid (get [] x.instance_name gtids)) _ d).0
      a n o

first_dominant-IsAhead :
    (candidates members : List GroupMember) (gtids : List (Text × Text)) (m : GroupMember)
    → first_dominant candidates members gtids ≡ some m
    → IsAmong m candidates × IsAhead members gtids m
unfolding first_dominant
first_dominant-IsAhead [] members gtids m h = cc
first_dominant-IsAhead (c ∷ candidates) members gtids m h =
    step (is_empty (get [] c.instance_name gtids))
      (dominates_all c (get [] c.instance_name gtids) members gtids) refl refl h
      (first_dominant-IsAhead candidates members gtids m)
  where
    rest : Option GroupMember
    rest = first_dominant candidates members gtids

    step :
        (e d : Bool)
        → is_empty (get [] c.instance_name gtids) ≡ e
        → dominates_all c (get [] c.instance_name gtids) members gtids ≡ d
        → (if e then rest else if d then some c else rest) ≡ some m
        → (rest ≡ some m → IsAmong m candidates × IsAhead members gtids m)
        → IsAmong m (c ∷ candidates) × IsAhead members gtids m
    step true d p q r later = (inr (later r).0, (later r).1)
    step false false p q r later = (inr (later r).0, (later r).1)
    step false true p q r later = (
      inl (sym (some_inj r)),
      subst (IsAhead members gtids) (some_inj r) (record {
        reported = p;
        contains_others = λ other a n o. dominates_all-contains c _ members gtids other q a n o;
      }),
    )

first_primary-IsAmong :
    (members : List GroupMember) (m : GroupMember)
    → first_primary members ≡ some m
    → IsAmong m members × (text_eq m.role primary_role ≡ true)
unfolding first_primary
first_primary-IsAmong [] m h = cc
first_primary-IsAmong (c ∷ members) m h =
    step (text_eq c.role primary_role) refl h (first_primary-IsAmong members m)
  where
    step :
        (b : Bool)
        → text_eq c.role primary_role ≡ b
        → (if b then some c else first_primary members) ≡ some m
        → (first_primary members ≡ some m
            → IsAmong m members × (text_eq m.role primary_role ≡ true))
        → IsAmong m (c ∷ members) × (text_eq m.role primary_role ≡ true)
    step true p r later =
        (inl (sym (some_inj r)), subst (λ x. text_eq x.role primary_role ≡ true) (some_inj r) p)
    step false p r later = (inr (later r).0, (later r).1)

-- The survivor that a group is forced to is one of its online members, and it is the only one, or a primary, or
-- reported a position that contains that of every other online member that reported one.
pub quorum_survivor-IsAmong :
    (members : List GroupMember) (gtids : List (Text × Text)) (m : GroupMember)
    → select_quorum_survivor members gtids ≡ some m
    → IsAmong m members
      × ((members ≡ m ∷ []) ⊎ ((text_eq m.role primary_role ≡ true) ⊎ IsAhead members gtids m))
unfolding select_quorum_survivor
quorum_survivor-IsAmong [] gtids m h = cc
quorum_survivor-IsAmong (x ∷ []) gtids m h =
    (inl (sym (some_inj h)), inl (ap (λ y. y ∷ []) (some_inj h)))
quorum_survivor-IsAmong (x ∷ y ∷ members) gtids m h =
    choose (first_primary (x ∷ y ∷ members)) refl h
  where
    all : List GroupMember
    all = x ∷ y ∷ members

    choose :
        (o : Option GroupMember)
        → first_primary all ≡ o
        → or_else o (first_dominant all all gtids) ≡ some m
        → IsAmong m all
          × ((all ≡ m ∷ []) ⊎ ((text_eq m.role primary_role ≡ true) ⊎ IsAhead all gtids m))
    choose (some p) e r = let (a, b) = first_primary-IsAmong all m (e ∙ r) in (a, inr (inl b))
    choose none e r = let (a, b) = first_dominant-IsAhead all all gtids m r in (a, inr (inr b))
