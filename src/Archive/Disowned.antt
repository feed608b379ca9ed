-- ===== src/Archive/Disowned.antt =====
-- Holds and AddRange of pkg/management/mysql/objectstore/binlog.go.
use cnmsql.Base.{
  ℕ, ◌≡◌, refl, sym, Bool, true, false, not, ◌&&◌, ◌||◌, ◌==◌, ==_iff, if◌then◌else◌, List, [], ◌∷◌,
  ltb, leb, any, Bool-cases, inl, inr, arith,
}
use cnmsql.Archive.{ArchiveDisownedRange}

pub holds : ArchiveDisownedRange → ℕ → ℕ → ℕ → Bool
holds r domain server seq =
    r.domain == domain && r.server == server && ltb r.after seq && leb seq r.through

-- A range that the loop of `AddRange` passes over.
abbrev is_apart : ArchiveDisownedRange → ArchiveDisownedRange → Bool
is_apart cur r =
    not (cur.domain == r.domain)
    || not (cur.server == r.server)
    || ltb cur.through r.after
    || ltb r.through cur.after

-- The range that takes the place of one that it meets.
abbrev grow : ArchiveDisownedRange → ArchiveDisownedRange → ArchiveDisownedRange
grow cur r = record {
  domain = cur.domain;
  server = cur.server;
  after = if ltb r.after cur.after then r.after else cur.after;
  through = if ltb cur.through r.through then r.through else cur.through;
}

abbrev grows : ArchiveDisownedRange → ArchiveDisownedRange → Bool
grows cur r = ltb r.after cur.after || ltb cur.through r.through

-- The loop of `AddRange`, with what it reports.
pub fold_range : List ArchiveDisownedRange → ArchiveDisownedRange → List ArchiveDisownedRange × Bool
fold_range [] r = (r ∷ [], true)
fold_range (cur ∷ ranges) r =
    let rest = fold_range ranges r in
    if is_apart cur r then (cur ∷ rest.0, rest.1) else (grow cur r ∷ ranges, grows cur r)

unfoldable pub add_range :
    List ArchiveDisownedRange → ArchiveDisownedRange → List ArchiveDisownedRange × Bool
unfolding fold_range
add_range ranges r = if leb r.through r.after then (ranges, false) else fold_range ranges r

abbrev pub any_holds : List ArchiveDisownedRange → ℕ → ℕ → ℕ → Bool
any_holds ranges domain server seq = any (λ r. holds r domain server seq) ranges

hull :
    (ca ct ra rt s : ℕ)
    → ltb ct ra ≡ false
    → ltb rt ca ≡ false
    → (ltb (if ltb ra ca then ra else ca) s && leb s (if ltb ct rt then rt else ct))
      ≡ ((ltb ca s && leb s ct) || (ltb ra s && leb s rt))
hull ca ct ra rt s h g = ground arith

apart_flags :
    (d s x y : Bool)
    → (not d || not s || x || y) ≡ false
    → (d ≡ true) × (s ≡ true) × (x ≡ false) × (y ≡ false)
apart_flags d s x y h = (ground arith, ground arith, ground arith, ground arith)

share :
    (d s x y z w u v : Bool)
    → (x && y) ≡ ((z && w) || (u && v))
    → (d && s && x && y) ≡ ((d && s && z && w) || (d && s && u && v))
share false s x y z w u v h = refl
share true false x y z w u v h = refl
share true true x y z w u v h = h

grow-holds :
    (cur r : ArchiveDisownedRange) (domain server seq : ℕ)
    → is_apart cur r ≡ false
    → holds (grow cur r) domain server seq
      ≡ (holds cur domain server seq || holds r domain server seq)
unfolding holds
grow-holds cur r domain server seq h =
    let (d, s, x, y) = apart_flags (cur.domain == r.domain) (cur.server == r.server) _ _ h in
    rw (sym ((==_iff cur.domain r.domain).0 d), sym ((==_iff cur.server r.server).0 s))
      (share (cur.domain == domain) (cur.server == server) _ _ _ _ _ _
        (hull cur.after cur.through r.after r.through seq x y))

fold_range-holds :
    (ranges : List ArchiveDisownedRange) (r : ArchiveDisownedRange) (domain server seq : ℕ)
    → any_holds (fold_range ranges r).0 domain server seq
      ≡ (any_holds ranges domain server seq || holds r domain server seq)
unfolding fold_range
fold_range-holds [] r domain server seq = ground arith
fold_range-holds (cur ∷ ranges) r domain server seq = elim (Bool-cases (is_apart cur r)) [
  | inl a ↦ rw (a, fold_range-holds ranges r domain server seq) (ground arith)
  | inr a ↦ rw (a, grow-holds cur r domain server seq a) (ground arith)
]

empty-holds :
    (r : ArchiveDisownedRange) (domain server seq : ℕ)
    → leb r.through r.after ≡ true
    → holds r domain server seq ≡ false
unfolding holds
empty-holds r domain server seq h = ground arith

-- After `AddRange` the record holds exactly the transactions that it held before and those of the range.
pub add_range-holds :
    (ranges : List ArchiveDisownedRange) (r : ArchiveDisownedRange) (domain server seq : ℕ)
    → any_holds (add_range ranges r).0 domain server seq
      ≡ (any_holds ranges domain server seq || holds r domain server seq)
unfolding add_range
add_range-holds ranges r domain server seq = elim (Bool-cases (leb r.through r.after)) [
  | inl h ↦ rw (h, empty-holds r domain server seq h) (ground arith)
  | inr h ↦ rw h (fold_range-holds ranges r domain server seq)
]

grown_flags : (a b : Bool) → (a || b) ≡ false → (a ≡ false) × (b ≡ false)
grown_flags a b h = (ground arith, ground arith)

grows-false : (cur r : ArchiveDisownedRange) → grows cur r ≡ false → grow cur r ≡ cur
grows-false cur r h =
    let (a, b) = grown_flags (ltb r.after cur.after) (ltb cur.through r.through) h in rw (a, b)

fold_range-unchanged :
    (ranges : List ArchiveDisownedRange) (r : ArchiveDisownedRange)
    → (fold_range ranges r).1 ≡ false
    → (fold_range ranges r).0 ≡ ranges
unfolding fold_range
fold_range-unchanged [] r h = cc
fold_range-unchanged (cur ∷ ranges) r h = elim (Bool-cases (is_apart cur r)) [
  | inl a ↦ rw (a, fold_range-unchanged ranges r (rw a at h))
  | inr a ↦ rw (a, grows-false cur r (rw a at h))
]

-- When `AddRange` reports no growth, it leaves the ranges as they are.
add_range-unchanged :
    (ranges : List ArchiveDisownedRange) (r : ArchiveDisownedRange)
    → (add_range ranges r).1 ≡ false
    → (add_range ranges r).0 ≡ ranges
unfolding add_range
add_range-unchanged ranges r h = elim (Bool-cases (leb r.through r.after)) [
  | inl e ↦ rw e
  | inr e ↦ rw e (fold_range-unchanged ranges r (rw e at h))
]
