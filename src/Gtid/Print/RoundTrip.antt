-- ===== src/Gtid/Print/RoundTrip.antt =====
-- A printed set is read back with the same transactions.
use mathlib.Core.List.{append-nil, append_assoc}
use cnmsql.Base.{
  ℕ, ◌≡◌, ◌≢◌, refl, ap, ◌∙◌, false, not, List, [], ◌∷◌, ◌++◌, map, none, some, if◌then◌else◌, Text,
  to_lower, lookup, HasDistinctKeys, text_Eq, text_eq, text_eq_iff, text_eq_refl, text_eq_comm,
  is_empty, All, All-append, All-sort, arith, Bool-cases, inl, inr, any, any-sort, sort, text_lt,
}
use cnmsql.Base.Split.{
  split, split-whole, split-append, Lacks, IsUnspaced, strip_spaces, strip_spaces-IsUnspaced,
}
use cnmsql.Gtid.Interval.{Interval, member, IsInterval, IsNormal}
use cnmsql.Gtid.Interval.Normal.{normalize_intervals_normal}
use cnmsql.Gtid.Set.{GtidSet, slot, holds, IsEntry, IsGtidSet}
use cnmsql.Gtid.Set.Meaning.{slot-cons, slot-nil, slot_absent}
use cnmsql.Gtid.Set.Merge.{IsNormal-All}
use cnmsql.Gtid.Parse.{
  ◌>>=◌, parse_intervals, parse_source, parse_sources, normalize_all, parse_cleaned, parse_gtid_set,
}
use cnmsql.Gtid.Print.{
  print_interval, print_intervals, occupied_sources, print_source, print_sources, print_gtid_set,
}
use cnmsql.Gtid.Print.Reading.{
  IsSourceName, IsRangeChar, IsRangeChar-colonless, print_interval-IsRangeChar,
  split-print_intervals, parse_intervals-map, parse_interval-print_interval, insert-fresh,
}
use cnmsql.Gtid.Print.Sources.{
  IsDistinct, sort-IsDistinct, occupied_sources-IsDistinct, occupied_sources-any,
}

-- A source that String prints: its name can be read back, and it has ranges, which are normal.
record IsPrintable (s : GtidSet) (u : Text) : Type 0 where
  name : IsSourceName u
  lowered : to_lower u ≡ u
  normal : IsNormal (slot s u)
  occupied : is_empty (slot s u) ≡ false

-- The entries of the printed sources.
abbrev entries_of : GtidSet → List Text → GtidSet
entries_of s [] = []
entries_of s (u ∷ us) = (u, slot s u) ∷ entries_of s us

parse_source-some :
    (u : Text) (iv : Interval) (ivs : List Interval) (set : GtidSet)
    → is_empty u ≡ false
    → to_lower u ≡ u
    → All IsInterval (iv ∷ ivs)
    → lookup u set ≡ none
    → parse_source (u ∷ map print_interval (iv ∷ ivs)) set ≡ some (set ++ (u, iv ∷ ivs) ∷ [])
unfolding parse_source
parse_source-some u iv ivs set ho hl hi f =
    ap (λ x. if is_empty x then none else parse_intervals x (map print_interval (iv ∷ ivs)) set) hl
    ∙ rw
        (
          ho,
          parse_interval-print_interval iv hi.0,
          slot_absent set u f,
          insert-fresh u (iv ∷ []) set f,
        )
        (parse_intervals-map u ivs (iv ∷ []) set hi.1 f)

parse_source-print_source :
    (s : GtidSet) (u : Text) (set : GtidSet)
    → IsPrintable s u
    → lookup u set ≡ none
    → parse_source (split b':' (print_source s u)) set ≡ some (set ++ (u, slot s u) ∷ [])
unfolding print_source
parse_source-print_source s u set h f =
    rw
      (split-print_intervals u (slot s u) (IsRangeChar-colonless u h.name.plain)
        (IsNormal-All _ h.normal))
      (ranges (slot s u) h.occupied (IsNormal-All _ h.normal))
  where
    ranges :
        (ivs : List Interval)
        → is_empty ivs ≡ false
        → All IsInterval ivs
        → parse_source (u ∷ map print_interval ivs) set ≡ some (set ++ (u, ivs) ∷ [])
    ranges [] o hi = cc
    ranges (iv ∷ ivs) o hi = parse_source-some u iv ivs set h.name.named h.lowered hi f

lookup-last :
    (w u : Text) (ivs : List Interval) (set : GtidSet)
    → lookup w set ≡ none
    → text_eq u w ≡ false
    → lookup w (set ++ (u, ivs) ∷ []) ≡ none
unfolding lookup
lookup-last w u ivs [] f e = rw e
lookup-last w u ivs ((v, old) ∷ set) f e = ground (arith, lookup-last w u ivs set)

IsNew-last :
    (us : List Text) (u : Text) (ivs : List Interval) (set : GtidSet)
    → All (λ w. lookup w set ≡ none) us
    → any (text_eq u) us ≡ false
    → All (λ w. lookup w (set ++ (u, ivs) ∷ []) ≡ none) us
IsNew-last [] u ivs set f e = tt
IsNew-last (w ∷ us) u ivs set f e =
    (lookup-last w u ivs set f.0 (ground arith), IsNew-last us u ivs set f.1 (ground arith))

parse_sources-entries_of :
    (s : GtidSet) (us : List Text) (set : GtidSet)
    → All (IsPrintable s) us
    → IsDistinct us
    → All (λ w. lookup w set ≡ none) us
    → parse_sources (map (print_source s) us) set ≡ some (set ++ entries_of s us)
unfolding parse_sources
parse_sources-entries_of s [] set h d f = rw append-nil
parse_sources-entries_of s (u ∷ us) set h d f = rw (parse_source-print_source s u set h.0 f.0) (
    parse_sources-entries_of s us (set ++ (u, slot s u) ∷ []) h.1 d.1
      (IsNew-last us u (slot s u) set f.1 d.0)
    ∙ ap some (append_assoc set _ _))

-- A character of a printed source, and of a printed set.
abbrev IsSourceChar : ℕ → Type 0
IsSourceChar c = (c ≢ b',') × (c ≢ b' ') × (c ≢ b'\n') × (c ≢ b'\r') × (c ≢ b'\t')

IsRangeChar-IsSourceChar : (t : Text) → All IsRangeChar t → All IsSourceChar t
IsRangeChar-IsSourceChar [] h = tt
IsRangeChar-IsSourceChar (c ∷ t) h =
    ((h.0.1, h.0.2, h.0.3, h.0.4, h.0.5), IsRangeChar-IsSourceChar t h.1)

print_intervals-IsSourceChar :
    (ivs : List Interval) → All IsInterval ivs → All IsSourceChar (print_intervals ivs)
unfolding print_intervals
print_intervals-IsSourceChar [] h = tt
print_intervals-IsSourceChar (iv ∷ ivs) h = (
  omega arith,
  All-append IsSourceChar _ _ (IsRangeChar-IsSourceChar _ (print_interval-IsRangeChar iv h.0))
      (print_intervals-IsSourceChar ivs h.1),
)

print_source-IsSourceChar :
    (s : GtidSet) (u : Text) → IsPrintable s u → All IsSourceChar (print_source s u)
unfolding print_source
print_source-IsSourceChar s u h =
    All-append IsSourceChar _ _ (IsRangeChar-IsSourceChar u h.name.plain)
      (print_intervals-IsSourceChar (slot s u) (IsNormal-All _ h.normal))

commaless : (t : Text) → All IsSourceChar t → Lacks b',' t
commaless [] h = tt
commaless (c ∷ t) h = (h.0.0, commaless t h.1)

spaceless : (t : Text) → All IsSourceChar t → IsUnspaced t
spaceless [] h = tt
spaceless (c ∷ t) h = ((h.0.1, h.0.2, h.0.3, h.0.4), spaceless t h.1)

print_sources-IsUnspaced :
    (s : GtidSet) (us : List Text) → All (IsPrintable s) us → IsUnspaced (print_sources s us)
unfolding print_sources
print_sources-IsUnspaced s [] h = tt
print_sources-IsUnspaced s (u ∷ []) h = spaceless _ (print_source-IsSourceChar s u h.0)
print_sources-IsUnspaced s (u ∷ v ∷ us) h =
    All-append _ _ _ (spaceless _ (print_source-IsSourceChar s u h.0))
      (omega arith, print_sources-IsUnspaced s (v ∷ us) h.1)

-- Text that begins with a source name is not empty.
print_sources-occupied :
    (s : GtidSet) (u : Text) (us : List Text)
    → is_empty u ≡ false
    → is_empty (print_sources s (u ∷ us)) ≡ false
unfolding print_sources print_source
print_sources-occupied s [] us h = cc
print_sources-occupied s (c ∷ u) [] h = refl
print_sources-occupied s (c ∷ u) (v ∷ us) h = refl

parse_cleaned-occupied :
    (t : Text)
    → is_empty t ≡ false
    → parse_cleaned t ≡ (parse_sources (split b',' t) [] >>= λ set. some (normalize_all set))
unfolding parse_cleaned
parse_cleaned-occupied [] h = cc
parse_cleaned-occupied (c ∷ t) h = refl

split-print_sources :
    (s : GtidSet) (u : Text) (us : List Text)
    → All (IsPrintable s) (u ∷ us)
    → split b',' (print_sources s (u ∷ us)) ≡ map (print_source s) (u ∷ us)
unfolding print_sources
split-print_sources s u [] h =
    split-whole b',' (print_source s u) (commaless _ (print_source-IsSourceChar s u h.0))
split-print_sources s u (v ∷ us) h =
    split-append b',' (print_source s u) _ (commaless _ (print_source-IsSourceChar s u h.0))
    ∙ ap (◌∷◌ (print_source s u)) (split-print_sources s v us h.1)

normalize_all-entries_of :
    (s : GtidSet) (us : List Text)
    → All (IsPrintable s) us
    → normalize_all (entries_of s us) ≡ entries_of s us
unfolding normalize_all
normalize_all-entries_of s [] h = refl
normalize_all-entries_of s (u ∷ us) h =
    rw (normalize_intervals_normal (slot s u) h.0.normal, normalize_all-entries_of s us h.1)

parse-print_sources :
    (s : GtidSet) (us : List Text)
    → All (IsPrintable s) us
    → IsDistinct us
    → parse_gtid_set (print_sources s us) ≡ some (entries_of s us)
unfolding parse_gtid_set
parse-print_sources s [] h d = unfold print_sources parse_cleaned strip_spaces in refl
parse-print_sources s (u ∷ us) h d =
    rw
      (
        strip_spaces-IsUnspaced _ (print_sources-IsUnspaced s (u ∷ us) h),
        parse_cleaned-occupied _ (print_sources-occupied s u us h.0.name.named),
        split-print_sources s u us h,
        parse_sources-entries_of s (u ∷ us) [] h d (new (u ∷ us)),
      )
      (ap some (normalize_all-entries_of s (u ∷ us) h))
  where
    new : (ws : List Text) → All (λ w. lookup {V = List Interval} w [] ≡ none) ws
    new [] = tt
    new (w ∷ ws) = (unfold lookup in refl, new ws)

slot-entries_of :
    (s : GtidSet) (us : List Text) (w : Text)
    → slot (entries_of s us) w ≡ (if any (text_eq w) us then slot s w else [])
slot-entries_of s [] w = slot-nil w
slot-entries_of s (u ∷ us) w =
    rw (slot-cons w u (slot s u) (entries_of s us)) (elim (Bool-cases (text_eq u w)) [
      | inl e ↦ rw (e, text_eq_comm w u, e, (text_eq_iff u w).0 e)
      | inr e ↦ rw (e, text_eq_comm w u, e) (slot-entries_of s us w)
    ])

-- The names that a set is printed under can be read back.
abbrev pub HasSourceNames : GtidSet → Type 0
HasSourceNames = All (λ entry. IsSourceName entry.0)

-- The entries of `part` are found in `s`.
abbrev Agrees : GtidSet → GtidSet → Type 0
Agrees s = All (λ entry. slot s entry.0 ≡ entry.1)

Agrees-cons :
    (v : Text) (ivs : List Interval) (s part : GtidSet)
    → lookup v part ≡ none
    → Agrees s part
    → Agrees ((v, ivs) ∷ s) part
unfolding lookup
Agrees-cons v ivs s [] f a = tt
Agrees-cons v ivs s ((w, old) ∷ part) f a = (
  ground (arith, slot-cons w v ivs s, text_eq_comm v w, a.0),
  Agrees-cons v ivs s part (ground arith) a.1,
)

Agrees-refl : (s : GtidSet) → HasDistinctKeys s → Agrees s s
Agrees-refl [] h = tt
Agrees-refl ((v, ivs) ∷ s) h =
    (rw (slot-cons v v ivs s, text_eq_refl v), Agrees-cons v ivs s s h.0 (Agrees-refl s h.1))

occupied_sources-IsPrintable :
    (s part : GtidSet)
    → Agrees s part
    → All IsEntry part
    → HasSourceNames part
    → All (IsPrintable s) (occupied_sources part)
unfolding occupied_sources
occupied_sources-IsPrintable s [] a h hn = tt
occupied_sources-IsPrintable s ((v, ivs) ∷ part) a h hn = rw h.0.occupied (
  record {
    name = hn.0;
    lowered = h.0.lowered;
    normal = rw a.0 h.0.normal;
    occupied = rw a.0 h.0.occupied;
  },
  occupied_sources-IsPrintable s part a.1 h.1 hn.1,
)

-- A printed set is read back as a set of the same transactions.
pub parse-print_gtid_set :
    (s : GtidSet)
    → IsGtidSet s
    → HasSourceNames s
    → (t : GtidSet) × (parse_gtid_set (print_gtid_set s) ≡ some t)
      × ((u : Text) (n : ℕ) → holds t u n ≡ holds s u n)
unfolding print_gtid_set
parse-print_gtid_set s h hn = (
  entries_of s sources,
  parse-print_sources s sources
      (All-sort text_lt (IsPrintable s) _
        (occupied_sources-IsPrintable s s (Agrees-refl s h.distinct) h.entries hn))
      (sort-IsDistinct _ (occupied_sources-IsDistinct s h.distinct)),
  λ u n. ap (member n) (slot-entries_of s sources u ∙ same u),
)
  where
    sources : List Text
    sources = sort text_lt (occupied_sources s)

    kept : (ivs : List Interval) → (if not (is_empty ivs) then ivs else []) ≡ ivs
    kept [] = refl
    kept (iv ∷ ivs) = refl

    same : (u : Text) → (if any (text_eq u) sources then slot s u else []) ≡ slot s u
    same u =
        rw (any-sort text_lt (text_eq u) (occupied_sources s), occupied_sources-any s u h.distinct)
          (kept (slot s u))
