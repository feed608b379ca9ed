-- ===== src/Gtid/Print/Sources.antt =====
-- The sources that String prints: each source with ranges, once.
use cnmsql.Base.{
  ◌≡◌, refl, ◌∙◌, Bool, false, not, ◌||◌, List, [], ◌∷◌, Text, lookup, HasDistinctKeys, text_Eq,
  text_eq, text_eq_iff, text_eq_comm, is_empty, arith, Bool-cases, inl, inr, any, any-sort, none,
  sort, insert_sorted, text_lt,
}
use cnmsql.Gtid.Set.{GtidSet, slot}
use cnmsql.Gtid.Set.Meaning.{slot-cons, slot-nil}
use cnmsql.Gtid.Print.{occupied_sources}

abbrev pub IsDistinct : List Text → Type 0
IsDistinct [] = Unit
IsDistinct (u ∷ us) = (any (text_eq u) us ≡ false) × IsDistinct us

insert_sorted-any :
    (p : Text → Bool) (x : Text) (ys : List Text)
    → any p (insert_sorted text_lt x ys) ≡ (p x || any p ys)
unfolding insert_sorted
insert_sorted-any p x [] = refl
insert_sorted-any p x (y ∷ ys) = ground (arith, insert_sorted-any p x ys)

insert_sorted-IsDistinct :
    (x : Text) (ys : List Text)
    → any (text_eq x) ys ≡ false
    → IsDistinct ys
    → IsDistinct (insert_sorted text_lt x ys)
unfolding insert_sorted
insert_sorted-IsDistinct x [] h d = (refl, tt)
insert_sorted-IsDistinct x (y ∷ ys) h d = ground (
  arith,
  insert_sorted-any (text_eq y) x ys,
  text_eq_comm x y,
  insert_sorted-IsDistinct x ys (ground arith) d.1,
)

pub sort-IsDistinct : (us : List Text) → IsDistinct us → IsDistinct (sort text_lt us)
unfolding sort
sort-IsDistinct [] d = tt
sort-IsDistinct (u ∷ us) d =
    insert_sorted-IsDistinct u (sort text_lt us) (any-sort text_lt (text_eq u) us ∙ d.0)
      (sort-IsDistinct us d.1)

occupied_sources-absent :
    (s : GtidSet) (u : Text) → lookup u s ≡ none → any (text_eq u) (occupied_sources s) ≡ false
unfolding occupied_sources lookup
occupied_sources-absent [] u h = refl
occupied_sources-absent ((v, ivs) ∷ s) u h =
    ground (arith, occupied_sources-absent s u, text_eq_comm u v)

pub occupied_sources-IsDistinct :
    (s : GtidSet) → HasDistinctKeys s → IsDistinct (occupied_sources s)
unfolding occupied_sources
occupied_sources-IsDistinct [] h = tt
occupied_sources-IsDistinct ((v, ivs) ∷ s) h =
    ground (arith, occupied_sources-IsDistinct s h.1, occupied_sources-absent s v h.0)

-- A source is printed exactly when it has a range.
pub occupied_sources-any :
    (s : GtidSet) (u : Text)
    → HasDistinctKeys s
    → any (text_eq u) (occupied_sources s) ≡ not (is_empty (slot s u))
unfolding occupied_sources
occupied_sources-any [] u h = rw (slot-nil u)
occupied_sources-any ((v, ivs) ∷ s) u h =
    rw (slot-cons u v ivs s) (elim (Bool-cases (text_eq v u)) [
      | inl e ↦
          ground (
            arith,
            text_eq_comm u v,
            occupied_sources-absent s u (rw ((text_eq_iff v u).0 e) at h.0),
          )
      | inr e ↦ ground (arith, text_eq_comm u v, occupied_sources-any s u h.1)
    ])
