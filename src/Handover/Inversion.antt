-- ===== src/Handover/Inversion.antt =====
-- The steps of a primary change that went through: what a chain of them did, and what it left.
use cnmsql.Base.{◌≡◌, refl, sym, ap, Bool, true, false, not, ◌&&◌, Option, none, some, Text, ℕ}
use cnmsql.Handover.{
  FailoverResult, claimed, Spec, Status, Fetched, fetched, not_found, fetch_failed, Api, Outcome,
  ok, err, Pass, Act, bind,
}
use cnmsql.Handover.Guards.{is_set, patch_reply, patch_fetched, patch_cluster_status}

-- A pass that was handled, without an error and with no phase left to report.
abbrev pub settles : Outcome FailoverResult → Bool
settles (ok r) = r.handled && not (is_set r.phase)
settles (err handled e) = false

module _ {W : Type 0} where
  pub bind-settles :
      {A : Type 0} (m : Pass W × Outcome A) (f : A → Act W FailoverResult)
      → settles (bind m f).1 ≡ true
      → (p : Pass W) × (a : A) × (m ≡ (p, ok a)) × (bind m f ≡ f a p) × (settles (f a p).1 ≡ true)
  bind-settles (p, ok a) f h = (p, a, refl, refl, h)
  bind-settles (p, err handled e) f h = cc

  pub bind-claimed-settles :
      {A : Type 0} (m : Pass W × Outcome A) (f : A → Act W FailoverResult)
      → settles (bind (claimed m) f).1 ≡ true
      → (p : Pass W) × (a : A) × (m ≡ (p, ok a))
        × (bind (claimed m) f ≡ f a p)
        × (settles (f a p).1 ≡ true)
  bind-claimed-settles (p, ok a) f h = (p, a, refl, refl, h)
  bind-claimed-settles (p, err handled e) f h = cc

module _ {W : Type 0} (api : Api W) (now : ℕ) (spec : Spec) where
  -- A patch of the status that went through: the status is what it made of the latest one.
  pub patch_recorded :
      (mutate : Status → Status) (p p' : Pass W) {u : Unit {0}}
      → patch_cluster_status api now spec mutate p ≡ (p', ok u)
      → (latest : Status) × (api.get_status p.world ≡ fetched latest) × (p'.status ≡ mutate latest)
  unfolding patch_cluster_status
  patch_recorded mutate p p' {u} e = fetched_case (api.get_status p.world) refl e
    where
      written_case :
          (latest : Status) (reply : W × Option Text)
          → patch_reply api now spec (mutate latest) reply p ≡ (p', ok u)
          → p'.status ≡ mutate latest
      written_case latest (w, none) f = ap (λ x. x.0.status) (sym f)
      written_case latest (w, some m) f = cc (ap (λ x. x.1) f)

      fetched_case :
          (reply : Fetched Status)
          → api.get_status p.world ≡ reply
          → patch_fetched api now spec mutate reply p ≡ (p', ok u)
          → (latest : Status) × (api.get_status p.world ≡ fetched latest)
            × (p'.status ≡ mutate latest)
      fetched_case (fetched latest) g f =
          (latest, g, written_case latest (api.patch_status p.world latest (mutate latest)) f)
      fetched_case not_found g f = cc (ap (λ x. x.1) f)
      fetched_case (fetch_failed m) g f = cc (ap (λ x. x.1) f)
