-- ===== src/Handover/Deferral.antt =====
-- How long a switchover holds back a failover: targetHoldsPromotionLease and switchoverInFlight of
-- internal/controller/async/cluster_failover.go.
use mathlib.Core.Path.{subst}
use cnmsql.Base.{
  ℕ, ◌≡◌, refl, sym, ap, ◌∙◌, ◌⊎◌, inl, inr, Bool, true, false, not, ◌&&◌, ◌||◌, if◌then◌else◌,
  List, Option, none, some, Text, text_eq, text_Eq, is_empty, lookup, Bool-cases, arith,
}
use cnmsql.Failover.{FailoverInstance, FailoverState, has}
use cnmsql.Handover.{
  Spec, Message, Lease, Fetched, fetched, not_found, fetch_failed, Api, Outcome, ok, err, Pass,
  bind,
}
use cnmsql.Handover.Guards.{
  on_by_default, is_set, is_fit_primary, is_valid, on_its_way, validate_switchover_target,
  switchover_overdue, switchover_in_flight, lease_reply, primary_lease_status,
  target_holds_promotion_lease,
}

valid-none : (e : Option Message) → is_valid e ≡ true → e ≡ none
valid-none none h = refl
valid-none (some m) h = cc

on_its_way-overdue :
    (status : Option FailoverInstance)
    → on_its_way status true ≡ true
    → is_fit_primary status ≡ true
on_its_way-overdue none h = cc
on_its_way-overdue (some status) h = ground arith

abbrev answer : Outcome Bool → Bool
answer (ok b) = b
answer (err claims e) = false

late_answer : (lease late : Bool) → late ≡ true → (lease && not late) ≡ false
late_answer lease late h = ground arith

module _ {W : Type 0} (api : Api W) (now : ℕ) (spec : Spec) where
  pub lease_status-pass :
      (holder : Text) (p p' : Pass W) (lease : Option ℕ)
      → primary_lease_status api now spec holder p ≡ (p', ok lease)
      → p' ≡ p
  unfolding primary_lease_status
  lease_status-pass holder p p' lease h =
      elim (Bool-cases (on_by_default spec.enable_primary_lease)) [
        | inl e ↦ reply-pass (api.get_lease p.world) (rw e at h)
        | inr e ↦ ap (λ x. x.0) (sym (rw e at h))
      ]
    where
      reply-pass :
          (reply : Fetched Lease) → lease_reply now holder reply p ≡ (p', ok lease) → p' ≡ p
      reply-pass (fetched l) f = ap (λ x. x.0) (sym f)
      reply-pass not_found f = ap (λ x. x.0) (sym f)
      reply-pass (fetch_failed m) f = cc (ap (λ x. x.1) f)

  bind_held :
      (m : Pass W × Outcome (Option ℕ)) (g : Option ℕ → Bool) (p' : Pass W) (holds : Bool)
      → bind m (λ lease p. (p, ok (g lease))) ≡ (p', ok holds)
      → (lease : Option ℕ) × (m ≡ (p', ok lease)) × (g lease ≡ holds)
  bind_held (p, ok lease) g p' holds h =
      (lease, ap (λ x. (x.0, ok lease)) h, ap (λ x. answer x.1) h)
  bind_held (p, err c e) g p' holds h = cc (ap (λ x. x.1) h)

  -- The answer leaves the pass as it is, and is no for a switchover that is overdue.
  pub target_holds-overdue :
      (known : List Text) (p p' : Pass W) (holds : Bool)
      → target_holds_promotion_lease api now spec known p ≡ (p', ok holds)
      → (p' ≡ p) × (switchover_overdue now spec p.status ≡ true → holds ≡ false)
  unfolding target_holds_promotion_lease
  target_holds-overdue known p p' holds h =
      let target = p.status.target_primary in
      elim (Bool-cases
        (is_empty target || text_eq target p.status.current_primary || has target known)) [
          | inl n ↦
              (ap (λ x. x.0) (sym (rw n at h)), λ late. ap (λ x. answer x.1) (sym (rw n at h)))
          | inr n ↦
              let (lease, e, g) =
                bind_held (primary_lease_status api now spec target p)
                  (λ lease. is_set lease && not (switchover_overdue now spec p.status)) p' holds
                  (rw n at h) in
              (
                lease_status-pass target p p' lease e,
                λ late. sym g ∙ late_answer (is_set lease) _ late,
              )
        ]

  flight_cases :
      (n d v l w : Bool)
      → (if n then false else if d then false else if v then true else if l then true else w) ≡ true
      → l ≡ false
      → (v ≡ true) ⊎ (w ≡ true)
  flight_cases false false true l w h q = inl refl
  flight_cases false false false l w h q = inr (ground arith)
  flight_cases true d v l w h q = cc
  flight_cases false true v l w h q = cc

  -- Once a switchover is overdue, it holds back a failover only as long as its target is a fit replica, or is ready
  -- and reports that it is the primary.
  pub in_flight-overdue :
      (observed : FailoverState) (known : List Text) (p p' : Pass W) (holds : Bool)
      → switchover_overdue now spec p.status ≡ true
      → target_holds_promotion_lease api now spec known p ≡ (p', ok holds)
      → switchover_in_flight now spec p'.status observed known holds ≡ true
      → (validate_switchover_target observed p.status.target_primary ≡ none)
        ⊎ (is_fit_primary (lookup p.status.target_primary observed.instances) ≡ true)
  unfolding switchover_in_flight
  in_flight-overdue observed known p p' holds late asked h =
      let status = lookup p.status.target_primary observed.instances in
      let (same, no_lease) = target_holds-overdue known p p' holds asked in
      let flying =
        subst (λ q. switchover_in_flight now spec q.status observed known holds ≡ true) same h in
      elim (flight_cases _ _ _ holds _ flying (no_lease late)) [
        | inl v ↦ inl (valid-none _ v)
        | inr w ↦ inr (on_its_way-overdue status (subst (λ b. on_its_way status b ≡ true) late w))
      ]
