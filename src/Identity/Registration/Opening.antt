-- ===== src/Identity/Registration/Opening.antt =====
-- What a registration opens, and how long it lasts.
use Prim.Native.String.{String}
use text.Mathlib.Text.{◌==◌ as str_eq}
use fleex.Common.{
  ℕ, ◌+◌, ◌<◌, ◌≡◌, refl, ap, sym, ◌∙◌, Bool, true, false, none, some, List, [], ◌∷◌, ◌++◌, map,
  find?, ◌==◌, arith, Option-cases, inl, inr, lt→ltb, Option,
}
use fleex.Common.Results.{ok, err, unauthorized, forbidden}
use fleex.Billing.Store.{Subscription, suspended, find_subscription}
use fleex.Billing.Store.{Store as BillingStore}
use fleex.Billing.Plans.{assert_can_add_device, device_company, create_in, create_device}
use fleex.Access.Roles.{Actor}
use fleex.Billing.Lifecycle.{grace_ms, run_lifecycle}
use fleex.Billing.Lifecycle.Schedule.{after_run, run_lifecycle-map}
use fleex.Identity.Store.{find_email}
use fleex.Identity.Login.{Attempt, login}
use fleex.Identity.Registration.{
  Tenancy, Registration, trial_subscription, trial_end, open_company, register_company,
}

find?-append :
    (p : Subscription → Bool) (xs : List Subscription) (y : Subscription)
    → find? p xs ≡ none
    → p y ≡ true
    → find? p (xs ++ (y ∷ [])) ≡ some y
find?-append p [] y h k = rw k refl
find?-append p (x ∷ xs) y h k = ground (arith, find?-append p xs y)

find_subscription-map :
    (f : Subscription → Subscription) (company : ℕ) (xs : List Subscription) (s : Subscription)
    → ((x : Subscription) → (f x).company_id ≡ x.company_id)
    → find_subscription company xs ≡ some s
    → find_subscription company (map f xs) ≡ some (f s)
find_subscription-map f company [] s same h = cc
find_subscription-map f company (x ∷ xs) s same h =
    ground (arith, same x, find_subscription-map f company xs s same)

suspended_is_refused :
    (billing : BillingStore) (company : ℕ) (s : Subscription) (actor : Actor)
    (wanted group garage : Option ℕ)
    → device_company actor wanted ≡ some company
    → find_subscription company billing.subscriptions ≡ some s
    → s.status ≡ suspended
    → create_device billing actor wanted group garage ≡ err forbidden
unfolding create_device create_in assert_can_add_device
suspended_is_refused billing company s actor wanted group garage mine h k =
    rw mine (rw h (rw k refl))

-- When a company registers with an id of its own, and its subscription is next changed by a daily
-- job that runs once the trial of 14 days and the grace time are over, the creation of a device
-- for it is refused then, whoever asks. (An import does not look at the subscription.)
pub trial_lapses :
    (canonical : String → String) (db : Tenancy) (r : Registration) (now : ℕ)
    (billing : BillingStore) (actor : Actor) (wanted group garage : Option ℕ)
    → device_company actor wanted ≡ some r.company_id
    → (register_company canonical db r).1 ≡ ok r.fresh
    → find_subscription r.company_id db.subscriptions ≡ none
    → trial_end r + grace_ms < now
    → billing.subscriptions
      ≡ (run_lifecycle now (register_company canonical db r).0.subscriptions).0
    → create_device billing actor wanted group garage ≡ err forbidden
unfolding register_company
trial_lapses canonical db r now billing actor wanted group garage mine opened fresh late rows =
    elim (Option-cases (find_email (canonical r.email) db.identity.users)) [
      | inl e ↦
          let t = trial_subscription r in
          let all = db.subscriptions ++ (t ∷ []) in
          let stored : billing.subscriptions ≡ (run_lifecycle now all).0 =
            rows
            ∙ ap (λ o. (run_lifecycle now (open_company canonical db r o).0.subscriptions).0) e in
          let there =
            find?-append (λ s. s.company_id == r.company_id) db.subscriptions t fresh
              (ground arith) in
          let after = find_subscription-map (after_run now) r.company_id all t (λ x. refl) there in
          suspended_is_refused billing r.company_id (after_run now t) actor wanted group garage mine
            (ap (find_subscription r.company_id) (stored ∙ run_lifecycle-map now all) ∙ after)
            (rw (lt→ltb (trial_end r + grace_ms) now late) refl)
      | inr (user, e) ↦
          let conflicts : (open_company canonical db r (some user)).1 ≡ ok r.fresh =
            sym (ap (λ o. (open_company canonical db r o).1) e) ∙ opened in
          cc
    ]

-- Someone who registers with an address that is not in the form in which it is stored, and that is
-- no one's, is refused at the login with the address as it was typed.
typed_email_is_unknown :
    (verify : ℕ → String → Bool) (canonical : String → String) (db : Tenancy) (r : Registration)
    (a : Attempt)
    → str_eq (canonical r.email) r.email ≡ false
    → find_email r.email db.identity.users ≡ none
    → (login verify (register_company canonical db r).0.identity r.email a).1 ≡ err unauthorized
unfolding login register_company
typed_email_is_unknown verify canonical db r a differs unknown =
    elim (Option-cases (find_email (canonical r.email) db.identity.users)) [
      | inl e ↦ rw e (rw differs (rw unknown refl))
      | inr (user, e) ↦ rw e (rw unknown refl)
    ]
