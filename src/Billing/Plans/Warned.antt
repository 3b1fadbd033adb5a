-- ===== src/Billing/Plans/Warned.antt =====
-- That a company which may add no device is warned.
use fleex.Common.{
  ℕ, ◌≡◌, ◌≢◌, refl, ℤ, pos, negsuc, Bool, true, false, Option, none, some, List, [], ◌∷◌, ◌++◌,
  arith, any, ◌||◌,
}
use fleex.Common.Results.{ok, forbidden, throw_if, ◌>>◌}
use fleex.Billing.Catalog.{get_plan}
use fleex.Billing.Store.{Subscription, SubscriptionStatus, Store, find_subscription, count_devices}
use fleex.Billing.Plans.{
  effective_device_limit, assert_can_add_device, check_subscription, is_inactive, reached,
  summary_warnings, company_warnings, status_warnings, device_warnings, Level, Code, inactive,
  device_near, device_over,
}

abbrev pub is_cap_warning : Level × Code → Bool
is_cap_warning (_, inactive) = true
is_cap_warning (_, device_near) = true
is_cap_warning (_, device_over) = true
is_cap_warning _ = false

any-append :
    (p : Level × Code → Bool) (xs ys : List (Level × Code))
    → any p (xs ++ ys) ≡ (any p xs || any p ys)
any-append p [] ys = refl
any-append p (x ∷ xs) ys = ground (arith, any-append p xs ys)

reached-warned :
    (devices : ℕ) (limit : ℤ)
    → reached devices limit ≡ true
    → any is_cap_warning (device_warnings devices limit) ≡ true
reached-warned devices (pos limit) h = ground arith
reached-warned devices (negsuc n) h = cc

warned :
    (s : SubscriptionStatus) (due : Option ℤ) (devices : ℕ) (limit : ℤ) (rest : List (Level × Code))
    → (is_inactive s || reached devices limit) ≡ true
    → any is_cap_warning (status_warnings s due ++ (device_warnings devices limit ++ rest)) ≡ true
warned s due devices limit rest h = ground (
  arith,
  reached-warned devices limit,
  any-append is_cap_warning (status_warnings s due) (device_warnings devices limit ++ rest),
  any-append is_cap_warning (device_warnings devices limit) rest,
)

refused-or :
    (a b : Bool)
    → (throw_if a forbidden >> (throw_if b forbidden >> ok (tt {0}))) ≢ ok (tt {0})
    → (a || b) ≡ true
refused-or true b h = refl
refused-or false true h = refl
refused-or false false h = absurd (h refl)

check_subscription-refused :
    (count : ℕ) (sub : Subscription)
    → check_subscription count (some sub) ≢ ok tt
    → (is_inactive sub.status || reached count (effective_device_limit sub (get_plan sub.plan_key)))
      ≡ true
unfolding check_subscription
check_subscription-refused count sub h = refused-or (is_inactive sub.status) _ h

-- A company that may not add a device is told so: its billing summary, at the same number of
-- devices, warns that the subscription is inactive or that the device cap is near or passed.
refused_is_warned :
    (db : Store) (now company users : ℕ)
    → assert_can_add_device db company ≢ ok tt
    → any is_cap_warning (summary_warnings db now company users) ≡ true
unfolding assert_can_add_device summary_warnings
refused_is_warned db now company users refused =
    go (find_subscription company db.subscriptions) refused
  where
    go :
        (found : Option Subscription)
        → check_subscription (count_devices company db) found ≢ ok tt
        → any is_cap_warning (company_warnings now (count_devices company db) users found) ≡ true
    go none h = absurd (h refl)
    go (some sub) h =
        warned sub.status _ (count_devices company db) _ _
          (check_subscription-refused (count_devices company db) sub h)
