-- ===== src/Billing/Plans.antt =====
-- The device cap and the plan of a company: `effectiveDeviceLimit`, `assertCanAddDevice`,
-- `setPlan` and `warnings` of BillingService, and the steps of `DevicesService.create` that the
-- cap guards (services/api/src/devices/devices.service.ts). Warnings keep their level and code,
-- not their text.
pub mod Cap
mod Warned
use Prim.Native.String.{String}
use mathlib.Core.Option
use fleex.Common.{
  ℕ, ◌+◌, ◌*◌, ◌-◌, ◌/◌, ℤ, pos, negsuc, Bool, true, false, Option, none, some, List, [], ◌∷◌, ◌++◌,
  not, ◌&&◌, any, upsert, ltb, leb, ◌==◌, if◌then◌else◌, negate,
}
use fleex.Common.Results.{forbidden, bad_request, Result, ok, err, ◌>>◌, throw_if}
use fleex.Access.Roles.{Actor, is_super_admin}
use fleex.Billing.Catalog.{PlanDef, get_plan, is_plan_key}
use fleex.Common.Dates.{day_ms}
use fleex.Billing.Store.{
  Subscription, SubscriptionStatus, trial, active, past_due, suspended, cancelled, Store,
  find_subscription, count_devices,
}

abbrev pub due_soon_days : ℕ
due_soon_days = 10

-- The override of a subscription counts if it is above 0.
abbrev limit_or : Option ℤ → ℤ → ℤ
limit_or none limit = limit
limit_or (some (negsuc _)) limit = limit
limit_or (some (pos n)) limit = if ltb 0 n then pos n else limit

unfoldable pub effective_device_limit : Subscription → PlanDef → ℤ
effective_device_limit sub plan = limit_or sub.device_limit_override plan.max_devices

abbrev pub is_inactive : SubscriptionStatus → Bool
is_inactive suspended = true
is_inactive cancelled = true
is_inactive _ = false

abbrev pub reached : ℕ → ℤ → Bool
reached count (pos limit) = leb limit count
reached count (negsuc _) = false

check_subscription : ℕ → Option Subscription → Result (Unit {0})
unfolding effective_device_limit
check_subscription count none = ok tt
check_subscription count (some sub) = do
  throw_if (is_inactive sub.status) forbidden
  throw_if (reached count (effective_device_limit sub (get_plan sub.plan_key))) forbidden
  ok tt

unfoldable pub assert_can_add_device : Store → ℕ → Result (Unit {0})
unfolding check_subscription
assert_can_add_device db company =
    check_subscription (count_devices company db) (find_subscription company db.subscriptions)

-- `device.create` of DevicesService: the row of one more device.
abbrev pub insert_device : Store → ℕ → Store
insert_device db company = record db { devices = company ∷ db.devices }

-- Where the row is created: an actor's own company, or the one that a SUPER_ADMIN names.
abbrev pub device_company : Actor → Option ℕ → Option ℕ
device_company actor none = actor.company_id
device_company actor (some c) = if is_super_admin actor.role then some c else actor.company_id

-- `ensureChildOwnership` for one reference: the row is there and belongs to the company.
abbrev pub owned_by : ℕ → List (ℕ × ℕ) → Option ℕ → Bool
owned_by company rows none = true
owned_by company rows (some id) = any (λ r. r.0 == id && r.1 == company) rows

abbrev pub child_ownership : Store → Actor → ℕ → Option ℕ → Option ℕ → Result (Unit {0})
child_ownership db actor company group garage = if is_super_admin actor.role then ok tt else (do
  throw_if (not (owned_by company db.groups group)) forbidden
  throw_if (not (owned_by company db.garages garage)) forbidden
  ok tt)

unfoldable pub create_in : Store → Actor → Option ℕ → Option ℕ → Option ℕ → Result Store
create_in db actor none group garage = err forbidden
create_in db actor (some company) group garage = do
  assert_can_add_device db company
  child_ownership db actor company group garage
  ok (insert_device db company)

unfoldable pub create_device : Store → Actor → Option ℕ → Option ℕ → Option ℕ → Result Store
unfolding create_in
create_device db actor wanted group garage =
    create_in db actor (device_company actor wanted) group garage

-- `setPlan`: the upsert keeps the status and the period of a row that is there.
abbrev pub new_plan : ℕ → ℕ → String → Option ℤ → Subscription
new_plan now company key limit = record {
  company_id = company;
  plan_key = key;
  status = trial;
  started_at = now;
  trial_ends_at = none;
  current_period_end = none;
  device_limit_override = limit;
}

unfoldable pub set_plan : Store → Actor → ℕ → ℕ → String → Option ℤ → Result Store
set_plan db actor now company key limit = do
  throw_if (not (is_super_admin actor.role)) forbidden
  throw_if (not (is_plan_key key)) bad_request
  ok (record db {
    subscriptions =
        upsert (λ s. s.company_id == company)
          (λ s. record s { plan_key = key; device_limit_override = limit })
          (new_plan now company key limit) db.subscriptions;
  })

pub data Level : Type 0 where
  info warning critical : Level

pub data Code : Type 0 where
  unmanaged inactive past_due_code due_soon device_over device_near user_over : Code

-- `daysUntilDue`: the days up to the due time rounded up, negative after it.
unfoldable pub days_until : ℕ → ℕ → ℤ
days_until now due =
    if leb now due then pos ((due - now + day_ms - 1) / day_ms) else negate ((now - due) / day_ms)

abbrev at_most : ℤ → ℕ → Bool
at_most (pos n) m = leb n m
at_most (negsuc _) m = true

abbrev due_warning : Option ℤ → List (Level × Code)
due_warning none = []
due_warning (some d) = if at_most d due_soon_days then (warning, due_soon) ∷ [] else []

abbrev status_warnings : SubscriptionStatus → Option ℤ → List (Level × Code)
status_warnings suspended due = (critical, inactive) ∷ []
status_warnings cancelled due = (critical, inactive) ∷ []
status_warnings past_due due = (critical, past_due_code) ∷ []
status_warnings trial due = due_warning due
status_warnings active due = due_warning due

-- NEAR_CAP_RATIO is 0.9.
abbrev device_warnings : ℕ → ℤ → List (Level × Code)
device_warnings devices (negsuc _) = []
device_warnings devices (pos limit) =
    if ltb limit devices
    then (critical, device_over) ∷ []
    else if leb (limit * 9) (devices * 10)
    then (warning, device_near) ∷ []
    else []

abbrev user_warnings : ℕ → ℤ → List (Level × Code)
user_warnings users (negsuc _) = []
user_warnings users (pos limit) = if ltb limit users then (warning, user_over) ∷ [] else []

unfoldable pub warnings : Subscription → PlanDef → ℤ → ℕ → ℕ → Option ℤ → List (Level × Code)
warnings sub plan limit devices users due =
    status_warnings sub.status due
    ++ (device_warnings devices limit ++ user_warnings users plan.max_users)

abbrev due_time : Subscription → Option ℕ
due_time sub = elim sub.current_period_end [ some t ↦ some t | none ↦ sub.trial_ends_at ]

company_warnings : ℕ → ℕ → ℕ → Option Subscription → List (Level × Code)
unfolding warnings effective_device_limit days_until
company_warnings now devices users none = (info, unmanaged) ∷ []
company_warnings now devices users (some sub) =
    let plan = get_plan sub.plan_key in
    warnings sub plan (effective_device_limit sub plan) devices users
      (Option.map (days_until now) (due_time sub))

-- The warnings of `getForCompany`, at a number of users.
unfoldable pub summary_warnings : Store → ℕ → ℕ → ℕ → List (Level × Code)
unfolding company_warnings
summary_warnings db now company users =
    company_warnings now (count_devices company db) users
      (find_subscription company db.subscriptions)
