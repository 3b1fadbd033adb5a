-- ===== src/Billing/Tests.antt =====
-- The theorems of Billing at a concrete company, with its subscription and invoice.
use fleex.Common.{◌*◌, ◌<◌, ◌≡◌, ◌≢◌, pos, refl, true, none, some, List, [], ◌∷◌, length, All}
use fleex.Common.Dates.{civil_of_days, days_of_civil, add_months, day_ms}
use fleex.Common.Results.{ok, err, forbidden}
use fleex.Access.Roles.{Actor, super_admin, company_admin, is_super_admin}
use fleex.Billing.Catalog.{business, within_limit, plan_catalog, get_plan}
use fleex.Billing.Store.{
  SubscriptionStatus, InvoiceStatus, Subscription, Invoice, Store, find_subscription, find_invoice,
  count_devices,
}
use fleex.Billing.Plans.{assert_can_add_device, insert_device, effective_device_limit}
use fleex.Billing.Plans.Cap.{device_cap_race}
use fleex.Billing.Invoices.{mark_invoice_paid, pay, next_invoice_number}
use fleex.Billing.Invoices.Payments.{mark_invoice_paid_effect}
use fleex.Billing.Lifecycle.{run_lifecycle}
use fleex.Billing.Lifecycle.Schedule.{run_all, latest, run_all-latest}
use fleex.Billing.History.{Call, creates, pays, ticks, run}
use fleex.Billing.History.Ledger.{count_paid, run-InOrder}

-- The 31st of January 2026 plus one month is the 3rd of March.
days_in_2026 :
    (days_of_civil 2026 0 31 ≡ 20_484)
    × (civil_of_days 20_515 ≡ record { year = 2026; month = 2; day = 3 })
unfolding days_of_civil civil_of_days
days_in_2026 = (refl, refl)

one_month_later : add_months (20_484 * day_ms) 1 ≡ 20_515 * day_ms
unfolding add_months days_of_civil civil_of_days
one_month_later = refl

abbrev a_root : Actor
a_root = record { id = 1; role = super_admin; company_id = none; driver_id = none }

abbrev an_admin : Actor
an_admin = record { id = 2; role = company_admin; company_id = some 5; driver_id = none }

-- Two devices are the cap of this company.
abbrev a_sub : Subscription
a_sub = record {
  company_id = 5;
  plan_key = "starter";
  status = SubscriptionStatus.active;
  started_at = 0;
  trial_ends_at = none;
  current_period_end = some 1000;
  device_limit_override = some (pos 2);
}

abbrev an_invoice : Invoice
an_invoice = record {
  id = 40;
  invoice_number = record { yy = 26; mm = 1; seq = 1 };
  company_id = 5;
  plan_key = "business";
  months = 1;
  device_count = 1;
  amount = 800_000;
  status = InvoiceStatus.sent;
  period_start = 1000;
  period_end = 2000;
  due_at = 1500;
  paid_at = none;
  bank_reference = none;
  created_by_user_id = some 1;
}

abbrev a_db : Store
a_db = record {
  companies = 5 ∷ [];
  devices = 5 ∷ [];
  groups = [];
  garages = [];
  subscriptions = a_sub ∷ [];
  invoices = an_invoice ∷ [];
  payments = [];
}

-- With two devices the company is full.
abbrev a_full_db : Store
a_full_db = insert_device a_db 5

abbrev a_paid_db : Store
a_paid_db = pay a_db a_root 1200 (some 77) an_invoice

payment_goes_through : mark_invoice_paid a_db a_root 1200 40 (some 77) ≡ ok a_paid_db
unfolding mark_invoice_paid
payment_goes_through = refl

business_fits : within_limit 30 (plan_catalog business).max_devices ≡ true
unfolding within_limit
business_fits = refl

a_sub_limit : effective_device_limit a_sub (get_plan "starter") ≡ pos 2
unfolding effective_device_limit
a_sub_limit = refl

device_cap_race_example :
    (assert_can_add_device a_db 5 ≡ ok tt)
    × (assert_can_add_device (insert_device a_db 5) 5 ≡ err forbidden)
    × (2 < count_devices 5 (insert_device (insert_device a_db 5) 5))
device_cap_race_example = device_cap_race a_db 5 2 a_sub refl refl a_sub_limit refl

full_refuses : assert_can_add_device a_full_db 5 ≢ ok tt
full_refuses h = let e = (device_cap_race a_db 5 2 a_sub refl refl a_sub_limit refl).1 in cc

mark_invoice_paid_effect_example :
    (inv : Invoice) × (sub : Subscription) × (is_super_admin super_admin ≡ true)
    × (find_invoice 40 a_db.invoices ≡ some inv)
    × (inv.status ≡ InvoiceStatus.sent)
    × (find_invoice 40 a_paid_db.invoices
        ≡ some (record inv {
          status = InvoiceStatus.paid;
          paid_at = some 1200;
          bank_reference = (some 77);
        }))
    × (find_subscription inv.company_id a_paid_db.subscriptions ≡ some sub)
    × (sub.status ≡ SubscriptionStatus.active)
    × (sub.plan_key ≡ inv.plan_key)
    × (sub.current_period_end ≡ some inv.period_end)
    × (a_paid_db.payments
        ≡ record {
          company_id = inv.company_id;
          plan_key = inv.plan_key;
          amount = inv.amount;
          period_start = inv.period_start;
          period_end = inv.period_end;
          reference = inv.invoice_number;
          recorded_by_user_id = some 1;
        }
          ∷ [])
mark_invoice_paid_effect_example =
    mark_invoice_paid_effect a_db a_root 1200 40 (some 77) a_paid_db payment_goes_through

run_all-latest_example :
    run_all (4000 ∷ 3000 ∷ []) 500 (a_sub ∷ [])
    ≡ (run_lifecycle (latest (4000 ∷ 3000 ∷ []) 500) (a_sub ∷ [])).0
run_all-latest_example = run_all-latest (4000 ∷ 3000 ∷ []) 500 (a_sub ∷ [])

abbrev a_history : List (Actor × Call)
a_history =
    (a_root, pays 1200 40 (some 77))
    ∷ (a_root, creates 1300 41 5 (record { plan_key = none; months = 3; amount = none }))
    ∷ (an_admin, ticks 5000)
    ∷ []

run-InOrder_example :
    (length (run a_db a_history).payments ≡ count_paid (run a_db a_history).invoices)
    × All
        (λ i. i.invoice_number ≢ next_invoice_number 6000 (run a_db a_history).invoices)
        (run a_db a_history).invoices
run-InOrder_example =
    run-InOrder a_db a_history 6000 (record { numbered = (refl, tt); balanced = refl })
