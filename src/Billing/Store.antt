-- ===== src/Billing/Store.antt =====
-- The rows that BillingService reads and writes (services/api/prisma/schema.prisma), as lists in
-- the order of creation. Ids are opaque numbers; notes, currency and timestamps kept by the
-- database alone are left out. `devices` holds the company of each device row, and `groups` and
-- `garages` the id and the company of each device group and garage.
use Prim.Native.String.{String}
use fleex.Common.{
  ℕ, ℤ, Option, List, ◌==◌, ◌≡◌, filter, find?, length, arith, find?-eq-some, some, true,
}

pub data SubscriptionStatus : Type 0 where
  trial active past_due suspended cancelled : SubscriptionStatus

pub record Subscription : Type 0 where
  pub company_id : ℕ
  pub plan_key : String
  pub status : SubscriptionStatus
  pub started_at : ℕ
  pub trial_ends_at : Option ℕ
  pub current_period_end : Option ℕ
  pub device_limit_override : Option ℤ

pub data InvoiceStatus : Type 0 where
  sent paid cancelled : InvoiceStatus

-- "FLX-", the last two digits of the year and the month, "-" and the running number.
pub record InvoiceNumber : Type 0 where
  pub yy : ℕ
  pub mm : ℕ
  pub seq : ℕ

pub record Invoice : Type 0 where
  pub id : ℕ
  pub invoice_number : InvoiceNumber
  pub company_id : ℕ
  pub plan_key : String
  pub months : ℕ
  pub device_count : ℕ
  pub amount : ℕ
  pub status : InvoiceStatus
  pub period_start : ℕ
  pub period_end : ℕ
  pub due_at : ℕ
  pub paid_at : Option ℕ
  pub bank_reference : Option ℕ
  pub created_by_user_id : Option ℕ

pub record Payment : Type 0 where
  pub company_id : ℕ
  pub plan_key : String
  pub amount : ℕ
  pub period_start : ℕ
  pub period_end : ℕ
  pub reference : InvoiceNumber
  pub recorded_by_user_id : Option ℕ

pub record Store : Type 0 where
  pub companies : List ℕ
  pub devices : List ℕ
  pub groups : List (ℕ × ℕ)
  pub garages : List (ℕ × ℕ)
  pub subscriptions : List Subscription
  pub invoices : List Invoice
  pub payments : List Payment

-- `subscription.findUnique`, `invoice.findUnique` and `device.count`.
abbrev pub find_subscription : ℕ → List Subscription → Option Subscription
find_subscription company = find? (λ s. s.company_id == company)

abbrev pub find_invoice : ℕ → List Invoice → Option Invoice
find_invoice id = find? (λ i. i.id == id)

abbrev pub count_devices : ℕ → Store → ℕ
count_devices company db = length (filter (λ c. c == company) db.devices)

pub find_invoice_id :
    (id : ℕ) (rows : List Invoice) (i : Invoice) → find_invoice id rows ≡ some i → i.id ≡ id
find_invoice_id id rows i h =
    let e : (i.id == id) ≡ true = find?-eq-some (λ x. x.id == id) rows i h in ground arith
