-- ===== src/Billing/Catalog.antt =====
-- services/api/src/billing/plan-catalog.ts. The display texts of a plan (deviceBand, blurb) are
-- left out; a limit is an integer, negative when there is none.
pub mod Choice
use Prim.Native.String.{String}
use text.Mathlib.Text.{◌==◌ as str_eq}
use fleex.Common.{
  ℕ, ℤ, pos, negsuc, Bool, true, false, ◌||◌, Option, none, some, List, [], ◌∷◌, leb, if◌then◌else◌,
  is_negative,
}

pub data PlanKey : Type 0 where
  starter business pro enterprise : PlanKey

pub data Channel : Type 0 where
  in_app email sms webhook telegram push whatsapp viber : Channel

pub record PlanDef : Type 0 where
  pub key : PlanKey
  pub name : String
  pub max_devices : ℤ
  pub max_users : ℤ
  pub retention_days : ℕ
  pub all_reports : Bool
  pub scheduled_reports : Bool
  pub channels : List Channel
  pub multi_protocol : Bool
  pub monthly_price : ℕ
  pub custom : Bool
  pub order : ℕ

abbrev pub unlimited : ℤ
unlimited = negsuc 0

abbrev pub all_channels : List Channel
all_channels = in_app ∷ email ∷ sms ∷ webhook ∷ telegram ∷ push ∷ whatsapp ∷ viber ∷ []

abbrev pub plan_catalog : PlanKey → PlanDef
plan_catalog starter = record {
  key = starter;
  name = "Starter";
  max_devices = pos 10;
  max_users = pos 5;
  retention_days = 180;
  all_reports = false;
  scheduled_reports = false;
  channels = in_app ∷ email ∷ [];
  multi_protocol = false;
  monthly_price = 200_000;
  custom = false;
  order = 0;
}
plan_catalog business = record {
  key = business;
  name = "Business";
  max_devices = pos 50;
  max_users = pos 20;
  retention_days = 365;
  all_reports = true;
  scheduled_reports = true;
  channels = in_app ∷ email ∷ sms ∷ telegram ∷ [];
  multi_protocol = false;
  monthly_price = 800_000;
  custom = false;
  order = 1;
}
plan_catalog pro = record {
  key = pro;
  name = "Pro";
  max_devices = pos 100;
  max_users = pos 50;
  retention_days = 365;
  all_reports = true;
  scheduled_reports = true;
  channels = all_channels;
  multi_protocol = true;
  monthly_price = 1_500_000;
  custom = false;
  order = 2;
}
plan_catalog enterprise = record {
  key = enterprise;
  name = "Enterprise";
  max_devices = unlimited;
  max_users = unlimited;
  retention_days = 730;
  all_reports = true;
  scheduled_reports = true;
  channels = all_channels;
  multi_protocol = true;
  monthly_price = 0;
  custom = true;
  order = 3;
}

abbrev pub plan_keys : List PlanKey
plan_keys = starter ∷ business ∷ pro ∷ enterprise ∷ []

-- The property names of PLAN_CATALOG, read back: `some` exactly where `isPlanKey` says yes.
abbrev pub plan_key? : String → Option PlanKey
plan_key? s =
    if str_eq s "starter"
    then some starter
    else if str_eq s "business"
    then some business
    else if str_eq s "pro"
    then some pro
    else if str_eq s "enterprise"
    then some enterprise
    else none

abbrev pub key_text : PlanKey → String
key_text starter = "starter"
key_text business = "business"
key_text pro = "pro"
key_text enterprise = "enterprise"

abbrev pub is_plan_key : String → Bool
is_plan_key s = elim (plan_key? s) [ none ↦ false | some k ↦ true ]

abbrev plan_or_starter : Option PlanKey → PlanDef
plan_or_starter none = plan_catalog starter
plan_or_starter (some k) = plan_catalog k

unfoldable pub get_plan : String → PlanDef
get_plan s = plan_or_starter (plan_key? s)

abbrev pub is_unlimited : ℤ → Bool
is_unlimited n = is_negative n

unfoldable pub within_limit : ℕ → ℤ → Bool
within_limit count (pos limit) = leb count limit
within_limit count (negsuc _) = true

-- The loop of `suggestPlan`.
suggest_from : ℕ → List PlanKey → PlanDef
suggest_from count [] = plan_catalog enterprise
suggest_from count (k ∷ ks) =
    let rest = suggest_from count ks in
    if within_limit count (plan_catalog k).max_devices then plan_catalog k else rest

unfoldable pub suggest_plan : ℕ → PlanDef
unfolding suggest_from within_limit
suggest_plan count = suggest_from count plan_keys
