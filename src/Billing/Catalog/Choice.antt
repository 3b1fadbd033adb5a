-- ===== src/Billing/Catalog/Choice.antt =====
-- Which plan is chosen for a number of devices, and for a stored plan key.
use Prim.Native.String.{String}
use fleex.Common.{ℕ, ◌≤◌, ◌≡◌, refl, true, false, arith}
use fleex.Billing.Catalog.{
  PlanKey, starter, business, pro, enterprise, plan_catalog, key_text, is_plan_key, get_plan,
  within_limit, suggest_plan,
}

-- The suggested plan has room for the devices, and its order is at most that of any plan with
-- room.
suggest_plan_smallest :
    (devices : ℕ) (k : PlanKey)
    → within_limit devices (plan_catalog k).max_devices ≡ true
    → (within_limit devices (suggest_plan devices).max_devices ≡ true)
      × ((suggest_plan devices).order ≤ (plan_catalog k).order)
unfolding suggest_plan within_limit
suggest_plan_smallest devices starter h = ground arith
suggest_plan_smallest devices business h = ground arith
suggest_plan_smallest devices pro h = ground arith
suggest_plan_smallest devices enterprise h = ground arith

get_plan_unknown : (s : String) → is_plan_key s ≡ false → get_plan s ≡ plan_catalog starter
unfolding get_plan
get_plan_unknown s h = ground arith

-- A key of the catalogue is read back as its own plan, and any other text as the starter plan.
get_plan-key_text :
    (k : PlanKey) (s : String)
    → is_plan_key s ≡ false
    → (is_plan_key (key_text k) ≡ true)
      × (get_plan (key_text k) ≡ plan_catalog k)
      × (get_plan s ≡ plan_catalog starter)
unfolding get_plan
get_plan-key_text starter s h = (refl, refl, get_plan_unknown s h)
get_plan-key_text business s h = (refl, refl, get_plan_unknown s h)
get_plan-key_text pro s h = (refl, refl, get_plan_unknown s h)
get_plan-key_text enterprise s h = (refl, refl, get_plan_unknown s h)
