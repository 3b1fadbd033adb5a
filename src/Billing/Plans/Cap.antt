-- ===== src/Billing/Plans/Cap.antt =====
-- The device cap of Billing/Plans over device creations.
use mathlib.Core.Path.{subst}
use fleex.Common.{
  ℕ, ◌+◌, ◌≤◌, ◌<◌, ◌≡◌, refl, ℤ, pos, negsuc, true, false, Option, none, some, List, [], ◌∷◌, ◌==◌,
  arith, Bool-cases, inl, inr,
}
use fleex.Common.Results.{Result, ok, err, forbidden, >>=-eq-ok, >>-eq-ok}
use fleex.Access.Roles.{Actor}
use fleex.Billing.Catalog.{get_plan}
use fleex.Billing.Store.{Subscription, Store, find_subscription, count_devices}
use fleex.Billing.Plans.{
  effective_device_limit, assert_can_add_device, check_subscription, create_device, create_in,
  child_ownership, insert_device, is_inactive, reached, device_company,
}

-- A company with a capped subscription has at most as many devices as the cap allows.
abbrev KeepsCap : Store → ℕ → Type 0
KeepsCap db company =
    (sub : Subscription) (limit : ℕ)
    → find_subscription company db.subscriptions ≡ some sub
    → effective_device_limit sub (get_plan sub.plan_key) ≡ pos limit
    → count_devices company db ≤ limit

check_subscription-lt :
    (count limit : ℕ) (sub : Subscription)
    → check_subscription count (some sub) ≡ ok tt
    → effective_device_limit sub (get_plan sub.plan_key) ≡ pos limit
    → count < limit
unfolding check_subscription
check_subscription-lt count limit sub h cap =
    let (_, h₁) = >>-eq-ok (is_inactive sub.status) _ _ h in
    let below =
      (>>-eq-ok (reached count (effective_device_limit sub (get_plan sub.plan_key))) _ _ h₁).0 in
    let below' = rw cap at below in ground arith

assert_can_add_device-lt :
    (db : Store) (company : ℕ) (sub : Subscription) (limit : ℕ)
    → assert_can_add_device db company ≡ ok tt
    → find_subscription company db.subscriptions ≡ some sub
    → effective_device_limit sub (get_plan sub.plan_key) ≡ pos limit
    → count_devices company db < limit
unfolding assert_can_add_device
assert_can_add_device-lt db company sub limit h found cap =
    let h' = rw found at h in check_subscription-lt (count_devices company db) limit sub h' cap

insert_device-KeepsCap :
    (db : Store) (target company : ℕ)
    → assert_can_add_device db target ≡ ok tt
    → KeepsCap db company
    → KeepsCap (insert_device db target) company
insert_device-KeepsCap db target company allowed within sub limit found cap =
    elim (Bool-cases (target == company)) [
      | inl e ↦
          let same : target ≡ company = ground arith in
          let room = assert_can_add_device-lt db company sub limit (rw same at allowed) found cap in
          rw e room
      | inr e ↦ rw e (within sub limit found cap)
    ]

-- A creation that goes through has passed the cap check of the company that it adds to.
create_in-allowed :
    (db : Store) (actor : Actor) (target group garage : Option ℕ) (db' : Store)
    → create_in db actor target group garage ≡ ok db'
    → (company : ℕ) × (assert_can_add_device db company ≡ ok tt) × (insert_device db company ≡ db')
unfolding create_in
create_in-allowed db actor none group garage db' h = cc
create_in-allowed db actor (some company) group garage db' h =
    let (_, allowed, h₁) = >>=-eq-ok (assert_can_add_device db company) _ h in
    let (_, _, h₂) = >>=-eq-ok (child_ownership db actor company group garage) _ h₁ in
    (company, allowed, ground arith)

create_device-KeepsCap :
    (db : Store) (actor : Actor) (wanted group garage : Option ℕ) (db' : Store) (company : ℕ)
    → create_device db actor wanted group garage ≡ ok db'
    → KeepsCap db company
    → KeepsCap db' company
unfolding create_device
create_device-KeepsCap db actor wanted group garage db' company h within =
    let (target, allowed, e) =
      create_in-allowed db actor (device_company actor wanted) group garage db' h in
    subst (λ d. KeepsCap d company) e (insert_device-KeepsCap db target company allowed within)

-- The calls of device creation one after the other; a refused call changes nothing.
abbrev pub or_same : Store → Result Store → Store
or_same db (ok db') = db'
or_same db (err e) = db

abbrev pub create_all : Store → List (Actor × Option ℕ × Option ℕ × Option ℕ) → Store
create_all db [] = db
create_all db ((actor, wanted, group, garage) ∷ calls) =
    create_all (or_same db (create_device db actor wanted group garage)) calls

create_all-KeepsCap :
    (db : Store) (company : ℕ) (calls : List (Actor × Option ℕ × Option ℕ × Option ℕ))
    → KeepsCap db company
    → KeepsCap (create_all db calls) company
create_all-KeepsCap db company [] within = within
create_all-KeepsCap db company ((actor, wanted, group, garage) ∷ calls) within =
    create_all-KeepsCap (or_same db (create_device db actor wanted group garage)) company calls
      (kept (create_device db actor wanted group garage) refl)
  where
    kept :
        (r : Result Store)
        → create_device db actor wanted group garage ≡ r
        → KeepsCap (or_same db r) company
    kept (ok db') e = create_device-KeepsCap db actor wanted group garage db' company e within
    kept (err e) _ = within

-- A number of devices is within a limit, if there is one.
abbrev pub IsWithin : ℕ → ℤ → Type 0
IsWithin count (pos limit) = count ≤ limit
IsWithin count (negsuc n) = Unit

abbrev pub IsCapKept : ℕ → Option Subscription → Type 0
IsCapKept count none = Unit
IsCapKept count (some sub) = IsWithin count (effective_device_limit sub (get_plan sub.plan_key))

-- A company with a capped subscription has at most as many devices as the cap allows.
abbrev pub IsWithinCap : Store → ℕ → Type 0
IsWithinCap db company =
    IsCapKept (count_devices company db) (find_subscription company db.subscriptions)

IsWithin-pos : (count limit : ℕ) (l : ℤ) → l ≡ pos limit → IsWithin count l → count ≤ limit
IsWithin-pos count limit (pos n) e h = ground (arith, e, h)
IsWithin-pos count limit (negsuc n) e h = cc

pos-IsWithin :
    (count : ℕ) (l : ℤ) → ((limit : ℕ) → l ≡ pos limit → count ≤ limit) → IsWithin count l
pos-IsWithin count (pos n) h = h n refl
pos-IsWithin count (negsuc n) h = tt

IsWithinCap-KeepsCap : (db : Store) (company : ℕ) → IsWithinCap db company → KeepsCap db company
IsWithinCap-KeepsCap db company h sub limit found cap =
    IsWithin-pos (count_devices company db) limit
      (effective_device_limit sub (get_plan sub.plan_key)) cap
      (subst (IsCapKept (count_devices company db)) found h)

KeepsCap-IsCapKept :
    (count : ℕ) (o : Option Subscription)
    → ((sub : Subscription) (limit : ℕ)
        → o ≡ some sub
        → effective_device_limit sub (get_plan sub.plan_key) ≡ pos limit
        → count ≤ limit)
    → IsCapKept count o
KeepsCap-IsCapKept count none h = tt
KeepsCap-IsCapKept count (some sub) h =
    pos-IsWithin count (effective_device_limit sub (get_plan sub.plan_key))
      (λ limit e. h sub limit refl e)

-- A company that is within its cap stays so over any sequence of device creations, by whoever and
-- for whatever companies.
create_all-IsWithinCap :
    (db : Store) (company : ℕ) (calls : List (Actor × Option ℕ × Option ℕ × Option ℕ))
    → IsWithinCap db company
    → IsWithinCap (create_all db calls) company
create_all-IsWithinCap db company calls h =
    KeepsCap-IsCapKept (count_devices company (create_all db calls))
      (find_subscription company (create_all db calls).subscriptions)
      (create_all-KeepsCap db company calls (IsWithinCap-KeepsCap db company h))

count-insert_device :
    (db : Store) (company : ℕ)
    → count_devices company (insert_device db company) ≡ count_devices company db + 1
count-insert_device db company =
    let self : (company == company) ≡ true = ground arith in rw self (omega arith)

-- The check and the insertion are two statements: when two requests for a company with one free
-- place both pass the check before either inserts, the company ends above its cap, while one after
-- the other the second is refused.
pub device_cap_race :
    (db : Store) (company limit : ℕ) (sub : Subscription)
    → find_subscription company db.subscriptions ≡ some sub
    → is_inactive sub.status ≡ false
    → effective_device_limit sub (get_plan sub.plan_key) ≡ pos limit
    → count_devices company db + 1 ≡ limit
    → (assert_can_add_device db company ≡ ok tt)
      × (assert_can_add_device (insert_device db company) company ≡ err forbidden)
      × (limit < count_devices company (insert_device (insert_device db company) company))
unfolding assert_can_add_device
device_cap_race db company limit sub found live capped free =
    let one = count-insert_device db company in
    let two = count-insert_device (insert_device db company) company in
    rw found (rw live (rw capped (rw one (ground arith, ground arith, omega arith))))
