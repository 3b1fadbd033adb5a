-- ===== src/Access/Isolation.antt =====
-- What the role guard, the actor scope and the tenant guard let through.
use Prim.Native.String.{String}
use text.Mathlib.Text.{◌==◌ as str_eq}
use text.Mathlib.TextEquality.{eq_iff}
use fleex.Common.{
  ℕ, ◌≤◌, ◌≡◌, ◌≢◌, ◌↔◌, ◌⊎◌, inl, inr, refl, Bool, true, false, Option, none, some, List, [], ◌∷◌,
  arith, if◌then◌else◌, ltb, not, ◌&&◌, Bool-cases, sym, ap, ◌∙◌, same_id→eq, same_id_refl,
}
use fleex.Common.Results.{ok, forbidden, >>-eq-ok}
use fleex.Access.Roles.{Role, Actor, is_super_admin, is_driver, rank, min_rank, can_activate}
use fleex.Access.Scope.{
  Where, no_driver_match, get_column, set_column, driver_scope_id, apply_actor_scope,
  driver_may_access, links, or_no_driver,
}
use fleex.Access.Tenant.{
  TenantStore, GuardParams, apply_tenant_guard, where_or_empty, is_tenant_model, has_name,
  guarded_actions,
}

pub get_column-set_column :
    (k j : String) (v : Option ℕ) (w : Where)
    → get_column j (set_column k v w) ≡ (if str_eq k j then some v else get_column j w)
unfolding get_column set_column
get_column-set_column k j v [] = refl
get_column-set_column k j v ((i, u) ∷ w) =
    ground (arith, eq_iff k j, eq_iff i k, eq_iff i j, get_column-set_column k j v w)

get_column-set_other :
    (k j : String) (v : Option ℕ) (w : Where)
    → k ≢ j
    → get_column k (set_column j v w) ≡ get_column k w
get_column-set_other k j v w other = ground (arith, eq_iff j k, get_column-set_column j k v w)

-- One of the roles named is at most the user's on the ladder.
abbrev pub IsAllowed : Role → List Role → Type 0
IsAllowed user [] = ⊥
IsAllowed user (r ∷ rs) = (rank r ≤ rank user) ⊎ IsAllowed user rs

ltb_min : (n a m : ℕ) → (ltb n (if ltb a m then a else m) ≡ false) ↔ ((a ≤ n) ⊎ (ltb n m ≡ false))
ltb_min n a m = ground arith

min_rank_iff :
    (user r : Role) (rs : List Role)
    → (ltb (rank user) (min_rank r rs) ≡ false) ↔ IsAllowed user (r ∷ rs)
min_rank_iff user r [] =
    (λ h. inl (ground arith), elim [ inl le ↦ ground arith | inr never ↦ absurd never ])
min_rank_iff user r (s ∷ rs) =
    let (split, join) = ltb_min (rank user) (rank r) (min_rank s rs) in
    let (to, from) = min_rank_iff user s rs in
    (
      λ h. elim (split h) [ inl le ↦ inl le | inr below ↦ inr (to below) ],
      elim [ inl le ↦ join (inl le) | inr rest ↦ join (inr (from rest)) ],
    )

-- A handler that names roles lets a user in exactly when the user stands at least as high on the
-- ladder as one of them.
can_activate_iff :
    (user r : Role) (rs : List Role)
    → (can_activate false (r ∷ rs) (some user) ≡ ok true) ↔ IsAllowed user (r ∷ rs)
unfolding can_activate
can_activate_iff user r rs =
    let (to, from) = min_rank_iff user r rs in
    (λ h. to (>>-eq-ok (ltb (rank user) (min_rank r rs)) forbidden _ h).0, λ a. rw (from a))

-- The query of an actor who is not SUPER_ADMIN asks for the actor's company, that of a DRIVER also
-- for the driver's own id, whatever the columns asked for before; no other column changes.
apply_actor_scope_columns :
    (actor : Actor) (w : Where) (k : String)
    → is_super_admin actor.role ≡ false
    → k ≢ "companyId"
    → k ≢ "driverId"
    → (get_column "companyId" (apply_actor_scope actor w) ≡ some actor.company_id)
      × ((is_driver actor.role ≡ false)
          ⊎ (get_column "driverId" (apply_actor_scope actor w)
              ≡ some (some (driver_scope_id actor))))
      × (get_column k (apply_actor_scope actor w) ≡ get_column k w)
unfolding apply_actor_scope
apply_actor_scope_columns actor w k h p q = elim (Bool-cases (is_driver actor.role)) [
  | inl e ↦ rw h (
      rw e (
        simp get_column-set_column,
        inr (simp get_column-set_column),
        get_column-set_other k "driverId" _ (set_column "companyId" actor.company_id w) q
            ∙ get_column-set_other k "companyId" actor.company_id w p,
      ))
  | inr e ↦ rw h (
      rw e (
        simp get_column-set_column,
        inl refl,
        get_column-set_other k "companyId" actor.company_id w p,
      ))
]

super_of_driver : (r : Role) → is_driver r ≡ true → is_super_admin r ≡ false
super_of_driver r h = ground arith

driver_column :
    (actor : Actor) (w : Where)
    → is_super_admin actor.role ≡ false
    → is_driver actor.role ≡ true
    → get_column "driverId" (apply_actor_scope actor w) ≡ some (some (driver_scope_id actor))
unfolding apply_actor_scope
driver_column actor w h e = rw h (rw e (simp get_column-set_column))

scope_iff :
    (mine owner : Option ℕ)
    → owner ≢ some no_driver_match
    → (links mine owner ≡ true) ↔ (some (some (or_no_driver mine)) ≡ some owner)
scope_iff none owner real = (
  λ h. cc,
  λ e. let none_real : some no_driver_match ≡ owner = cc in absurd (real (sym none_real)),
)
scope_iff (some d) owner real = (
  λ h. ap some (same_id→eq (some d) owner h),
  λ e. let same : some d ≡ owner = cc in rw (← same) (same_id_refl (some d)),
)

-- A DRIVER may open a row by its id exactly when the row's driver is the one that the DRIVER's
-- lists are restricted to, on any row whose driver is not the sentinel.
driver_may_access_iff :
    (actor : Actor) (w : Where) (owner : Option ℕ)
    → is_driver actor.role ≡ true
    → owner ≢ some no_driver_match
    → (driver_may_access actor owner ≡ true)
      ↔ (get_column "driverId" (apply_actor_scope actor w) ≡ some owner)
unfolding driver_may_access driver_scope_id
driver_may_access_iff actor w owner h real =
    let column = driver_column actor w (super_of_driver actor.role h) h in
    rw column (rw h (scope_iff actor.driver_id owner real))

-- What `applyTenantGuard` tests of a request of a company's actor.
abbrev pub needs_scope : GuardParams → TenantStore → Bool
needs_scope p store =
    not (is_super_admin store.role)
    && (is_tenant_model p.model && has_name guarded_actions p.action)

-- For an actor of a company who is not SUPER_ADMIN, a guarded action on a tenant model always asks
-- for the actor's own company, whatever the caller passed, and for the caller's other columns as
-- they were; any other action is passed on unchanged.
pub apply_tenant_guard_scopes :
    (p : GuardParams) (store : TenantStore) (company : ℕ) (k : String)
    → store.company_id ≡ some company
    → k ≢ "companyId"
    → ((needs_scope p store ≡ true)
        × ((w : Where) × ((apply_tenant_guard p (some store)).where_arg ≡ some (some w))
            × (get_column "companyId" w ≡ some (some company))
            × (get_column k w ≡ get_column k (where_or_empty p.where_arg))))
      ⊎ ((needs_scope p store ≡ false) × (apply_tenant_guard p (some store) ≡ p))
unfolding apply_tenant_guard
apply_tenant_guard_scopes p store company k own other = elim (Bool-cases (needs_scope p store)) [
  | inl h ↦ inl (
    h,
    (
      set_column "companyId" (some company) (where_or_empty p.where_arg),
      ground (arith, own, h),
      simp get_column-set_column,
      get_column-set_other k "companyId" (some company) (where_or_empty p.where_arg) other,
    ),
  )
  | inr h ↦ inr (h, ground (arith, own, h))
]
