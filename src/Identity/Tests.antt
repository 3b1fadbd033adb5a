-- ===== src/Identity/Tests.antt =====
-- The theorems of Identity at concrete users, tokens and logins.
use Prim.Native.String.{String}
use text.Mathlib.Text.{◌==◌ as str_eq}
use fleex.Common.{
  if◌then◌else◌, ℕ, ◌+◌, ◌*◌, ◌<◌, ◌≤◌, ◌≡◌, ◌≢◌, ◌⊎◌, refl, Bool, true, false, none, some, List,
  [], ◌∷◌, arith, All,
}
use fleex.Common.Dates.{day_ms}
use fleex.Common.Results.{ok, err, forbidden, unauthorized}
use fleex.Access.Roles.{
  Role, Actor, company_admin, fleet_manager, viewer, rank, is_super_admin, super_admin,
}
use fleex.Identity.Store.{User, RefreshToken, active, disabled, Store, find_user, note, locked_user}
use fleex.Identity.Sessions.{refresh, commit_refresh, refresh_found, revoke_family, is_live}
use fleex.Identity.Sessions.Rotation.{refresh_single_use}
use fleex.Identity.Login.{Attempt, login}
use fleex.Identity.Login.Lockout.{IsAccount, attempt_all, lockout}
use fleex.Identity.Users.{
  UserPatch, update_user, reset_password, mutates_privilege, patched, reset_user,
}
use fleex.Identity.Users.Ladder.{update_user_ladder}
use fleex.Identity.Users.History.{Call, creates, updates, run, above, run-above}
use fleex.Identity.Users.Passwords.{reset_passes_ladder}
use fleex.Common.Texts.{codes}
use fleex.Identity.Store.{UserStatus}
use fleex.Billing.Store.{Store as BillingStore}
use fleex.Billing.Plans.{create_device}
use fleex.Billing.Lifecycle.{run_lifecycle}
use fleex.Identity.Registration.{Tenancy, Registration, trial_subscription, register_company}
use fleex.Identity.Registration.Opening.{trial_lapses}

abbrev a_user : User
a_user = record {
  id = 9;
  company_id = some 3;
  driver_id = none;
  email = "bat@fleex.mn";
  password_hash = 100;
  role = viewer;
  status = active;
  last_login_at = none;
  failed_logins = 0;
  locked_until = none;
}

abbrev an_admin_user : User
an_admin_user = record {
  id = 10;
  company_id = some 3;
  driver_id = none;
  email = "admin@fleex.mn";
  password_hash = 101;
  role = company_admin;
  status = disabled;
  last_login_at = none;
  failed_logins = 0;
  locked_until = none;
}

abbrev a_token : RefreshToken
a_token = record { user_id = 10; token_hash = 500; revoked_at = none; expires_at = 9000 }

abbrev a_db : Store
a_db = record { users = a_user ∷ an_admin_user ∷ []; tokens = a_token ∷ []; notes = [] }

abbrev a_manager : Actor
a_manager = record { id = 11; role = fleet_manager; company_id = some 3; driver_id = none }

abbrev fits : ℕ → String → Bool
fits hash password = str_eq password "right"

abbrev try_at : ℕ → String → Attempt
try_at now password = record { now = now; password = password; days = 30; fresh = 600 + now }

abbrev four_tries : List Attempt
four_tries = try_at 1 "a" ∷ try_at 2 "b" ∷ try_at 3 "c" ∷ try_at 4 "d" ∷ []

a_user-IsAccount : IsAccount "bat@fleex.mn" a_user a_db
a_user-IsAccount = record { by_email = refl; by_id = refl }

refresh_goes_through : (refresh a_db 1000 30 501 500).1 ≡ ok 501
unfolding refresh refresh_found commit_refresh
refresh_goes_through = refl

refresh_single_use_example :
    let r = refresh (refresh a_db 1000 30 501 500).0 2000 30 502 500 in
    (r.1 ≡ err unauthorized)
    × All (λ t. (t.user_id ≢ 10) ⊎ (is_live t.revoked_at ≡ false)) r.0.tokens
refresh_single_use_example =
    refresh_single_use a_db 500 1000 30 501 2000 30 502 a_token refl refresh_goes_through
      (ground arith) (ground arith)

commit_goes_through : (commit_refresh a_db 1000 30 501 a_token).1 ≡ ok 501
unfolding commit_refresh
commit_goes_through = refl

lockout_example :
    let db' =
      (login fits
        (attempt_all fits a_db "bat@fleex.mn" four_tries)
        "bat@fleex.mn"
        (try_at 5 "e")).0 in
    login fits db' "bat@fleex.mn" (try_at 60 "right") ≡ (note locked_user db', err forbidden)
lockout_example =
    lockout fits a_db "bat@fleex.mn" a_user four_tries (try_at 5 "e") (try_at 60 "right")
      a_user-IsAccount refl refl refl refl (refl, (refl, (refl, (refl, tt)))) refl (ground arith)

abbrev a_patch : UserPatch
a_patch = record { role = some fleet_manager; status = none; driver_id = none }

abbrev patched_db : Store
patched_db = record {
  users = patched a_patch a_user ∷ an_admin_user ∷ [];
  tokens = a_token ∷ [];
  notes = [];
}

update_goes_through : update_user a_db [] a_manager 9 a_patch ≡ ok patched_db
unfolding update_user rank
update_goes_through = refl

update_user_ladder_example :
    (target : User) × (find_user 9 a_db.users ≡ some target)
    × ((is_super_admin fleet_manager ≡ true) ⊎ (some 3 ≡ target.company_id))
    × ((a_patch.role ≡ none)
        ⊎ ((r : Role) × (a_patch.role ≡ some r) × (rank r ≤ rank fleet_manager)))
    × ((mutates_privilege a_patch ≡ false)
        ⊎ ((a_manager.id ≢ 9)
            × ((is_super_admin fleet_manager ≡ true) ⊎ (rank target.role < rank fleet_manager))))
    × (find_user 9 patched_db.users ≡ some (patched a_patch target))
update_user_ladder_example =
    update_user_ladder a_db [] a_manager 9 a_patch patched_db update_goes_through

abbrev a_history : List (Actor × Call)
a_history =
    (a_manager, updates [] 9 a_patch)
    ∷ (
      a_manager,
      creates 12 700 (record { email = "new@fleex.mn"; role = viewer; company_id = none }),
    )
    ∷ []

low_ranks : All (λ (c : Actor × Call). rank c.0.role ≤ 60) a_history
unfolding rank
low_ranks = (ground arith, (ground arith, tt))

run-above_example : above 60 (run a_db a_history) ≡ above 60 a_db
run-above_example = run-above 60 a_db a_history low_ranks

manager_below : rank fleet_manager ≤ rank company_admin
unfolding rank
manager_below = omega arith

reset_passes_ladder_example :
    (update_user a_db [] a_manager 10
        (record { role = none; status = some UserStatus.disabled; driver_id = none })
      ≡ err forbidden)
    × ((db' : Store) × (reset_password a_db a_manager 50 10 900 ≡ ok db')
        × (find_user 10 db'.users
            ≡ some (record an_admin_user {
              password_hash = 900;
              failed_logins = 0;
              locked_until = none;
              status = active;
            })))
reset_passes_ladder_example =
    reset_passes_ladder a_db [] a_manager an_admin_user 50 10 900 UserStatus.disabled refl refl refl
      manager_below

abbrev reset_db : Store
reset_db = record {
  users = a_user ∷ reset_user 900 an_admin_user ∷ [];
  tokens = record a_token { revoked_at = some 50 } ∷ [];
  notes = [];
}

reset_goes_through : reset_password a_db a_manager 50 10 900 ≡ ok reset_db
unfolding reset_password revoke_family
reset_goes_through = refl

-- What toLowerCase and trim make of the one address that is typed with capitals.
abbrev lower_email : String → String
lower_email s = if str_eq s "Bat@New.mn" then "bat@new.mn" else s

abbrev a_tenancy : Tenancy
a_tenancy = record { identity = a_db; companies = []; subscriptions = [] }

abbrev a_registration : Registration
a_registration = record {
  now = 1000;
  company_name = codes "New Trucks";
  email = "Bat@New.mn";
  password_hash = 102;
  company_id = 8;
  user_id = 12;
  suffixes = [];
  last_suffix = codes "0a1b2c3d";
  days = 7;
  fresh = 700;
}

abbrev late : ℕ
late = 40 * day_ms

abbrev billing_later : BillingStore
billing_later = record {
  companies = 8 ∷ [];
  devices = [];
  groups = [];
  garages = [];
  subscriptions = (run_lifecycle late (trial_subscription a_registration ∷ [])).0;
  invoices = [];
  payments = [];
}

abbrev a_root : Actor
a_root = record { id = 1; role = super_admin; company_id = none; driver_id = none }

trial_lapses_example : create_device billing_later a_root (some 8) none none ≡ err forbidden
unfolding register_company
trial_lapses_example =
    trial_lapses lower_email a_tenancy a_registration late billing_later a_root (some 8) none none
      refl refl refl (omega arith) refl
