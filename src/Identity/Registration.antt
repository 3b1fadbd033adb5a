-- ===== src/Identity/Registration.antt =====
-- `registerCompany` and `uniqueSlug` of services/api/src/auth/auth.service.ts, which open a
-- company with its first user and a trial subscription. Names other than the company's are left
-- out, and the entry of the audit log.
pub mod Slugs
pub mod Opening
use Prim.Native.String.{String}
use fleex.Common.{
  ℕ, ◌+◌, ◌-◌, ◌*◌, Bool, true, false, not, ◌&&◌, ◌||◌, Option, none, some, List, [], ◌∷◌, ◌++◌,
  any, leb, ◌==◌, if◌then◌else◌,
}
use fleex.Common.Dates.{day_ms}
use fleex.Common.Results.{Result, ok, err, conflict}
use fleex.Common.Texts.{Text, codes, text_eq, take}
use fleex.Access.Roles.{company_admin}
use fleex.Billing.Store.{Subscription, trial}
use fleex.Identity.Store.{User, active, Store, find_email}
use fleex.Identity.Sessions.{issue_token}

abbrev pub trial_days : ℕ
trial_days = 14

pub record Company : Type 0 where
  pub id : ℕ
  pub slug : Text

-- The rows of the service and those of billing.
pub record Tenancy : Type 0 where
  pub identity : Store
  pub companies : List Company
  pub subscriptions : List Subscription

abbrev pub hyphen : ℕ
hyphen = 45

-- `toLowerCase` as far as ASCII letters come out of it: A to Z, the sign of the kelvin (U+212A),
-- and the dotted capital I (U+0130), which becomes i with a combining dot.
abbrev lower_case : ℕ → Text
lower_case c =
    if leb 65 c && leb c 90
    then (c + 32) ∷ []
    else if c == 0x212A
    then 107 ∷ []
    else if c == 0x130
    then 105 ∷ 0x307 ∷ []
    else c ∷ []

unfoldable pub lower : Text → Text
lower [] = []
lower (c ∷ name) = lower_case c ++ lower name

abbrev pub is_slug_letter : ℕ → Bool
is_slug_letter c = (leb 97 c && leb c 122) || (leb 48 c && leb c 57)

-- `.replace(/[^a-z0-9]+/g, '-')`: each run of other letters is one hyphen; the flag is whether a
-- run is open.
unfoldable pub hyphenate : Bool → Text → Text
hyphenate in_run [] = []
hyphenate in_run (c ∷ name) =
    let next = hyphenate false name in
    let run = hyphenate true name in
    if is_slug_letter c then c ∷ next else if in_run then run else hyphen ∷ run

-- `.replace(/^-+|-+$/g, '')`
unfoldable pub trim_start : Text → Text
trim_start [] = []
trim_start (c ∷ s) = let rest = trim_start s in if c == hyphen then rest else c ∷ s

abbrev pub keep_end : ℕ → Text → Text
keep_end c [] = if c == hyphen then [] else c ∷ []
keep_end c (d ∷ s) = c ∷ d ∷ s

unfoldable pub trim_end : Text → Text
trim_end [] = []
trim_end (c ∷ s) = keep_end c (trim_end s)

abbrev pub or_co : Text → Text
or_co [] = codes "co"
or_co (c ∷ s) = c ∷ s

unfoldable pub slug_base : Text → Text
unfolding lower hyphenate trim_start trim_end
slug_base name = or_co (take 40 (trim_end (trim_start (hyphenate false (lower name)))))

abbrev pub is_taken : List Company → Text → Bool
is_taken companies slug = any (λ c. text_eq c.slug slug) companies

abbrev pub with_suffix : Text → Text → Text
with_suffix base suffix = base ++ (hyphen ∷ suffix)

-- The rounds with a random suffix, and the last suffix, which is longer and is not looked up.
unfoldable pub try_slugs : List Company → Text → List Text → Text → Text
try_slugs companies base [] last = with_suffix base last
try_slugs companies base (s ∷ suffixes) last =
    let rest = try_slugs companies base suffixes last in
    if is_taken companies (with_suffix base s) then rest else with_suffix base s

-- `suffixes` are the five random ones of two bytes, `last` is that of four.
unfoldable pub unique_slug : List Company → Text → List Text → Text → Text
unfolding slug_base try_slugs
unique_slug companies name suffixes last =
    let base = slug_base name in
    if is_taken companies base then try_slugs companies base suffixes last else base

-- What a request asks for, with what the service draws for it: the hash of the password, the ids
-- of the rows, the suffixes, and the refresh token with its lifetime in days.
pub record Registration : Type 0 where
  pub now : ℕ
  pub company_name : Text
  pub email : String
  pub password_hash : ℕ
  pub company_id : ℕ
  pub user_id : ℕ
  pub suffixes : List Text
  pub last_suffix : Text
  pub days : ℕ
  pub fresh : ℕ

abbrev pub first_admin : Registration → String → User
first_admin r email = record {
  id = r.user_id;
  company_id = some r.company_id;
  driver_id = none;
  email = email;
  password_hash = r.password_hash;
  role = company_admin;
  status = active;
  last_login_at = none;
  failed_logins = 0;
  locked_until = none;
}

abbrev pub trial_end : Registration → ℕ
trial_end r = r.now + trial_days * day_ms

abbrev pub trial_subscription : Registration → Subscription
trial_subscription r = record {
  company_id = r.company_id;
  plan_key = "starter";
  status = trial;
  started_at = r.now;
  trial_ends_at = some (trial_end r);
  current_period_end = some (trial_end r);
  device_limit_override = none;
}

-- `canonical` is `email.toLowerCase().trim()`.
module _ (canonical : String → String) where
  abbrev pub open_company : Tenancy → Registration → Option User → Tenancy × Result ℕ
  open_company db r (some user) = (db, err conflict)
  open_company db r none =
      let users = first_admin r (canonical r.email) ∷ db.identity.users in
      (
        record {
          identity =
              issue_token (record db.identity { users = users }) r.now r.days r.user_id r.fresh;
          companies =
              record {
                id = r.company_id;
                slug = unique_slug db.companies r.company_name r.suffixes r.last_suffix;
              }
              ∷ db.companies;
          subscriptions = db.subscriptions ++ (trial_subscription r ∷ []);
        },
        ok r.fresh,
      )

  unfoldable pub register_company : Tenancy → Registration → Tenancy × Result ℕ
  unfolding unique_slug issue_token
  register_company db r = open_company db r (find_email (canonical r.email) db.identity.users)
