-- ===== src/Jobs/Scorecard.antt =====
-- services/api/src/reports/scorecard-cron.service.ts: the monthly mail of scorecards. Times are
-- milliseconds since 1970, companies and drivers are numbers, and a month is one number, twelve
-- times the year and the month from 0.
pub mod Once
use fleex.Common.{
  ℕ, ◌+◌, ◌-◌, ◌*◌, ◌/◌, ◌%◌, Bool, true, false, not, ◌&&◌, Option, none, some, List, [], ◌∷◌, ◌++◌,
  any, filter, ltb, leb, length, ◌==◌, if◌then◌else◌,
}
use fleex.Common.Dates.{day_ms, Civil, civil_of_days, days_of_civil}

-- `RUN_KEY_TTL_DAYS`, in milliseconds.
abbrev pub run_key_ttl : ℕ
run_key_ttl = 35 * 86_400 * 1000

abbrev pub min_days_with_data : ℕ
min_days_with_data = 3

-- `days` is the number of days of the driver's data, or none where the scorecard throws; `mailed`
-- is whether the PDF and the mail go through.
pub record Driver : Type 0 where
  pub id : ℕ
  pub company_id : ℕ
  pub active : Bool
  pub has_email : Bool
  pub days : Option ℕ
  pub mailed : Bool

pub record Window : Type 0 where
  pub from : ℕ
  pub to : ℕ
  pub month : ℕ

-- The first day of a month that is counted from the year 0 on.
unfoldable pub first_of_month : ℕ → ℕ
first_of_month month = days_of_civil (month / 12) (month % 12) 1 * day_ms

-- The month of a time; `as_of` of the code.
unfoldable pub month_of : ℕ → ℕ
month_of time = let c = civil_of_days (time / day_ms) in c.year * 12 + c.month

unfoldable pub previous_month_window : ℕ → Window
unfolding first_of_month month_of
previous_month_window as_of =
    let month = month_of as_of in
    record { from = first_of_month (month - 1); to = first_of_month month; month = month - 1 }

-- What became of a driver's mail: the outcomes count as `sent` and `skipped`, an exception as
-- none.
pub data Outcome : Type 0 where
  sent : ℕ → Outcome
  skipped : ℕ → Outcome
  failed : ℕ → Outcome

abbrev pub mail_scorecard : Driver → Option ℕ → Outcome
mail_scorecard d none = failed d.id
mail_scorecard d (some days) =
    if ltb days min_days_with_data
    then skipped d.id
    else if d.mailed
    then sent d.id
    else failed d.id

abbrev pub mail_drivers : List Driver → List Outcome
mail_drivers [] = []
mail_drivers (d ∷ ds) = mail_scorecard d d.days ∷ mail_drivers ds

abbrev pub skip_drivers : List Driver → List Outcome
skip_drivers [] = []
skip_drivers (d ∷ ds) = skipped d.id ∷ skip_drivers ds

abbrev pub is_addressed : ℕ → Driver → Bool
is_addressed company d = d.company_id == company && (d.active && d.has_email)

-- A key `cron:scorecard:<company>:<month>` of Redis, and when it expires.
pub record Claim : Type 0 where
  pub company_id : ℕ
  pub month : ℕ
  pub expires_at : ℕ

abbrev pub is_claimed : ℕ → ℕ → ℕ → List Claim → Bool
is_claimed now company month claims =
    any (λ c. c.company_id == company && (c.month == month && ltb now c.expires_at)) claims

abbrev pub is_other : ℕ → ℕ → Claim → Bool
is_other company month c = not (c.company_id == company && c.month == month)

pub record Run : Type 0 where
  pub claims : List Claim
  pub outcomes : List Outcome

-- The test of `tick`: the first day of the month, from two to three o'clock.
abbrev pub is_run_time : ℕ → Bool
is_run_time now = (civil_of_days (now / day_ms)).day == 1 && now % day_ms / 3_600_000 == 2

-- `finds` is whether the query for the drivers of a company goes through; else `runCompany`
-- throws.
module _ (email_enabled : Bool) (finds : ℕ → Bool) (drivers : List Driver) where
  unfoldable pub run_company : ℕ → List Outcome
  run_company company =
      let found = filter (is_addressed company) drivers in
      if email_enabled then mail_drivers found else skip_drivers found

  -- One round of `runMonth`: SET with EX and NX, then the company, and DEL if it throws.
  unfoldable pub run_claimed : ℕ → ℕ → ℕ → Run → Run
  unfolding run_company
  run_claimed now month company r =
      if is_claimed now company month r.claims
      then r
      else if finds company
      then record {
        claims =
            record { company_id = company; month = month; expires_at = now + run_key_ttl }
            ∷ r.claims;
        outcomes = r.outcomes ++ run_company company;
      }
      else record r { claims = filter (is_other company month) r.claims }

  unfoldable pub run_companies : ℕ → ℕ → List ℕ → Run → Run
  unfolding run_claimed
  run_companies now month [] r = r
  run_companies now month (c ∷ companies) r =
      run_companies now month companies (run_claimed now month c r)

  -- `runMonth` at a time, over the active companies.
  unfoldable pub run_month : ℕ → List ℕ → List Claim → Run
  unfolding run_companies previous_month_window
  run_month now companies claims =
      run_companies now (previous_month_window now).month companies
        (record { claims = claims; outcomes = [] })

  unfoldable pub tick : ℕ → List ℕ → List Claim → Run
  unfolding run_month
  tick now companies claims =
      if is_run_time now
      then run_month now companies claims
      else record { claims = claims; outcomes = [] }
