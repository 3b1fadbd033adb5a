-- ===== src/Jobs/Schedule.antt =====
-- services/api/src/reports/scheduled-reports.service.ts. Times are milliseconds since 1970 in the
-- time zone of the server, ids and names of templates are numbers, and what a mail says is left
-- out.
pub mod Periods
pub mod Crud
pub mod Runs
pub mod Ownership
pub mod Delivery
use fleex.Common.{
  ℕ, zero, suc, ◌+◌, ◌-◌, ◌*◌, ◌/◌, ◌%◌, Bool, true, false, not, ◌&&◌, ◌||◌, Option, none, some,
  List, [], ◌∷◌, ◌++◌, any, filter, find?, update_first, ltb, leb, ◌==◌, is_id, if◌then◌else◌,
  length,
}
use fleex.Common.Texts.{Text}
use fleex.Common.Dates.{day_ms, Civil, civil_of_days, days_of_civil}
use fleex.Common.Results.{
  Result, ok, err, ◌>>=◌, ◌>>◌, throw_if, or_throw, bad_request, forbidden, not_found,
}
use fleex.Access.Roles.{Actor, is_super_admin}

pub data ReportCadence : Type 0 where
  daily weekly monthly unlisted : ReportCadence

-- The day of a time, from 1970 on.
abbrev pub day_of : ℕ → ℕ
day_of time = time / day_ms

abbrev pub same_date : Civil → Civil → Bool
same_date a b = a.year == b.year && (a.month == b.month && a.day == b.day)

abbrev pub same_day : ℕ → ℕ → Bool
same_day a b = same_date (civil_of_days (day_of a)) (civil_of_days (day_of b))

abbrev pub has_run : Option ℕ → ℕ → Bool
has_run none now = false
has_run (some last) now = same_day last now

-- The first of January 1970 was a Thursday, and Sunday is 0.
abbrev pub week_day : ℕ → ℕ
week_day time = (day_of time + 4) % 7

unfoldable pub is_report_due : ReportCadence → Option ℕ → ℕ → Bool
is_report_due daily last now = not (has_run last now)
is_report_due weekly last now = week_day now == 1 && not (has_run last now)
is_report_due monthly last now = (civil_of_days (day_of now)).day == 1 && not (has_run last now)
is_report_due unlisted last now = false

pub record Period : Type 0 where
  pub from : ℕ
  pub to : ℕ

-- `new Date(year, month, 1)`, and the same with the month before.
abbrev pub month_start : Civil → ℕ
month_start c = days_of_civil c.year c.month 1 * day_ms

abbrev pub month_before : ℕ → ℕ → Civil
month_before year zero = record { year = year - 1; month = 11; day = 1 }
month_before year (suc month) = record { year = year; month = month; day = 1 }

abbrev pub days_before : ℕ → ℕ → Period
days_before now n = record { from = (day_of now - n) * day_ms; to = day_of now * day_ms }

unfoldable pub report_period : ReportCadence → ℕ → Period
report_period daily now = days_before now 1
report_period weekly now = days_before now 7
report_period monthly now =
    let c = civil_of_days (day_of now) in
    record { from = month_start (month_before c.year c.month); to = month_start c }
report_period unlisted now = days_before now 1

pub data Format : Type 0 where
  excel pdf : Format

pub record ScheduledReport : Type 0 where
  pub id : ℕ
  pub company_id : ℕ
  pub name : Text
  pub template_id : ℕ
  pub device_id : Option ℕ
  pub cadence : ReportCadence
  pub format : Format
  pub recipients : List Text
  pub active : Bool
  pub last_run_at : Option ℕ

pub record Device : Type 0 where
  pub id : ℕ
  pub company_id : ℕ

pub record Store : Type 0 where
  pub devices : List Device
  pub reports : List ScheduledReport
  pub next_id : ℕ

-- The body of a creation; `format` is whether it says `pdf`.
pub record CreateDto : Type 0 where
  pub name : Text
  pub template_id : ℕ
  pub device_id : ℕ
  pub cadence : ReportCadence
  pub format : Format
  pub recipients : List Text
  pub active : Option Bool

pub record UpdateDto : Type 0 where
  pub name : Option Text
  pub cadence : Option ReportCadence
  pub format : Option Format
  pub recipients : Option (List Text)
  pub active : Option Bool

abbrev pub is_homeless : Option ℕ → Bool
is_homeless none = true
is_homeless (some c) = false

abbrev pub is_empty {ℓ} : {A : Type ℓ} → List A → Bool
is_empty [] = true
is_empty (x ∷ xs) = false
