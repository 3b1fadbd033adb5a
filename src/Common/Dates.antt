-- ===== src/Common/Dates.antt =====
-- The calendar arithmetic behind `addMonths` and `nextInvoiceNumber` of
-- services/api/src/billing/billing.service.ts: a Date is
-- its count of milliseconds since 1970, and a day number is read as a date of the proleptic
-- Gregorian calendar, as JavaScript's Date does for the years from 1970 on.
use Prim.Native.Nat.{ℕ, ◌+◌, ◌-◌, ◌*◌, ◌/◌, ◌%◌}
use fleex.Common.Tests.{leb, if◌then◌else◌}

abbrev pub day_ms : ℕ
day_ms = 86_400_000

-- Month 0 is January, and the first day of a month is 1.
pub record Civil : Type 0 where
  pub year : ℕ
  pub month : ℕ
  pub day : ℕ

-- Years are counted from March, so that the leap day is the last; an era has 400 years.
unfoldable pub civil_of_days : ℕ → Civil
civil_of_days days =
    let z = days + 719_468 in
    let doe = z % 146_097 in
    let yoe = (doe - doe / 1460 + doe / 36_524 - doe / 146_096) / 365 in
    let doy = doe + yoe / 100 - (365 * yoe + yoe / 4) in
    let mp = (5 * doy + 2) / 153 in
    record {
      year = z / 146_097 * 400 + yoe + (if leb 10 mp then 1 else 0);
      month = (mp + 2) % 12;
      day = doy - (153 * mp + 2) / 5 + 1;
    }

-- The number of the given day of a month; a day past the month's end runs on into the next month.
unfoldable pub days_of_civil : ℕ → ℕ → ℕ → ℕ
days_of_civil year month day =
    let y = if leb 2 month then year else year - 1 in
    let yoe = y % 400 in
    let doy = (153 * ((month + 10) % 12) + 2) / 5 + day - 1 in
    y / 400 * 146_097 + (yoe * 365 + yoe / 4 - yoe / 100 + doy) - 719_468

-- `r.setUTCMonth(r.getUTCMonth() + months)`.
unfoldable pub add_months : ℕ → ℕ → ℕ
unfolding civil_of_days days_of_civil
add_months time months =
    let c = civil_of_days (time / day_ms) in
    let m = c.month + months in
    days_of_civil (c.year + m / 12) (m % 12) c.day * day_ms + time % day_ms
