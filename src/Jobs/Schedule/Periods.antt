-- ===== src/Jobs/Schedule/Periods.antt =====
-- The periods that scheduled reports cover, and the days they are due on.
use fleex.Common.{
  ℕ, zero, suc, ◌+◌, ◌-◌, ◌*◌, ◌%◌, ◌<◌, ◌≡◌, refl, ap, ap₂, sym, ◌∙◌, Bool, true, false, not, ◌&&◌,
  Option, none, some, ◌==◌, arith,
}
use fleex.Common.Dates.{day_ms, Civil, civil_of_days, days_of_civil}
use fleex.Jobs.Schedule.{
  ReportCadence, daily, weekly, monthly, unlisted, day_of, same_date, has_run, is_report_due,
  report_period, month_start, month_before,
}

-- The day of the run after this one: the next day, a week later, or in the next month.
abbrev pub IsNextRun : ReportCadence → ℕ → ℕ → Type 0
IsNextRun daily now next = day_of next ≡ day_of now + 1
IsNextRun weekly now next = day_of next ≡ day_of now + 7
IsNextRun monthly now next =
    let c = civil_of_days (day_of now) in
    let d = civil_of_days (day_of next) in d.year * 12 + d.month ≡ c.year * 12 + c.month + 1
IsNextRun unlisted now next = ¬ Unit {0}

civil_month : (days : ℕ) → (civil_of_days days).month < 12
unfolding civil_of_days
civil_month days = omega arith

start_of : ℕ → ℕ → ℕ
start_of year month = days_of_civil year month 1 * day_ms

month_before_next :
    (c : Civil) (year month : ℕ)
    → c.month < 12
    → month < 12
    → year * 12 + month ≡ c.year * 12 + c.month + 1
    → month_start (month_before year month) ≡ month_start c
unfolding start_of
month_before_next c year zero hc hd h = ap₂ start_of (omega (arith, h, hc)) (omega (arith, h, hc))
month_before_next c year (suc month) hc hd h =
    ap₂ start_of (omega (arith, h, hc, hd)) (omega (arith, h, hc, hd))

-- The period of a run starts where that of the run before it ended, so that no time is left out of
-- the reports or in two of them.
periods_meet :
    (cadence : ReportCadence) (now next : ℕ)
    → IsNextRun cadence now next
    → (report_period cadence next).from ≡ (report_period cadence now).to
unfolding report_period
periods_meet daily now next h = ap (λ d. d * day_ms) (ap (λ d. d - 1) h ∙ omega arith)
periods_meet weekly now next h = ap (λ d. d * day_ms) (ap (λ d. d - 7) h ∙ omega arith)
periods_meet monthly now next h =
    let d = civil_of_days (day_of next) in
    month_before_next (civil_of_days (day_of now)) d.year d.month (civil_month (day_of now))
      (civil_month (day_of next)) h
periods_meet unlisted now next h = absurd (h tt)

same_date_refl : (c : Civil) → same_date c c ≡ true
same_date_refl c = ground arith

has_run-same : (now next : ℕ) → day_of next ≡ day_of now → has_run (some now) next ≡ true
has_run-same now next h =
    ap (λ d. same_date (civil_of_days (day_of now)) (civil_of_days d)) h
    ∙ same_date_refl (civil_of_days (day_of now))

-- Whether a report is due, by the day of the time.
has_run_on : Option ℕ → ℕ → Bool
has_run_on none day = false
has_run_on (some last) day = same_date (civil_of_days (day_of last)) (civil_of_days day)

due_on : ReportCadence → Option ℕ → ℕ → Bool
due_on daily last day = not (has_run_on last day)
due_on weekly last day = (day + 4) % 7 == 1 && not (has_run_on last day)
due_on monthly last day = (civil_of_days day).day == 1 && not (has_run_on last day)
due_on unlisted last day = false

is_report_due-on :
    (c : ReportCadence) (last : Option ℕ) (now : ℕ)
    → is_report_due c last now ≡ due_on c last (day_of now)
unfolding is_report_due due_on has_run_on
is_report_due-on daily none now = refl
is_report_due-on daily (some last) now = refl
is_report_due-on weekly none now = refl
is_report_due-on weekly (some last) now = refl
is_report_due-on monthly none now = refl
is_report_due-on monthly (some last) now = refl
is_report_due-on unlisted last now = refl

-- Whether a report is due depends on the day alone.
pub is_report_due-day :
    (c : ReportCadence) (last : Option ℕ) (now next : ℕ)
    → day_of next ≡ day_of now
    → is_report_due c last next ≡ is_report_due c last now
is_report_due-day c last now next h =
    is_report_due-on c last next ∙ ap (due_on c last) h ∙ sym (is_report_due-on c last now)

-- A report that has run on a day is not due on it.
pub is_report_due-run :
    (c : ReportCadence) (now next : ℕ)
    → day_of next ≡ day_of now
    → is_report_due c (some now) next ≡ false
unfolding is_report_due
is_report_due-run daily now next h = ap not (has_run-same now next h)
is_report_due-run weekly now next h = let ran = has_run-same now next h in ground (arith, ran)
is_report_due-run monthly now next h = let ran = has_run-same now next h in ground (arith, ran)
is_report_due-run unlisted now next h = refl
