-- ===== src/Jobs/Schedule/Runs.antt =====
-- `deliver`, `runNow` and the daily `runScheduled` of
-- services/api/src/reports/scheduled-reports.service.ts.
use fleex.Common.{ℕ, Bool, true, false, not, ◌&&◌, some, List, [], ◌∷◌, ◌++◌, if◌then◌else◌}
use fleex.Common.Results.{Result, ok, err, ◌>>=◌, ◌>>◌, throw_if, bad_request}
use fleex.Access.Roles.{Actor}
use fleex.Jobs.Schedule.{
  Period, ScheduledReport, Store, is_empty, is_homeless, is_report_due, report_period,
}
use fleex.Jobs.Schedule.Crud.{get_owned}

-- A mail of a report over a period.
pub record Mail : Type 0 where
  pub report : ScheduledReport
  pub period : Period

-- The rows after a run, and the mails that it made.
pub record Sweep : Type 0 where
  pub reports : List ScheduledReport
  pub mails : List Mail

abbrev pub keep_report : ScheduledReport → Sweep → Sweep
keep_report r s = record s { reports = r ∷ s.reports }

-- A failure is logged, and leaves `lastRunAt` as it is; so does a failure of the update, after the
-- mail. `updates` is whether the update goes through.
abbrev pub after_delivery : Bool → ℕ → ScheduledReport → Result (List Mail) → Sweep → Sweep
after_delivery updates now r (err e) s = keep_report r s
after_delivery true now r (ok mails) s = record {
  reports = record r { last_run_at = some now } ∷ s.reports;
  mails = mails ++ s.mails;
}
after_delivery false now r (ok mails) s = record {
  reports = r ∷ s.reports;
  mails = mails ++ s.mails;
}

-- `export_and_mail` is whether the export and the mail of a report go through.
module _ (export_and_mail : ScheduledReport → Period → Bool) where
  -- `deliver`: the mails made, or an exception.
  unfoldable pub deliver : ScheduledReport → Period → Result (List Mail)
  deliver r period =
      throw_if (is_homeless r.device_id) bad_request
      >> (if is_empty r.recipients
          then ok []
          else throw_if (not (export_and_mail r period)) bad_request
            >> ok (record { report = r; period = period } ∷ []))

  -- `runNow`
  unfoldable pub run_now : Store → ℕ → Actor → ℕ → Result (List Mail)
  unfolding get_owned deliver
  run_now db id actor now = get_owned db id actor >>= λ r. deliver r (report_period r.cadence now)

  abbrev pub sweep_report : (ScheduledReport → Bool) → ℕ → ScheduledReport → Sweep → Sweep
  sweep_report updates now r s =
      if r.active && is_report_due r.cadence r.last_run_at now
      then after_delivery (updates r) now r (deliver r (report_period r.cadence now)) s
      else keep_report r s

  -- The `for` of `runScheduled` over all reports, of which the query leaves out the inactive ones.
  unfoldable pub run_reports : (ScheduledReport → Bool) → ℕ → List ScheduledReport → Sweep
  unfolding deliver is_report_due report_period
  run_reports updates now [] = record { reports = []; mails = [] }
  run_reports updates now (r ∷ rs) = sweep_report updates now r (run_reports updates now rs)

  unfoldable pub run_scheduled : (ScheduledReport → Bool) → Bool → ℕ → List ScheduledReport → Sweep
  unfolding run_reports
  run_scheduled updates email_enabled now rs =
      if email_enabled then run_reports updates now rs else record { reports = rs; mails = [] }
