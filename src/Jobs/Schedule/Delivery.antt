-- ===== src/Jobs/Schedule/Delivery.antt =====
-- How often a scheduled report goes out.
use fleex.Common.{
  ℕ, ◌≡◌, refl, sym, Bool, true, false, ◌&&◌, some, List, [], ◌∷◌, ◌++◌, All, All-append, All-imp,
  Bool-cases, inl, inr, ◌⊎◌,
}
use fleex.Common.Results.{Result, HttpError, ok, err, Result-cases}
use mathlib.Core.Path.{subst}
use fleex.Jobs.Schedule.{
  Period, ScheduledReport, day_of, is_empty, is_homeless, is_report_due, report_period,
}
use fleex.Jobs.Schedule.Runs.{
  Mail, Sweep, after_delivery, deliver, run_reports, run_scheduled, sweep_report,
}
use fleex.Jobs.Schedule.Periods.{is_report_due-day, is_report_due-run}

and-false : (b : Bool) → (b && false) ≡ false
and-false true = refl
and-false false = refl

-- Each mail of a delivery is of its report.
abbrev IsOf : ScheduledReport → Result (List Mail) → Type 0
IsOf r (err e) = Unit
IsOf r (ok mails) = All {0, 0} (λ m. m.report ≡ r) mails

deliver-IsOf :
    (export_and_mail : ScheduledReport → Period → Bool) (r : ScheduledReport) (p : Period)
    → IsOf r (deliver export_and_mail r p)
unfolding deliver
deliver-IsOf export_and_mail r p = elim (Bool-cases (is_homeless r.device_id)) [
  | inl h ↦ rw h tt
  | inr h ↦ elim (Bool-cases (is_empty r.recipients)) [
    | inl e ↦ rw h (rw e tt)
    | inr e ↦ elim (Bool-cases (export_and_mail r p)) [
      | inl s ↦ rw h (rw e (rw s (refl, tt)))
      | inr s ↦ rw h (rw e (rw s tt))
    ]
  ]
]

-- How a run leaves a report that it delivered: whether the update went through.
abbrev left : Bool → ℕ → ScheduledReport → ScheduledReport
left true now r = record r { last_run_at = some now }
left false now r = r

after_delivery-left :
    (b : Bool) (now : ℕ) (r : ScheduledReport) (mails : List Mail) (s : Sweep)
    → (after_delivery b now r (ok mails) s).reports ≡ left b now r ∷ s.reports
after_delivery-left true now r mails s = refl
after_delivery-left false now r mails s = refl

after_delivery-mails :
    (b : Bool) (now : ℕ) (r : ScheduledReport) (mails : List Mail) (s : Sweep)
    → (after_delivery b now r (ok mails) s).mails ≡ mails ++ s.mails
after_delivery-mails true now r mails s = refl
after_delivery-mails false now r mails s = refl

module _ (first again : ScheduledReport → Period → Bool) (updates updates' : ScheduledReport → Bool)
    (now next : ℕ) where
  -- In the first run the delivery of the report ended in an exception, or the update after it did.
  abbrev pub IsFailed : ScheduledReport → Type 0
  IsFailed r =
      ((e : HttpError) × (deliver first r (report_period r.cadence now) ≡ err e))
      ⊎ (updates r ≡ false)

  abbrev HasFailed : Sweep → Type 0
  HasFailed s = All (λ m. IsFailed m.report) s.mails

  after_delivery-HasFailed :
      (r : ScheduledReport) (o : Result (List Mail)) (s : Sweep)
      → IsFailed r
      → IsOf r o
      → HasFailed s
      → HasFailed (after_delivery (updates' r) next r o s)
  after_delivery-HasFailed r (err e) s f of h = h
  after_delivery-HasFailed r (ok mails) s f of h =
      rw (after_delivery-mails (updates' r) next r mails s) (
        All-append (λ m. IsFailed m.report) mails s.mails
          (All-imp mails (λ m p. subst IsFailed (sym p) f) of) h)

  sweep_report-HasFailed :
      (r : ScheduledReport) (s : Sweep)
      → (IsFailed r ⊎ ((r.active && is_report_due r.cadence r.last_run_at next) ≡ false))
      → HasFailed s
      → HasFailed (sweep_report again updates' next r s)
  sweep_report-HasFailed r s why h =
      elim (Bool-cases (r.active && is_report_due r.cadence r.last_run_at next)) [
        | inl due ↦ elim why [
          | inl f ↦ rw due (
              after_delivery-HasFailed r (deliver again r (report_period r.cadence next)) s f
                (deliver-IsOf again r (report_period r.cadence next)) h)
          | inr idle ↦ cc
        ]
        | inr idle ↦ rw idle h
      ]

  -- A report that was delivered is not due again, unless the update failed.
  left_why :
      (r : ScheduledReport) (b : Bool)
      → day_of next ≡ day_of now
      → updates r ≡ b
      → let l = left b now r in
        IsFailed l ⊎ ((l.active && is_report_due l.cadence l.last_run_at next) ≡ false)
  left_why r true same e = inr (rw (is_report_due-run r.cadence now next same) (and-false r.active))
  left_why r false same e = inl (inr e)

  run_reports-HasFailed :
      (rs : List ScheduledReport)
      → day_of next ≡ day_of now
      → HasFailed (run_reports again updates' next (run_reports first updates now rs).reports)
  unfolding run_reports
  run_reports-HasFailed [] same = tt
  run_reports-HasFailed (r ∷ rs) same =
      let before = run_reports first updates now rs in
      let rest = run_reports again updates' next before.reports in
      let ih = run_reports-HasFailed rs same in
      elim (Bool-cases (r.active && is_report_due r.cadence r.last_run_at now)) [
        | inl due ↦ elim (Result-cases (deliver first r (report_period r.cadence now))) [
          | inl (e, p) ↦ rw due (rw p (sweep_report-HasFailed r rest (inl (inl (e, p))) ih))
          | inr (mails, p) ↦ rw due (
              rw p (
                rw (after_delivery-left (updates r) now r mails before) (
                  sweep_report-HasFailed (left (updates r) now r) rest
                    (left_why r (updates r) same refl) ih)))
        ]
        | inr idle ↦
            let still = is_report_due-day r.cadence r.last_run_at now next same in
            rw idle (sweep_report-HasFailed r rest (inr (rw still idle)) ih)
      ]

-- When the job runs again on the same day on the rows that its first run left, all that it mails
-- are reports whose delivery failed the first time, or whose `lastRunAt` could not be stored after
-- it, whatever goes through then.
pub run_scheduled_again :
    (first again : ScheduledReport → Period → Bool) (updates updates' : ScheduledReport → Bool)
    (email_enabled : Bool) (now next : ℕ) (rs : List ScheduledReport)
    → day_of next ≡ day_of now
    → All
        (λ m. IsFailed first again updates updates' now next m.report)
        (run_scheduled again updates' email_enabled next
          (run_scheduled first updates true now rs).reports).mails
unfolding run_scheduled
run_scheduled_again first again updates updates' true now next rs same =
    run_reports-HasFailed first again updates updates' now next rs same
run_scheduled_again first again updates updates' false now next rs same = tt
