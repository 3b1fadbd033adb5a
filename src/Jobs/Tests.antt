-- ===== src/Jobs/Tests.antt =====
-- The theorems of Jobs at a silent device, a company and a report.
use fleex.Common.{ℕ, ◌+◌, ◌*◌, refl, Bool, true, false, none, some, [], ◌∷◌, All}
use fleex.Common.Texts.{codes}
use fleex.Jobs.LoneWorker.{Asset, scan}
use fleex.Jobs.LoneWorker.Alerts.{IsWarranted, scan-All-IsWarranted}
use fleex.Jobs.Schedule.{Period, ScheduledReport, daily, excel}
use fleex.Jobs.Schedule.Runs.{run_scheduled}
use fleex.Jobs.Schedule.Delivery.{IsFailed, run_scheduled_again}

-- Silent for three hours at the time 20,000,000.
abbrev silent_asset : Asset
silent_asset = record {
  id = 5;
  company_id = 3;
  active = true;
  driver_id = some 8;
  last_position = none;
  last_speed = some 0;
  last_seen_at = some 9_200_000;
}

abbrev through : ℕ → Bool
through id = true

scan-All-IsWarranted_example :
    All
      (IsWarranted 20_000_000 (silent_asset ∷ []))
      (scan through 20_000_000 9 (silent_asset ∷ []) []).alerts
scan-All-IsWarranted_example = scan-All-IsWarranted through 20_000_000 9 (silent_asset ∷ []) []

-- 02:00 on the first of February 2024.
abbrev run_time : ℕ
run_time = 19_754 * 86_400_000 + 2 * 3_600_000

abbrev a_report : ScheduledReport
a_report = record {
  id = 1;
  company_id = 3;
  name = codes "daily";
  template_id = 2;
  device_id = some 5;
  cadence = daily;
  format = excel;
  recipients = codes "a@b.mn" ∷ [];
  active = true;
  last_run_at = none;
}

abbrev no_mail : ScheduledReport → Period → Bool
no_mail r p = false

abbrev all_mail : ScheduledReport → Period → Bool
all_mail r p = true

abbrev stored : ScheduledReport → Bool
stored r = true

run_scheduled_again_example :
    All
      (λ m. IsFailed no_mail all_mail stored stored run_time (run_time + 3_600_000) m.report)
      (run_scheduled all_mail stored true
        (run_time + 3_600_000)
        (run_scheduled no_mail stored true run_time (a_report ∷ [])).reports).mails
run_scheduled_again_example =
    run_scheduled_again no_mail all_mail stored stored true run_time (run_time + 3_600_000)
      (a_report ∷ []) refl
