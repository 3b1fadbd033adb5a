-- ===== src/Jobs/Schedule/Crud.antt =====
-- The guards, `create`, `update` and `remove` of
-- services/api/src/reports/scheduled-reports.service.ts.
use fleex.Access.Ownership.{is_foreign}
use fleex.Common.{
  ℕ, ◌+◌, Bool, true, false, not, ◌&&◌, ◌||◌, Option, none, some, List, [], ◌∷◌, any, filter, find?,
  update_first, leb, ◌==◌, if◌then◌else◌,
}
use fleex.Common.Texts.{Text}
use fleex.Common.Results.{
  Result, ok, ◌>>=◌, ◌>>◌, throw_if, or_throw, bad_request, forbidden, not_found,
}
use fleex.Access.Roles.{Actor, is_super_admin}
use fleex.Jobs.Schedule.{
  CreateDto, Device, ReportCadence, ScheduledReport, Store, UpdateDto, is_empty, is_homeless,
  unlisted,
}

abbrev pub is_space : ℕ → Bool
is_space c =
    leb 9 c && leb c 13
    || (any (λ s. s == c)
          (32 ∷ 0xA0 ∷ 0x1680 ∷ 0x2028 ∷ 0x2029 ∷ 0x202F ∷ 0x205F ∷ 0x3000 ∷ 0xFEFF ∷ [])
        || leb 0x2000 c && leb c 0x200A)

-- A letter of `[^\s@]`, and of the text before and after the `@`.
abbrev pub is_plain : ℕ → Bool
is_plain c = not (is_space c) && not (c == 64)

-- What `.trim()` leaves is not empty.
abbrev pub has_text : Text → Bool
has_text s = any (λ c. not (is_space c)) s

-- There is a dot after the first letter and before the last, and all letters are plain.
abbrev pub dot_before_last : Text → Bool
dot_before_last [] = false
dot_before_last (c ∷ []) = false
dot_before_last (c ∷ d ∷ s) = let rest = dot_before_last (d ∷ s) in c == 46 || rest

abbrev pub is_domain : Text → Bool
is_domain [] = false
is_domain (c ∷ s) = not (any (λ d. not (is_plain d)) (c ∷ s)) && dot_before_last s

abbrev pub after_at : Text → Bool
after_at [] = false
after_at (c ∷ s) = let rest = after_at s in if c == 64 then is_domain s else is_plain c && rest

-- `EMAIL_RE.test`
unfoldable pub is_email : Text → Bool
is_email [] = false
is_email (c ∷ s) = is_plain c && after_at s

abbrev pub is_listed : ReportCadence → Bool
is_listed unlisted = false
is_listed _ = true

unfoldable pub validate_recipients : List Text → Result (Unit {0})
unfolding is_email
validate_recipients recipients = do
  throw_if (is_empty recipients) bad_request
  throw_if (any (λ r. not (is_email r)) recipients) bad_request
  ok tt

unfoldable pub get_owned : Store → ℕ → Actor → Result ScheduledReport
get_owned db id actor = or_throw (find? (λ r. r.id == id) db.reports) not_found >>= λ r.
    throw_if (is_foreign actor r.company_id) forbidden >> ok r

abbrev pub or_else {ℓ} : {A : Type ℓ} → Option A → A → A
or_else none a = a
or_else (some b) a = b

-- `is_template` is whether REPORT_TEMPLATES has the template.
module _ (is_template : ℕ → Bool) where
  unfoldable pub validate : CreateDto → Result (Unit {0})
  unfolding validate_recipients
  validate dto = do
    throw_if (not (has_text dto.name)) bad_request
    throw_if (not (is_template dto.template_id)) bad_request
    throw_if (not (is_listed dto.cadence)) bad_request
    validate_recipients dto.recipients

  abbrev pub new_report : Store → CreateDto → Device → ScheduledReport
  new_report db dto device = record {
    id = db.next_id;
    company_id = device.company_id;
    name = dto.name;
    template_id = dto.template_id;
    device_id = some dto.device_id;
    cadence = dto.cadence;
    format = dto.format;
    recipients = dto.recipients;
    active = or_else dto.active true;
    last_run_at = none;
  }

  unfoldable pub create : Store → Actor → CreateDto → Result Store
  unfolding validate
  create db actor dto =
      throw_if (not (is_super_admin actor.role) && is_homeless actor.company_id) forbidden
      >> (validate dto
          >> (or_throw (find? (λ d. d.id == dto.device_id) db.devices) not_found >>= λ device.
              throw_if (is_foreign actor device.company_id) forbidden
              >> ok (record db {
                reports = new_report db dto device ∷ db.reports;
                next_id = db.next_id + 1;
              })))

abbrev pub validate_if : Option (List Text) → Result (Unit {0})
validate_if none = ok tt
validate_if (some recipients) = validate_recipients recipients

abbrev pub patched : UpdateDto → ScheduledReport → ScheduledReport
patched dto r = record r {
  name = or_else dto.name r.name;
  cadence = or_else dto.cadence r.cadence;
  format = or_else dto.format r.format;
  recipients = or_else dto.recipients r.recipients;
  active = or_else dto.active r.active;
}

unfoldable pub update : Store → ℕ → Actor → UpdateDto → Result Store
unfolding get_owned
update db id actor dto = get_owned db id actor >>= λ existing.
    validate_if dto.recipients
    >> ok (record db { reports = update_first (λ r. r.id == existing.id) (patched dto) db.reports })

unfoldable pub remove : Store → ℕ → Actor → Result Store
unfolding get_owned
remove db id actor = get_owned db id actor >>= λ existing.
    ok (record db { reports = filter (λ r. not (r.id == existing.id)) db.reports })
