-- ===== src/Jobs/Schedule/Ownership.antt =====
-- Whose a scheduled report is.
use fleex.Access.Ownership.{is_foreign}
use fleex.Common.{
  ℕ, ◌≡◌, Bool, true, false, not, ◌&&◌, some, ◌∷◌, ◌==◌, arith, Bool-cases, inl, inr, ◌⊎◌, find?,
  is_id→eq, any,
}
use fleex.Common.Results.{ok, >>=-eq-ok, >>-eq-ok, or_throw, forbidden, bad_request, not_found}
use fleex.Access.Roles.{Actor, is_super_admin}
use fleex.Jobs.Schedule.{CreateDto, Device, Store, is_empty, is_homeless}
use fleex.Jobs.Schedule.Crud.{
  create, has_text, is_email, is_listed, new_report, validate, validate_recipients,
}

validate-recipients :
    (is_template : ℕ → Bool) (dto : CreateDto) (u : Unit {0})
    → validate is_template dto ≡ ok u
    → (is_empty dto.recipients ≡ false) × (any (λ r. not (is_email r)) dto.recipients ≡ false)
unfolding validate validate_recipients
validate-recipients is_template dto u h =
    let (named, h1) = >>-eq-ok (not (has_text dto.name)) bad_request _ h in
    let (known, h2) = >>-eq-ok (not (is_template dto.template_id)) bad_request _ h1 in
    let (listed, h3) = >>-eq-ok (not (is_listed dto.cadence)) bad_request _ h2 in
    let (full, h4) = >>-eq-ok (is_empty dto.recipients) bad_request _ h3 in
    let (mails, h5) = >>-eq-ok (any (λ r. not (is_email r)) dto.recipients) bad_request _ h4 in
    (full, mails)

is_foreign-false :
    (actor : Actor) (company : ℕ)
    → is_foreign actor company ≡ false
    → (is_super_admin actor.role ≡ true) ⊎ (actor.company_id ≡ some company)
is_foreign-false actor company h = elim (Bool-cases (is_super_admin actor.role)) [
  | inl e ↦ inl e
  | inr e ↦ inr (is_id→eq actor.company_id company (ground (arith, h, e)))
]

-- What a creation that goes through has added: one report on top, of a device that is there, for
-- the device's company, which is the actor's own but for a super admin, to one mail address or
-- more.
create_effect :
    (is_template : ℕ → Bool) (db db' : Store) (actor : Actor) (dto : CreateDto)
    → create is_template db actor dto ≡ ok db'
    → (device : Device) × ((find? (λ d. d.id == dto.device_id) db.devices ≡ some device)
        × ((db'.reports ≡ new_report is_template db dto device ∷ db.reports)
            × (((is_super_admin actor.role ≡ true) ⊎ (actor.company_id ≡ some device.company_id))
                × ((is_empty dto.recipients ≡ false)
                    × (any (λ r. not (is_email r)) dto.recipients ≡ false)))))
unfolding create
create_effect is_template db db' actor dto h =
    let (placed, h1) =
      >>-eq-ok (not (is_super_admin actor.role) && is_homeless actor.company_id) forbidden _ h in
    let (u, valid, h2) = >>=-eq-ok (validate is_template dto) _ h1 in
    let (device, found, h3) =
      >>=-eq-ok (or_throw (find? (λ d. d.id == dto.device_id) db.devices) not_found) _ h2 in
    let (own, h4) = >>-eq-ok (is_foreign actor device.company_id) forbidden _ h3 in
    let there : find? (λ d. d.id == dto.device_id) db.devices ≡ some device =
      ground (arith, found) in
    let added : db'.reports ≡ new_report is_template db dto device ∷ db.reports =
      ground (arith, h4) in
    (
      device,
      (
        there,
        (
          added,
          (
            is_foreign-false actor device.company_id own,
            validate-recipients is_template dto u valid,
          ),
        ),
      ),
    )
