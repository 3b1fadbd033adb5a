-- ===== src/Fleet/Commands/Guards.antt =====
-- Who may send what to a device, and what taking a command back undoes.
use fleex.Access.Ownership.{is_foreign}
use fleex.Common.{
  ℕ, ◌+◌, ◌≡◌, refl, ap, ap₂, Bool, true, false, not, ◌&&◌, some, List, [], ◌∷◌, ◌++◌, any, filter,
  ◌==◌, is_id→eq, arith, Bool-cases, inl, inr, ◌⊎◌,
}
use fleex.Common.Results.{
  ok, ◌>>◌, >>=-eq-ok, >>-eq-ok, throw_if-eq-ok, throw_if, or_throw, forbidden, not_found,
}
use fleex.Access.Roles.{Actor, is_super_admin}
use fleex.Fleet.Commands.{
  Device, CommandDto, Store, find_device, is_safe, is_entry, new_command, issue, cancel,
}

abbrev issued : Store → ℕ → Actor → CommandDto → Store
issued db device actor dto = record db {
  commands = new_command db actor device dto ∷ db.commands;
  queue = db.queue ++ ((device, db.next_id) ∷ []);
  next_id = db.next_id + 1;
}

-- What an issue that went through met.
issue-eq-ok :
    (db db' : Store) (device : ℕ) (actor : Actor) (dto : CommandDto)
    → issue db device actor dto ≡ ok db'
    → (dev : Device) × (find_device device db.devices ≡ some dev)
      × (is_foreign actor dev.company_id ≡ false)
      × ((not (is_super_admin actor.role) && dto.raw_text) ≡ false)
      × ((not (is_super_admin actor.role) && not (is_safe dto.type)) ≡ false)
      × (db' ≡ issued db device actor dto)
unfolding issue
issue-eq-ok db db' device actor dto h =
    let (dev, found, h1) = >>=-eq-ok (or_throw (find_device device db.devices) not_found) _ h in
    let own = throw_if (is_foreign actor dev.company_id) forbidden in
    let raw = throw_if (not (is_super_admin actor.role) && dto.raw_text) forbidden in
    let preset = throw_if (not (is_super_admin actor.role) && not (is_safe dto.type)) forbidden in
    let (u, passed, done) = >>=-eq-ok (own >> raw >> preset) _ h1 in
    let (v, two, safe) = >>=-eq-ok (own >> raw) _ passed in
    let (mine, plain) = >>-eq-ok (is_foreign actor dev.company_id) forbidden _ two in
    (
      dev,
      ground (arith, found),
      mine,
      throw_if-eq-ok (not (is_super_admin actor.role) && dto.raw_text) forbidden plain,
      throw_if-eq-ok (not (is_super_admin actor.role) && not (is_safe dto.type)) forbidden safe,
      ground (arith, done),
    )

-- A command that was issued is for a device that is there; its issuer is a super admin, or of the
-- device's company, and then it is a preset one without a text of its own. It is on top of the
-- rows and last in the queue.
issue_effect :
    (db db' : Store) (device : ℕ) (actor : Actor) (dto : CommandDto)
    → issue db device actor dto ≡ ok db'
    → (dev : Device) × ((find_device device db.devices ≡ some dev)
        × (((is_super_admin actor.role ≡ true)
              ⊎ ((actor.company_id ≡ some dev.company_id)
                  × ((dto.raw_text ≡ false) × (is_safe dto.type ≡ true))))
            × ((db'.commands ≡ new_command db actor device dto ∷ db.commands)
                × (db'.queue ≡ db.queue ++ ((device, db.next_id) ∷ [])))))
issue_effect db db' device actor dto h =
    let (dev, found, mine, plain, safe, e) = issue-eq-ok db db' device actor dto h in
    (
      dev,
      (
        found,
        (
          elim (Bool-cases (is_super_admin actor.role)) [
            | inl k ↦ inl k
            | inr k ↦ inr (
              is_id→eq actor.company_id dev.company_id (ground (arith, mine, k)),
              (ground (arith, plain, k), ground (arith, safe, k)),
            )
          ],
          (ap (λ d. d.commands) e, ap (λ d. d.queue) e),
        ),
      ),
    )

filter_all {ℓ} :
    {A : Type ℓ} (p : A → Bool) (xs : List A) → any p xs ≡ false → filter (λ x. not (p x)) xs ≡ xs
filter_all p [] h = refl
filter_all p (x ∷ xs) h = ground (arith, filter_all p xs)

filter_last {ℓ} :
    {A : Type ℓ} (p : A → Bool) (xs : List A) (y : A)
    → any p xs ≡ false
    → p y ≡ true
    → filter (λ x. not (p x)) (xs ++ (y ∷ [])) ≡ xs
filter_last p [] y h k = rw k refl
filter_last p (x ∷ xs) y h k = ground (arith, filter_last p xs y)

-- Whoever issued a command can take it back as long as nothing else happens, and where the queue
-- holds the same text that leaves the commands and the queue as they were.
cancel-issue :
    (db db' : Store) (device : ℕ) (actor : Actor) (dto : CommandDto)
    → issue db device actor dto ≡ ok db'
    → any (λ c. c.id == db.next_id) db.commands ≡ false
    → any (is_entry device db.next_id) db.queue ≡ false
    → cancel true db' device db.next_id actor ≡ ok (record db { next_id = db.next_id + 1 })
unfolding cancel
cancel-issue db db' device actor dto h fresh free =
    let (dev, found, mine, plain, safe, e) = issue-eq-ok db db' device actor dto h in
    let here : (db.next_id == db.next_id) ≡ true = ground arith in
    let there : (device == device) ≡ true = ground arith in
    rw e (
      rw found (
        rw mine (
          rw here (
            rw there (
              ap₂ (λ cs q. ok (record db { commands = cs; queue = q; next_id = db.next_id + 1 }))
                (filter_all (λ c. c.id == db.next_id) db.commands fresh)
                (filter_last (is_entry device db.next_id) db.queue (device, db.next_id) free
                  (ground arith)))))))
