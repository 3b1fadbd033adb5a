-- ===== src/Identity/Login/Lockout.antt =====
-- Wrong passwords, the lock and the reset.
use Prim.Native.String.{String}
use text.Mathlib.Text.{◌==◌ as str_eq}
use mathlib.Core.Path.{subst}
use fleex.Common.{
  ℕ, ◌+◌, ◌*◌, ◌<◌, ◌≡◌, refl, ap, ◌∙◌, Bool, true, false, none, some, List, [], ◌∷◌, ◌==◌, arith,
  length, All, find?-eq-some, find?-update_first, find?-update_other,
}
use fleex.Common.Dates.{day_ms}
use fleex.Common.Results.{ok, err, forbidden}
use fleex.Identity.Store.{
  User, active, Store, locked_user, wrong_password, find_email, find_user, note,
}
use fleex.Identity.Sessions.{issue_token}
use fleex.Identity.Login.{
  fail_threshold, lock_ms, is_locked, failed, succeeded, change_user, Attempt, login_user, login,
}

-- The account of an email: the row that its email and its id both find.
pub record IsAccount (email : String) (u : User) (db : Store) : Type 0 where
  pub by_email : find_email email db.users ≡ some u
  pub by_id : find_user u.id db.users ≡ some u

change_user-IsAccount :
    (email : String) (u : User) (db : Store) (f : User → User)
    → ((v : User) → (f v).email ≡ v.email)
    → ((v : User) → (f v).id ≡ v.id)
    → IsAccount email u db
    → IsAccount email (f u) (change_user u f db)
change_user-IsAccount email u db f same_email same_id a = record {
  by_email =
      find?-update_other (λ v. str_eq v.email email) (λ v. v.id == u.id) f db.users u a.by_email
        a.by_id
        (rw (same_email u) (find?-eq-some (λ v. str_eq v.email email) db.users u a.by_email));
  by_id =
      ap (λ k. find_user k (change_user u f db).users) (same_id u)
      ∙ find?-update_first (λ v. v.id == u.id) f db.users u (λ v h. rw (same_id v) h) a.by_id;
}

failed_email : (now : ℕ) (u : User) → (failed now u).email ≡ u.email
failed_email now u = ground arith

failed_id : (now : ℕ) (u : User) → (failed now u).id ≡ u.id
failed_id now u = ground arith

module _ (verify : ℕ → String → Bool) where
  -- A password that does not fit, for an account that is active and not locked.
  login_wrong :
      (db : Store) (email : String) (a : Attempt) (u : User)
      → IsAccount email u db
      → u.status ≡ active
      → is_locked u.locked_until a.now ≡ false
      → verify u.password_hash a.password ≡ false
      → (login verify db email a).0 ≡ note wrong_password (change_user u (failed a.now) db)
  unfolding login login_user
  login_wrong db email a u account status unlocked wrong =
      rw account.by_email (rw status (rw unlocked (rw wrong)))

  -- A locked account, whatever the password.
  login_locked :
      (db : Store) (email : String) (a : Attempt) (u : User)
      → IsAccount email u db
      → u.status ≡ active
      → is_locked u.locked_until a.now ≡ true
      → login verify db email a ≡ (note locked_user db, err forbidden)
  unfolding login login_user
  login_locked db email a u account status held = rw account.by_email (rw status (rw held))

  wrong-IsAccount :
      (db : Store) (email : String) (a : Attempt) (u : User)
      → IsAccount email u db
      → u.status ≡ active
      → is_locked u.locked_until a.now ≡ false
      → verify u.password_hash a.password ≡ false
      → IsAccount email (failed a.now u) (login verify db email a).0
  wrong-IsAccount db email a u account status unlocked wrong =
      let kept =
        change_user-IsAccount email u db (failed a.now) (failed_email a.now) (failed_id a.now)
          account in
      rw (login_wrong db email a u account status unlocked wrong)
        (record { by_email = kept.by_email; by_id = kept.by_id })

  -- Logins one after the other.
  abbrev pub attempt_all : Store → String → List Attempt → Store
  attempt_all db email [] = db
  attempt_all db email (a ∷ more) = attempt_all (login verify db email a).0 email more

  -- An account that is open to logins, after a number of failures.
  record IsOpen (email : String) (hash failures : ℕ) (db : Store) : Type 0 where
    user : User
    account : IsAccount email user db
    status : user.status ≡ active
    unlocked : user.locked_until ≡ none
    password : user.password_hash ≡ hash
    count : user.failed_logins ≡ failures

  wrong-IsOpen :
      (db : Store) (email : String) (hash failures : ℕ) (a : Attempt)
      → failures + 1 < fail_threshold
      → verify hash a.password ≡ false
      → IsOpen email hash failures db
      → IsOpen email hash (failures + 1) (login verify db email a).0
  wrong-IsOpen db email hash failures a few wrong o =
      let u = o.user in
      record {
        user = failed a.now u;
        account =
            wrong-IsAccount db email a u o.account o.status (rw o.unlocked) (rw o.password wrong);
        status = ground (arith, o.status);
        unlocked = ground (arith, o.unlocked, o.count);
        password = ground (arith, o.password);
        count = ground (arith, o.count);
      }

  attempt_all-IsOpen :
      (db : Store) (email : String) (hash failures total : ℕ) (as' : List Attempt)
      → failures + length as' ≡ total
      → total < fail_threshold
      → All (λ a. verify hash a.password ≡ false) as'
      → IsOpen email hash failures db
      → IsOpen email hash total (attempt_all db email as')
  attempt_all-IsOpen db email hash failures total [] e few wrong o =
      let e' : failures ≡ total = omega arith in subst (λ n. IsOpen email hash n db) e' o
  attempt_all-IsOpen db email hash failures total (a ∷ more) e few (w, ws) o =
      attempt_all-IsOpen (login verify db email a).0 email hash (failures + 1) total more
        (omega arith) few ws (wrong-IsOpen db email hash failures a (omega arith) w o)

  -- Five wrong passwords in a row lock an account that was open with no failures: until fifteen
  -- minutes after the last of them every login is refused, also with the right password, and
  -- changes no user.
  pub lockout :
      (db : Store) (email : String) (u : User) (early : List Attempt) (last later : Attempt)
      → IsAccount email u db
      → u.status ≡ active
      → u.locked_until ≡ none
      → u.failed_logins ≡ 0
      → length early ≡ 4
      → All (λ a. verify u.password_hash a.password ≡ false) early
      → verify u.password_hash last.password ≡ false
      → later.now < last.now + lock_ms
      → let db' = (login verify (attempt_all db email early) email last).0 in
        login verify db' email later ≡ (note locked_user db', err forbidden)
  lockout db email u early last later account status unlocked fresh four wrong last_wrong soon =
      let o =
        attempt_all-IsOpen db email u.password_hash 0 4 early (omega arith) (omega arith) wrong
          (record {
            user = u;
            account = account;
            status = status;
            unlocked = unlocked;
            password = refl;
            count = fresh;
          }) in
      let v = o.user in
      let after =
        wrong-IsAccount (attempt_all db email early) email last v o.account o.status (rw o.unlocked)
          (rw o.password last_wrong) in
      let held : is_locked (failed last.now v).locked_until later.now ≡ true =
        ground (arith, o.count, soon) in
      login_locked (login verify (attempt_all db email early) email last).0 email later
        (failed last.now v) after (ground (arith, o.status)) held

  -- A login of an open account with the right password returns the new refresh token, clears the
  -- failures and the lock, and stores one row for that token that is live for the given days.
  login_success :
      (db : Store) (email : String) (a : Attempt) (u : User)
      → IsAccount email u db
      → u.status ≡ active
      → is_locked u.locked_until a.now ≡ false
      → verify u.password_hash a.password ≡ true
      → let r = login verify db email a in
        (r.1 ≡ ok a.fresh)
        × IsAccount email (succeeded a.now u) r.0
        × (r.0.tokens
            ≡ record {
              user_id = u.id;
              token_hash = a.fresh;
              revoked_at = none;
              expires_at = a.now + a.days * day_ms;
            }
              ∷ db.tokens)
  unfolding login login_user issue_token
  login_success db email a u account status unlocked right =
      let kept =
        change_user-IsAccount email u db (succeeded a.now) (λ v. refl) (λ v. refl) account in
      rw account.by_email (
        rw status (
          rw unlocked
            (rw right (refl, record { by_email = kept.by_email; by_id = kept.by_id }, refl))))
