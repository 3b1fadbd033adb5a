-- ===== src/Identity/Users/Passwords.antt =====
-- What setting a password does to the ladder and to the sessions.
use mathlib.Core.Path.{subst}
use fleex.Common.{
  ◌≢◌, ℕ, ◌≤◌, ◌≡◌, refl, Bool, true, false, not, ◌&&◌, none, some, List, ◌==◌, arith, leb,
  update_first, inl, inr, find?-update_first, same_id, same_id_refl, ◌⊎◌, All,
}
use fleex.Common.Results.{ok, err, forbidden, or_throw, >>=-eq-ok, >>-eq-ok}
use fleex.Access.Roles.{Actor, is_super_admin, rank}
use fleex.Identity.Store.{User, UserStatus, active, Store, find_user}
use fleex.Identity.Sessions.{revoke_family, is_live}
use fleex.Identity.Sessions.Rotation.{revoke_family-All}
use fleex.Identity.Users.{update_user, reset_user, reset_password, change_own_password}

-- For a user of the actor's company at or above the actor's rank, setting any status is refused to
-- an actor who is not a super admin. A password reset goes through: the user then has the password
-- of the actor's choice, is ACTIVE, is not locked and has no failed logins, and is otherwise as
-- before.
pub reset_passes_ladder :
    (db : Store) (drivers : List (ℕ × ℕ)) (actor : Actor) (target : User) (now id hash : ℕ)
    (wanted : UserStatus)
    → find_user id db.users ≡ some target
    → is_super_admin actor.role ≡ false
    → actor.company_id ≡ target.company_id
    → rank actor.role ≤ rank target.role
    → (update_user db drivers actor id
          (record { role = none; status = some wanted; driver_id = none })
        ≡ err forbidden)
      × ((db' : Store) × (reset_password db actor now id hash ≡ ok db')
          × (find_user id db'.users
              ≡ some (record target {
                password_hash = hash;
                failed_logins = 0;
                locked_until = none;
                status = active;
              })))
unfolding update_user reset_password
reset_passes_ladder db drivers actor target now id hash wanted found plain tenant high =
    let t = same_id_refl target.company_id in
    let h : leb (rank actor.role) (rank target.role) ≡ true = ground arith in
    rw found (
      rw tenant (
        rw plain (
          rw t (
            rw h (
              ground arith,
              (
                record db {
                  users = update_first (λ u. u.id == id) (reset_user hash) db.users;
                  tokens = revoke_family now id db.tokens;
                },
                refl,
                find?-update_first (λ (u : User). u.id == id) (reset_user hash) db.users target
                    (λ x e. e) found,
              ),
            )))))

-- After a password reset, or a change of password that goes through, the user has no live refresh
-- token.
password_ends_sessions :
    (db db' : Store) (actor : Actor) (now id hash : ℕ) (fits : Bool)
    → (reset_password db actor now id hash ≡ ok db')
      ⊎ (change_own_password db now id fits hash ≡ ok db')
    → All (λ t. (t.user_id ≢ id) ⊎ (is_live t.revoked_at ≡ false)) db'.tokens
unfolding reset_password change_own_password
password_ends_sessions db db' actor now id hash fits h =
    let e : revoke_family now id db.tokens ≡ db'.tokens = elim h [
      | inl r ↦ of_reset r
      | inr c ↦ of_change c
    ] in
    subst (All (λ t. (t.user_id ≢ id) ⊎ (is_live t.revoked_at ≡ false))) e
      (revoke_family-All now id db.tokens)
  where
    of_reset :
        reset_password db actor now id hash ≡ ok db' → revoke_family now id db.tokens ≡ db'.tokens
    of_reset r =
        let (u, _, r₁) = >>=-eq-ok (or_throw (find_user id db.users) _) _ r in
        let (_, r₂) =
          >>-eq-ok (not (is_super_admin actor.role) && not (same_id actor.company_id u.company_id))
            _ _ r₁ in
        ground arith

    of_change :
        change_own_password db now id fits hash ≡ ok db'
        → revoke_family now id db.tokens ≡ db'.tokens
    of_change c =
        let (u, _, c₁) = >>=-eq-ok (or_throw (find_user id db.users) _) _ c in
        let (_, c₂) = >>-eq-ok (not fits) _ _ c₁ in ground arith
