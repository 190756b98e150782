-- ===== src/Auth/Registration.antt =====
-- src/modules/auth/registration.service.ts. The mail that each step sends changes no row.
use stock_harvesting_backend.Prelude.{
  ℕ, ◌+◌, ◌*◌, String, Option, none, some, ◌&&◌, not, leb, ltb, str_eq, find, if◌then◌else◌,
}
use stock_harvesting_backend.Database.Tables.{update_where, insert_row}
use stock_harvesting_backend.Database.Transactions.{Result, ok, err, Transactions}
use stock_harvesting_backend.Auth.Store.{
  AuthPortal, UserRole, UserPlan, UserRow, RegistrationVerification, AuthDb, AuthError, Hashing,
  role_eq, is_set, is_truthy, unable_to_register, exists_with_password, exists_with_google,
  code_expired, please_wait, invalid_code, too_many_attempts,
}
use stock_harvesting_backend.Auth.Session.{NewToken, create_session}

abbrev pub otp_expiry_ms : ℕ
otp_expiry_ms = 10 * 60 * 1000

abbrev pub otp_resend_cooldown_ms : ℕ
otp_resend_cooldown_ms = 60 * 1000

abbrev pub otp_max_attempts : ℕ
otp_max_attempts = 5

-- The three tests on an account that has the email already.
abbrev pub account_conflict : Option UserRow → Option AuthError
account_conflict none = none
account_conflict (some existing) =
    if role_eq existing.role UserRole.admin
    then some unable_to_register
    else if is_truthy existing.password_hash
    then some exists_with_password
    else some exists_with_google

abbrev pub user_by_email : String → AuthDb → Option UserRow
user_by_email email db = find (λ u. str_eq u.email email) db.users

abbrev pub verification_by_id : String → AuthDb → Option RegistrationVerification
verification_by_id id db = find (λ v. str_eq v.id id) db.verifications

-- `set({ consumedAt: now, updatedAt: now })`
abbrev pub consume : ℕ → RegistrationVerification → RegistrationVerification
consume now v = record v { consumed_at = some now; updated_at = now }

pub record RegistrationRequest : Type 0 where
  pub name : String
  pub email : String
  pub password : String

module _ (hashing : Hashing) where
  -- The transaction that replaces the open verifications of the email by a new one.
  unfoldable pub open_verification :
      ℕ → String → String → String → RegistrationRequest → AuthDb → AuthDb
  open_verification now id code email input db =
      let consumed =
        update_where (λ v. str_eq v.email email && not (is_set v.consumed_at)) (consume now)
          db.verifications in
      record db {
        verifications =
            insert_row
              (record {
                id = id;
                email = email;
                name = input.name;
                password_hash = hashing.hash_password input.password;
                otp_hash = hashing.hash_otp_code code;
                expires_at = now + otp_expiry_ms;
                resend_available_at = now + otp_resend_cooldown_ms;
                attempt_count = 0;
                consumed_at = none;
                updated_at = now;
              })
              consumed;
      }

  unfoldable pub request_user_registration :
      ℕ → String → String → RegistrationRequest → AuthDb → Result AuthError String × AuthDb
  unfolding open_verification
  request_user_registration now id code input db =
      let email = hashing.normalize_email input.email in
      elim (account_conflict (user_by_email email db)) [
        | some e ↦ (err e, db)
        | none ↦ (ok id, open_verification now id code email input db)
      ]

  -- `set` of a new code
  abbrev pub renew_code : ℕ → String → RegistrationVerification → RegistrationVerification
  renew_code now code v = record v {
    otp_hash = hashing.hash_otp_code code;
    attempt_count = 0;
    expires_at = now + otp_expiry_ms;
    resend_available_at = now + otp_resend_cooldown_ms;
    updated_at = now;
  }

  unfoldable pub resend_user_registration_otp :
      ℕ → String → String → AuthDb → Result AuthError String × AuthDb
  resend_user_registration_otp now code id db = elim (verification_by_id id db) [
    | none ↦ (err code_expired, db)
    | some v ↦
        if is_set v.consumed_at
        then (err code_expired, db)
        else if leb v.expires_at now
        then (err code_expired, db)
        else if ltb now v.resend_available_at
        then (err please_wait, db)
        else (
          ok id,
          record db {
            verifications =
                update_where (λ r. str_eq r.id id) (renew_code now code) db.verifications;
          },
        )
  ]

  -- The writes of an accepted code.
  unfoldable pub register_user : ℕ → String → RegistrationVerification → AuthDb → UserRow × AuthDb
  register_user now user_id v db =
      let saved : UserRow = record {
        id = user_id;
        email = v.email;
        name = v.name;
        password_hash = some v.password_hash;
        role = UserRole.user;
        plan = UserPlan.free;
        email_verified_at = some now;
        updated_at = now;
      } in
      (
        saved,
        record db {
          users = insert_row saved db.users;
          verifications = update_where (λ r. str_eq r.id v.id) (consume now) db.verifications;
        },
      )

  -- The body of the transaction for a verification that was found.
  unfoldable pub check_code :
      ℕ → String → String → RegistrationVerification → AuthDb → Result AuthError UserRow × AuthDb
  unfolding register_user
  check_code now user_id code v db =
      if is_set v.consumed_at
      then (err invalid_code, db)
      else if leb v.expires_at now
      then (
        err code_expired,
        record db {
          verifications = update_where (λ r. str_eq r.id v.id) (consume now) db.verifications;
        },
      )
      else if leb otp_max_attempts v.attempt_count
      then (err too_many_attempts, db)
      else if not (str_eq (hashing.hash_otp_code code) v.otp_hash)
      then (
        err invalid_code,
        record db {
          verifications =
              update_where (λ r. str_eq r.id v.id)
                (λ r. record r { attempt_count = v.attempt_count + 1; updated_at = now })
                db.verifications;
        },
      )
      else elim (account_conflict (user_by_email v.email db)) [
        | some e ↦ (err e, db)
        | none ↦ let (saved, db') = register_user now user_id v db in (ok saved, db')
      ]

  unfoldable pub verify_body :
      ℕ → String → String → String → AuthDb → Result AuthError UserRow × AuthDb
  unfolding check_code
  verify_body now user_id id code db = elim (verification_by_id id db) [
    | none ↦ (err invalid_code, db)
    | some v ↦ check_code now user_id code v db
  ]

  -- The session that an accepted code opens, outside the transaction.
  abbrev pub open_session :
      ℕ → NewToken → String → Result AuthError UserRow × AuthDb → Result AuthError UserRow × AuthDb
  open_session now new family_id (ok saved, db) =
      (ok saved, create_session hashing now new family_id saved.id AuthPortal.user db)
  open_session now new family_id (err e, db) = (err e, db)

  unfoldable pub verify_user_registration_otp :
      Transactions AuthDb AuthError UserRow
      → ℕ
      → String
      → NewToken
      → String
      → String
      → String
      → AuthDb
      → Result AuthError UserRow × AuthDb
  unfolding verify_body create_session
  verify_user_registration_otp tx now user_id new family_id id code db =
      open_session now new family_id (tx.run (verify_body now user_id id code) db)
