-- ===== src/Auth/Reset.antt =====
-- src/modules/auth/password-reset.service.ts. The mail that carries the token changes no row.
use stock_harvesting_backend.Prelude.{
  ℕ, ◌+◌, ◌*◌, String, Option, none, some, ◌&&◌, ◌||◌, not, leb, str_eq, find, if◌then◌else◌,
}
use stock_harvesting_backend.Database.Tables.{update_where, insert_row}
use stock_harvesting_backend.Database.Transactions.{Result, ok, err, Transactions}
use stock_harvesting_backend.Auth.Store.{
  PasswordResetToken, AuthDb, AuthError, Hashing, is_set, is_truthy, invalid_reset_token,
}
use stock_harvesting_backend.Auth.Session.{revoke}

abbrev pub password_reset_token_expiry_ms : ℕ
password_reset_token_expiry_ms = 30 * 60 * 1000

module _ (hashing : Hashing) where
  -- The user's row gets a token only where a password is set; the answer is the same in every case.
  unfoldable pub request_password_reset : ℕ → String → String → String → AuthDb → AuthDb
  request_password_reset now id raw_token email db =
      elim (find (λ u. str_eq u.email (hashing.normalize_email email)) db.users) [
        | none ↦ db
        | some user ↦
            if is_truthy user.password_hash
            then record db {
              reset_tokens =
                  insert_row
                    (record {
                      id = id;
                      user_id = user.id;
                      token_hash = hashing.hash_password_reset_token raw_token;
                      expires_at = now + password_reset_token_expiry_ms;
                      consumed_at = none;
                    })
                    db.reset_tokens;
            }
            else db
      ]

  -- The writes for a valid token: the password, the token's use, the user's sessions.
  unfoldable pub apply_reset : ℕ → String → PasswordResetToken → AuthDb → AuthDb
  apply_reset now password token db = record db {
    users =
        update_where (λ u. str_eq u.id token.user_id)
          (λ u. record u {
            password_hash = some (hashing.hash_password password);
            updated_at = now;
          })
          db.users;
    reset_tokens =
        update_where (λ t. str_eq t.id token.id) (λ t. record t { consumed_at = some now })
          db.reset_tokens;
    refresh_tokens =
        update_where (λ t. str_eq t.user_id token.user_id && not (is_set t.revoked_at))
          (revoke hashing now) db.refresh_tokens;
  }

  -- The body of the transaction for a token that was found.
  unfoldable pub reset_found :
      ℕ → String → PasswordResetToken → AuthDb → Result AuthError (Unit {0}) × AuthDb
  reset_found now password reset db =
      if is_set reset.consumed_at || leb reset.expires_at now
      then (err invalid_reset_token, db)
      else (ok tt, apply_reset now password reset db)

  abbrev pub reset_token_by_hash : String → AuthDb → Option PasswordResetToken
  reset_token_by_hash hash db = find (λ t. str_eq t.token_hash hash) db.reset_tokens

  unfoldable pub reset_body : ℕ → String → String → AuthDb → Result AuthError (Unit {0}) × AuthDb
  unfolding reset_found
  reset_body now token password db =
      elim (reset_token_by_hash (hashing.hash_password_reset_token token) db) [
        | none ↦ (err invalid_reset_token, db)
        | some reset ↦ reset_found now password reset db
      ]

  unfoldable pub reset_password :
      Transactions AuthDb AuthError (Unit {0})
      → ℕ
      → String
      → String
      → AuthDb
      → Result AuthError (Unit {0}) × AuthDb
  unfolding reset_body
  reset_password tx now token password db = tx.run (reset_body now token password) db
