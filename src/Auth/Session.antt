-- ===== src/Auth/Session.antt =====
-- src/modules/auth/session.service.ts and src/modules/auth/password-auth.service.ts. The signed access
-- token is a value of its payload and changes no row, so it is left out.
use stock_harvesting_backend.Prelude.{
  ℕ, ◌+◌, String, Option, none, some, Bool, ◌&&◌, not, ltb, str_eq, find, if◌then◌else◌,
}
use stock_harvesting_backend.Database.Tables.{update_where, insert_row}
use stock_harvesting_backend.Database.Transactions.{Result, ok, err, Transactions}
use stock_harvesting_backend.Auth.Store.{
  UserRole, AuthPortal, UserRow, RefreshToken, AuthDb, AuthError, Hashing, role_eq, portal_eq,
  is_set, invalid_refresh_token, reuse_detected, refresh_token_expired, user_no_longer_exists,
  invalid_credentials,
}

pub data PortalAccessResult : Type 0 where
  allowed admin_account_on_user_portal not_admin_on_admin_portal : PortalAccessResult

unfoldable pub evaluate_portal_access : UserRole → AuthPortal → PortalAccessResult
evaluate_portal_access role portal =
    if portal_eq portal AuthPortal.admin && not (role_eq role UserRole.admin)
    then not_admin_on_admin_portal
    else if portal_eq portal AuthPortal.user && role_eq role UserRole.admin
    then admin_account_on_user_portal
    else allowed

-- What a new refresh token takes from outside: the row's id, the random token, the time to live.
pub record NewToken : Type 0 where
  pub id : String
  pub raw : String
  pub ttl_ms : ℕ

module _ (hashing : Hashing) where
  abbrev pub token_row : ℕ → NewToken → String → String → AuthPortal → RefreshToken
  token_row now new user_id family_id portal = record {
    id = new.id;
    user_id = user_id;
    token_hash = hashing.hash_refresh_token new.raw;
    family_id = family_id;
    portal = portal;
    expires_at = now + new.ttl_ms;
    revoked_at = none;
    replaced_by_token_id = none;
  }

  unfoldable pub create_session : ℕ → NewToken → String → String → AuthPortal → AuthDb → AuthDb
  create_session now new family_id user_id portal db = record db {
    refresh_tokens = insert_row (token_row now new user_id family_id portal) db.refresh_tokens;
  }

  abbrev pub token_by_hash : String → AuthDb → Option RefreshToken
  token_by_hash hash db = find (λ t. str_eq t.token_hash hash) db.refresh_tokens

  abbrev pub revoke : ℕ → RefreshToken → RefreshToken
  revoke now t = record t { revoked_at = some now }

  -- The writes of an accepted token: the next token of its family, and its own revocation.
  unfoldable pub replace_token :
      ℕ → NewToken → RefreshToken → UserRow → AuthPortal → AuthDb → AuthDb
  replace_token now new existing user portal db = record db {
    refresh_tokens =
        update_where (λ t. str_eq t.id existing.id)
          (λ t. record t { revoked_at = some now; replaced_by_token_id = some new.id })
          (insert_row (token_row now new user.id existing.family_id portal) db.refresh_tokens);
  }

  -- The revocation of every open token of the family.
  abbrev pub revoke_family : ℕ → RefreshToken → AuthDb → AuthDb
  revoke_family now existing db = record db {
    refresh_tokens =
        update_where (λ t. str_eq t.family_id existing.family_id && not (is_set t.revoked_at))
          (revoke now) db.refresh_tokens;
  }

  -- The body of the transaction for a token that was found.
  unfoldable pub rotate_found :
      ℕ → NewToken → RefreshToken → AuthPortal → AuthDb → Result AuthError UserRow × AuthDb
  unfolding replace_token
  rotate_found now new existing portal db =
      if not (portal_eq existing.portal portal)
      then (err invalid_refresh_token, db)
      else if is_set existing.revoked_at
      then (err reuse_detected, revoke_family now existing db)
      else if ltb existing.expires_at now
      then (err refresh_token_expired, db)
      else elim (find (λ u. str_eq u.id existing.user_id) db.users) [
        | none ↦ (err user_no_longer_exists, db)
        | some user ↦ (ok user, replace_token now new existing user portal db)
      ]

  unfoldable pub rotate_body :
      ℕ → NewToken → String → AuthPortal → AuthDb → Result AuthError UserRow × AuthDb
  unfolding rotate_found
  rotate_body now new raw portal db = elim (token_by_hash (hashing.hash_refresh_token raw) db) [
    | none ↦ (err invalid_refresh_token, db)
    | some existing ↦ rotate_found now new existing portal db
  ]

  unfoldable pub rotate_refresh_token :
      Transactions AuthDb AuthError UserRow
      → ℕ
      → NewToken
      → String
      → AuthPortal
      → AuthDb
      → Result AuthError UserRow × AuthDb
  unfolding rotate_body
  rotate_refresh_token tx now new raw portal db = tx.run (rotate_body now new raw portal) db

  unfoldable pub revoke_refresh_token : ℕ → String → AuthPortal → AuthDb → AuthDb
  revoke_refresh_token now raw portal db = record db {
    refresh_tokens =
        update_where
          (λ t. str_eq t.token_hash (hashing.hash_refresh_token raw) && portal_eq t.portal portal)
          (revoke now) db.refresh_tokens;
  }

  -- `loginWithPassword`; `verify_password` compares a password with a nullable hash.
  unfoldable pub login_with_password :
      (String → Option String → Bool)
      → ℕ
      → NewToken
      → String
      → String
      → String
      → AuthPortal
      → AuthDb
      → Result AuthError UserRow × AuthDb
  unfolding create_session evaluate_portal_access
  login_with_password verify_password now new family_id email password portal db =
      elim (find (λ u. str_eq u.email (hashing.normalize_email email)) db.users) [
        | none ↦ (err invalid_credentials, db)
        | some user ↦
            if not (verify_password password user.password_hash)
            then (err invalid_credentials, db)
            else elim (evaluate_portal_access user.role portal) [
              | allowed ↦ (ok user, create_session now new family_id user.id portal db)
              | _ ↦ (err invalid_credentials, db)
            ]
      ]
