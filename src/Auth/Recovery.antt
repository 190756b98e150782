-- ===== src/Auth/Recovery.antt =====
-- What a password reset does: src/modules/auth/password-reset.service.ts.
use stock_harvesting_backend.Prelude.{
  ℕ, String, List, [], ◌∷◌, none, some, Bool, false, ◌&&◌, not, str_eq, any, ◌≡◌, refl, sym, subst,
  ◌∙◌, ◌<◌, inl, inr, arith, Bool-cases, Option-cases,
}
use text.Mathlib.TextPositions.{eq_refl}
use stock_harvesting_backend.Database.Tables.{find-update_where, any-update_where, update_where}
use stock_harvesting_backend.Database.Transactions.{ok, err, Transactions, answer-cases}
use stock_harvesting_backend.Auth.Store.{
  UserRow, PasswordResetToken, AuthDb, AuthError, Hashing, is_set, invalid_reset_token,
}
use stock_harvesting_backend.Auth.Session.{revoke}
use stock_harvesting_backend.Auth.Reset.{
  apply_reset, reset_token_by_hash, reset_found, reset_body, reset_password,
}

-- The user's password has the hash.
abbrev pub has_password : String → UserRow → Bool
has_password hash u = elim u.password_hash [ none ↦ false | some h ↦ str_eq h hash ]

module _ (hashing : Hashing) (tx : Transactions AuthDb AuthError (Unit {0})) where
  reset_found-ok :
      (now : ℕ) (password : String) (t : PasswordResetToken) (db db' : AuthDb)
      → reset_found hashing now password t db ≡ (ok tt, db')
      → (t.consumed_at ≡ none)
        × (now < t.expires_at)
        × (db' ≡ apply_reset hashing now password t db)
  unfolding reset_found
  reset_found-ok now password t db db' h = ground arith

  reset_body-ok :
      (now : ℕ) (raw password : String) (db db' : AuthDb)
      → reset_body hashing now raw password db ≡ (ok tt, db')
      → (t : PasswordResetToken) × (reset_token_by_hash hashing
            (hashing.hash_password_reset_token raw)
            db
          ≡ some t)
        × (t.consumed_at ≡ none)
        × (now < t.expires_at)
        × (db' ≡ apply_reset hashing now password t db)
  unfolding reset_body
  reset_body-ok now raw password db db' h =
      elim (Option-cases (reset_token_by_hash hashing (hashing.hash_password_reset_token raw) db)) [
        | inl gone ↦ cc
        | inr (t, found) ↦
            let opened : reset_found hashing now password t db ≡ (ok tt, db') = cc in
            let (unused, early, writes) = reset_found-ok now password t db db' opened in
            (t, found, unused, early, writes)
      ]

  -- The part of `Recovered` on the rows after it.
  abbrev pub Written : ℕ → String → String → AuthDb → PasswordResetToken → Type 0
  Written now raw password db' t =
      (any (λ u. str_eq u.id t.user_id && not (has_password (hashing.hash_password password) u))
          db'.users
        ≡ false)
      × (any (λ r. str_eq r.user_id t.user_id && not (is_set r.revoked_at)) db'.refresh_tokens
          ≡ false)
      × (reset_token_by_hash hashing (hashing.hash_password_reset_token raw) db'
          ≡ some (record t { consumed_at = some now }))

  new_password :
      (now : ℕ) (hash id : String) (users : List UserRow)
      → any
          (λ u. str_eq u.id id && not (has_password hash u))
          (update_where
            (λ u. str_eq u.id id)
            (λ u. record u { password_hash = some hash; updated_at = now })
            users)
        ≡ false
  new_password now hash id [] = refl
  new_password now hash id (u ∷ users) = elim (Bool-cases (str_eq u.id id)) [
    | inl on ↦ rw on (rw on (rw (eq_refl hash) (new_password now hash id users)))
    | inr off ↦ rw off (rw off (new_password now hash id users))
  ]

  apply_reset-writes :
      (now : ℕ) (raw password : String) (t : PasswordResetToken) (db : AuthDb)
      → reset_token_by_hash hashing (hashing.hash_password_reset_token raw) db ≡ some t
      → Written now raw password (apply_reset hashing now password t db) t
  unfolding apply_reset
  apply_reset-writes now raw password t db found =
      let hash = hashing.hash_password_reset_token raw in
      let kept =
        find-update_where (λ r. str_eq r.token_hash hash) (λ r. str_eq r.id t.id)
          (λ r. record r { consumed_at = some now }) db.reset_tokens {r = t} (λ x. refl) found in
      (
        new_password now (hashing.hash_password password) t.user_id db.users,
        any-update_where (λ r. str_eq r.user_id t.user_id && not (is_set r.revoked_at))
            (revoke hashing now) db.refresh_tokens (λ x. ground arith),
        kept ∙ rw (eq_refl t.id) refl,
      )

  reset_body-consumed :
      (now later : ℕ) (raw password : String) (t : PasswordResetToken) (db : AuthDb)
      → reset_token_by_hash hashing (hashing.hash_password_reset_token raw) db
        ≡ some (record t { consumed_at = some now })
      → reset_body hashing later raw password db ≡ (err invalid_reset_token, db)
  unfolding reset_body reset_found
  reset_body-consumed now later raw password t db found = rw (found, reset_body) refl

  -- The token that was used, and the rows after it.
  abbrev pub Recovered : ℕ → String → String → AuthDb → AuthDb → PasswordResetToken → Type 0
  Recovered now raw password db db' t =
      (reset_token_by_hash hashing (hashing.hash_password_reset_token raw) db ≡ some t)
      × (t.consumed_at ≡ none)
      × (now < t.expires_at)
      × Written now raw password db' t

  -- A reset that succeeds used a stored token that was open and had not expired. After it the token's user has
  -- the new password, none of the user's refresh tokens is open, and the token is consumed.
  pub reset_password-ok :
      (now : ℕ) (raw password : String) (db db' : AuthDb)
      → reset_password hashing tx now raw password db ≡ (ok tt, db')
      → (t : PasswordResetToken) × Recovered now raw password db db' t
  unfolding reset_password
  reset_password-ok now raw password db db' h =
      elim (answer-cases (reset_body hashing now raw password db)) [
        | inl (done, s', b) ↦
            let k = tx.commits (reset_body hashing now raw password) db s' done b in
            let (t, found, unused, early, writes) =
              reset_body-ok now raw password db db' (b ∙ (sym k ∙ h)) in
            (
              t,
              (
                found,
                unused,
                early,
                subst (λ d. Written now raw password d t) (sym writes)
                    (apply_reset-writes now raw password t db found),
              ),
            )
        | inr (x, s', b) ↦
            let k = tx.rolls_back (reset_body hashing now raw password) db s' x b in cc
      ]

  -- A token resets once.
  pub reset_password-single_use :
      (now later : ℕ) (raw password password' : String) (db db' : AuthDb)
      → reset_password hashing tx now raw password db ≡ (ok tt, db')
      → reset_password hashing tx later raw password' db' ≡ (err invalid_reset_token, db')
  unfolding reset_password
  reset_password-single_use now later raw password password' db db' h =
      let (t, (found, unused, early, (u, r, after))) =
        reset_password-ok now raw password db db' h in
      tx.rolls_back (reset_body hashing later raw password') db' db' invalid_reset_token
        (reset_body-consumed now later raw password' t db' after)
