-- ===== src/Auth/Rotation.antt =====
-- What a refresh token protects: src/modules/auth/session.service.ts.
use stock_harvesting_backend.Prelude.{
  ℕ, ◌+◌, String, List, [], ◌∷◌, ◌++◌, Option, none, some, true, false, not, ◌&&◌, ◌||◌, str_eq,
  find, map, All, if◌then◌else◌, ◌≡◌, refl, sym, ap, subst, ◌∙◌, ◌≤◌, ◌<◌, ◌⊎◌, ◌↔◌, inl, inr,
  arith, Option-cases, Bool-cases,
}
use text.Mathlib.TextPositions.{eq_refl}
use stock_harvesting_backend.Database.Tables.{
  find-update_where, find-insert_row, find-holds, insert_row, update_where, update_where-map,
}
use stock_harvesting_backend.Database.Transactions.{ok, err, Transactions, answer-cases}
use stock_harvesting_backend.Auth.Store.{
  AuthPortal, UserRole, UserRow, RefreshToken, AuthDb, AuthError, Hashing, portal_eq, is_set,
  invalid_refresh_token, reuse_detected, refresh_token_expired, user_no_longer_exists,
}
use stock_harvesting_backend.Auth.Session.{
  NewToken, token_by_hash, token_row, replace_token, rotate_found, rotate_body,
  rotate_refresh_token, revoke_family, revoke_refresh_token, revoke, allowed,
  evaluate_portal_access,
}

-- An account may use a portal exactly if it is an admin on the admins' or a user on the users'.
pub evaluate_portal_access_iff :
    (role : UserRole) (portal : AuthPortal)
    → (evaluate_portal_access role portal ≡ allowed) ↔ (
        ((role ≡ UserRole.admin) × (portal ≡ AuthPortal.admin))
        ⊎ ((role ≡ UserRole.user) × (portal ≡ AuthPortal.user)))
unfolding evaluate_portal_access
evaluate_portal_access_iff UserRole.user AuthPortal.user = ground arith
evaluate_portal_access_iff UserRole.user AuthPortal.admin = ground arith
evaluate_portal_access_iff UserRole.admin AuthPortal.user = ground arith
evaluate_portal_access_iff UserRole.admin AuthPortal.admin = ground arith

portal_eq_refl : (p : AuthPortal) → portal_eq p p ≡ true
portal_eq_refl AuthPortal.user = refl
portal_eq_refl AuthPortal.admin = refl

portal_eq_sound : (p q : AuthPortal) → portal_eq p q ≡ true → p ≡ q
portal_eq_sound AuthPortal.user AuthPortal.user h = refl
portal_eq_sound AuthPortal.user AuthPortal.admin h = cc
portal_eq_sound AuthPortal.admin AuthPortal.user h = cc
portal_eq_sound AuthPortal.admin AuthPortal.admin h = refl

module _ (hashing : Hashing) (tx : Transactions AuthDb AuthError UserRow) where
  -- The next token of a family, and the token that it replaces, as they are stored.
  abbrev next_of : ℕ → NewToken → RefreshToken → UserRow → AuthPortal → RefreshToken
  next_of now new t user portal = record {
    id = new.id;
    user_id = user.id;
    token_hash = hashing.hash_refresh_token new.raw;
    family_id = t.family_id;
    portal = portal;
    expires_at = now + new.ttl_ms;
    revoked_at = none;
    replaced_by_token_id = none;
  }

  abbrev as_replaced : ℕ → NewToken → RefreshToken → RefreshToken → RefreshToken
  as_replaced now new t r =
      if str_eq r.id t.id
      then record r { revoked_at = some now; replaced_by_token_id = some new.id }
      else r

  -- What a rotation that succeeds says of the token and of the database after it.
  abbrev pub Rotated :
      ℕ → NewToken → String → AuthPortal → AuthDb → UserRow → AuthDb → RefreshToken → Type 0
  Rotated now new raw portal db user db' t =
      (token_by_hash hashing (hashing.hash_refresh_token raw) db ≡ some t)
      × (t.portal ≡ portal)
      × (t.revoked_at ≡ none)
      × (now ≤ t.expires_at)
      × (find (λ u. str_eq u.id t.user_id) db.users ≡ some user)
      × (db' ≡ record db {
        refresh_tokens =
            map (as_replaced now new t) (db.refresh_tokens ++ next_of now new t user portal ∷ []);
      })

  replace_token-rows :
      (now : ℕ) (new : NewToken) (t : RefreshToken) (user : UserRow) (portal : AuthPortal)
      (db : AuthDb)
      → replace_token hashing now new t user portal db ≡ record db {
        refresh_tokens =
            map (as_replaced now new t) (db.refresh_tokens ++ next_of now new t user portal ∷ []);
      }
  unfolding replace_token
  replace_token-rows now new t user portal db =
      ap (λ (rows : List RefreshToken). record db { refresh_tokens = rows })
        (update_where-map (λ r. str_eq r.id t.id)
          (λ r. record r { revoked_at = some now; replaced_by_token_id = some new.id })
          (insert_row (next_of now new t user portal) db.refresh_tokens))

  rotate_found-ok :
      (now : ℕ) (new : NewToken) (t : RefreshToken) (portal : AuthPortal) (db db' : AuthDb)
      (user : UserRow)
      → rotate_found hashing now new t portal db ≡ (ok user, db')
      → (portal_eq t.portal portal ≡ true)
        × (t.revoked_at ≡ none)
        × (now ≤ t.expires_at)
        × (find (λ u. str_eq u.id t.user_id) db.users ≡ some user)
        × (db' ≡ replace_token hashing now new t user portal db)
  unfolding rotate_found
  rotate_found-ok now new t portal db db' user h = ground arith

  rotate_body-ok :
      (now : ℕ) (new : NewToken) (raw : String) (portal : AuthPortal) (db db' : AuthDb)
      (user : UserRow)
      → rotate_body hashing now new raw portal db ≡ (ok user, db')
      → (t : RefreshToken) × (token_by_hash hashing (hashing.hash_refresh_token raw) db ≡ some t)
        × (rotate_found hashing now new t portal db ≡ (ok user, db'))
  unfolding rotate_body
  rotate_body-ok now new raw portal db db' user h =
      elim (Option-cases (token_by_hash hashing (hashing.hash_refresh_token raw) db)) [
        | inl gone ↦ cc
        | inr (t, found) ↦ (t, found, cc)
      ]

  -- A token is rotated only if it is stored for the portal, unrevoked and not past its expiry, and its user still
  -- exists; the tokens are then those before it and an open one of its family, user and portal, with the row of the
  -- rotated one revoked and pointing to its successor, and nothing else of the database changes.
  pub rotate_refresh_token-ok :
      (now : ℕ) (new : NewToken) (raw : String) (portal : AuthPortal) (db db' : AuthDb)
      (user : UserRow)
      → rotate_refresh_token hashing tx now new raw portal db ≡ (ok user, db')
      → (t : RefreshToken) × Rotated now new raw portal db user db' t
  unfolding rotate_refresh_token
  rotate_refresh_token-ok now new raw portal db db' user h =
      elim (answer-cases (rotate_body hashing now new raw portal db)) [
        | inl (a, s', b) ↦
            let k = tx.commits (rotate_body hashing now new raw portal) db s' a b in
            let same : (ok a, s') ≡ (ok user, db') = sym k ∙ h in
            let (t, found, g) = rotate_body-ok now new raw portal db db' user (b ∙ same) in
            let (p, fresh, early, owner, writes) = rotate_found-ok now new t portal db db' user g in
            let rows = writes ∙ replace_token-rows now new t user portal db in
            (t, (found, portal_eq_sound t.portal portal p, fresh, early, owner, rows))
        | inr (x, s', b) ↦
            let k = tx.rolls_back (rotate_body hashing now new raw portal) db s' x b in cc
      ]

  -- No token of the family is left open.
  abbrev pub IsFamilyRevoked : String → AuthDb → Type 0
  IsFamilyRevoked family db =
      All (λ r. (not (str_eq r.family_id family) || is_set r.revoked_at) ≡ true) db.refresh_tokens

  revoke_family-IsFamilyRevoked :
      (now : ℕ) (t : RefreshToken) (db : AuthDb)
      → IsFamilyRevoked t.family_id (revoke_family hashing now t db)
  revoke_family-IsFamilyRevoked now t db = by_rows db.refresh_tokens
    where
      by_rows :
          (rows : List RefreshToken)
          → All
              (λ r. (not (str_eq r.family_id t.family_id) || is_set r.revoked_at) ≡ true)
              (update_where
                (λ r. str_eq r.family_id t.family_id && not (is_set r.revoked_at))
                (revoke hashing now)
                rows)
      by_rows [] = tt
      by_rows (r ∷ rows) = (
        elim (Bool-cases (str_eq r.family_id t.family_id && not (is_set r.revoked_at))) [
          | inl open_token ↦ rw open_token (ground arith)
          | inr other ↦ rw other (ground arith)
        ],
        by_rows rows,
      )

  -- What each error of a rotation says of the token, and for a reuse also of what the body wrote.
  abbrev pub TokenRefused : ℕ → RefreshToken → AuthPortal → AuthDb → AuthDb → AuthError → Type 0
  TokenRefused now t portal db written e =
      ((e ≡ invalid_refresh_token) × (portal_eq t.portal portal ≡ false))
      ⊎ (((e ≡ reuse_detected)
            × (portal_eq t.portal portal ≡ true)
            × (is_set t.revoked_at ≡ true)
            × IsFamilyRevoked t.family_id written)
          ⊎ (((e ≡ refresh_token_expired) × (t.revoked_at ≡ none) × (t.expires_at < now))
              ⊎ ((e ≡ user_no_longer_exists)
                  × (find (λ u. str_eq u.id t.user_id) db.users ≡ none))))

  abbrev pub Refused :
      ℕ → String → AuthPortal → AuthDb → AuthDb → AuthError → Option RefreshToken → Type 0
  Refused now raw portal db written e none = e ≡ invalid_refresh_token
  Refused now raw portal db written e (some t) = TokenRefused now t portal db written e

  rotate_found-err :
      (now : ℕ) (new : NewToken) (t : RefreshToken) (portal : AuthPortal) (db db' : AuthDb)
      (e : AuthError)
      → rotate_found hashing now new t portal db ≡ (err e, db')
      → ((e ≡ invalid_refresh_token) × (portal_eq t.portal portal ≡ false))
        ⊎ (((e ≡ reuse_detected)
              × (portal_eq t.portal portal ≡ true)
              × (is_set t.revoked_at ≡ true)
              × (revoke_family hashing now t db ≡ db'))
            ⊎ (((e ≡ refresh_token_expired) × (t.revoked_at ≡ none) × (t.expires_at < now))
                ⊎ ((e ≡ user_no_longer_exists)
                    × (find (λ u. str_eq u.id t.user_id) db.users ≡ none))))
  unfolding rotate_found
  rotate_found-err now new t portal db db' e h = ground arith

  rotate_found-TokenRefused :
      (now : ℕ) (new : NewToken) (t : RefreshToken) (portal : AuthPortal) (db db' : AuthDb)
      (e : AuthError)
      → rotate_found hashing now new t portal db ≡ (err e, db')
      → TokenRefused now t portal db db' e
  rotate_found-TokenRefused now new t portal db db' e h =
      elim (rotate_found-err now new t portal db db' e h) [
        | inl wrong ↦ inl wrong
        | inr (inl (a, p, revoked, writes)) ↦ inr (
            inl (
              a,
              p,
              revoked,
              subst (IsFamilyRevoked t.family_id) writes (revoke_family-IsFamilyRevoked now t db),
            ))
        | inr (inr other) ↦ inr (inr other)
      ]

  rotate_body-Refused :
      (now : ℕ) (new : NewToken) (raw : String) (portal : AuthPortal) (db db' : AuthDb)
      (e : AuthError)
      → rotate_body hashing now new raw portal db ≡ (err e, db')
      → Refused now raw portal db db' e (token_by_hash hashing (hashing.hash_refresh_token raw) db)
  unfolding rotate_body
  rotate_body-Refused now new raw portal db db' e h =
      elim (Option-cases (token_by_hash hashing (hashing.hash_refresh_token raw) db)) [
        | inl gone ↦ rw gone cc
        | inr (t, found) ↦ rw found (rotate_found-TokenRefused now new t portal db db' e cc)
      ]

  -- A rotation that answers with an error leaves the database as it was, and the error tells why: no token of the
  -- portal, a revoked one, an expired one, or no user. For a revoked one the body of the transaction had left no
  -- token of its family open, and that is undone too.
  pub rotate_refresh_token-err :
      (now : ℕ) (new : NewToken) (raw : String) (portal : AuthPortal) (db db' : AuthDb)
      (e : AuthError)
      → rotate_refresh_token hashing tx now new raw portal db ≡ (err e, db')
      → (db' ≡ db)
        × Refused now raw portal db
            (rotate_body hashing now new raw portal db).1
            e
            (token_by_hash hashing (hashing.hash_refresh_token raw) db)
  unfolding rotate_refresh_token
  rotate_refresh_token-err now new raw portal db db' e h =
      elim (answer-cases (rotate_body hashing now new raw portal db)) [
        | inl (a, s', b) ↦
            let k = tx.commits (rotate_body hashing now new raw portal) db s' a b in cc
        | inr (x, s', b) ↦
            let k = tx.rolls_back (rotate_body hashing now new raw portal) db s' x b in
            let same : x ≡ e = cc in
            let written : (rotate_body hashing now new raw portal db).1 ≡ s' = ap (λ r. r.1) b in
            (
              ap (λ r. r.1) (sym h ∙ k),
              rw written
                  (rotate_body-Refused now new raw portal db s' e (b ∙ ap (λ y. (err y, s')) same)),
            )
      ]

  -- A token that was replaced is found revoked.
  replaced-found :
      (now : ℕ) (new : NewToken) (hash : String) (t : RefreshToken) (user : UserRow)
      (portal : AuthPortal) (db : AuthDb)
      → token_by_hash hashing hash db ≡ some t
      → token_by_hash hashing hash (replace_token hashing now new t user portal db)
        ≡ some (record t { revoked_at = some now; replaced_by_token_id = some new.id })
  unfolding replace_token
  replaced-found now new hash t user portal db found =
      let row = token_row hashing now new user.id t.family_id portal in
      let inserted =
        find-insert_row (λ r. str_eq r.token_hash hash) db.refresh_tokens row {r = t} found in
      let kept =
        find-update_where (λ r. str_eq r.token_hash hash) (λ r. str_eq r.id t.id)
          (λ r. record r { revoked_at = some now; replaced_by_token_id = some new.id })
          (insert_row row db.refresh_tokens) {r = t} (λ x. refl) inserted in
      kept ∙ rw (eq_refl t.id) refl

  rotate_body-revoked :
      (now at : ℕ) (new : NewToken) (raw : String) (portal : AuthPortal) (t : RefreshToken)
      (db : AuthDb)
      → token_by_hash hashing (hashing.hash_refresh_token raw) db ≡ some t
      → t.revoked_at ≡ some at
      → portal_eq t.portal portal ≡ true
      → rotate_body hashing now new raw portal db
        ≡ (err reuse_detected, revoke_family hashing now t db)
  unfolding rotate_body rotate_found
  rotate_body-revoked now at new raw portal t db found revoked p =
      rw (found, rotate_body) (rw (p, revoked) refl)

  -- A revoked token of the portal is refused as a reuse.
  rotate-revoked :
      (now at : ℕ) (new : NewToken) (raw : String) (portal : AuthPortal) (t : RefreshToken)
      (db : AuthDb)
      → token_by_hash hashing (hashing.hash_refresh_token raw) db ≡ some t
      → t.revoked_at ≡ some at
      → t.portal ≡ portal
      → rotate_refresh_token hashing tx now new raw portal db ≡ (err reuse_detected, db)
  unfolding rotate_refresh_token
  rotate-revoked now at new raw portal t db found revoked same =
      let p : portal_eq t.portal portal ≡ true = rw same (portal_eq_refl portal) in
      let body = rotate_body-revoked now at new raw portal t db found revoked p in
      tx.rolls_back (rotate_body hashing now new raw portal) db (revoke_family hashing now t db)
        reuse_detected body

  -- A token rotates once: presenting it again for its portal is reported as a reuse.
  pub rotate_refresh_token-reuse :
      (now later : ℕ) (new new' : NewToken) (raw : String) (portal : AuthPortal) (db db' : AuthDb)
      (user : UserRow)
      → rotate_refresh_token hashing tx now new raw portal db ≡ (ok user, db')
      → rotate_refresh_token hashing tx later new' raw portal db' ≡ (err reuse_detected, db')
  rotate_refresh_token-reuse now later new new' raw portal db db' user h =
      let (t, (found, same, fresh, early, owner, writes)) =
        rotate_refresh_token-ok now new raw portal db db' user h in
      let after = replaced-found now new (hashing.hash_refresh_token raw) t user portal db found in
      let written = writes ∙ sym (replace_token-rows now new t user portal db) in
      let here = ap (token_by_hash hashing (hashing.hash_refresh_token raw)) written ∙ after in
      rotate-revoked later now new' raw portal
        (record t { revoked_at = some now; replaced_by_token_id = some new.id }) db' here refl same

  -- A token that was revoked by a logout is refused by the portal, whichever token was meant to follow it.
  pub revoke_refresh_token-rotate :
      (now later : ℕ) (new : NewToken) (raw : String) (portal : AuthPortal) (t : RefreshToken)
      (db : AuthDb)
      → token_by_hash hashing (hashing.hash_refresh_token raw) db ≡ some t
      → t.portal ≡ portal
      → rotate_refresh_token hashing tx later new raw portal
          (revoke_refresh_token hashing now raw portal db)
        ≡ (err reuse_detected, revoke_refresh_token hashing now raw portal db)
  unfolding revoke_refresh_token
  revoke_refresh_token-rotate now later new raw portal t db found same =
      let hash = hashing.hash_refresh_token raw in
      let kept =
        find-update_where (λ r. str_eq r.token_hash hash)
          (λ r. str_eq r.token_hash hash && portal_eq r.portal portal) (revoke hashing now)
          db.refresh_tokens {r = t} (λ x. refl) found in
      let hit : str_eq t.token_hash hash ≡ true =
        find-holds (λ r. str_eq r.token_hash hash) db.refresh_tokens {r = t} found in
      let p : portal_eq t.portal portal ≡ true = rw same (portal_eq_refl portal) in
      rotate-revoked later now new raw portal (revoke hashing now t)
        (revoke_refresh_token hashing now raw portal db) (kept ∙ rw (hit, p) refl) refl same
