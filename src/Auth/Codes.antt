-- ===== src/Auth/Codes.antt =====
-- What a registration code protects: src/modules/auth/registration.service.ts.
use stock_harvesting_backend.Prelude.{
  ℕ, String, List, [], ◌∷◌, Option, none, some, true, false, str_eq, find, ◌≡◌, refl, sym, ap, ◌∙◌,
  ◌<◌, inl, inr, All, arith, Option-cases,
}
use text.Mathlib.TextPositions.{eq_refl}
use stock_harvesting_backend.Database.Tables.{find-update_where}
use stock_harvesting_backend.Database.Transactions.{ok, err, Transactions, answer-cases}
use stock_harvesting_backend.Auth.Store.{
  AuthPortal, UserRow, RegistrationVerification, AuthDb, AuthError, Hashing, invalid_code,
}
use stock_harvesting_backend.Auth.Session.{NewToken, create_session}
use stock_harvesting_backend.Auth.Registration.{
  verification_by_id, user_by_email, account_conflict, check_code, verify_body, register_user,
  verify_user_registration_otp, consume, open_session, otp_max_attempts,
}

-- One guess: when it is made, the code, and what the session of an accepted code would take.
abbrev pub Guess : Type 0
Guess = ℕ × String × NewToken × String × String

module _ (hashing : Hashing) (tx : Transactions AuthDb AuthError UserRow) where
  -- The answer by the body's: the session is opened on a commit, the database kept on a failure.
  verify-of-ok :
      (now : ℕ) (user_id : String) (new : NewToken) (family_id id code : String) (db db' : AuthDb)
      (saved : UserRow)
      → verify_body hashing now user_id id code db ≡ (ok saved, db')
      → verify_user_registration_otp hashing tx now user_id new family_id id code db
        ≡ (ok saved, create_session hashing now new family_id saved.id AuthPortal.user db')
  unfolding verify_user_registration_otp
  verify-of-ok now user_id new family_id id code db db' saved b =
      ap (open_session hashing now new family_id)
        (tx.commits (verify_body hashing now user_id id code) db db' saved b)

  verify-of-err :
      (now : ℕ) (user_id : String) (new : NewToken) (family_id id code : String) (db db' : AuthDb)
      (e : AuthError)
      → verify_body hashing now user_id id code db ≡ (err e, db')
      → verify_user_registration_otp hashing tx now user_id new family_id id code db ≡ (err e, db)
  unfolding verify_user_registration_otp
  verify-of-err now user_id new family_id id code db db' e b =
      ap (open_session hashing now new family_id)
        (tx.rolls_back (verify_body hashing now user_id id code) db db' e b)

  -- A verification that answers with an error leaves the database as it was, the count of attempts included.
  pub verify_user_registration_otp-err :
      (now : ℕ) (user_id : String) (new : NewToken) (family_id id code : String) (db db' : AuthDb)
      {e : AuthError}
      → verify_user_registration_otp hashing tx now user_id new family_id id code db ≡ (err e, db')
      → db' ≡ db
  verify_user_registration_otp-err now user_id new family_id id code db db' {e} h =
      elim (answer-cases (verify_body hashing now user_id id code db)) [
        | inl (a, s', b) ↦ let k = verify-of-ok now user_id new family_id id code db s' a b in cc
        | inr (x, s', b) ↦
            let k = verify-of-err now user_id new family_id id code db s' x b in
            ap (λ r. r.1) (sym h ∙ k)
      ]

  -- What an accepted code says of the verification that it was checked against.
  abbrev pub Accepted : ℕ → String → String → AuthDb → RegistrationVerification → Type 0
  Accepted now id code db v =
      (verification_by_id id db ≡ some v)
      × (v.consumed_at ≡ none)
      × (now < v.expires_at)
      × (v.attempt_count < otp_max_attempts)
      × (str_eq (hashing.hash_otp_code code) v.otp_hash ≡ true)
      × (user_by_email v.email db ≡ none)

  conflict-none : (found : Option UserRow) → account_conflict found ≡ none → found ≡ none
  conflict-none none h = refl
  conflict-none (some u) h = ground arith

  check_code-ok :
      (now : ℕ) (user_id code : String) (v : RegistrationVerification) (db db' : AuthDb)
      {saved : UserRow}
      → check_code hashing now user_id code v db ≡ (ok saved, db')
      → (v.consumed_at ≡ none)
        × (now < v.expires_at)
        × (v.attempt_count < otp_max_attempts)
        × (str_eq (hashing.hash_otp_code code) v.otp_hash ≡ true)
        × (account_conflict (user_by_email v.email db) ≡ none)
        × ((saved, db') ≡ register_user hashing now user_id v db)
  unfolding check_code
  check_code-ok now user_id code v db db' h = ground arith

  verify_body-ok :
      (now : ℕ) (user_id id code : String) (db db' : AuthDb) {saved : UserRow}
      → verify_body hashing now user_id id code db ≡ (ok saved, db')
      → (v : RegistrationVerification) × (verification_by_id id db ≡ some v)
        × (check_code hashing now user_id code v db ≡ (ok saved, db'))
  unfolding verify_body
  verify_body-ok now user_id id code db db' h = elim (Option-cases (verification_by_id id db)) [
    | inl gone ↦ cc
    | inr (v, found) ↦ (v, found, cc)
  ]

  -- A code is accepted only for a stored verification that is open, has not expired, has attempts left and
  -- has the code's hash, and only while no account has its email.
  pub verify_user_registration_otp-Accepted :
      (now : ℕ) (user_id : String) (new : NewToken) (family_id id code : String) (db db' : AuthDb)
      {saved : UserRow}
      → verify_user_registration_otp hashing tx now user_id new family_id id code db
        ≡ (ok saved, db')
      → (v : RegistrationVerification) × Accepted now id code db v
  verify_user_registration_otp-Accepted now user_id new family_id id code db db' {saved} h =
      elim (answer-cases (verify_body hashing now user_id id code db)) [
        | inl (a, s', b) ↦
            let (v, found, checked) = verify_body-ok now user_id id code db s' b in
            let (unused, early, few, same, free, writes) =
              check_code-ok now user_id code v db s' checked in
            (v, (found, unused, early, few, same, conflict-none (user_by_email v.email db) free))
        | inr (x, s', b) ↦ let k = verify-of-err now user_id new family_id id code db s' x b in cc
      ]

  -- The verification of an accepted code is found consumed.
  consumed-after :
      (now : ℕ) (user_id id : String) (v : RegistrationVerification) (db : AuthDb)
      → verification_by_id id db ≡ some v
      → verification_by_id id (register_user hashing now user_id v db).1 ≡ some (consume now v)
  unfolding register_user
  consumed-after now user_id id v db found =
      let kept =
        find-update_where (λ r. str_eq r.id id) (λ r. str_eq r.id v.id) (consume now)
          db.verifications {r = v} (λ x. refl) found in
      kept ∙ rw (eq_refl v.id) refl

  -- A consumed verification takes no code.
  verify-consumed :
      (now later : ℕ) (user_id : String) (new : NewToken) (family_id id code : String)
      (v : RegistrationVerification) (db : AuthDb)
      → verification_by_id id db ≡ some (consume now v)
      → verify_user_registration_otp hashing tx later user_id new family_id id code db
        ≡ (err invalid_code, db)
  unfolding verify_body check_code
  verify-consumed now later user_id new family_id id code v db found =
      verify-of-err later user_id new family_id id code db db invalid_code
        (rw (found, verify_body) refl)

  -- A code works once: after it was accepted, no code is accepted for the same verification.
  pub verify_user_registration_otp-single_use :
      (now later : ℕ) (user_id user_id' : String) (new new' : NewToken)
      (family_id family_id' id code code' : String) (db db' : AuthDb) {saved : UserRow}
      → verify_user_registration_otp hashing tx now user_id new family_id id code db
        ≡ (ok saved, db')
      → verify_user_registration_otp hashing tx later user_id' new' family_id' id code' db'
        ≡ (err invalid_code, db')
  unfolding create_session
  verify_user_registration_otp-single_use now later user_id user_id' new new' family_id family_id'
        id code code' db db' {saved} h =
      elim (answer-cases (verify_body hashing now user_id id code db)) [
        | inl (a, s', b) ↦
            let k = verify-of-ok now user_id new family_id id code db s' a b in
            let (v, found, checked) = verify_body-ok now user_id id code db s' b in
            let (unused, early, few, same, free, writes) =
              check_code-ok now user_id code v db s' checked in
            let after = consumed-after now user_id id v db found in
            let at_db : db' ≡ create_session hashing now new family_id a.id AuthPortal.user s' =
              ap (λ r. r.1) (sym h ∙ k) in
            let at_s : s' ≡ (register_user hashing now user_id v db).1 = ap (λ r. r.1) writes in
            let rows : db'.verifications
                ≡ (register_user hashing now user_id v db).1.verifications =
              ap (λ d. d.verifications) at_db ∙ ap (λ d. d.verifications) at_s in
            let same_db : verification_by_id id db' ≡ some (consume now v) =
              ap (λ t. find (λ r. str_eq r.id id) t) rows ∙ after in
            verify-consumed now later user_id' new' family_id' id code' v db' same_db
        | inr (x, s', b) ↦ let k = verify-of-err now user_id new family_id id code db s' x b in cc
      ]

  -- A list of guesses at one verification, one after the other.
  abbrev pub after_guesses : String → List Guess → AuthDb → AuthDb
  after_guesses id [] db = db
  after_guesses id ((now, user_id, new, family_id, code) ∷ guesses) db =
      after_guesses id guesses
        (verify_user_registration_otp hashing tx now user_id new family_id id code db).1

  abbrev pub IsWrong : RegistrationVerification → Guess → Type 0
  IsWrong v (now, user_id, new, family_id, code) =
      str_eq (hashing.hash_otp_code code) v.otp_hash ≡ false

  -- However many wrong codes are tried, the database is the one before the first of them, so the limit
  -- of attempts is never reached.
  pub after_guesses-unlimited :
      (id : String) (v : RegistrationVerification) (guesses : List Guess) (db : AuthDb)
      → verification_by_id id db ≡ some v
      → All (IsWrong v) guesses
      → after_guesses id guesses db ≡ db
  after_guesses-unlimited id v [] db found wrong = refl
  after_guesses-unlimited id v ((now, user_id, new, family_id, code) ∷ guesses) db found
        (here, rest) =
      elim (answer-cases
        (verify_user_registration_otp hashing tx now user_id new family_id id code db)) [
          | inl (a, s', b) ↦
              let (w, (found', unused, early, few, same, free)) =
                verify_user_registration_otp-Accepted now user_id new family_id id code db s' b in
              cc
          | inr (x, s', b) ↦
              let kept =
                verify_user_registration_otp-err now user_id new family_id id code db s' b in
              let step : (verify_user_registration_otp hashing tx now user_id new family_id id code
                    db).1
                  ≡ db =
                ap (λ r. r.1) b ∙ kept in
              ap (after_guesses id guesses) step
              ∙ after_guesses-unlimited id v guesses db found rest
        ]
