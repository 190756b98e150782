-- ===== src/Tests/Auth.antt =====
-- Accounts, codes and tokens.
use stock_harvesting_backend.Prelude.{String, List, [], ◌∷◌, none, some, ◌≡◌, refl}
use stock_harvesting_backend.Database.Transactions.{Result, ok, err, copying, Transactions}
use stock_harvesting_backend.Auth.Store.{
  AuthPortal, UserRole, UserPlan, UserRow, RegistrationVerification, RefreshToken,
  PasswordResetToken, AuthDb, AuthError, Hashing, invalid_code, reuse_detected,
  invalid_refresh_token,
}
use stock_harvesting_backend.Auth.Session.{
  NewToken, rotate_refresh_token, rotate_body, token_by_hash,
}
use stock_harvesting_backend.Auth.Registration.{verify_user_registration_otp}
use stock_harvesting_backend.Auth.Reset.{reset_password}
use stock_harvesting_backend.Auth.Codes.{
  Accepted, verify_user_registration_otp-Accepted, verify_user_registration_otp-single_use,
  after_guesses, Guess, after_guesses-unlimited,
}
use stock_harvesting_backend.Auth.Rotation.{
  Rotated, Refused, rotate_refresh_token-ok, rotate_refresh_token-err, rotate_refresh_token-reuse,
}
use stock_harvesting_backend.Auth.Recovery.{Recovered, reset_password-ok}

-- Hashes that keep the text.
abbrev plain : Hashing
plain = record {
  hash_otp_code = λ t. t;
  hash_password = λ t. t;
  hash_refresh_token = λ t. t;
  hash_password_reset_token = λ t. t;
  normalize_email = λ t. t;
}

abbrev tx : Transactions AuthDb AuthError UserRow
tx = copying AuthDb AuthError UserRow

abbrev reset_tx : Transactions AuthDb AuthError (Unit {0})
reset_tx = copying AuthDb AuthError (Unit {0})

abbrev ann : UserRow
ann = record {
  id = "u1";
  email = "ann@x.in";
  name = "Ann";
  password_hash = some "old";
  role = UserRole.user;
  plan = UserPlan.free;
  email_verified_at = some 1;
  updated_at = 1;
}

abbrev pending : RegistrationVerification
pending = record {
  id = "v1";
  email = "bob@x.in";
  name = "Bob";
  password_hash = "secret";
  otp_hash = "123456";
  expires_at = 700;
  resend_available_at = 60;
  attempt_count = 0;
  consumed_at = none;
  updated_at = 0;
}

abbrev token : RefreshToken
token = record {
  id = "t1";
  user_id = "u1";
  token_hash = "r1";
  family_id = "f1";
  portal = AuthPortal.user;
  expires_at = 900;
  revoked_at = none;
  replaced_by_token_id = none;
}

abbrev reset_token : PasswordResetToken
reset_token = record {
  id = "p1";
  user_id = "u1";
  token_hash = "link";
  expires_at = 900;
  consumed_at = none;
}

abbrev auth_db : AuthDb
auth_db = record {
  users = ann ∷ [];
  verifications = pending ∷ [];
  refresh_tokens = token ∷ [];
  reset_tokens = reset_token ∷ [];
}

abbrev next : NewToken
next = record { id = "t2"; raw = "r2"; ttl_ms = 1000 }

abbrev verify : String → Result AuthError UserRow × AuthDb
verify code = verify_user_registration_otp plain tx 100 "u2" next "f2" "v1" code auth_db

abbrev bob : UserRow
bob = record {
  id = "u2";
  email = "bob@x.in";
  name = "Bob";
  password_hash = some "secret";
  role = UserRole.user;
  plan = UserPlan.free;
  email_verified_at = some 100;
  updated_at = 100;
}

wrong_code : verify "000000" ≡ (err invalid_code, (verify "000000").1)
unfolding verify_user_registration_otp
wrong_code = refl

right_code : verify "123456" ≡ (ok bob, (verify "123456").1)
unfolding verify_user_registration_otp
right_code = refl

verify_user_registration_otp-Accepted_example :
    (v : RegistrationVerification) × Accepted plain tx 100 "v1" "123456" auth_db v
verify_user_registration_otp-Accepted_example =
    verify_user_registration_otp-Accepted plain tx 100 "u2" next "f2" "v1" "123456" auth_db
      (verify "123456").1 right_code

verify_user_registration_otp-single_use_example :
    verify_user_registration_otp plain tx 200 "u3" next "f3" "v1" "123456" (verify "123456").1
    ≡ (err invalid_code, (verify "123456").1)
verify_user_registration_otp-single_use_example =
    verify_user_registration_otp-single_use plain tx 100 200 "u2" "u3" next next "f2" "f3" "v1"
      "123456" "123456" auth_db (verify "123456").1 right_code

abbrev guesses : List Guess
guesses = (100, "u2", next, "f2", "000000") ∷ (101, "u2", next, "f2", "000001") ∷ []

after_guesses-unlimited_example : after_guesses plain tx "v1" guesses auth_db ≡ auth_db
after_guesses-unlimited_example =
    after_guesses-unlimited plain tx "v1" pending guesses auth_db refl (refl, (refl, tt))

abbrev rotate : String → Result AuthError UserRow × AuthDb
rotate raw = rotate_refresh_token plain tx 100 next raw AuthPortal.user auth_db

rotated : rotate "r1" ≡ (ok ann, (rotate "r1").1)
unfolding rotate_refresh_token
rotated = refl

unknown_token : rotate "r9" ≡ (err invalid_refresh_token, (rotate "r9").1)
unfolding rotate_refresh_token
unknown_token = refl

rotate_refresh_token-ok_example :
    (t : RefreshToken) × Rotated plain tx 100 next "r1" AuthPortal.user auth_db ann
      (rotate "r1").1
      t
rotate_refresh_token-ok_example =
    rotate_refresh_token-ok plain tx 100 next "r1" AuthPortal.user auth_db (rotate "r1").1 ann
      rotated

-- The token was used: presenting it again is refused, and the tokens stay.
abbrev used_db : AuthDb
used_db = (rotate "r1").1

abbrev reuse : Result AuthError UserRow × AuthDb
reuse = rotate_refresh_token plain tx 200 next "r1" AuthPortal.user used_db

reused : reuse ≡ (err reuse_detected, reuse.1)
unfolding rotate_refresh_token
reused = refl

rotate_refresh_token-err_example :
    (reuse.1 ≡ used_db)
    × Refused plain tx 200 "r1" AuthPortal.user used_db
        (rotate_body plain 200 next "r1" AuthPortal.user used_db).1
        reuse_detected
        (token_by_hash plain "r1" used_db)
rotate_refresh_token-err_example =
    rotate_refresh_token-err plain tx 200 next "r1" AuthPortal.user used_db reuse.1 reuse_detected
      reused

rotate_refresh_token-reuse_example :
    rotate_refresh_token plain tx 200 next "r1" AuthPortal.user (rotate "r1").1
    ≡ (err reuse_detected, (rotate "r1").1)
rotate_refresh_token-reuse_example =
    rotate_refresh_token-reuse plain tx 100 200 next next "r1" AuthPortal.user auth_db
      (rotate "r1").1 ann rotated

abbrev recovery : Result AuthError (Unit {0}) × AuthDb
recovery = reset_password plain reset_tx 100 "link" "new" auth_db

recovered : recovery ≡ (ok tt, recovery.1)
unfolding reset_password
recovered = refl

reset_password-ok_example :
    (t : PasswordResetToken) × Recovered plain reset_tx 100 "link" "new" auth_db recovery.1 t
reset_password-ok_example =
    reset_password-ok plain reset_tx 100 "link" "new" auth_db recovery.1 recovered
