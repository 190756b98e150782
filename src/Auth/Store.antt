-- ===== src/Auth/Store.antt =====
-- The rows of src/db/schema that the services of src/modules/auth keep.
use stock_harvesting_backend.Prelude.{
  ℕ, String, List, Option, none, some, Bool, true, false, not, str_eq,
}

pub data UserRole : Type 0 where
  user admin : UserRole

pub data AuthPortal : Type 0 where
  user admin : AuthPortal

pub data UserPlan : Type 0 where
  free pro : UserPlan

-- `a === b` of roles and of portals
abbrev pub role_eq : UserRole → UserRole → Bool
role_eq UserRole.user UserRole.user = true
role_eq UserRole.admin UserRole.admin = true
role_eq _ _ = false

abbrev pub portal_eq : AuthPortal → AuthPortal → Bool
portal_eq AuthPortal.user AuthPortal.user = true
portal_eq AuthPortal.admin AuthPortal.admin = true
portal_eq _ _ = false

pub record UserRow : Type 0 where
  pub id : String
  pub email : String
  pub name : String
  pub password_hash : Option String
  pub role : UserRole
  pub plan : UserPlan
  pub email_verified_at : Option ℕ
  pub updated_at : ℕ

pub record RegistrationVerification : Type 0 where
  pub id : String
  pub email : String
  pub name : String
  pub password_hash : String
  pub otp_hash : String
  pub expires_at : ℕ
  pub resend_available_at : ℕ
  pub attempt_count : ℕ
  pub consumed_at : Option ℕ
  pub updated_at : ℕ

pub record RefreshToken : Type 0 where
  pub id : String
  pub user_id : String
  pub token_hash : String
  pub family_id : String
  pub portal : AuthPortal
  pub expires_at : ℕ
  pub revoked_at : Option ℕ
  pub replaced_by_token_id : Option String

pub record PasswordResetToken : Type 0 where
  pub id : String
  pub user_id : String
  pub token_hash : String
  pub expires_at : ℕ
  pub consumed_at : Option ℕ

pub record AuthDb : Type 0 where
  pub users : List UserRow
  pub verifications : List RegistrationVerification
  pub refresh_tokens : List RefreshToken
  pub reset_tokens : List PasswordResetToken

pub data AuthError : Type 0 where
  unable_to_register exists_with_password exists_with_google code_expired please_wait invalid_code
        too_many_attempts invalid_refresh_token reuse_detected refresh_token_expired
        user_no_longer_exists invalid_reset_token invalid_credentials :
      AuthError

-- The functions of src/modules/security over the crypto library.
pub record Hashing : Type 0 where
  pub hash_otp_code : String → String
  pub hash_password : String → String
  pub hash_refresh_token : String → String
  pub hash_password_reset_token : String → String
  pub normalize_email : String → String

abbrev pub is_set {ℓ} : {A : Type ℓ} → Option A → Bool
is_set none = false
is_set (some a) = true

-- A nullable text in a test: null and the empty text are false.
abbrev pub is_truthy : Option String → Bool
is_truthy none = false
is_truthy (some t) = not (str_eq t "")
