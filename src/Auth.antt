-- ===== src/Auth.antt =====
-- modules/token and modules/auth: the tokens, and the strategies and guards that read them. Signing tokens
-- and running strategies are no part of the repository: they are the operations and laws of `Jwt` and `Passport`.
pub mod Controller
pub mod Sessions
pub mod GoogleLogin
mod Tests
use exchange_watch.Base.{
  ℕ, ◌+◌, ◌*◌, ◌≡◌, ◌≢◌, Bool, true, false, Option, none, some, String, str_eq, List, [], ◌∷◌, map,
  Result, ok, err, ◌>>=◌, ltb, if◌then◌else◌,
}
use exchange_watch.Strings.{split, join}
use exchange_watch.Users.Login.{
  UserEntity, UserError, user_not_found, query_failed, database, Users, CreateBySocial,
  SocialProvider, find_user_by_idx, handle_social_login,
}

-- `IAccessPayload`, and `IRefreshPayload` without an email
pub record Payload : Type 0 where
  pub sub : ℕ
  pub email : Option String

-- What `verify` resolves to, or whether it rejects with TokenExpiredError or another JsonWebTokenError.
pub data Verification : Type 0 where
  valid : Payload → Verification
  expired invalid : Verification

-- Times are in seconds, as the claims of a token are.
pub record Jwt : Type 1 where
  pub Token : Type 0
  -- `sign(payload, { secret, expiresIn })` and `verify(token, { secret })`, each at a time
  pub sign : Payload → String → ℕ → ℕ → Token
  pub verify : Token → String → ℕ → Verification
  pub verify-sign :
      (p : Payload) (secret : String) (expires_in now later : ℕ)
      → verify (sign p secret expires_in now) secret later
        ≡ (if ltb later (now + expires_in) then valid p else expired)
  pub verify_other :
      (p : Payload) (secret other : String) (expires_in now later : ℕ)
      → secret ≢ other
      → verify (sign p secret expires_in now) other later ≡ invalid

-- The keys of `token` in the configuration.
pub record TokenConfig : Type 0 where
  pub jwt_access_secret : String
  pub jwt_refresh_secret : String
  pub access_token_expires_in : ℕ
  pub refresh_token_expires_in : ℕ

-- What a strategy tells a guard apart from the user: the reason of a failure, with an `Error` where there is no token
pub data Info : Type 0 where
  token_expired_error json_web_token_error no_auth_token : Info

pub record Outcome : Type 0 where
  pub error : Option UserError
  pub user : Option UserEntity
  pub info : Option Info

-- A strategy of passport-jwt: the token's verification, if there is a token, and the strategy's `validate`.
pub record Passport : Type 0 where
  pub authenticate : Option Verification → (Payload → Result UserError UserEntity) → Outcome
  pub absent :
      (v : Payload → Result UserError UserEntity)
      → authenticate none v ≡ record { error = none; user = none; info = some no_auth_token }
  pub expires :
      (v : Payload → Result UserError UserEntity)
      → authenticate (some expired) v
        ≡ record { error = none; user = none; info = some token_expired_error }
  pub fails :
      (v : Payload → Result UserError UserEntity)
      → authenticate (some invalid) v
        ≡ record { error = none; user = none; info = some json_web_token_error }
  pub validated :
      (v : Payload → Result UserError UserEntity) (p : Payload) (user : UserEntity)
      → v p ≡ ok user
      → authenticate (some (valid p)) v ≡ record { error = none; user = some user; info = none }
  pub rejected :
      (v : Payload → Result UserError UserEntity) (p : Payload) (e : UserError)
      → v p ≡ err e
      → authenticate (some (valid p)) v ≡ record { error = some e; user = none; info = none }

-- `JWT_ERROR_TYPE`
pub data JwtErrorType : Type 0 where
  token_expired invalid_token unauthorized : JwtErrorType

-- `handleRequest` of jwt-access.guard.ts
unfoldable pub access_handle_request : Outcome → Result JwtErrorType (Option UserEntity)
access_handle_request o = elim (o.info) [
  | some token_expired_error ↦ err token_expired
  | some json_web_token_error ↦ err invalid_token
  | some no_auth_token ↦ err unauthorized
  | none ↦ elim (o.error) [
    | some user_not_found ↦ err unauthorized
    | some query_failed ↦ ok o.user
    | some (database e) ↦ ok o.user
    | none ↦ ok o.user
  ]
]

-- `handleRequest` of jwt-refresh.guard.ts
unfoldable pub refresh_handle_request : Outcome → Result JwtErrorType (Option UserEntity)
refresh_handle_request o = elim (o.info) [
  | some token_expired_error ↦ err token_expired
  | some json_web_token_error ↦ err invalid_token
  | some no_auth_token ↦ err unauthorized
  | none ↦ elim (o.error) [
    | some user_not_found ↦ err unauthorized
    | some query_failed ↦ ok o.user
    | some (database e) ↦ ok o.user
    | none ↦ ok o.user
  ]
]

-- `handleRequest` of google.guard.ts, on `err.code`, if there is an error; the one code that it looks for has an error of its own
pub data SocialAuthErrorCode : Type 0 where
  invalid_auth_code : SocialAuthErrorCode

unfoldable pub google_handle_request :
    Option String → Option UserEntity → Result SocialAuthErrorCode (Option UserEntity)
google_handle_request none user = ok user
google_handle_request (some code) user =
    if str_eq code "invalid_grant" then err invalid_auth_code else ok user

module _ (J : Jwt) (K : TokenConfig) where
  open J use {Token}

  -- token.service.ts
  unfoldable pub create_access_token : ℕ → String → ℕ → Token
  create_access_token user_idx email now =
      J.sign (record { sub = user_idx; email = some email }) K.jwt_access_secret
        K.access_token_expires_in now

  unfoldable pub create_refresh_token : ℕ → ℕ → Token
  create_refresh_token user_idx now =
      J.sign (record { sub = user_idx; email = none }) K.jwt_refresh_secret
        K.refresh_token_expires_in now

  unfoldable pub verify_access_token : Token → ℕ → Verification
  verify_access_token token now = J.verify token K.jwt_access_secret now

  unfoldable pub verify_refresh_token : Token → ℕ → Verification
  verify_refresh_token token now = J.verify token K.jwt_refresh_secret now

  -- What `issueAccessAndRefreshToken` returns.
  pub record Issued : Type 0 where
    pub access_token : Token
    pub refresh_token : Token

  -- auth.service.ts
  unfoldable pub issue_access_and_refresh_token : UserEntity → ℕ → Issued
  unfolding create_access_token create_refresh_token
  issue_access_and_refresh_token user now = record {
    access_token = create_access_token user.idx user.email now;
    refresh_token = create_refresh_token user.idx now;
  }

  unfoldable pub refresh_access_token : UserEntity → ℕ → Token
  unfolding create_access_token
  refresh_access_token user now = create_access_token user.idx user.email now

  -- The two places of a request where a token stands.
  pub record Request : Type 0 where
    pub bearer : Option Token
    pub refresh_cookie : Option Token

  abbrev pub verified : Option Token → String → ℕ → Option Verification
  verified none secret now = none
  verified (some token) secret now = some (J.verify token secret now)

  module _ (P : Passport) (T : Users) where
    -- jwt-access.strategy.ts and the guard; `answered` says whether the database answers
    unfoldable pub jwt_access_guard :
        Bool → Request → ℕ → T.Db → Result JwtErrorType (Option UserEntity)
    unfolding access_handle_request
    jwt_access_guard answered request now db = access_handle_request (
        P.authenticate (verified request.bearer K.jwt_access_secret now)
          (λ payload. find_user_by_idx T answered payload.sub db))

    -- jwt-refresh.strategy.ts and the guard
    unfoldable pub jwt_refresh_guard :
        Bool → Request → ℕ → T.Db → Result JwtErrorType (Option UserEntity)
    unfolding refresh_handle_request
    jwt_refresh_guard answered request now db = refresh_handle_request (
        P.authenticate (verified request.refresh_cookie K.jwt_refresh_secret now)
          (λ payload. find_user_by_idx T answered payload.sub db))
