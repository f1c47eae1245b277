-- ===== src/Auth/Tests.antt =====
-- Instances of the theorems on sessions: tokens that show their payload, secret and expiry, and users in memory.
use exchange_watch.Base.{
  ℕ, ◌+◌, ◌≡◌, ◌≢◌, refl, ap, true, false, Option, none, some, String, str_eq, eq_iff, [], ◌∷◌, map,
  Result, ok, err, ltb, if◌then◌else◌, arith, Bool-cases, inl, inr,
}
use exchange_watch.Prisma.Memory.{table, find}
use exchange_watch.Users.Login.{SocialProvider, UserEntity, UserError, find_user_by_idx}
use exchange_watch.Users.Login.Tests.{store, rows, one_account}
use exchange_watch.Users.Login.Found.{IsKeyed}
use exchange_watch.Auth.{
  Payload, Verification, valid, expired, invalid, Jwt, TokenConfig, Outcome, Passport,
  token_expired_error, json_web_token_error, no_auth_token, invalid_token, jwt_access_guard,
  jwt_refresh_guard, issue_access_and_refresh_token,
}
use exchange_watch.Auth.Controller.{
  Cookie, refresh_token, google_auth_callback, google_dev_login, google_validate,
}
use exchange_watch.Auth.Sessions.{
  with_bearer, with_cookie, let_in_until, tokens_not_exchanged, let_in_without_user,
  dev_login_for_anybody,
}
use exchange_watch.Auth.GoogleLogin.{google_validate-google_auth_callback}

record Shown : Type 0 where
  payload : Payload
  secret : String
  end : ℕ

abbrev shown_verify : Shown → String → ℕ → Verification
shown_verify t secret later =
    if str_eq t.secret secret
    then (if ltb later t.end then valid t.payload else expired)
    else invalid

abbrev shown_sign : Payload → String → ℕ → ℕ → Shown
shown_sign p secret expires_in now = record { payload = p; secret = secret; end = now + expires_in }

verify-sign :
    (p : Payload) (secret : String) (expires_in now later : ℕ)
    → shown_verify (shown_sign p secret expires_in now) secret later
      ≡ (if ltb later (now + expires_in) then valid p else expired)
verify-sign p secret expires_in now later = rw ((eq_iff secret secret).1 refl) refl

verify_other :
    (p : Payload) (secret other : String) (expires_in now later : ℕ)
    → secret ≢ other
    → shown_verify (shown_sign p secret expires_in now) other later ≡ invalid
verify_other p secret other expires_in now later ne = elim (Bool-cases (str_eq secret other)) [
  | inl h ↦ absurd (ne ((eq_iff secret other).0 h))
  | inr h ↦ rw h refl
]

abbrev jwt : Jwt
jwt = record {
  Token = Shown;
  sign = shown_sign;
  verify = shown_verify;
  verify-sign = verify-sign;
  verify_other = verify_other;
}

abbrev outcome_of : Result UserError UserEntity → Outcome
outcome_of (ok user) = record { error = none; user = some user; info = none }
outcome_of (err e) = record { error = some e; user = none; info = none }

abbrev authenticate : Option Verification → (Payload → Result UserError UserEntity) → Outcome
authenticate none v = record { error = none; user = none; info = some no_auth_token }
authenticate (some expired) v = record {
  error = none;
  user = none;
  info = some token_expired_error;
}
authenticate (some invalid) v = record {
  error = none;
  user = none;
  info = some json_web_token_error;
}
authenticate (some (valid p)) v = outcome_of (v p)

abbrev passport : Passport
passport = record {
  authenticate = authenticate;
  absent = λ v. refl;
  expires = λ v. refl;
  fails = λ v. refl;
  validated = λ v p user e. ap outcome_of e;
  rejected = λ v p e f. ap outcome_of f;
}

abbrev config : TokenConfig
config = record {
  jwt_access_secret = "a";
  jwt_refresh_secret = "r";
  access_token_expires_in = 60;
  refresh_token_expires_in = 3600;
}

secrets_differ : config.jwt_access_secret ≢ config.jwt_refresh_secret
secrets_differ e = cc ((eq_iff "a" "r").1 e)

abbrev ann : UserEntity
ann = record {
  idx = 1;
  email = "ann@example.com";
  name = "Ann";
  social_provider = SocialProvider.google;
  social_id = "17";
  created_at = 0;
  updated_at = 0;
}

known : find_user_by_idx store true 1 rows ≡ ok ann
unfolding find_user_by_idx table find
known = refl

tokens_not_exchanged_example :
    (jwt_access_guard jwt config passport store true
        (with_bearer jwt config passport store
          (issue_access_and_refresh_token jwt config ann 0).refresh_token)
        10
        rows
      ≡ err invalid_token)
    × (jwt_refresh_guard jwt config passport store true
          (with_cookie jwt config passport store
            (issue_access_and_refresh_token jwt config ann 0).access_token)
          10
          rows
        ≡ err invalid_token)
tokens_not_exchanged_example =
    tokens_not_exchanged jwt config passport store true ann 0 10 rows secrets_differ

let_in_without_user_example :
    (jwt_access_guard jwt config passport store false
        (with_bearer jwt config passport store
          (issue_access_and_refresh_token jwt config ann 0).access_token)
        10
        rows
      ≡ ok none)
    × (jwt_refresh_guard jwt config passport store false
          (with_cookie jwt config passport store
            (issue_access_and_refresh_token jwt config ann 0).refresh_token)
          10
          rows
        ≡ ok none)
let_in_without_user_example =
    let_in_without_user jwt config passport store ann 0 10 rows (omega arith) (omega arith)

dev_login_for_anybody_example :
    (cookie : Cookie jwt config) × (token : Shown) × (google_dev_login jwt config store true true 0
        rows
      ≡ ok (cookie, token, ann))
    × (jwt_access_guard jwt config passport store true
          (with_bearer jwt config passport store token)
          10
          rows
        ≡ ok (some ann))
dev_login_for_anybody_example =
    dev_login_for_anybody jwt config passport store true ann 0 10 rows known (omega arith)

rows-IsKeyed : IsKeyed store rows
unfolding table
rows-IsKeyed i = ground arith

google_login_example :
    (user : UserEntity) × (after : store.Db) × (refresh access : Shown) × (google_validate jwt
        config store "17" "ann@example.com" "Ann" rows
      ≡ ok (user, after))
    × (map
          (λ (c : Cookie jwt config). c.value)
          (google_auth_callback jwt config true (λ s. s) "http://front" user 0).0
        ≡ refresh ∷ access ∷ [])
    × (jwt_refresh_guard jwt config passport store true
          (with_cookie jwt config passport store refresh)
          5
          after
        ≡ let_in_until jwt config passport store (0 + 3600) 5 user)
    × (jwt_access_guard jwt config passport store true
          (with_bearer jwt config passport store access)
          10
          after
        ≡ let_in_until jwt config passport store (0 + 60) 10 user)
    × (jwt_access_guard jwt config passport store true
          (with_bearer jwt config passport store (refresh_token jwt config user 5))
          10
          after
        ≡ let_in_until jwt config passport store (5 + 60) 10 user)
google_login_example =
    google_validate-google_auth_callback jwt config passport store true (λ s. s) "http://front" "17"
      "ann@example.com" "Ann" 0 5 10 rows one_account rows-IsKeyed
