-- ===== src/Auth/Sessions.antt =====
-- Whom the tokens let in, and until when.
use exchange_watch.Base.{
  ℕ, ◌+◌, ◌<◌, ◌≡◌, ◌≢◌, refl, sym, ap, ◌∙◌, Bool, true, false, Option, none, some, String, Result,
  ok, err, ltb, if◌then◌else◌, Bool-cases, inl, inr, arith,
}
use exchange_watch.Users.Login.{UserEntity, user_not_found, query_failed, Users, find_user_by_idx}
use exchange_watch.Auth.{
  Payload, Jwt, TokenConfig, Passport, JwtErrorType, token_expired, invalid_token, unauthorized,
  access_handle_request, refresh_handle_request, create_access_token, create_refresh_token,
  issue_access_and_refresh_token, refresh_access_token, Request, jwt_access_guard,
  jwt_refresh_guard,
}
use exchange_watch.Auth.Controller.{Cookie, google_dev_login, refresh_token, refresh_cookie_of}
use exchange_watch.Users.Login.Found.{find_user_by_idx-idx}

module _ (J : Jwt) (K : TokenConfig) (P : Passport) (T : Users) where
  open J use {Token}

  -- A request with a token in its header, and one with a token in its cookie.
  abbrev pub with_bearer : Token → Request J K
  with_bearer token = record { bearer = some token; refresh_cookie = none }

  abbrev pub with_cookie : Token → Request J K
  with_cookie token = record { bearer = none; refresh_cookie = some token }

  -- What a guard gives on a token that is valid until a time.
  abbrev pub let_in_until : ℕ → ℕ → UserEntity → Result JwtErrorType (Option UserEntity)
  let_in_until end now user = if ltb now end then ok (some user) else err token_expired

  access-issued :
      (user : UserEntity) (email : String) (now later : ℕ) (db : T.Db)
      → find_user_by_idx T true user.idx db ≡ ok user
      → jwt_access_guard J K P T true
          (with_bearer (create_access_token J K user.idx email now))
          later
          db
        ≡ let_in_until (now + K.access_token_expires_in) later user
  unfolding jwt_access_guard create_access_token access_handle_request
  access-issued user email now later db f =
      let p : Payload = record { sub = user.idx; email = some email } in
      let v = J.verify-sign p K.jwt_access_secret K.access_token_expires_in now later in
      elim (Bool-cases (ltb later (now + K.access_token_expires_in))) [
        | inl h ↦ rw (v, h, P.validated _ p user f) refl
        | inr h ↦ rw (v, h, P.expires _) refl
      ]

  refresh-issued :
      (user : UserEntity) (now later : ℕ) (db : T.Db)
      → find_user_by_idx T true user.idx db ≡ ok user
      → jwt_refresh_guard J K P T true
          (with_cookie (create_refresh_token J K user.idx now))
          later
          db
        ≡ let_in_until (now + K.refresh_token_expires_in) later user
  unfolding jwt_refresh_guard create_refresh_token refresh_handle_request
  refresh-issued user now later db f =
      let p : Payload = record { sub = user.idx; email = none } in
      let v = J.verify-sign p K.jwt_refresh_secret K.refresh_token_expires_in now later in
      elim (Bool-cases (ltb later (now + K.refresh_token_expires_in))) [
        | inl h ↦ rw (v, h, P.validated _ p user f) refl
        | inr h ↦ rw (v, h, P.expires _) refl
      ]

  -- The tokens that are issued to a user whom the database finds again. The access token lets the user in until it expires, and
  -- is refused as expired from then on; so does the refresh token at the renewal; and the access token that a renewal gives
  -- lets the same user in until it expires in turn, counted from the renewal.
  pub session_lem :
      (user : UserEntity) (login renewal later : ℕ) (db : T.Db)
      → find_user_by_idx T true user.idx db ≡ ok user
      → (jwt_access_guard J K P T true
            (with_bearer (issue_access_and_refresh_token J K user login).access_token)
            later
            db
          ≡ let_in_until (login + K.access_token_expires_in) later user)
        × (jwt_refresh_guard J K P T true
              (with_cookie (issue_access_and_refresh_token J K user login).refresh_token)
              renewal
              db
            ≡ let_in_until (login + K.refresh_token_expires_in) renewal user)
        × (jwt_access_guard J K P T true (with_bearer (refresh_token J K user renewal)) later db
            ≡ let_in_until (renewal + K.access_token_expires_in) later user)
  unfolding issue_access_and_refresh_token refresh_token refresh_access_token
  session_lem user login renewal later db f = (
    access-issued user user.email login later db f,
    refresh-issued user login renewal db f,
    access-issued user user.email renewal later db f,
  )

  -- Where the two secrets differ, neither token of a login stands in for the other: a refresh token in the header and an access
  -- token in the cookie are refused as invalid, at any time, whether the database answers or not.
  pub tokens_not_exchanged :
      (answered : Bool) (user : UserEntity) (now later : ℕ) (db : T.Db)
      → K.jwt_access_secret ≢ K.jwt_refresh_secret
      → (jwt_access_guard J K P T answered
            (with_bearer (issue_access_and_refresh_token J K user now).refresh_token)
            later
            db
          ≡ err invalid_token)
        × (jwt_refresh_guard J K P T answered
              (with_cookie (issue_access_and_refresh_token J K user now).access_token)
              later
              db
            ≡ err invalid_token)
  unfolding jwt_access_guard jwt_refresh_guard issue_access_and_refresh_token access_handle_request
      refresh_handle_request
  tokens_not_exchanged answered user now later db ne =
      let refresh : Payload = record { sub = user.idx; email = none } in
      let access : Payload = record { sub = user.idx; email = some user.email } in
      (
        rw
            (
              J.verify_other refresh K.jwt_refresh_secret K.jwt_access_secret
                  K.refresh_token_expires_in now later (λ e. ne (sym e)),
              P.fails _,
            )
            refl,
        rw
            (
              J.verify_other access K.jwt_access_secret K.jwt_refresh_secret
                  K.access_token_expires_in now later ne,
              P.fails _,
            )
            refl,
      )

  -- A token of a user who is no longer in the table is refused, and so is a request without a token.
  pub unknown_user_refused :
      (user : UserEntity) (now later : ℕ) (db : T.Db)
      → later < now + K.access_token_expires_in
      → find_user_by_idx T true user.idx db ≡ err user_not_found
      → (jwt_access_guard J K P T true
            (with_bearer (issue_access_and_refresh_token J K user now).access_token)
            later
            db
          ≡ err unauthorized)
        × (jwt_access_guard J K P T true (record { bearer = none; refresh_cookie = none }) later db
            ≡ err unauthorized)
  unfolding jwt_access_guard issue_access_and_refresh_token access_handle_request
  unknown_user_refused user now later db lt f =
      let p : Payload = record { sub = user.idx; email = some user.email } in
      let h : ltb later (now + K.access_token_expires_in) ≡ true = ground (arith, lt) in
      (
        rw
            (
              J.verify-sign p K.jwt_access_secret K.access_token_expires_in now later,
              h,
              P.rejected _ p user_not_found f,
            )
            refl,
        rw (P.absent _) refl,
      )

  -- A bug: where the database does not answer while a token that has not expired is checked, both guards let the request in,
  -- without a user.
  pub let_in_without_user :
      (user : UserEntity) (now later : ℕ) (db : T.Db)
      → later < now + K.access_token_expires_in
      → later < now + K.refresh_token_expires_in
      → (jwt_access_guard J K P T false
            (with_bearer (issue_access_and_refresh_token J K user now).access_token)
            later
            db
          ≡ ok none)
        × (jwt_refresh_guard J K P T false
              (with_cookie (issue_access_and_refresh_token J K user now).refresh_token)
              later
              db
            ≡ ok none)
  unfolding jwt_access_guard jwt_refresh_guard issue_access_and_refresh_token find_user_by_idx
  let_in_without_user user now later db a r =
      let access : Payload = record { sub = user.idx; email = some user.email } in
      let refresh : Payload = record { sub = user.idx; email = none } in
      let h : ltb later (now + K.access_token_expires_in) ≡ true = ground (arith, a) in
      let k : ltb later (now + K.refresh_token_expires_in) ≡ true = ground (arith, r) in
      (
        rw
            (
              J.verify-sign access K.jwt_access_secret K.access_token_expires_in now later,
              h,
              P.rejected _ access query_failed refl,
            )
            refl,
        rw
            (
              J.verify-sign refresh K.jwt_refresh_secret K.refresh_token_expires_in now later,
              k,
              P.rejected _ refresh query_failed refl,
            )
            refl,
      )

  -- A bug: the login of developers asks for no token and no password, in production as elsewhere. Where there is a user 1, it
  -- gives anybody an access token that lets them in as this user.
  pub dev_login_for_anybody :
      (production : Bool) (user : UserEntity) (now later : ℕ) (db : T.Db)
      → find_user_by_idx T true 1 db ≡ ok user
      → later < now + K.access_token_expires_in
      → (cookie : Cookie J K) × (token : Token) × (google_dev_login J K T production true now db
          ≡ ok (cookie, token, user))
        × (jwt_access_guard J K P T true (with_bearer token) later db ≡ ok (some user))
  unfolding google_dev_login
  dev_login_for_anybody production user now later db f lt =
      let h : ltb later (now + K.access_token_expires_in) ≡ true = ground (arith, lt) in
      let g : find_user_by_idx T true user.idx db ≡ ok user =
        ap (λ i. find_user_by_idx T true i db) (find_user_by_idx-idx T 1 db user f) ∙ f in
      (
        refresh_cookie_of J K production (create_refresh_token J K user.idx now),
        create_access_token J K user.idx user.email now,
        rw (f, google_dev_login) refl,
        access-issued user user.email now later db g ∙ rw h refl,
      )
