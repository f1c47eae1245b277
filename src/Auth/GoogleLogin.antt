-- ===== src/Auth/GoogleLogin.antt =====
-- A login with Google, from the profile to the requests with its tokens.
use exchange_watch.Base.{ℕ, ◌+◌, ◌≡◌, ◌≤◌, refl, Bool, true, String, [], ◌∷◌, map, ok}
use exchange_watch.Users.Login.{SocialProvider, CreateBySocial, UserEntity, Users}
use exchange_watch.Users.Login.Social.{accounts, handle_social_login_lem}
use exchange_watch.Users.Login.Found.{IsKeyed, login-find_user_by_idx}
use exchange_watch.Auth.{
  Jwt, TokenConfig, Passport, jwt_access_guard, jwt_refresh_guard, issue_access_and_refresh_token,
}
use exchange_watch.Auth.Controller.{Cookie, google_auth_callback, google_validate, refresh_token}
use exchange_watch.Auth.Sessions.{with_bearer, with_cookie, let_in_until, session_lem}

-- The profile as `validate` passes it on.
abbrev pub profile : String → String → String → CreateBySocial
profile sub email name = record {
  social_id = sub;
  email = email;
  name = name;
  social_provider = SocialProvider.google;
  password = "";
}

module _ (J : Jwt) (K : TokenConfig) (P : Passport) (T : Users) where
  -- A login with Google, where at most one user has the account and the idx is a key: it succeeds, and the callback sets two
  -- cookies. The first one's token lets the user in at the refresh guard until it expires, and so does the second one's at the
  -- access guard; and so does the token of a renewal there, which expires later, counted from the renewal.
  pub google_validate-google_auth_callback :
      (production : Bool) (trim : String → String) (frontend_url sub email name : String)
      (now renewal later : ℕ) (db : T.Db)
      → accounts T (profile sub email name) db ≤ 1
      → IsKeyed T db
      → (user : UserEntity) × (after : T.Db) × (refresh access : J.Token) × (google_validate J K T
            sub email name db
          ≡ ok (user, after))
        × (map
              (λ (c : Cookie J K). c.value)
              (google_auth_callback J K production trim frontend_url user now).0
            ≡ refresh ∷ access ∷ [])
        × (jwt_refresh_guard J K P T true (with_cookie J K P T refresh) renewal after
            ≡ let_in_until J K P T (now + K.refresh_token_expires_in) renewal user)
        × (jwt_access_guard J K P T true (with_bearer J K P T access) later after
            ≡ let_in_until J K P T (now + K.access_token_expires_in) later user)
        × (jwt_access_guard J K P T true
              (with_bearer J K P T (refresh_token J K user renewal))
              later
              after
            ≡ let_in_until J K P T (renewal + K.access_token_expires_in) later user)
  unfolding google_validate google_auth_callback
  google_validate-google_auth_callback production trim frontend_url sub email name now renewal later
        db le keyed =
      let (user, after, e, one, has, again) =
        handle_social_login_lem T (profile sub email name) db le in
      let f = login-find_user_by_idx T (profile sub email name) db user after keyed e in
      let (a, r, n) = session_lem J K P T user now renewal later after f in
      let issued = issue_access_and_refresh_token J K user now in
      (user, after, issued.refresh_token, issued.access_token, e, refl, r, a, n)
