-- ===== src/Auth/Controller.antt =====
-- auth.controller.ts, with `validate` of google.strategy.ts, which runs before its callback.
use exchange_watch.Base.{
  ℕ, ◌*◌, Bool, true, false, String, List, [], ◌∷◌, map, Result, ok, ◌>>=◌, if◌then◌else◌,
}
use exchange_watch.Strings.{split, join}
use exchange_watch.Users.Login.{
  UserEntity, UserError, Users, SocialProvider, find_user_by_idx, handle_social_login,
}
use exchange_watch.Auth.{Jwt, TokenConfig, issue_access_and_refresh_token, refresh_access_token}

module _ (J : Jwt) (K : TokenConfig) where
  open J use {Token}

  -- `res.cookie`
  pub record Cookie : Type 0 where
    pub name : String
    pub value : Token
    pub http_only : Bool
    pub secure : Bool
    pub same_site : String
    pub max_age : ℕ
    pub path : String

  -- `res.clearCookie`
  pub record ClearedCookie : Type 0 where
    pub name : String
    pub http_only : Bool
    pub secure : Bool
    pub same_site : String
    pub path : String

  abbrev pub same_site_of : Bool → String
  same_site_of production = if production then "none" else "lax"

  abbrev pub refresh_cookie_of : Bool → Token → Cookie
  refresh_cookie_of production token = record {
    name = "refreshToken";
    value = token;
    http_only = true;
    secure = production;
    same_site = same_site_of production;
    max_age = 14 * 24 * 60 * 60 * 1000;
    path = "/";
  }

  -- `googleAuthCallback`, with the cookies and the URL that it redirects to
  unfoldable pub google_auth_callback :
      Bool → (String → String) → String → UserEntity → ℕ → List Cookie × String
  unfolding issue_access_and_refresh_token split
  google_auth_callback production trim frontend_url user now =
      let issued = issue_access_and_refresh_token J K user now in
      (
        refresh_cookie_of production issued.refresh_token
            ∷ record {
              name = "tempAccessToken";
              value = issued.access_token;
              http_only = false;
              secure = production;
              same_site = same_site_of production;
              max_age = 5 * 60 * 1000;
              path = "/";
            }
            ∷ [],
        join "" (join "," (map trim (split "," frontend_url)) ∷ "/auth/callback?success=true" ∷ []),
      )

  module _ (T : Users) where
    -- `googleDevLogin`: the cookie that it sets, the access token and the user of the answer
    unfoldable pub google_dev_login :
        Bool → Bool → ℕ → T.Db → Result UserError (Cookie × Token × UserEntity)
    unfolding issue_access_and_refresh_token
    google_dev_login production answered now db = find_user_by_idx T answered 1 db >>= (λ test_user.
        let issued = issue_access_and_refresh_token J K test_user now in
        (ok (refresh_cookie_of production issued.refresh_token, issued.access_token, test_user)))

    -- `validate` of google.strategy.ts on the profile's `sub`, `email` and `name`
    unfoldable pub google_validate :
        String → String → String → T.Db → Result UserError (UserEntity × T.Db)
    google_validate sub email name db =
        handle_social_login T
          (record {
            social_id = sub;
            email = email;
            name = name;
            social_provider = SocialProvider.google;
            password = "";
          })
          db

  -- `refreshToken`
  unfoldable pub refresh_token : UserEntity → ℕ → Token
  unfolding refresh_access_token
  refresh_token user now = refresh_access_token J K user now

  -- `logout`, with the cookie that it clears
  unfoldable pub logout : Bool → ClearedCookie
  logout production = record {
    name = "refreshToken";
    http_only = true;
    secure = production;
    same_site = same_site_of production;
    path = "/";
  }
