-- ===== src/Users/Login/Tests.antt =====
-- Instances of the theorems on logins, over a table in memory.
use exchange_watch.Base.{ℕ, ◌≡◌, ◌≤◌, refl, false, [], ◌∷◌, none, ok, String, arith}
use exchange_watch.Prisma.Memory.{table, find}
use exchange_watch.Users.Login.{
  SocialProvider, CreateBySocial, UserRow, UserEntity, Users, find_user_by_social_id, login_found,
  handle_social_login,
}
use exchange_watch.Users.Login.Social.{
  accounts, HasAccount, handle_social_login_lem, simultaneous_logins,
}

abbrev build : ℕ → CreateBySocial → UserRow
build n d = record { idx = n; created = d; created_at = 0; updated_at = 0; deleted_at = none }

abbrev pub store : Users
store = table (λ r. r.idx) build (λ r. r.created) (λ d r. false) (λ n d. refl) (λ n d. refl)

abbrev pub ann : CreateBySocial
ann = record {
  email = "ann@example.com";
  name = "Ann";
  password = "";
  social_id = "17";
  social_provider = SocialProvider.google;
}

abbrev pub ben : CreateBySocial
ben = record {
  email = "ben@example.com";
  name = "Ben";
  password = "";
  social_id = "18";
  social_provider = SocialProvider.google;
}

abbrev pub rows : store.Db
unfolding table
rows = build 1 ann ∷ []

pub one_account : accounts store ann rows ≤ 1
unfolding table
one_account = omega arith

handle_social_login_example :
    (user : UserEntity) × (later : store.Db) × (handle_social_login store ann rows
      ≡ ok (user, later))
    × (accounts store ann later ≡ 1)
    × HasAccount store ann user later
    × ((email name password : String)
        → handle_social_login store
            (record ann { email = email; name = name; password = password })
            later
          ≡ ok (user, later))
handle_social_login_example = handle_social_login_lem store ann rows one_account

unknown : find_user_by_social_id store "18" SocialProvider.google rows ≡ none
unfolding find_user_by_social_id table find
unknown = refl

no_account : accounts store ben rows ≡ 0
unfolding table
no_account = refl

simultaneous_logins_example :
    (user : UserEntity) × (next : store.Db) × (other : UserEntity) × (later : store.Db)
    × (login_found store (find_user_by_social_id store "18" SocialProvider.google rows) ben rows
        ≡ ok (user, next))
    × (login_found store (find_user_by_social_id store "18" SocialProvider.google rows) ben next
        ≡ ok (other, later))
    × (accounts store ben later ≡ 2)
simultaneous_logins_example = simultaneous_logins store ben rows unknown no_account
