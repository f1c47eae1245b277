-- ===== src/Users/Login.antt =====
-- users.repository.ts, what users.service.ts does with users, and the profile of users.controller.ts.
pub mod Social
pub mod Found
pub mod Tests
use exchange_watch.Base.{
  ℕ, ◌≡◌, Bool, true, false, not, ◌&&◌, Option, none, some, String, str_eq, Result, ok, err, ◌==◌,
  ◌>>=◌, map_err, if◌then◌else◌,
}
use exchange_watch.Prisma.{DbError, Table}

-- `SOCIAL_PROVIDERS`
pub data SocialProvider : Type 0 where
  google kakao : SocialProvider

abbrev pub same_provider : SocialProvider → SocialProvider → Bool
same_provider SocialProvider.google SocialProvider.google = true
same_provider SocialProvider.google SocialProvider.kakao = false
same_provider SocialProvider.kakao SocialProvider.google = false
same_provider SocialProvider.kakao SocialProvider.kakao = true

-- `IUser.ICreateBySocial`
pub record CreateBySocial : Type 0 where
  pub email : String
  pub name : String
  pub password : String
  pub social_id : String
  pub social_provider : SocialProvider

-- The model `Users` of schema.prisma, each user with what it was created from; the default of `deletedAt` is null
pub record UserRow : Type 0 where
  pub idx : ℕ
  pub created : CreateBySocial
  pub created_at : ℕ
  pub updated_at : ℕ
  pub deleted_at : Option ℕ

-- entities/user.entity.ts, without the password, which `from` leaves out
pub record UserEntity : Type 0 where
  pub idx : ℕ
  pub email : String
  pub name : String
  pub social_provider : SocialProvider
  pub social_id : String
  pub created_at : ℕ
  pub updated_at : ℕ

-- `UserEntity.from`
abbrev pub from_row : UserRow → UserEntity
from_row r = record {
  idx = r.idx;
  email = r.created.email;
  name = r.created.name;
  social_provider = r.created.social_provider;
  social_id = r.created.social_id;
  created_at = r.created_at;
  updated_at = r.updated_at;
}

-- The data of a new row. Its `deletedAt` is null, and PostgreSQL takes nulls as distinct: no new row conflicts with another.
abbrev pub Users : Type 1
Users = Table UserRow CreateBySocial (λ a b. a.idx == b.idx) (λ r. r.created) (λ d r. false)

pub data UserError : Type 0 where
  user_not_found query_failed : UserError
  database : DbError → UserError

-- `where: { idx }` and `where: { socialProvider, socialId }`
abbrev pub of_idx : ℕ → UserRow → Bool
of_idx user_idx r = r.idx == user_idx

abbrev pub of_social : String → SocialProvider → UserRow → Bool
of_social social_id social_provider r =
    same_provider r.created.social_provider social_provider && str_eq r.created.social_id social_id

-- `found ? UserEntity.from(found) : null`
abbrev pub entity_of : Option UserRow → Option UserEntity
entity_of none = none
entity_of (some r) = some (from_row r)

module _ (T : Users) where
  open T use {Db}

  -- `createUser`
  unfoldable pub create_user : CreateBySocial → Db → Result UserError (UserEntity × Db)
  create_user input db = elim (T.create input db) [
    | err e ↦ err (UserError.database e)
    | ok (row, later) ↦ ok (from_row row, later)
  ]

  -- `findUserByIdx` of the repository
  find_first_by_idx : ℕ → Db → Option UserEntity
  find_first_by_idx user_idx db = entity_of (T.find_first (of_idx user_idx) db)

  -- `findUserBySocialId`
  unfoldable pub find_user_by_social_id : String → SocialProvider → Db → Option UserEntity
  find_user_by_social_id social_id social_provider db =
      entity_of (T.find_first (of_social social_id social_provider) db)

  -- `findUserByIdx` of the service, where the database answers the query or not
  unfoldable pub find_user_by_idx : Bool → ℕ → Db → Result UserError UserEntity
  unfolding find_first_by_idx
  find_user_by_idx answered user_idx db =
      if answered
      then elim (find_first_by_idx user_idx db) [ none ↦ err user_not_found | some user ↦ ok user ]
      else err query_failed

  -- `handleSocialLogin`, after the user has been looked up
  unfoldable pub login_found :
      Option UserEntity → CreateBySocial → Db → Result UserError (UserEntity × Db)
  unfolding create_user
  login_found (some user) input db = ok (user, db)
  login_found none input db = create_user input db

  -- `handleSocialLogin`
  unfoldable pub handle_social_login : CreateBySocial → Db → Result UserError (UserEntity × Db)
  unfolding login_found find_user_by_social_id
  handle_social_login input db =
      login_found (find_user_by_social_id input.social_id input.social_provider db) input db

  -- `getUserProfile`; `UserProfileResDto` has the properties of the entity
  unfoldable pub get_user_profile : Bool → UserEntity → Db → Result UserError UserEntity
  unfolding find_user_by_idx
  get_user_profile answered user db = find_user_by_idx answered user.idx db
