-- ===== src/Users.antt =====
-- modules/users: users-device.repository.ts, and what users.service.ts does with devices.
pub mod Devices
pub mod Login
mod Tests
use exchange_watch.Base.{
  ℕ, ◌+◌, ◌≡◌, Bool, true, false, not, ◌&&◌, Option, none, some, List, [], ◌∷◌, String, str_eq,
  Result, ok, err, ◌==◌, any, is_some, if◌then◌else◌,
}
use exchange_watch.Prisma.{DbError, Table}

-- The values of user-device-type.constant.ts.
pub data UserDeviceType : Type 0 where
  android ios : UserDeviceType

-- entities/user-device.entity.ts, with its uuid as a number, since uuids are only compared.
pub record UserDeviceEntity : Type 0 where
  pub idx : ℕ
  pub user_idx : ℕ
  pub device_token : String
  pub device_type : UserDeviceType
  pub created_at : ℕ

-- `IUserDevice.ICreate`
pub record DeviceCreate : Type 0 where
  pub user_idx : ℕ
  pub device_token : String
  pub device_type : UserDeviceType

abbrev pub data_of : UserDeviceEntity → DeviceCreate
data_of r = record {
  user_idx = r.user_idx;
  device_token = r.device_token;
  device_type = r.device_type;
}

-- `where: { userIdx_deviceToken }` and `where: { deviceToken }`
abbrev pub of_pair : ℕ → String → UserDeviceEntity → Bool
of_pair user_idx device_token r = (r.user_idx == user_idx) && str_eq r.device_token device_token

abbrev pub of_token : String → UserDeviceEntity → Bool
of_token device_token r = str_eq r.device_token device_token

-- `@@unique([userIdx, deviceToken])`
abbrev pub conflict : DeviceCreate → UserDeviceEntity → Bool
conflict d r = of_pair d.user_idx d.device_token r

abbrev pub Devices : Type 1
Devices = Table UserDeviceEntity DeviceCreate (λ a b. a.idx == b.idx) data_of conflict

-- `active` tells of which users `deletedAt` is null in the table of users.
module _ (T : Devices) (active : ℕ → Bool) where
  open T use {Db}

  unfoldable pub find_tokens_by_user : ℕ → Db → List UserDeviceEntity
  find_tokens_by_user user_idx db =
      T.find_many (λ r. (r.user_idx == user_idx) && active r.user_idx) db

  find_token_by_user : ℕ → String → Db → Option UserDeviceEntity
  find_token_by_user user_idx device_token db =
      T.find_first (λ r. of_pair user_idx device_token r && active r.user_idx) db

  find_token_by_device_token : String → Db → Option UserDeviceEntity
  find_token_by_device_token device_token db = T.find_first (of_token device_token) db

  delete_device_token : ℕ → String → Db → Result DbError Db
  delete_device_token user_idx device_token db =
      T.delete (λ r. of_pair user_idx device_token r && active r.user_idx) db

  upsert_device_token : DeviceCreate → Db → Result DbError Db
  upsert_device_token input db =
      T.upsert (of_pair input.user_idx input.device_token)
        (λ r. record r {
          user_idx = input.user_idx;
          device_type = input.device_type;
          device_token = input.device_token;
        })
        input db

  -- `registerUserDevice`: its transaction is rolled back where a call fails
  pub register_user_device : DeviceCreate → Db → Result DbError Db
  unfolding find_token_by_device_token delete_device_token upsert_device_token
  register_user_device input db = elim (find_token_by_device_token input.device_token db) [
    | none ↦ upsert_device_token input db
    | some existing ↦
        if existing.user_idx == input.user_idx
        then upsert_device_token input db
        else elim (delete_device_token existing.user_idx existing.device_token db) [
          | err e ↦ err e
          | ok later ↦ upsert_device_token input later
        ]
  ]

  -- `deleteUserDevice`
  pub delete_user_device : ℕ → String → Db → Result DbError Db
  unfolding find_token_by_user delete_device_token
  delete_user_device user_idx device_token db = elim (find_token_by_user user_idx device_token db) [
    | none ↦ ok db
    | some found ↦ delete_device_token user_idx device_token db
  ]
