-- ===== src/Users/Tests.antt =====
-- Instances of the theorems on devices, over a table in memory.
use exchange_watch.Base.{ℕ, ◌≡◌, ◌≤◌, refl, true, [], ◌∷◌, ok, count_p, IsIn, some, arith}
use exchange_watch.Prisma.Memory.{table, find}
use exchange_watch.Users.{
  UserDeviceEntity, UserDeviceType, DeviceCreate, Devices, data_of, conflict, of_token,
  register_user_device,
}
use exchange_watch.Users.Devices.{Owns, register_user_device_lem}

abbrev build : ℕ → DeviceCreate → UserDeviceEntity
build n d = record {
  idx = n;
  user_idx = d.user_idx;
  device_token = d.device_token;
  device_type = d.device_type;
  created_at = 0;
}

abbrev store : Devices
store = table (λ r. r.idx) build data_of conflict (λ n d. refl) (λ n d. refl)

abbrev device : UserDeviceEntity
device = record {
  idx = 1;
  user_idx = 3;
  device_token = "t";
  device_type = UserDeviceType.ios;
  created_at = 0;
}

abbrev rows : store.Db
unfolding table
rows = device ∷ []

abbrev input : DeviceCreate
input = record { user_idx = 4; device_token = "t"; device_type = UserDeviceType.android }

one_row : count_p (of_token "t") (store.rows rows) ≤ 1
unfolding table
one_row = omega arith

all_active : (r : UserDeviceEntity) → IsIn r (store.rows rows) → of_token "t" r ≡ true → true ≡ true
all_active r i h = refl

register_user_device_example :
    (later : store.Db) × (register_user_device store (λ u. true) input rows ≡ ok later)
    × Owns store (λ u. true) input (store.rows later)
register_user_device_example =
    register_user_device_lem store (λ u. true) input rows one_row all_active

finds : store.find_first (of_token "t") rows ≡ some device
unfolding table find
finds = refl
