-- ===== src/Notifications/Tests.antt =====
-- Instances of the theorems on notifications, over tables in memory and numbers in unary.
use exchange_watch.Base.{ℕ, ◌+◌, ◌≡◌, refl, Bool, true, false, ◌&&◌, ◌==◌, [], ◌∷◌, filter, count_p}
use exchange_watch.Numbers.Unary.{unary_numbers}
use exchange_watch.Prisma.Memory.{table}
use exchange_watch.Users.{UserDeviceEntity, UserDeviceType, DeviceCreate, Devices}
use exchange_watch.Users
use exchange_watch.Notifications.{
  NotificationType, TargetPrice, NotificationEntity, History, NotificationCreate, data_of,
  Notifications, of_currencies, Outbox, reached, handle_target_price_trigger,
}
use exchange_watch.Notifications.Targets.{row_of, handle_target_price_trigger_lem}

abbrev build : ℕ → NotificationCreate unary_numbers → NotificationEntity unary_numbers
build n d = record {
  idx = n;
  user_idx = d.user_idx;
  notification_type = d.notification_type;
  notification_data = d.notification_data;
  is_active = true;
  created_at = 0;
  updated_at = 0;
}

abbrev pub store : Notifications unary_numbers
store = table (λ r. r.idx) build (data_of unary_numbers) (λ d r. false) (λ n d. refl) (λ n d. refl)

abbrev build_device : ℕ → DeviceCreate → UserDeviceEntity
build_device n d = record {
  idx = n;
  user_idx = d.user_idx;
  device_token = d.device_token;
  device_type = d.device_type;
  created_at = 0;
}

abbrev pub device_store : Devices
device_store =
    table (λ r. r.idx) build_device Users.data_of Users.conflict (λ n d. refl) (λ n d. refl)

abbrev pub devices : device_store.Db
unfolding table
devices =
    record {
      idx = 1;
      user_idx = 3;
      device_token = "t";
      device_type = UserDeviceType.ios;
      created_at = 0;
    }
    ∷ []

abbrev target : TargetPrice unary_numbers
target = record { base_currency = "KRW"; currency_code = "USD"; target_price = 5 }

abbrev pub rows : store.Db
unfolding table
rows =
    build 1 (record {
      user_idx = 3;
      notification_type = NotificationType.target_price;
      notification_data = target;
    })
    ∷ []

abbrev pub nothing : Outbox unary_numbers
nothing = record { histories = []; messages = [] }

-- Rows of the first notification and of the third user.
abbrev of_first : History unary_numbers → Bool
of_first h = (h.notification_idx == 1) && (h.user_idx == 3)

handle_target_price_trigger_example :
    count_p of_first (
      (handle_target_price_trigger unary_numbers store device_store
        (λ u. true)
        devices
        "KRW"
        "USD"
        6
        rows
        nothing).histories)
    ≡ 0
      + count_p
          (λ r.
            reached unary_numbers store device_store (λ u. true) devices 6 r
            && of_first (row_of unary_numbers store r))
          (filter (of_currencies unary_numbers "KRW" "USD") (store.rows rows))
handle_target_price_trigger_example =
    handle_target_price_trigger_lem unary_numbers store device_store (λ u. true) devices of_first
      "KRW" "USD" 6 rows nothing
