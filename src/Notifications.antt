-- ===== src/Notifications.antt =====
-- modules/notifications and modules/fcm: the notifications of a target price, and when they are sent.
pub mod Targets
pub mod Pages
pub mod Tests
use exchange_watch.Base.{
  ℕ, ◌+◌, ◌-◌, ◌*◌, ◌≡◌, Bool, true, false, not, ◌&&◌, Option, none, some, List, [], ◌∷◌, ◌++◌, map,
  String, str_eq, Result, ok, err, ◌==◌, leb, length, any, map_err, if◌then◌else◌,
}
use exchange_watch.Numbers.{Numbers}
use exchange_watch.Prisma.{DbError, Table}
use exchange_watch.Users.{UserDeviceEntity, Devices, find_tokens_by_user}

-- `NOTIFICATION_TYPES`
pub data NotificationType : Type 0 where
  target_price rapid_fluctuation daily_report : NotificationType

abbrev pub is_target_price : NotificationType → Bool
is_target_price NotificationType.target_price = true
is_target_price NotificationType.rapid_fluctuation = false
is_target_price NotificationType.daily_report = false

pub data NotificationError : Type 0 where
  too_many already_register_notification : NotificationError
  database : DbError → NotificationError

-- `MAX_NOTIFICATION_COUNT`
abbrev pub max_notification_count : ℕ
max_notification_count = 10

-- `getOffset`
abbrev pub get_offset : ℕ → ℕ → ℕ
get_offset page limit = (page - 1) * limit

module _ (N : Numbers) where
  -- `NotificationDataMap['TARGET_PRICE']`; no code writes the data of another type.
  pub record TargetPrice : Type 0 where
    pub base_currency : String
    pub currency_code : String
    pub target_price : N.Num

  -- entities/notification.entity.ts, with its uuid as a number, since uuids are only compared
  pub record NotificationEntity : Type 0 where
    pub idx : ℕ
    pub user_idx : ℕ
    pub notification_type : NotificationType
    pub notification_data : TargetPrice
    pub is_active : Bool
    pub created_at : ℕ
    pub updated_at : ℕ

  -- `INotification.ICreate`
  pub record NotificationCreate : Type 0 where
    pub user_idx : ℕ
    pub notification_type : NotificationType
    pub notification_data : TargetPrice

  abbrev pub data_of : NotificationEntity → NotificationCreate
  data_of r = record {
    user_idx = r.user_idx;
    notification_type = r.notification_type;
    notification_data = r.notification_data;
  }

  -- The table has no unique constraint.
  abbrev pub Notifications : Type 1
  Notifications =
      Table NotificationEntity NotificationCreate (λ a b. a.idx == b.idx) data_of (λ d r. false)

  abbrev pub of_user : ℕ → NotificationEntity → Bool
  of_user user_idx r = r.user_idx == user_idx

  abbrev pub of_type_and_user : ℕ → NotificationEntity → Bool
  of_type_and_user user_idx r = is_target_price r.notification_type && (r.user_idx == user_idx)

  abbrev pub of_currencies : String → String → NotificationEntity → Bool
  of_currencies base code r =
      str_eq r.notification_data.base_currency base && str_eq r.notification_data.currency_code code

  -- What `createPriceNotification` compares.
  abbrev pub same_target : TargetPrice → NotificationEntity → Bool
  same_target input r =
      str_eq input.base_currency r.notification_data.base_currency
      && (str_eq input.currency_code r.notification_data.currency_code
          && N.eq input.target_price r.notification_data.target_price)

  -- A message of Firebase, which is given what to send and whose answer is only logged.
  pub record Message : Type 0 where
    pub tokens : List String
    pub payload : TargetPrice

  -- `createNotificationHistory`
  pub record History : Type 0 where
    pub notification_idx : ℕ
    pub user_idx : ℕ
    pub details : TargetPrice

  -- `SelectPriceNotificationResDto`
  pub record SelectPriceNotificationResDto : Type 0 where
    pub items : List NotificationEntity
    pub total_count : ℕ
    pub limit : ℕ
    pub offset : ℕ

  pub record Outbox : Type 0 where
    pub histories : List History
    pub messages : List Message

  module _ (T : Notifications) where
    -- `createPriceNotification`, with the repository's calls
    pub create_price_notification :
        TargetPrice → ℕ → T.Db → Result NotificationError (NotificationEntity × T.Db)
    create_price_notification input user_idx db =
        if leb max_notification_count (T.count (of_user user_idx) db)
        then err too_many
        else if any (same_target input) (T.find_many (of_type_and_user user_idx) db)
        then err already_register_notification
        else map_err NotificationError.database (
            T.create
              (record {
                user_idx = user_idx;
                notification_type = NotificationType.target_price;
                notification_data = input;
              })
              db)

    abbrev pub active_target : ℕ → NotificationEntity → Bool
    active_target user_idx r =
        (r.user_idx == user_idx) && (r.is_active && is_target_price r.notification_type)

    -- `getNotificationsWithOffset` for target prices
    unfoldable pub get_notifications_with_offset : ℕ → ℕ → ℕ → T.Db → List NotificationEntity
    get_notifications_with_offset user_idx limit offset db =
        T.find_page (active_target user_idx) limit offset db

    -- `getPriceNotificationList`, of the request's `page` and `limit`, which validation keeps from 1 on
    unfoldable pub get_price_notification_list : ℕ → ℕ → ℕ → T.Db → List NotificationEntity × ℕ × ℕ
    unfolding get_notifications_with_offset
    get_price_notification_list page limit user_idx db =
        let offset = get_offset page limit in
        (get_notifications_with_offset user_idx limit offset db, limit, offset)

    -- notification.controller.ts answers with the list in a response.
    unfoldable pub get_notification_list : ℕ → ℕ → ℕ → T.Db → SelectPriceNotificationResDto
    unfolding get_price_notification_list
    get_notification_list page limit user_idx db =
        let (items, limit', offset) = get_price_notification_list page limit user_idx db in
        record { items = items; total_count = length items; limit = limit'; offset = offset }

    module _ (U : Devices) (active : ℕ → Bool) (devices : U.Db) where
      -- `sendNotificationToDevice`
      send_notification_to_device : ℕ → TargetPrice → Outbox → Outbox
      unfolding find_tokens_by_user
      send_notification_to_device user_idx payload w =
          elim (find_tokens_by_user U active user_idx devices) [
            | [] ↦ w
            | d ∷ ds ↦ record w {
              messages =
                  w.messages
                  ++ record {
                    tokens = map (λ (e : UserDeviceEntity). e.device_token) (d ∷ ds);
                    payload = payload;
                  }
                    ∷ [];
            }
          ]

      -- `notification.notificationData.targetPrice <= latestRate`
      abbrev pub reached : N.Num → NotificationEntity → Bool
      reached latest_rate r = N.le r.notification_data.target_price latest_rate

      -- One notification of `handleTargetPriceTrigger`.
      trigger_one : String → String → N.Num → NotificationEntity → Outbox → Outbox
      unfolding send_notification_to_device
      trigger_one base code latest_rate r w =
          if reached latest_rate r
          then send_notification_to_device r.user_idx
              (record { base_currency = base; currency_code = code; target_price = latest_rate })
              (record w {
                histories =
                    w.histories
                    ++ record {
                      notification_idx = r.idx;
                      user_idx = r.user_idx;
                      details = r.notification_data;
                    }
                      ∷ [];
              })
          else w

      trigger_all : String → String → N.Num → List NotificationEntity → Outbox → Outbox
      unfolding trigger_one
      trigger_all base code latest_rate [] w = w
      trigger_all base code latest_rate (r ∷ rs) w =
          trigger_all base code latest_rate rs (trigger_one base code latest_rate r w)

      -- `handleTargetPriceTrigger`; the notifications that it awaits together are taken one after another
      pub handle_target_price_trigger : String → String → N.Num → T.Db → Outbox → Outbox
      unfolding trigger_all
      handle_target_price_trigger base code latest_rate db w =
          trigger_all base code latest_rate (T.find_many (of_currencies base code) db) w
