-- ===== src/RateUpdates.antt =====
-- The changes of rates between the instances: infrastructure/redis/subscribers/rate-update.subscriber.ts, which receives what
-- publishRateUpdate sends, and modules/exchange-rate/listeners/update-rate.listener.ts, which passes it on.
pub mod Subscription
pub mod Delivery
mod Tests
use exchange_watch.Base.{
  ℕ, zero, suc, ◌+◌, Bool, true, false, ◌&&◌, Option, none, some, String, List, [], ◌∷◌, Result, ok,
  err, if◌then◌else◌,
}
use exchange_watch.Numbers.{Numbers, is_truthy}
use exchange_watch.Strings.{split}
use exchange_watch.ExchangeRate.{UpdateRate}
use exchange_watch.Sse.{LatestRateSseService, emit_event}
use exchange_watch.Users.{Devices}
use exchange_watch.Notifications.{Notifications, Outbox, handle_target_price_trigger}

-- A channel without a colon has no second piece to split; a message need not be JSON.
pub data MessageError : Type 0 where
  type_error syntax_error : MessageError

-- `pieces[n]`
abbrev pub piece : ℕ → List String → Option String
piece n [] = none
piece zero (s ∷ pieces) = some s
piece (suc n) (s ∷ pieces) = piece n pieces

-- `subscriber`, as far as the class changes it: whether the pattern is subscribed at Redis, and how often `handleMessage`
-- listens to its messages.
pub record RateUpdateSubscriber : Type 0 where
  pub is_subscribed : Bool
  pub at_redis : Bool
  pub listeners : ℕ

abbrev pub new_subscriber : RateUpdateSubscriber
new_subscriber = record { is_subscribed = false; at_redis = false; listeners = 0 }

-- `subscribe`, where `psubscribe` is answered or fails; the failure is thrown on
unfoldable pub subscribe : Bool → RateUpdateSubscriber → RateUpdateSubscriber
subscribe answered s =
    if s.is_subscribed
    then s
    else if answered
    then record { is_subscribed = true; at_redis = true; listeners = s.listeners + 1 }
    else s

-- `unsubscribe`, where `punsubscribe` is answered or fails; the failure is logged
unfoldable pub unsubscribe : Bool → RateUpdateSubscriber → RateUpdateSubscriber
unsubscribe answered s =
    if s.is_subscribed
    then (if answered then record { is_subscribed = false; at_redis = false; listeners = 0 } else s)
    else s

module _ (N : Numbers) where
  -- update-rate.event.ts
  pub record UpdateRateEvent : Type 0 where
    pub base_currency : String
    pub data' : UpdateRate N

  module _ (parse_json : String → Option (UpdateRate N)) where
    -- `handleMessage` from the pieces of the pair on
    abbrev pub pair_message :
        Option String → Option String → String → Result MessageError (Option UpdateRateEvent)
    pair_message base code message =
        if is_truthy base && is_truthy code
        then elim base [
          | none ↦ ok none
          | some base_currency ↦ elim (parse_json message) [
            | none ↦ err syntax_error
            | some rate_data ↦
                ok (some (record { base_currency = base_currency; data' = rate_data }))
          ]
        ]
        else ok none

    -- `handleMessage`, with the event that it emits, if any
    unfoldable pub handle_message : String → String → Result MessageError (Option UpdateRateEvent)
    unfolding split
    handle_message channel message = elim (piece 1 (split ":" channel)) [
      | none ↦ err type_error
      | some currency_pairs ↦
          let pieces = split "/" currency_pairs in
          pair_message (piece 0 pieces) (piece 1 pieces) message
    ]

  -- What the listener changes: the channels of the clients, and what is sent to devices.
  pub record Receivers : Type 0 where
    pub sse : LatestRateSseService (UpdateRate N)
    pub outbox : Outbox N

  module _ (T : Notifications N) (U : Devices) (active : ℕ → Bool) (devices : U.Db)
      (notifications : T.Db) where
    -- `handleUpdateRateEvent`
    unfoldable pub handle_update_rate_event : UpdateRateEvent → Receivers → Receivers
    handle_update_rate_event event w = record {
      sse = emit_event (UpdateRate N) event.base_currency event.data' w.sse;
      outbox =
          handle_target_price_trigger N T U active devices event.base_currency
            event.data'.currency_code event.data'.hash.rate notifications w.outbox;
    }

    -- A message of Redis that a listener is called with, and what follows.
    unfoldable pub deliver :
        (String → Option (UpdateRate N))
        → String
        → String
        → Receivers
        → Result MessageError Receivers
    unfolding handle_message handle_update_rate_event
    deliver parse_json channel message w = elim (handle_message parse_json channel message) [
      | err e ↦ err e
      | ok none ↦ ok w
      | ok (some event) ↦ ok (handle_update_rate_event event w)
    ]
