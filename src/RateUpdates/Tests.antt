-- ===== src/RateUpdates/Tests.antt =====
-- Instances of the theorems on the changes of rates.
use exchange_watch.Base.{◌-◌, ◌≡◌, refl, true, false, some, List, [], ◌∷◌, ok}
use exchange_watch.Strings.Laws.{lacks}
use exchange_watch.Numbers.Unary.{unary_numbers, parse}
use exchange_watch.Date.Tests.{unary_dayjs}
use exchange_watch.Redis.Cache.Stored.{empty, client}
use exchange_watch.ExchangeRate.{update_channel}
use exchange_watch.ExchangeRate.Latest.{World, update_in_day, final_threshold}
use exchange_watch.Sse.{new_service, emit_event}
use exchange_watch.Notifications.{handle_target_price_trigger}
use exchange_watch.Notifications.Tests.{store, device_store, devices, rows, nothing}
use exchange_watch.RateUpdates.{Receivers, deliver}
use exchange_watch.RateUpdates.Subscription.{Call}
use exchange_watch.RateUpdates.Delivery.{IsCode, in_day_update, update_in_day-deliver}

abbrev calls : List Call
calls =
    Call.subscribing false
    ∷ Call.subscribing true
    ∷ Call.subscribing true
    ∷ Call.unsubscribing false
    ∷ []

abbrev before : World unary_numbers client
before = record { db = empty; published = []; raws = [] }

abbrev receivers : Receivers unary_numbers
receivers = record { sse = new_service _; outbox = nothing }

krw : IsCode "KRW"
unfolding lacks
krw = (refl, refl, refl)

usd : IsCode "USD"
unfolding lacks
usd = (refl, refl, refl)

big_change :
    unary_numbers.lt
      (final_threshold unary_numbers client unary_dayjs (λ s e b c. some []) "USD" 5)
      (29 - 5)
    ≡ true
unfolding final_threshold parse
big_change = refl

update_in_day-deliver_example :
    ((update_in_day unary_numbers client unary_dayjs
        (λ s e b c. some [])
        "KRW"
        "USD"
        29
        8
        5
        before).published
      ≡ (update_channel "KRW" "USD", in_day_update unary_numbers "KRW" "USD" 29 8 5) ∷ [])
    × (deliver unary_numbers store device_store
          (λ u. true)
          devices
          rows
          (λ t. some (in_day_update unary_numbers "KRW" "USD" 29 8 5))
          (update_channel "KRW" "USD")
          "{}"
          receivers
        ≡ ok (record {
          sse = emit_event _ "KRW" (in_day_update unary_numbers "KRW" "USD" 29 8 5) receivers.sse;
          outbox =
              handle_target_price_trigger unary_numbers store device_store
                (λ u. true)
                devices
                "KRW"
                "USD"
                29
                rows
                nothing;
        }))
update_in_day-deliver_example =
    update_in_day-deliver unary_numbers store device_store (λ u. true) devices rows client
      unary_dayjs (λ s e b c. some []) "KRW" "USD" 29 8 5 before
      (λ t. some (in_day_update unary_numbers "KRW" "USD" 29 8 5)) "{}" receivers krw usd big_change
      refl
