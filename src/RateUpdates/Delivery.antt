-- ===== src/RateUpdates/Delivery.antt =====
-- From a rate that is published to the clients and the devices.
use Prim.Native.String.{◌++◌ as str_append}
use text.Mathlib.TextLemmas.{append_assoc}
use exchange_watch.Base.{
  ℕ, ◌≡◌, refl, ap, ◌∙◌, Bool, true, false, Option, some, String, str_eq, [], ◌∷◌, ◌++◌, ok,
}
use exchange_watch.Numbers.{Numbers}
use exchange_watch.Strings.{split}
use exchange_watch.Strings.Laws.{lacks, split-between, lacks-append}
use exchange_watch.Date.{Dayjs}
use exchange_watch.Redis.Cache.{Client}
use exchange_watch.ExchangeRate.{UpdateRate, update_channel}
use exchange_watch.ExchangeRate.Latest.{FluctuationApi, World, final_threshold, update_in_day}
use exchange_watch.Sse.{emit_event}
use exchange_watch.Users.{Devices}
use exchange_watch.Notifications.{Notifications, handle_target_price_trigger}
use exchange_watch.RateUpdates.{Receivers, handle_message, handle_update_rate_event, deliver}

-- A code that the channel's name is put together from: not empty, and without the two characters that part the name.
abbrev pub IsCode : String → Type 0
IsCode s = (str_eq s "" ≡ false) × (lacks ":" s ≡ true) × (lacks "/" s ≡ true)

channel_pieces :
    (base code : String)
    → IsCode base
    → IsCode code
    → split ":" (update_channel base code)
      ≡ "rate-update" ∷ str_append base (str_append "/" code) ∷ []
unfolding lacks
channel_pieces base code (a, b, c) (d, e, f) =
    let pair : String = str_append base (str_append "/" code) in
    ap (split ":") (append_assoc "rate-update" ":" pair)
    ∙ split-between ":" "rate-update" pair refl
        (lacks-append ":" base (str_append "/" code) b (lacks-append ":" "/" code refl e))

module _ (N : Numbers) where
  -- What is published for a pair is received as an event of its base, with the same data, where the text is read back.
  pub handle_message-update_channel :
      (parse_json : String → Option (UpdateRate N)) (base code text : String) (u : UpdateRate N)
      → IsCode base
      → IsCode code
      → parse_json text ≡ some u
      → handle_message N parse_json (update_channel base code) text
        ≡ ok (some (record { base_currency = base; data' = u }))
  unfolding handle_message
  handle_message-update_channel parse_json base code text u a b e =
      rw
        (
          channel_pieces base code a b,
          handle_message,
          split-between "/" base code (a.2) (b.2),
          a.0,
          b.0,
          e,
        )
        refl

  abbrev pub in_day_update : String → String → N.Num → ℕ → N.Num → UpdateRate N
  in_day_update base code rate timestamp open_rate = record {
    base_currency = base;
    currency_code = code;
    hash = record {
      rate = rate;
      change = N.sub rate open_rate;
      change_pct = N.mul (N.div (N.sub rate open_rate) open_rate) (N.int 100);
      timestamp = timestamp;
      open_rate = open_rate;
    };
  }

  module _ (T : Notifications N) (U : Devices) (active : ℕ → Bool) (devices : U.Db)
      (notifications : T.Db) where
    deliver-update_channel :
        (parse_json : String → Option (UpdateRate N)) (base code text : String) (u : UpdateRate N)
        (w : Receivers N)
        → IsCode base
        → IsCode code
        → parse_json text ≡ some u
        → deliver N T U active devices notifications parse_json (update_channel base code) text w
          ≡ ok (record {
            sse = emit_event (UpdateRate N) base u w.sse;
            outbox =
                handle_target_price_trigger N T U active devices base u.currency_code u.hash.rate
                  notifications w.outbox;
          })
    unfolding deliver handle_update_rate_event
    deliver-update_channel parse_json base code text u w a b e =
        rw (handle_message-update_channel parse_json base code text u a b e, deliver) refl

    module _ (C : Client) (D : Dayjs) (api : FluctuationApi N) where
      -- A rate of the day that has changed by more than its threshold is published once, for its base and its currency, which
      -- are codes. An instance that receives the message, and reads its text back, emits the data to the clients of the base
      -- and triggers the notifications of the pair at this rate.
      pub update_in_day-deliver :
          (base code : String) (rate : N.Num) (timestamp : ℕ) (open_rate : N.Num)
          (before : World N C) (parse_json : String → Option (UpdateRate N)) (text : String)
          (w : Receivers N)
          → IsCode base
          → IsCode code
          → N.lt (final_threshold N C D api code open_rate) (N.abs (N.sub rate open_rate)) ≡ true
          → parse_json text ≡ some (in_day_update base code rate timestamp open_rate)
          → ((update_in_day N C D api base code rate timestamp open_rate before).published
              ≡ before.published
                ++ (update_channel base code, in_day_update base code rate timestamp open_rate)
                  ∷ [])
            × (deliver N T U active devices notifications parse_json
                  (update_channel base code)
                  text
                  w
                ≡ ok (record {
                  sse =
                      emit_event
                        (UpdateRate N)
                        base
                        (in_day_update base code rate timestamp open_rate)
                        w.sse;
                  outbox =
                      handle_target_price_trigger N T U active devices base code rate notifications
                        w.outbox;
                }))
      unfolding update_in_day final_threshold
      update_in_day-deliver base code rate timestamp open_rate before parse_json text w a b lt e = (
        rw lt refl,
        deliver-update_channel parse_json base code text
            (in_day_update base code rate timestamp open_rate) w a b e,
      )
