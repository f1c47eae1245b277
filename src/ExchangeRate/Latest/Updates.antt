-- ===== src/ExchangeRate/Latest/Updates.antt =====
-- What a rate that arrives does to Redis, to the messages and to the raw records.
use exchange_watch.Base.{
  ℕ, ◌+◌, ◌/◌, ◌≡◌, ◌≢◌, ◌∙◌, ap, refl, sym, Bool, true, false, Option, some, String, str_eq,
  eq_iff, List, [], ◌∷◌, ◌++◌, Result, ok, err, if◌then◌else◌, length, length-append, All,
  Bool-cases, inl, inr, arith,
}
use Prim.Native.Char.{Char}
use Prim.Native.String.{◌++◌ as str_append}
use text.Mathlib.TextLemmas.{cons-append, append_assoc, append_cancel_left}
use exchange_watch.Numbers.{Numbers}
use exchange_watch.Date.{Dayjs, InUtc, is_new_trading_day, ms_per_day}
use exchange_watch.Date.Market.{is_new_trading_day_iff}
use exchange_watch.Redis.Cache.{Client, hset, hmget, set, written}
use exchange_watch.ExchangeRate.{
  LatestRateHash, hash_fields, rate_key, update_channel, get_latest_rate, set_latest_rate,
  update_latest_rate, update_health_check, health_key,
}
use exchange_watch.ExchangeRate.Latest.{
  FluctuationApi, ServiceError, World, stored_fields, final_threshold, update_in_day, update_stored,
  handle_latest_rate_update,
}

-- The keys of the rates are not those of the health checks.
first : String → String
first String.[] = ""
first (String.◌∷◌ c s) = String.◌∷◌ c ""

first-append : (c : Char) (s t : String) → first (str_append (String.◌∷◌ c s) t) ≡ String.◌∷◌ c ""
unfolding first
first-append c s t = rw (cons-append c s t) refl

clash : (a b : String) → first a ≡ "h" → first b ≡ "l" → a ≢ b
clash a b p q e = cc ((eq_iff "h" "l").1 (sym p ∙ ap first e ∙ q))

other_key : (base code : String) → str_eq (health_key base) (rate_key "KRW" code) ≡ false
other_key base code = elim (Bool-cases (str_eq (health_key base) (rate_key "KRW" code))) [
  | inl h ↦
      let e = (eq_iff (health_key base) (rate_key "KRW" code)).0 h in
      let rest = str_append "KRW" (str_append "/" code) in
      let f : str_append "exchange-rate:" (str_append "health-check:" base)
          ≡ str_append "exchange-rate:" (str_append "latest-rate:" rest) =
        sym (append_assoc "exchange-rate:" "health-check:" base)
        ∙ e
        ∙ append_assoc "exchange-rate:" "latest-rate:" rest in
      let g =
        append_cancel_left "exchange-rate:" (str_append "health-check:" base)
          (str_append "latest-rate:" rest) f in
      absurd
        (clash _ _ (first-append "h" "ealth-check:" base) (first-append "l" "atest-rate:" rest) g)
  | inr h ↦ h
]

module _ (N : Numbers) (C : Client) where
  open N use {Num}

  -- What Redis holds of a currency.
  abbrev pub stored : String → String → World N C → Option String
  stored code f w = C.field w.db (rate_key "KRW" code) f

  -- The currency has the three fields, with these values.
  pub record Holds (code r t o : String) (w : World N C) : Type 0 where
    pub rate : stored code "rate" w ≡ some r
    pub timestamp : stored code "timestamp" w ≡ some t
    pub open_rate : stored code "openRate" w ≡ some o
    pub rate_some : str_eq r "" ≡ false
    pub timestamp_some : str_eq t "" ≡ false
    pub open_rate_some : str_eq o "" ≡ false

  read-Holds :
      (code r t o : String) (w : World N C)
      → Holds code r t o w
      → get_latest_rate C "KRW" code (stored_fields N C) w.db ≡ some r ∷ some t ∷ some o ∷ []
  unfolding get_latest_rate hmget
  read-Holds code r t o w h =
      rw
        (
          C.hmget_fields (rate_key "KRW" code) (stored_fields N C) w.db,
          h.rate,
          h.timestamp,
          h.open_rate,
        )
        refl

  set-own :
      (code f : String) (kvs : List (String × String)) (db : C.Db)
      → C.field (update_latest_rate C "KRW" code kvs db) (rate_key "KRW" code) f
        ≡ written kvs f (C.field db (rate_key "KRW" code) f)
  unfolding update_latest_rate hset
  set-own code f kvs db =
      rw
        (
          C.hset_field (rate_key "KRW" code) kvs db (rate_key "KRW" code) f,
          (eq_iff (rate_key "KRW" code) (rate_key "KRW" code)).1 refl,
        )
        refl

  module _ (D : Dayjs) (api : FluctuationApi N) where
    handles :
        (iso : ℕ → String) (base code : String) (rate : Num) (t now : ℕ) (w : World N C)
        (sr st so : String)
        → Holds code sr st so w
        → is_new_trading_day D t (N.parse_int st) ≡ false
        → handle_latest_rate_update N C D api iso base code rate t now w
          ≡ ok (update_in_day N C D api base code (N.to_fixed_6 rate) t (N.parse so) w)
    unfolding handle_latest_rate_update update_stored
    handles iso base code rate t now w sr st so h same =
        rw (read-Holds code sr st so w h, h.rate_some, h.timestamp_some, h.open_rate_some, same)
          refl

    -- Whether a change is published.
    abbrev pub is_big : String → String → Num → Bool
    is_big code so rate =
        N.lt (final_threshold N C D api code (N.parse so))
          (N.abs (N.sub (N.to_fixed_6 rate) (N.parse so)))

    pub record AfterInDay (code sr so : String) (rate : Num) (t : ℕ) (w after : World N C)
        : Type 0 where
      -- the opening rate stays, and the rate follows where the change is published
      pub holds :
          Holds code
            (if is_big code so rate then N.print (N.to_fixed_6 rate) else sr)
            (N.print_int t)
            so
            after
      pub raw :
          after.raws
          ≡ w.raws
            ++ record { base_currency = "KRW"; currency_code = code; rate = N.to_fixed_6 rate } ∷ []
      -- what is published is what is then stored
      pub published : after.published ≡ (
          if is_big code so rate
          then w.published
            ++ (
              update_channel "KRW" code,
              record {
                base_currency = "KRW";
                currency_code = code;
                hash = record {
                  rate = N.to_fixed_6 rate;
                  change = N.sub (N.to_fixed_6 rate) (N.parse so);
                  change_pct =
                      N.mul
                        (N.div (N.sub (N.to_fixed_6 rate) (N.parse so)) (N.parse so))
                        (N.int 100);
                  timestamp = t;
                  open_rate = N.parse so;
                };
              },
            )
              ∷ []
          else w.published)

    in_day :
        (code : String) (rate : Num) (t : ℕ) (w : World N C) (sr st so : String)
        → Holds code sr st so w
        → AfterInDay code sr so rate t w
            (update_in_day N C D api "KRW" code (N.to_fixed_6 rate) t (N.parse so) w)
    unfolding update_in_day
    in_day code rate t w sr st so h = elim (Bool-cases (is_big code so rate)) [
      | inl big ↦
          rw (big, update_in_day)
            (record {
              holds = record {
                rate = rw big (set-own code "rate" _ w.db);
                timestamp = set-own code "timestamp" _ w.db;
                open_rate = set-own code "openRate" _ w.db ∙ h.open_rate;
                rate_some = rw big (N.print_some (N.to_fixed_6 rate));
                timestamp_some = N.print_int_some t;
                open_rate_some = h.open_rate_some;
              };
              raw = refl;
              published = rw big refl;
            })
      | inr small ↦
          rw (small, update_in_day)
            (record {
              holds = record {
                rate = rw small (set-own code "rate" _ w.db ∙ h.rate);
                timestamp = set-own code "timestamp" _ w.db;
                open_rate = set-own code "openRate" _ w.db ∙ h.open_rate;
                rate_some = rw small (h.rate_some);
                timestamp_some = N.print_int_some t;
                open_rate_some = h.open_rate_some;
              };
              raw = refl;
              published = rw small refl;
            })
    ]

    -- For the base KRW and a currency that is stored whole: a rate that arrives within the trading day of the stored one is handled without an error: Redis keeps the opening
    -- rate, a raw record is added, and where the change from the opening rate is above the threshold the new rate is
    -- stored and published, once.
    pub update-same_day :
        (iso : ℕ → String) (code : String) (rate : Num) (t now : ℕ) (w : World N C)
        (sr st so : String)
        → Holds code sr st so w
        → is_new_trading_day D t (N.parse_int st) ≡ false
        → (after : World N C) × (handle_latest_rate_update N C D api iso "KRW" code rate t now w
            ≡ ok after)
          × AfterInDay code sr so rate t w after
    update-same_day iso code rate t now w sr st so h same = (
      update_in_day N C D api "KRW" code (N.to_fixed_6 rate) t (N.parse so) w,
      handles iso "KRW" code rate t now w sr st so h same,
      in_day code rate t w sr st so h,
    )

    set-new :
        (iso : ℕ → String) (base code f v : String) (now : ℕ) (h : LatestRateHash N) (db : C.Db)
        → written (hash_fields N h) f (C.field db (rate_key "KRW" code) f) ≡ some v
        → C.field
            (update_health_check C iso base now (set_latest_rate C N code h db))
            (rate_key "KRW" code)
            f
          ≡ some v
    unfolding update_health_check set_latest_rate set hset
    set-new iso base code f v now h db e =
        rw
          (
            C.set_field (health_key base) (iso now) 30 now (set_latest_rate C N code h db)
                (rate_key "KRW" code) f (other_key base code),
            C.hset_field (rate_key "KRW" code) (hash_fields N h) db (rate_key "KRW" code) f,
            (eq_iff (rate_key "KRW" code) (rate_key "KRW" code)).1 refl,
          )
          e

    -- For a currency that is stored whole, the first rate of another trading day: the stored rate becomes the opening rate, the new one is stored with a change of
    -- 0 percent, and nothing is published and no raw record added.
    pub update-new_day :
        (iso : ℕ → String) (base code : String) (rate : Num) (t now : ℕ) (w : World N C)
        (sr st so : String)
        → Holds code sr st so w
        → is_new_trading_day D t (N.parse_int st) ≡ true
        → (after : World N C) × (handle_latest_rate_update N C D api iso base code rate t now w
            ≡ ok after)
          × Holds code (N.print (N.to_fixed_6 rate)) (N.print_int t) (N.print (N.parse sr)) after
          × (stored code "changePct" after ≡ some (N.print (N.int 0)))
          × (stored code "change" after ≡ some (N.print (N.sub (N.to_fixed_6 rate) (N.parse sr))))
          × (after.published ≡ w.published)
          × (after.raws ≡ w.raws)
    unfolding handle_latest_rate_update update_stored
    update-new_day iso base code rate t now w sr st so h new =
        let hash : LatestRateHash N = record {
          rate = N.to_fixed_6 rate;
          change = N.sub (N.to_fixed_6 rate) (N.parse sr);
          change_pct = N.int 0;
          timestamp = t;
          open_rate = N.parse sr;
        } in
        let after : World N C = record w {
          db = update_health_check C iso base now (set_latest_rate C N code hash w.db);
        } in
        (
          after,
          rw (read-Holds code sr st so w h, h.rate_some, h.timestamp_some, h.open_rate_some, new)
              refl,
          record {
            rate = set-new iso base code "rate" _ now hash w.db refl;
            timestamp = set-new iso base code "timestamp" _ now hash w.db refl;
            open_rate = set-new iso base code "openRate" _ now hash w.db refl;
            rate_some = N.print_some (N.to_fixed_6 rate);
            timestamp_some = N.print_int_some t;
            open_rate_some = N.print_some (N.parse sr);
          },
          set-new iso base code "changePct" _ now hash w.db refl,
          set-new iso base code "change" _ now hash w.db refl,
          refl,
          refl,
        )

    -- Rates that arrive one after another.
    pub run_updates :
        (ℕ → String) → String → ℕ → List (Num × ℕ) → World N C → Result ServiceError (World N C)
    unfolding handle_latest_rate_update
    run_updates iso code now [] w = ok w
    run_updates iso code now ((rate, t) ∷ rest) w =
        elim (handle_latest_rate_update N C D api iso "KRW" code rate t now w) [
          | err e ↦ err e
          | ok after ↦ run_updates iso code now rest after
        ]

    pub same_day :
        (utc : InUtc D) (s t : ℕ)
        → s / ms_per_day ≡ t / ms_per_day
        → is_new_trading_day D s t ≡ false
    same_day utc s t e = elim (Bool-cases (is_new_trading_day D s t)) [
      | inl h ↦ absurd ((is_new_trading_day_iff D utc s t).0 h e)
      | inr h ↦ h
    ]

    -- For dayjs in UTC and the base KRW: however many rates of a stored currency arrive on the day of the stored one, none fails, the opening rate stays, and there is a raw record
    -- for each.
    pub run_updates_lem :
        (utc : InUtc D) (iso : ℕ → String) (code : String) (now day : ℕ) (events : List (Num × ℕ))
        (w : World N C) (sr st so : String)
        → Holds code sr st so w
        → N.parse_int st / ms_per_day ≡ day
        → All (λ (e : Num × ℕ). e.1 / ms_per_day ≡ day) events
        → (after : World N C) × (run_updates iso code now events w ≡ ok after)
          × (stored code "openRate" after ≡ some so)
          × (length after.raws ≡ length w.raws + length events)
    unfolding run_updates
    run_updates_lem utc iso code now day [] w sr st so h d a = (w, refl, h.open_rate, omega arith)
    run_updates_lem utc iso code now day ((rate, t) ∷ rest) w sr st so h d a =
        let (mid, e, i) =
          update-same_day iso code rate t now w sr st so h
            (same_day utc t (N.parse_int st) (a.0 ∙ sym d)) in
        let (after, f, o, n) =
          run_updates_lem utc iso code now day rest mid _ (N.print_int t) so i.holds
            (rw (N.parse_int-print_int t) (a.0)) a.1 in
        (
          after,
          rw (e, run_updates) f,
          o,
          rw (n, i.raw, length-append w.raws (_ ∷ [])) (omega arith),
        )
