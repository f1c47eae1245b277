-- ===== src/Date/Market.antt =====
-- The market's days: what `isNewTradingDay`, `isMarketOpen` and `getLastMarketDay` compute.
use exchange_watch.Base.{
  ℕ, ◌+◌, ◌-◌, ◌*◌, ◌/◌, ◌%◌, ◌≤◌, ◌<◌, ◌≡◌, ◌≢◌, true, false, arith, eq_iff, leb, ◌&&◌, ◌∙◌,
}
use exchange_watch.Date.{
  ms_per_day, Dayjs, InUtc, get_utc_day, is_market_open, last_market_offset, start_of_day,
  is_new_trading_day, get_yesterday, get_last_market_day,
}

-- The days back stay within the days that have passed.
offset_bounds : (day : ℕ) → (1 ≤ last_market_offset day) × (last_market_offset day ≤ 3)
unfolding last_market_offset
offset_bounds day = ground arith

-- Which day of the week the offset leads to, and which it skips.
offset_day :
    (n : ℕ)
    → 3 ≤ n
    → let k = last_market_offset ((n + 4) % 7) in (1 ≤ (n - k + 4) % 7) × ((n - k + 4) % 7 ≤ 5)
unfolding last_market_offset
offset_day n h = ground arith

offset_skips :
    (n m : ℕ)
    → 3 ≤ n
    → n - last_market_offset ((n + 4) % 7) < m
    → m < n
    → (leb 1 ((m + 4) % 7) && leb ((m + 4) % 7) 5) ≡ false
unfolding last_market_offset
offset_skips n m h k l = ground arith

module _ (d : Dayjs) (utc : InUtc d) where
  -- A tick opens a new trading day exactly when its UTC day is another than the stored tick's.
  pub is_new_trading_day_iff :
      (current prev : ℕ)
      → ((is_new_trading_day d current prev ≡ true) → current / ms_per_day ≢ prev / ms_per_day)
        × (current / ms_per_day ≢ prev / ms_per_day → is_new_trading_day d current prev ≡ true)
  unfolding is_new_trading_day
  is_new_trading_day_iff current prev = (
    (λ h e. ground (
      arith,
      eq_iff (d.format_utc current) (d.format_utc prev),
      utc.format_utc_day current prev e,
    )),
    (λ h. ground (
      arith,
      eq_iff (d.format_utc current) (d.format_utc prev),
      utc.format_utc_injective current prev,
    )),
  )

  pub get_yesterday-eq : (day : ℕ) → ms_per_day ≤ day → get_yesterday d day ≡ day - ms_per_day
  unfolding get_yesterday
  get_yesterday-eq day le = utc.subtract_days day 1 (omega (arith, le)) ∙ omega arith

  last_market_day-eq :
      (now : ℕ)
      → 3 * ms_per_day ≤ now
      → get_last_market_day d now
        ≡ (now / ms_per_day - last_market_offset (get_utc_day now)) * ms_per_day
  unfolding get_last_market_day
  last_market_day-eq now h = utc.parse-format _ ∙ omega (arith, offset_bounds (get_utc_day now))

  -- Three days or more after 1970, the last market day is a midnight at which the market is open,
  -- on a day before today, and the market is closed on every day between that day and today.
  pub get_last_market_day_lem :
      (now : ℕ)
      → 3 * ms_per_day ≤ now
      → (is_market_open (get_last_market_day d now) ≡ true)
        × (start_of_day (get_last_market_day d now) ≡ get_last_market_day d now)
        × (get_last_market_day d now / ms_per_day < now / ms_per_day)
        × ((t : ℕ)
            → get_last_market_day d now / ms_per_day < t / ms_per_day
            → t / ms_per_day < now / ms_per_day
            → is_market_open t ≡ false)
  unfolding is_market_open
  get_last_market_day_lem now h =
      let n = now / ms_per_day in
      let e = last_market_day-eq now h in
      let l : get_last_market_day d now / ms_per_day ≡ n - last_market_offset ((n + 4) % 7) =
        omega (arith, e) in
      (
        rw l (ground (arith, offset_day n (omega arith))),
        omega (arith, e),
        omega (arith, e, offset_bounds (get_utc_day now)),
        λ t p q. offset_skips n (t / ms_per_day) (omega arith) (omega (arith, l)) q,
      )
