-- ===== src/Date/Between.antt =====
-- The loop of `getDatesBetween` ends, and lists every day once.
use exchange_watch.Base.{
  ℕ, zero, suc, ◌+◌, ◌-◌, ◌*◌, ◌/◌, ◌≤◌, ◌<◌, ◌≡◌, refl, some, List, [], ◌∷◌, arith, leb,
  if◌then◌else◌,
}
use exchange_watch.Date.{ms_per_day, Dayjs, InUtc, dates_loop, get_dates_between}

-- The midnights of `n` days in a row, the first of them day `k`.
unfoldable pub days_from : ℕ → ℕ → List ℕ
days_from k zero = []
days_from k (suc n) = k * ms_per_day ∷ days_from (k + 1) n

-- How many days the list has: none if the end lies before the start.
abbrev pub day_count : ℕ → ℕ → ℕ
day_count started_at ended_at =
    if leb started_at ended_at then suc ((ended_at - started_at) / ms_per_day) else 0

module _ (d : Dayjs) (utc : InUtc d) where
  -- The next round begins a day later, with one day less to list.
  next_round :
      (s e n : ℕ)
      → day_count s e ≡ suc n
      → (s ≤ e) × (d.add s 1 / ms_per_day ≡ s / ms_per_day + 1) × (day_count (d.add s 1) e ≡ n)
  next_round s e n c = rw (utc.add_days s 1) (ground arith)

  loop_lem :
      (n fuel s e k : ℕ)
      → s / ms_per_day ≡ k
      → day_count s e ≡ n
      → n < fuel
      → dates_loop d fuel s e ≡ some (days_from k n)
  unfolding dates_loop days_from
  loop_lem n zero s e k q c f = absurd (omega arith)
  loop_lem zero (suc fuel) s e k q c f = ground (arith, utc.before s e, utc.same s e)
  loop_lem (suc n) (suc fuel) s e k q c f =
      let (le, day, left) = next_round s e n c in
      rw (loop_lem n fuel (d.add s 1) e (k + 1) (omega (arith, day)) left (omega arith))
        (ground (arith, utc.before s e, utc.same s e))

  -- The loop's fuel is enough for any two times, and the list is every UTC midnight from the start's day
  -- on, one for each whole day that fits between start and end, and one more; it is empty if the end is earlier.
  pub get_dates_between_lem :
      (started_at ended_at : ℕ)
      → get_dates_between d started_at ended_at
        ≡ some (days_from (started_at / ms_per_day) (day_count started_at ended_at))
  unfolding get_dates_between
  get_dates_between_lem s e =
      loop_lem (day_count s e) (suc (suc ((e - s) / ms_per_day))) s e (s / ms_per_day) refl refl
        (ground arith)
