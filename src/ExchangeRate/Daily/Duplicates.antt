-- ===== src/ExchangeRate/Daily/Duplicates.antt =====
-- `createMany` with `skipDuplicates`: what the table has is not written again.
use exchange_watch.Base.{
  ◌≡◌, refl, Bool, true, eq_iff, List, [], ◌∷◌, ◌++◌, any, All, Bool-cases, inl, inr, arith,
}
use exchange_watch.Numbers.{Numbers}
use exchange_watch.Date.{start_of_day}
use exchange_watch.ExchangeRate.Daily.{DailyRate, dated, same_day_pair, with_rows}

module _ (N : Numbers) where
  -- Whether the table has a row that this one would be a duplicate of.
  abbrev pub has : List (DailyRate N) → DailyRate N → Bool
  has rows x = any (same_day_pair N (dated N x)) rows

  has_self : (rows : List (DailyRate N)) (x : DailyRate N) → has (rows ++ dated N x ∷ []) x ≡ true
  has_self [] x = ground (
    arith,
    (eq_iff x.currency_code x.currency_code).1 refl,
    (eq_iff x.base_currency x.base_currency).1 refl,
  )
  has_self (y ∷ rows) x = ground (arith, has_self rows x)

  has-append :
      (rows more : List (DailyRate N)) (x : DailyRate N)
      → has rows x ≡ true
      → has (rows ++ more) x ≡ true
  has-append [] more x h = cc
  has-append (y ∷ rows) more x h = ground (arith, h, has-append rows more x)

  has-with_rows :
      (xs rows : List (DailyRate N)) (x : DailyRate N)
      → has rows x ≡ true
      → has (with_rows N xs rows) x ≡ true
  has-with_rows [] rows x h = h
  has-with_rows (y ∷ xs) rows x h = elim (Bool-cases (has rows y)) [
    | inl k ↦ rw k (has-with_rows xs rows x h)
    | inr k ↦
        rw k (has-with_rows xs (rows ++ dated N y ∷ []) x (has-append rows (dated N y ∷ []) x h))
  ]

  -- Every row that is written has its day and pair in the table from then on.
  pub written_first :
      (x : DailyRate N) (xs rows : List (DailyRate N)) → has (with_rows N (x ∷ xs) rows) x ≡ true
  written_first x xs rows = elim (Bool-cases (has rows x)) [
    | inl k ↦ rw k (has-with_rows xs rows x k)
    | inr k ↦ rw k (has-with_rows xs (rows ++ dated N x ∷ []) x (has_self rows x))
  ]

  -- Rows whose days and pairs the table has change nothing.
  pub with_rows-same :
      (xs rows : List (DailyRate N)) → All (λ x. has rows x ≡ true) xs → with_rows N xs rows ≡ rows
  with_rows-same [] rows a = refl
  with_rows-same (x ∷ xs) rows a = rw (a.0) (with_rows-same xs rows a.1)

  pub has-like :
      (rows : List (DailyRate N)) (x y : DailyRate N)
      → x.currency_code ≡ y.currency_code
      → x.base_currency ≡ y.base_currency
      → start_of_day x.rate_date ≡ start_of_day y.rate_date
      → has rows x ≡ has rows y
  has-like rows x y c b d = rw (c, b, d) refl
