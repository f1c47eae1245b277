-- ===== src/ExchangeRate/Daily.antt =====
-- exchange-rate-daily.repository.ts. Prisma's client for the table of daily rates is no part of the repository, so
-- it is the operations and laws of `DailyTable`.
pub mod Memory
pub mod Duplicates
pub mod Found
use Prim.Native.Char.{code}
use exchange_watch.Base.{
  ℕ, ◌≡◌, Bool, true, false, not, ◌&&◌, ◌||◌, All, Option, none, some, String, str_eq, List, [],
  ◌∷◌, ◌++◌, leb, ◌==◌, any, filter, if◌then◌else◌,
}
use exchange_watch.Numbers.{Numbers}
use exchange_watch.Date.{start_of_day}

-- A text of three characters, which a column of type Char(3) keeps as it is; a shorter one it fills up with blanks.
abbrev pub is_char_3 : String → Bool
is_char_3 (String.◌∷◌ a (String.◌∷◌ b (String.◌∷◌ c String.[]))) = true
is_char_3 (String.◌∷◌ a (String.◌∷◌ b (String.◌∷◌ c (String.◌∷◌ d s)))) = false
is_char_3 (String.◌∷◌ a (String.◌∷◌ b String.[])) = false
is_char_3 (String.◌∷◌ a String.[]) = false
is_char_3 String.[] = false

abbrev pub is_blank : String → Bool
is_blank String.[] = true
is_blank (String.◌∷◌ c s) = (code c == 32) && is_blank s

-- A text with more than blanks after its third character, which such a column refuses.
abbrev pub is_over_char_3 : String → Bool
is_over_char_3 (String.◌∷◌ a (String.◌∷◌ b (String.◌∷◌ c s))) = not (is_blank s)
is_over_char_3 (String.◌∷◌ a (String.◌∷◌ b String.[])) = false
is_over_char_3 (String.◌∷◌ a String.[]) = false
is_over_char_3 String.[] = false

module _ (N : Numbers) where
  -- `IExchangeRateDaily.ICreate`, and what the services read of a row: neither its number nor its creation time.
  pub record DailyRate : Type 0 where
    pub base_currency : String
    pub currency_code : String
    pub rate : N.Num
    pub rate_date : ℕ

  -- The unique constraint `exchange_rates_daily_unique`.
  abbrev pub same_day_pair : DailyRate → DailyRate → Bool
  same_day_pair a b =
      str_eq a.currency_code b.currency_code
      && (str_eq a.base_currency b.base_currency && (a.rate_date == b.rate_date))

  -- What the columns keep of a row: a rate of eight decimals, and no time of the day, since `rate_date` is of type DATE.
  abbrev pub dated : DailyRate → DailyRate
  dated x = record {
    base_currency = x.base_currency;
    currency_code = x.currency_code;
    rate = N.decimal x.rate;
    rate_date = start_of_day x.rate_date;
  }

  -- `skipDuplicates`: a row whose pair and day a row has already is left out.
  abbrev pub with_rows : List DailyRate → List DailyRate → List DailyRate
  with_rows [] rows = rows
  with_rows (x ∷ xs) rows =
      with_rows xs (if any (same_day_pair (dated x)) rows then rows else rows ++ dated x ∷ [])

  -- A time that the column is compared with is cut to its day too.
  abbrev pub in_range : String → String → ℕ → ℕ → DailyRate → Bool
  in_range base code started_at ended_at r =
      str_eq r.base_currency base
      && (str_eq r.currency_code code
          && (leb (start_of_day started_at) r.rate_date && leb r.rate_date (start_of_day ended_at)))

  -- A row that the columns can hold, its codes as they are.
  abbrev pub fits : DailyRate → Bool
  fits x = is_char_3 x.base_currency && (is_char_3 x.currency_code && N.storable x.rate)

  -- A row that the database or Prisma refuses: `rate` is of type Decimal(20, 8), which has no NaN.
  abbrev pub refused : DailyRate → Bool
  refused x =
      is_over_char_3 x.base_currency || (is_over_char_3 x.currency_code || not (N.storable x.rate))

  -- Prisma's client. `createMany` writes all rows or, where it throws, none.
  pub record DailyTable : Type 1 where
    pub Db : Type 0
    pub rows : Db → List DailyRate
    pub create_many : List DailyRate → Db → Option Db
    -- `findMany` with `orderBy: { rateDate: 'asc' }`
    pub find_asc : (DailyRate → Bool) → Db → List DailyRate
    pub create_many_fits :
        (input : List DailyRate) (db : Db)
        → All (λ x. fits x ≡ true) input
        → (later : Db) × (create_many input db ≡ some later)
          × (rows later ≡ with_rows input (rows db))
    pub create_many_refused :
        (input : List DailyRate) (db : Db) → any refused input ≡ true → create_many input db ≡ none
    pub find_asc_any :
        (p q : DailyRate → Bool) (db : Db) → any q (find_asc p db) ≡ any q (filter p (rows db))

  module _ (T : DailyTable) where
    unfoldable pub save_daily_rates : List DailyRate → T.Db → Option T.Db
    save_daily_rates input db = T.create_many input db

    unfoldable pub find_daily_rates : String → String → ℕ → ℕ → T.Db → List DailyRate
    find_daily_rates base code started_at ended_at db =
        T.find_asc (in_range base code started_at ended_at) db
