-- ===== src/Watchlist/Controller.antt =====
-- watchlist.controller.ts and its request objects, for a user that the guard has let in. Numbers are whole, as the columns are.
use exchange_watch.Base.{
  ℕ, ◌<◌, Bool, true, false, ◌&&◌, Option, none, some, String, Result, ok, err, ◌>>=◌, map_err, leb,
  ◌≡◌, arith, List, suc, filter, length, Distinct,
}
use exchange_watch.Requests.{Value, is_not_empty, is_valid_currency_code}
use exchange_watch.Watchlist.{
  Watchlists, WatchlistError, SelectWatchListResDto, create_interest_currency,
  get_interest_currency_page, delete_interst_currency, update_interest_pair_order, of_user,
}
use exchange_watch.Watchlist.Pages.{order, user_list, read_pages, read_pages_lem}

-- A number of a request: left out, a whole number from 0 on, or anything else.
pub data Whole : Type 0 where
  left_out other : Whole
  whole : ℕ → Whole

-- What is thrown: a check has refused the request, a value has another type than the column, or the service's error.
pub data ControllerError : Type 0 where
  refused wrong_type : ControllerError
  service : WatchlistError → ControllerError

-- `SelectWatchListReqDto`; a cursor is not checked
pub record SelectWatchListReqDto : Type 0 where
  pub limit : Whole
  pub cursor : Option ℕ

-- `@IsInt()`, `@Min(1)`, `@Max(100)` and `@IsOptional()`
unfoldable pub accepts_limit : Whole → Bool
accepts_limit left_out = true
accepts_limit other = false
accepts_limit (whole n) = leb 1 n && leb n 100

-- `limit: number = 10`
abbrev pub limit_of : Whole → ℕ
limit_of left_out = 10
limit_of other = 0
limit_of (whole n) = n

abbrev checked : Bool → Result ControllerError (Unit {0})
checked true = ok tt
checked false = err refused

abbrev text_of : Value → Result ControllerError String
text_of (Value.text s) = ok s
text_of Value.missing = err wrong_type
text_of (Value.texts ss) = err wrong_type

module _ (T : Watchlists) where
  -- `getInterestCurrencyList`
  unfoldable pub get_interest_currency_list_of :
      ℕ → SelectWatchListReqDto → T.Db → Result ControllerError SelectWatchListResDto
  unfolding accepts_limit get_interest_currency_page
  get_interest_currency_list_of user_idx dto db = do
    valid ← checked (accepts_limit dto.limit)
    ok (get_interest_currency_page T user_idx (limit_of dto.limit) dto.cursor db)

  -- `deleteInterstCurrency` of the controller
  unfoldable pub delete_interst_currency_of : ℕ → ℕ → T.Db → Result ControllerError T.Db
  unfolding delete_interst_currency
  delete_interst_currency_of pair_idx user_idx db =
      map_err service (delete_interst_currency T pair_idx user_idx db)

  -- `changeCurrencyOrder`, with the numbers of `UpdateWatchListItemOrderReqDto`, which a check keeps from falling below 0
  unfoldable pub change_currency_order : ℕ → ℕ → ℕ → T.Db → Result ControllerError T.Db
  unfolding update_interest_pair_order
  change_currency_order pair_idx display_order user_idx db =
      map_err service (update_interest_pair_order T pair_idx display_order user_idx db)

  module _ (to_upper_case : String → String) (codes : List String) where
    -- What is checked of `AddWatchlistItemReqDto`.
    unfoldable pub accepts_item : Value → Value → Bool
    accepts_item currency_code base_currency =
        is_not_empty currency_code
        && (is_valid_currency_code to_upper_case codes "currencyCode" currency_code
            && (is_not_empty base_currency
                && is_valid_currency_code to_upper_case codes "baseCurrency" base_currency))

    -- `registerInterestCurrency`, with the idx of `AddWatchlistItemResDto`
    unfoldable pub register_interest_currency :
        ℕ → Value → Value → T.Db → Result ControllerError (ℕ × T.Db)
    unfolding accepts_item create_interest_currency
    register_interest_currency user_idx currency_code base_currency db = do
      valid ← checked (accepts_item currency_code base_currency)
      code ← text_of currency_code
      base ← text_of base_currency
      (item, later) ← map_err service (
          create_interest_currency T user_idx
            (record { currency_code = code; base_currency = base }) db)
      ok (item.idx, later)

-- A page of an accepted request has a place.
limit_of-pos : (n : Whole) → accepts_limit n ≡ true → 0 < limit_of n
unfolding accepts_limit
limit_of-pos left_out h = omega arith
limit_of-pos other h = cc
limit_of-pos (whole n) h = ground (arith, h)

-- Where no two of the user's pairs have one order: with any size of a page that is accepted, or none, a client that follows the
-- cursors gets the user's pairs by falling order, each once.
pub read_pages-accepted :
    (T : Watchlists) (user_idx : ℕ) (db : T.Db) (n : Whole)
    → accepts_limit n ≡ true
    → Distinct order (filter (of_user user_idx) (T.rows db))
    → read_pages T user_idx
        (limit_of n)
        db
        (suc (length (user_list T user_idx (limit_of n) db)))
        none
      ≡ some (user_list T user_idx (limit_of n) db)
read_pages-accepted T user_idx db n a d =
    read_pages_lem T user_idx (limit_of n) db (limit_of-pos n a) d
