-- ===== src/Watchlist.antt =====
-- modules/watchlist: watchlist.repository.ts over the table of Prisma, and watchlist.service.ts.
pub mod Creation
pub mod Reorder
pub mod Pages
pub mod Controller
mod Tests
use exchange_watch.Base.{
  ℕ, suc, ◌+◌, ◌≡◌, Bool, true, false, ◌&&◌, Option, none, some, List, [], ◌∷◌, String, str_eq,
  Result, ok, err, ◌>>=◌, map_err, if◌then◌else◌, ltb, leb, ◌==◌, length, take, not, last_key,
}
use exchange_watch.Prisma.{DbError, Table}

-- entitites/watch-list.entity.ts
pub record WatchlistEntity : Type 0 where
  pub idx : ℕ
  pub user_idx : ℕ
  pub currency_code : String
  pub base_currency : String
  pub display_order : ℕ
  pub created_at : ℕ
  pub updated_at : ℕ

-- `IWatchList.ICreate`
pub record Create : Type 0 where
  pub user_idx : ℕ
  pub base_currency : String
  pub currency_code : String
  pub display_order : ℕ

-- `AddWatchlistItemReqDto`
pub record AddWatchlistItemReqDto : Type 0 where
  pub currency_code : String
  pub base_currency : String

pub data WatchlistError : Type 0 where
  already_register_pair maximum_pair currency_pair_not_found : WatchlistError
  database : DbError → WatchlistError

abbrev pub same_idx : WatchlistEntity → WatchlistEntity → Bool
same_idx a b = a.idx == b.idx

abbrev pub data_of : WatchlistEntity → Create
data_of r = record {
  user_idx = r.user_idx;
  base_currency = r.base_currency;
  currency_code = r.currency_code;
  display_order = r.display_order;
}

-- The tests of the `where` clauses.
abbrev pub of_user : ℕ → WatchlistEntity → Bool
of_user user_idx r = r.user_idx == user_idx

abbrev pub of_pair : ℕ → String → String → WatchlistEntity → Bool
of_pair user_idx base code r =
    (r.user_idx == user_idx) && (str_eq r.base_currency base && str_eq r.currency_code code)

abbrev pub of_pair_idx : ℕ → ℕ → WatchlistEntity → Bool
of_pair_idx pair_idx user_idx r = (r.idx == pair_idx) && (r.user_idx == user_idx)

abbrev pub of_order : ℕ → ℕ → WatchlistEntity → Bool
of_order user_idx order r = (r.user_idx == user_idx) && (r.display_order == order)

abbrev pub below_cursor : ℕ → Option ℕ → WatchlistEntity → Bool
below_cursor user_idx none r = of_user user_idx r
below_cursor user_idx (some cursor) r =
    -- `input.cursor && …`: a cursor of 0 is no cursor
    if cursor == 0
    then of_user user_idx r
    else (r.user_idx == user_idx) && ltb r.display_order cursor

-- The unique constraint `watchlist_unique_currency` of the schema.
abbrev pub conflict : Create → WatchlistEntity → Bool
conflict d r = of_pair d.user_idx d.base_currency d.currency_code r

abbrev pub Watchlists : Type 1
Watchlists = Table WatchlistEntity Create same_idx data_of conflict

abbrev pub max_pair_count : ℕ
max_pair_count = 10

-- The last element's `displayOrder`.
abbrev pub last_order : List WatchlistEntity → Option ℕ
last_order = last_key (λ r. r.display_order)

-- The page that a query with one row more than the limit gives: the extra row is popped.
abbrev pub page_of : ℕ → List WatchlistEntity → List WatchlistEntity × Option ℕ
page_of limit items =
    if ltb limit (length items)
    then (take limit items, last_order (take limit items))
    else (items, none)

-- `SelectWatchListResDto`
pub record SelectWatchListResDto : Type 0 where
  pub items : List WatchlistEntity
  pub next_cursor : Option ℕ
  pub has_next_page : Bool

-- `nextCursor ? true : false`
abbrev pub is_cursor : Option ℕ → Bool
is_cursor none = false
is_cursor (some c) = not (c == 0)

abbrev pub select_watch_list_res_dto : List WatchlistEntity × Option ℕ → SelectWatchListResDto
select_watch_list_res_dto (items, next_cursor) = record {
  items = items;
  next_cursor = next_cursor;
  has_next_page = is_cursor next_cursor;
}

-- `lastOrder === undefined ? 0 : lastOrder + 1`
next_order : Option ℕ → ℕ
next_order none = 0
next_order (some last) = last + 1

module _ (T : Watchlists) where
  open T use {Db}

  -- The repository.
  create_interest_pair : Create → Db → Result WatchlistError (WatchlistEntity × Db)
  create_interest_pair input db = map_err WatchlistError.database (T.create input db)

  find_last_order : ℕ → Db → Option ℕ
  find_last_order user_idx db = elim (T.find_last (of_user user_idx) (λ r. r.display_order) db) [
    | none ↦ none
    | some r ↦ some r.display_order
  ]

  find_interest_pair_by_user : ℕ → String → String → Db → Option WatchlistEntity
  find_interest_pair_by_user user_idx base code db = T.find_first (of_pair user_idx base code) db

  find_interest_pair_by_idx : ℕ → ℕ → Db → Option WatchlistEntity
  find_interest_pair_by_idx currency_pair user_idx db =
      T.find_first (of_pair_idx currency_pair user_idx) db

  pub find_interest_pairs_with_cursor : ℕ → ℕ → Option ℕ → Db → List WatchlistEntity × Option ℕ
  find_interest_pairs_with_cursor user_idx limit cursor db =
      page_of limit
        (T.find_desc (below_cursor user_idx cursor) (λ r. r.display_order) (limit + 1) db)

  find_interest_pair_with_order_and_user : ℕ → ℕ → Db → Option WatchlistEntity
  find_interest_pair_with_order_and_user user_idx order db =
      T.find_first (of_order user_idx order) db

  find_interest_pair_count_by_user : ℕ → Db → ℕ
  find_interest_pair_count_by_user user_idx db = T.count (of_user user_idx) db

  delete_interest_pair : ℕ → ℕ → Db → Result WatchlistError Db
  delete_interest_pair pair_idx user_idx db =
      map_err WatchlistError.database (T.delete (of_pair_idx pair_idx user_idx) db)

  update_interest_pair : ℕ → ℕ → ℕ → Db → Result WatchlistError Db
  update_interest_pair pair_idx new_order user_idx db =
      map_err WatchlistError.database
        (T.update (of_pair_idx pair_idx user_idx) (λ r. record r { display_order = new_order }) db)

  -- The service. A method that throws leaves the database as it was: it has written nothing, or
  -- its transaction is rolled back.
  pub create_interest_currency :
      ℕ → AddWatchlistItemReqDto → Db → Result WatchlistError (WatchlistEntity × Db)
  unfolding create_interest_pair find_last_order find_interest_pair_by_user
      find_interest_pair_count_by_user next_order
  create_interest_currency user_idx dto db =
      elim (find_interest_pair_by_user user_idx dto.base_currency dto.currency_code db) [
        | some check_register_pair ↦ err WatchlistError.already_register_pair
        | none ↦
            if leb max_pair_count (find_interest_pair_count_by_user user_idx db)
            then err WatchlistError.maximum_pair
            else create_interest_pair
                (record {
                  user_idx = user_idx;
                  base_currency = dto.base_currency;
                  currency_code = dto.currency_code;
                  display_order = next_order (find_last_order user_idx db);
                })
                db
      ]

  pub get_interest_currency_list : ℕ → ℕ → Option ℕ → Db → List WatchlistEntity × Option ℕ
  unfolding find_interest_pairs_with_cursor
  get_interest_currency_list user_idx limit cursor db =
      find_interest_pairs_with_cursor user_idx limit cursor db

  -- watchlist.controller.ts answers with the page in a response.
  pub get_interest_currency_page : ℕ → ℕ → Option ℕ → Db → SelectWatchListResDto
  unfolding get_interest_currency_list
  get_interest_currency_page user_idx limit cursor db =
      select_watch_list_res_dto (get_interest_currency_list user_idx limit cursor db)

  pub delete_interst_currency : ℕ → ℕ → Db → Result WatchlistError Db
  unfolding find_interest_pair_by_idx delete_interest_pair
  delete_interst_currency pair_idx user_idx db =
      elim (find_interest_pair_by_idx pair_idx user_idx db) [
        | none ↦ err WatchlistError.currency_pair_not_found
        | some found ↦ delete_interest_pair pair_idx user_idx db
      ]

  -- The call of `findInterestPairWithOrderAndUser(newOrder, userIdx)` has its arguments in this
  -- order, although the parameters are `(userIdx, order)`.
  pub update_interest_pair_order : ℕ → ℕ → ℕ → Db → Result WatchlistError Db
  unfolding find_interest_pair_by_idx find_interest_pair_with_order_and_user update_interest_pair
  update_interest_pair_order pair_idx new_order user_idx db =
      elim (find_interest_pair_by_idx pair_idx user_idx db) [
        | none ↦ err WatchlistError.currency_pair_not_found
        | some found ↦ elim (find_interest_pair_with_order_and_user new_order user_idx db) [
          | none ↦ update_interest_pair pair_idx new_order user_idx db
          | some target ↦ do
            swapped ← update_interest_pair target.idx found.display_order user_idx db
            update_interest_pair pair_idx new_order user_idx swapped
        ]
      ]
