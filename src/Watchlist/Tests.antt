-- ===== src/Watchlist/Tests.antt =====
-- Instances of the theorems on watchlists, over a table in memory.
use exchange_watch.Watchlist.Pages.{read_pages, user_list, read_pages_lem}
use exchange_watch.Base.{
  length, none, some, suc, ℕ, ◌≡◌, refl, true, false, not, [], ◌∷◌, ok, any, filter, count_p, ◌&&◌,
  ◌≤◌, ◌<◌, arith, Distinct,
}
use exchange_watch.Prisma.Memory.{table, create, find, last, delete, fresh, greatest}
use exchange_watch.Watchlist.Creation.{IsValid, create_interest_currency-IsValid}
use exchange_watch.Watchlist.Reorder.{update_duplicates_order}
use exchange_watch.Watchlist.{
  WatchlistEntity, AddWatchlistItemReqDto, Create, Watchlists, of_user, of_pair_idx, of_order,
  data_of, conflict, create_interest_currency, delete_interst_currency, update_interest_pair_order,
}

abbrev build : ℕ → Create → WatchlistEntity
build n d = record {
  idx = n;
  user_idx = d.user_idx;
  currency_code = d.currency_code;
  base_currency = d.base_currency;
  display_order = d.display_order;
  created_at = 0;
  updated_at = 0;
}

abbrev store : Watchlists
store = table (λ r. r.idx) build data_of conflict (λ n d. refl) (λ n d. refl)

abbrev pair : ℕ → ℕ → ℕ → WatchlistEntity
pair n u order = record {
  idx = n;
  user_idx = u;
  currency_code = "KRW";
  base_currency = "USD";
  display_order = order;
  created_at = 0;
  updated_at = 0;
}

abbrev dto : AddWatchlistItemReqDto
dto = record { currency_code = "KRW"; base_currency = "USD" }

abbrev one_row : store.Db
unfolding table
one_row = pair 1 7 4 ∷ []

abbrev two_rows : store.Db
unfolding table
two_rows = pair 1 7 4 ∷ pair 2 7 3 ∷ []

abbrev two_users : store.Db
unfolding table
two_users = pair 1 7 4 ∷ pair 2 3 7 ∷ []

abbrev no_rows : store.Db
unfolding table
no_rows = []

no_rows-IsValid : IsValid store no_rows
unfolding table
no_rows-IsValid = record { bounded = λ u. (omega arith); ordered = λ u. tt }

abbrev added : store.Db
unfolding table
added =
    build 1
      (record { user_idx = 7; base_currency = "USD"; currency_code = "KRW"; display_order = 0 })
    ∷ []

runs :
    create_interest_currency store 7 dto no_rows
    ≡ ok (
      build 1 (record {
        user_idx = 7;
        base_currency = "USD";
        currency_code = "KRW";
        display_order = 0;
      }),
      added,
    )
unfolding create_interest_currency table create find last fresh greatest
runs = refl

added-IsValid : IsValid store added
added-IsValid =
    create_interest_currency-IsValid store 7 dto no_rows
      (build 1
        (record { user_idx = 7; base_currency = "USD"; currency_code = "KRW"; display_order = 0 }))
      added no_rows-IsValid runs

one_added : count_p (of_pair_idx 1 7) (store.rows added) ≡ 1
unfolding table
one_added = refl

deletes : delete_interst_currency store 1 7 added ≡ ok no_rows
unfolding delete_interst_currency table find delete
deletes = refl

one_mover : count_p (of_pair_idx 1 7) (store.rows two_rows) ≡ 1
unfolding table
one_mover = refl

no_hit : any (of_order 3 7) (store.rows two_rows) ≡ false
unfolding table
no_hit = refl

occupied : 0 < count_p (λ r. of_order 7 3 r && not (of_pair_idx 1 7 r)) (store.rows two_rows)
unfolding table
occupied = omega arith

update_duplicates_order_example :
    (later : store.Db) × (update_interest_pair_order store 1 3 7 two_rows ≡ ok later)
    × (2 ≤ count_p (of_order 7 3) (store.rows later))
update_duplicates_order_example =
    update_duplicates_order store 1 3 7 two_rows one_mover no_hit occupied

key_proof : Distinct (λ r. r.idx) (store.rows two_users)
unfolding table
key_proof = (((λ e. (omega (arith, e))), tt), (tt, tt))

own_pair : any (of_pair_idx 1 7) (store.rows two_users) ≡ true
unfolding table
own_pair = refl

foreign_hit : any (of_order 3 7) (store.rows two_users) ≡ true
unfolding table
foreign_hit = refl

key_order : Distinct (λ r. r.display_order) (filter (of_user 7) (store.rows two_rows))
unfolding table
key_order = (((λ e. (omega (arith, e))), tt), (tt, tt))

read_pages_example :
    read_pages store 7 1 two_rows (suc (length (user_list store 7 1 two_rows))) none
    ≡ some (user_list store 7 1 two_rows)
read_pages_example = read_pages_lem store 7 1 two_rows (omega arith) key_order
