-- ===== src/Watchlist/Pages.antt =====
-- Reading a user's pairs page by page: the pages are the user's pairs by falling order, each once.
use exchange_watch.Base.{
  ℕ, zero, suc, ◌+◌, ◌≤◌, ◌<◌, ◌≡◌, refl, sym, subst, ◌∙◌, Option, none, some, List, [], ◌∷◌, ◌++◌,
  ltb, if◌then◌else◌, if_of_true, Bool-cases, inl, inr, arith, length, All, filter, take, drop,
  sort_desc, Distinct, length-drop, length-take, take_all, take-take, take-append-drop, Falls,
  below, last_key_lt, last_key-some, filter-drop, filter-sort_desc, filter-below_zero, All-filter,
  filter-filter-below, filter-Falls, sort_desc-Falls, All-take, Distinct-filter,
}
use exchange_watch.Watchlist.{
  WatchlistEntity, Watchlists, of_user, below_cursor, page_of, last_order,
  get_interest_currency_list, get_interest_currency_page, find_interest_pairs_with_cursor,
  select_watch_list_res_dto,
}

abbrev pub order : WatchlistEntity → ℕ
order r = r.display_order

-- What the page of a falling list holds, and the list that its cursor leads to.
record Cut (limit : ℕ) (xs : List WatchlistEntity) : Type 0 where
  last_page : length xs ≤ limit → page_of limit (take (limit + 1) xs) ≡ (xs, none)
  more :
      limit < length xs
      → (c : ℕ) × (page_of limit (take (limit + 1) xs) ≡ (take limit xs, some c))
        × (last_order (take limit xs) ≡ some c)
        × (0 < c)
        × (filter (below order c) xs ≡ drop limit xs)

page_Cut : (limit : ℕ) (xs : List WatchlistEntity) → 0 < limit → Falls order xs → Cut limit xs
page_Cut limit xs pos f = record {
  last_page = λ h. let e = take_all (limit + 1) xs (omega (arith, h)) in rw e (ground (arith, h));
  more = λ h.
      let n = length-take (limit + 1) xs (omega (arith, h)) in
      let t = take-take limit (limit + 1) xs (omega arith) in
      let (c, e) =
        last_key-some order (take limit xs)
          (omega (arith, pos, h, length-take limit xs (omega (arith, h)))) in
      let d = filter-drop order limit xs c f e in
      let l = length-drop limit xs in
      (
        c,
        if_of_true (ltb limit (length (take (limit + 1) xs))) _ (take (limit + 1) xs, none)
              (ground (arith, n))
            ∙ rw (t, e) refl,
        e,
        elim (Bool-cases (ltb 0 c)) [
          | inl p ↦ ground (arith, p)
          | inr z ↦
              let c0 : c ≡ 0 = ground (arith, z) in
              let g : filter (below order c) xs ≡ [] = rw c0 (filter-below_zero order xs) in
              let n0 : length (drop limit xs) ≡ 0 = rw (← d, g) refl in
              absurd (omega (arith, l, h, n0))
        ],
        d,
      );
}

filter-below_cursor :
    (u c : ℕ) (rows : List WatchlistEntity)
    → 0 < c
    → filter (below_cursor u (some c)) rows ≡ filter (below order c) (filter (of_user u) rows)
filter-below_cursor u c [] pos = refl
filter-below_cursor u c (r ∷ rs) pos = ground (arith, pos, filter-below_cursor u c rs pos)

All_of :
    {P : WatchlistEntity → Type 0}
    → ((r : WatchlistEntity) → P r)
    → (xs : List WatchlistEntity) → All P xs
All_of f [] = tt
All_of f (x ∷ xs) = (f x, All_of f xs)

module _ (T : Watchlists) (u limit : ℕ) (db : T.Db) where
  -- The user's rows, by falling order.
  abbrev pub user_list : List WatchlistEntity
  user_list = sort_desc order (filter (of_user u) (T.rows db))

  -- What is left of them at a cursor.
  abbrev rest_at : Option ℕ → List WatchlistEntity
  rest_at none = user_list
  rest_at (some c) = filter (below order c) user_list

  abbrev IsCursor : Option ℕ → Type 0
  IsCursor none = Unit
  IsCursor (some c) = 0 < c

  page-rest_at :
      (cursor : Option ℕ)
      → Distinct order (filter (of_user u) (T.rows db))
      → IsCursor cursor
      → get_interest_currency_page T u limit cursor db
        ≡ select_watch_list_res_dto (page_of limit (take (limit + 1) (rest_at cursor)))
  unfolding get_interest_currency_page get_interest_currency_list find_interest_pairs_with_cursor
  page-rest_at none d i = rw (T.find_desc_sorted (of_user u) order (limit + 1) db d) refl
  page-rest_at (some c) d i =
      let e = filter-below_cursor u c (T.rows db) i in
      let d' =
        subst (Distinct order) (sym e)
          (Distinct-filter order (below order c) (filter (of_user u) (T.rows db)) d) in
      rw
        (
          T.find_desc_sorted (below_cursor u (some c)) order (limit + 1) db d',
          e,
          ← filter-sort_desc order (below order c) (filter (of_user u) (T.rows db)) d,
        )
        refl

  -- A client that asks for the first page and follows the cursor while there is a next page; `none` where the fuel runs out.
  pub read_pages : ℕ → Option ℕ → Option (List WatchlistEntity)
  read_pages zero cursor = none
  read_pages (suc fuel) cursor =
      let page = get_interest_currency_page T u limit cursor db in
      let rest = read_pages fuel page.next_cursor in
      if page.has_next_page
      then elim rest [ none ↦ none | some items ↦ some (page.items ++ items) ]
      else some page.items

  rest-Falls :
      (cursor : Option ℕ)
      → Distinct order (filter (of_user u) (T.rows db))
      → Falls order (rest_at cursor)
  rest-Falls none d = sort_desc-Falls order (filter (of_user u) (T.rows db)) d
  rest-Falls (some c) d =
      filter-Falls order (below order c) user_list
        (sort_desc-Falls order (filter (of_user u) (T.rows db)) d)

  -- The list at the next cursor comes after the page.
  rest-next :
      (cursor : Option ℕ) (c : ℕ)
      → last_order (take limit (rest_at cursor)) ≡ some c
      → filter (below order c) (rest_at cursor) ≡ drop limit (rest_at cursor)
      → filter (below order c) user_list ≡ drop limit (rest_at cursor)
  rest-next none c e k = k
  rest-next (some b) c e k =
      let under =
        All-filter (below order b) (λ r. order r < b) user_list
          (All_of (λ r h. (ground (arith, h))) user_list) in
      let l =
        last_key_lt order b (take limit (rest_at (some b))) c
          (All-take (λ r. order r < b) limit (rest_at (some b)) under) e in
      sym (filter-filter-below order b c user_list (omega (arith, l))) ∙ k

  reads_rest :
      (fuel : ℕ) (cursor : Option ℕ)
      → 0 < limit
      → Distinct order (filter (of_user u) (T.rows db))
      → IsCursor cursor
      → length (rest_at cursor) < fuel
      → read_pages fuel cursor ≡ some (rest_at cursor)
  unfolding read_pages
  reads_rest zero cursor pos d i l = absurd (omega (arith, l))
  reads_rest (suc fuel) cursor pos d i l =
      let xs = rest_at cursor in
      let cut = page_Cut limit xs pos (rest-Falls cursor d) in
      let page = page-rest_at cursor d i in
      elim (Bool-cases (ltb limit (length xs))) [
        | inl h ↦
            let big : limit < length xs = ground (arith, h) in
            let (c, e, z, p, k) = cut.more big in
            let m = length-drop limit xs in
            let same = rest-next cursor c z k in
            let shorter : length (rest_at (some c)) < fuel =
              rw same (omega (arith, m, l, pos, big)) in
            let next = reads_rest fuel (some c) pos d p shorter in
            rw (page, e, read_pages) (ground (arith, p, next, same, take-append-drop limit xs))
        | inr h ↦ rw (page, cut.last_page (ground (arith, h)), read_pages) refl
      ]

  -- Where no two of the user's pairs have one order and a page has a place: a client that follows the cursors, with fuel for one
  -- page more than the user has pairs, gets the user's pairs by falling order, each once.
  pub read_pages_lem :
      0 < limit
      → Distinct order (filter (of_user u) (T.rows db))
      → read_pages (suc (length user_list)) none ≡ some user_list
  read_pages_lem pos d = reads_rest (suc (length user_list)) none pos d tt (omega arith)
