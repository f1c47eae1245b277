-- ===== src/Watchlist/Creation.antt =====
-- Registering and deleting a pair: what each branch does, and the bounds that both keep.
use mathlib.Core.List.{append-nil}
use exchange_watch.Base.{
  ℕ, ◌≤◌, ◌<◌, ◌≡◌, ◌≢◌, sym, ap, subst, inl, inr, true, false, not, [], ◌∷◌, ◌++◌, arith, Option,
  none, some, Bool, Option-cases, Bool-cases, ok, err, any, filter, count_p, All, Distinct,
  any-IsIn, leb, any-eq-false, count_p-eq-zero, count_p-append, filter-append, All_of_none,
  All-map_le, All-filter, Distinct-append, Distinct-filter, filter_comm, count_p-filter-le,
}
use exchange_watch.Watchlist.{
  WatchlistEntity, Create, AddWatchlistItemReqDto, WatchlistError, Watchlists, of_user, of_pair,
  of_pair_idx, max_pair_count, next_order, find_last_order, create_interest_currency,
  delete_interst_currency,
}

module _ (T : Watchlists) where
  pub find_first_any :
      (p : WatchlistEntity → Bool) (db : T.Db)
      → any p (T.rows db) ≡ true
      → (r : WatchlistEntity) × (T.find_first p db ≡ some r)
  find_first_any p db h = elim (Option-cases (T.find_first p db)) [
    | inl e ↦ cc (T.find_first_none p db e)
    | inr (r, e) ↦ (r, e)
  ]

  pub find_first_no :
      (p : WatchlistEntity → Bool) (db : T.Db)
      → any p (T.rows db) ≡ false
      → T.find_first p db ≡ none
  find_first_no p db h = elim (Option-cases (T.find_first p db)) [
    | inl e ↦ e
    | inr (r, e) ↦ let (q, i) = T.find_first_some p db r e in cc (any-IsIn p (T.rows db) i q)
  ]

  -- The order that a new pair gets: above those of the user's other pairs.
  new_order : ℕ → T.Db → ℕ
  unfolding next_order find_last_order
  new_order u db = next_order (find_last_order T u db)

  last_order-eq :
      (u : ℕ) (db : T.Db) (r : WatchlistEntity)
      → T.find_last (of_user u) (λ x. x.display_order) db ≡ some r
      → find_last_order T u db ≡ some r.display_order
  unfolding find_last_order
  last_order-eq u db r e = rw (e, find_last_order)

  new_order_above :
      (u : ℕ) (db : T.Db)
      → All (λ r. of_user u r ≡ true → r.display_order < new_order u db) (T.rows db)
  unfolding new_order next_order
  new_order_above u db = elim (Option-cases (T.find_last (of_user u) (λ r. r.display_order) db)) [
    | inl e ↦
        All_of_none (of_user u) (λ r. r.display_order < new_order u db) (T.rows db)
          (T.find_last_none (of_user u) (λ r. r.display_order) db e)
    | inr (r, e) ↦
        let (_, _, a) = T.find_last_some (of_user u) (λ x. x.display_order) db r e in
        subst
          (λ (o : Option ℕ).
            All (λ x. of_user u x ≡ true → x.display_order < next_order o) (T.rows db))
          (sym (last_order-eq u db r e)) (All-map_le (λ x f h. (omega (arith, f h))) (T.rows db) a)
  ]

  -- What `create_interest_currency` makes of a pair that is new to a user with room.
  pub record Created (u : ℕ) (dto : AddWatchlistItemReqDto) (db : T.Db) (row : WatchlistEntity)
      (later : T.Db) : Type 0 where
    pub user : row.user_idx ≡ u
    pub base : row.base_currency ≡ dto.base_currency
    pub code : row.currency_code ≡ dto.currency_code
    pub last : All (λ r. r.user_idx ≡ u → r.display_order < row.display_order) (T.rows db)
    pub added : T.rows later ≡ T.rows db ++ row ∷ []

  creates :
      (u : ℕ) (dto : AddWatchlistItemReqDto) (db : T.Db)
      → any (of_pair u dto.base_currency dto.currency_code) (T.rows db) ≡ false
      → count_p (of_user u) (T.rows db) < max_pair_count
      → (row : WatchlistEntity) × (later : T.Db) × (create_interest_currency T u dto db
          ≡ ok (row, later))
        × Created u dto db row later
  unfolding create_interest_currency new_order
  creates u dto db fresh room =
      let d : Create = record {
        user_idx = u;
        base_currency = dto.base_currency;
        currency_code = dto.currency_code;
        display_order = new_order u db;
      } in
      let (row, later, e, q, _, a) = T.create_ok d db fresh in
      let o : row.display_order ≡ new_order u db = ap (λ (c : Create). c.display_order) q in
      (
        row,
        later,
        ground (
          arith,
          find_first_no (of_pair u dto.base_currency dto.currency_code) db fresh,
          T.count_rows (of_user u) db,
          e,
        ),
        record {
          user = ap (λ (c : Create). c.user_idx) q;
          base = ap (λ (c : Create). c.base_currency) q;
          code = ap (λ (c : Create). c.currency_code) q;
          last =
              All-map_le (λ x f h. (omega (arith, f (ground arith), o))) (T.rows db)
                (new_order_above u db);
          added = a;
        },
      )

  -- Registering a pair, on every branch: a pair that the user has is refused; a new one is refused where the user
  -- has ten pairs or more; and otherwise it is stored for that user with an order above those of the
  -- user's other pairs, and no other row changes.
  pub create_interest_currency_lem :
      (u : ℕ) (dto : AddWatchlistItemReqDto) (db : T.Db)
      → (any (of_pair u dto.base_currency dto.currency_code) (T.rows db) ≡ true
          → create_interest_currency T u dto db ≡ err WatchlistError.already_register_pair)
        × (any (of_pair u dto.base_currency dto.currency_code) (T.rows db) ≡ false
            → max_pair_count ≤ count_p (of_user u) (T.rows db)
            → create_interest_currency T u dto db ≡ err WatchlistError.maximum_pair)
        × (any (of_pair u dto.base_currency dto.currency_code) (T.rows db) ≡ false
            → count_p (of_user u) (T.rows db) < max_pair_count
            → (row : WatchlistEntity) × (later : T.Db) × (create_interest_currency T u dto db
                ≡ ok (row, later))
              × Created u dto db row later)
  unfolding create_interest_currency
  create_interest_currency_lem u dto db = (
    (λ h.
        let (r, e) = find_first_any (of_pair u dto.base_currency dto.currency_code) db h in
        ground (arith, e)),
    (λ h full. ground (
      arith,
      find_first_no (of_pair u dto.base_currency dto.currency_code) db h,
      T.count_rows (of_user u) db,
    )),
    creates u dto db,
  )

  -- No user has more than ten pairs, and no two pairs of a user have one order.
  pub record IsValid (db : T.Db) : Type 0 where
    pub bounded : (u : ℕ) → count_p (of_user u) (T.rows db) ≤ max_pair_count
    pub ordered : (u : ℕ) → Distinct (λ r. r.display_order) (filter (of_user u) (T.rows db))

  Created-IsValid :
      (u : ℕ) (dto : AddWatchlistItemReqDto) (db : T.Db) (row : WatchlistEntity) (later : T.Db)
      → count_p (of_user u) (T.rows db) < max_pair_count
      → IsValid db
      → Created u dto db row later
      → IsValid later
  Created-IsValid u dto db row later room v c = record {
    bounded = λ w.
        rw (c.added, count_p-append (of_user w) (T.rows db) (row ∷ []))
          (ground (arith, v.bounded w, c.user));
    ordered = λ w.
        rw (c.added, filter-append (of_user w) (T.rows db) (row ∷ []))
          (elim (Bool-cases (of_user w row)) [
            | inl own ↦ rw own (
                Distinct-append (λ r. r.display_order) (filter (of_user w) (T.rows db)) row
                  (v.ordered w)
                  (All-filter (of_user w) (λ x. x.display_order ≢ row.display_order) (T.rows db)
                    (All-map_le (λ x f h e. (absurd (omega (arith, f (ground (arith, c.user)), e))))
                      (T.rows db) c.last)))
            | inr other ↦ rw (other, append-nil) (v.ordered w)
          ]);
  }

  -- Registering a pair keeps the bound of ten pairs for each user, and the orders of each user's pairs distinct.
  pub create_interest_currency-IsValid :
      (u : ℕ) (dto : AddWatchlistItemReqDto) (db : T.Db) (row : WatchlistEntity) (later : T.Db)
      → IsValid db
      → create_interest_currency T u dto db ≡ ok (row, later)
      → IsValid later
  create_interest_currency-IsValid u dto db row later v e =
      let (old, full, new) = create_interest_currency_lem u dto db in
      elim (Bool-cases (any (of_pair u dto.base_currency dto.currency_code) (T.rows db))) [
        | inl h ↦ cc (old h)
        | inr h ↦ elim (Bool-cases (leb max_pair_count (count_p (of_user u) (T.rows db)))) [
          | inl k ↦ cc (full h (ground arith))
          | inr k ↦
              let (row', later', e', c) = new h (ground arith) in
              subst IsValid (cc (e, e')) (Created-IsValid u dto db row' later' (ground arith) v c)
        ]
      ]

  -- Deleting a pair, on every branch, with the pair named by index and user: a pair that the user has not is refused; one
  -- that the user has, once, is gone and every other row stays.
  pub delete_interst_currency_lem :
      (pair_idx u : ℕ) (db : T.Db)
      → (any (of_pair_idx pair_idx u) (T.rows db) ≡ false
          → delete_interst_currency T pair_idx u db ≡ err WatchlistError.currency_pair_not_found)
        × (count_p (of_pair_idx pair_idx u) (T.rows db) ≡ 1
            → (later : T.Db) × (delete_interst_currency T pair_idx u db ≡ ok later)
              × (T.rows later ≡ filter (λ r. not (of_pair_idx pair_idx u r)) (T.rows db)))
  unfolding delete_interst_currency
  delete_interst_currency_lem pair_idx u db = (
    (λ h. ground (arith, find_first_no (of_pair_idx pair_idx u) db h)),
    (λ one.
        let (r, e) = find_first_any (of_pair_idx pair_idx u) db (
          ground (
            arith,
            any-eq-false (of_pair_idx pair_idx u) (T.rows db),
            count_p-eq-zero (of_pair_idx pair_idx u) (T.rows db),
          )) in
        let (later, d, k) = T.delete_ok (of_pair_idx pair_idx u) db one in
        (later, ground (arith, e, d), k)),
  )

  -- Deleting a pair keeps both too.
  pub delete_interst_currency-IsValid :
      (pair_idx u : ℕ) (db later : T.Db)
      → IsValid db
      → count_p (of_pair_idx pair_idx u) (T.rows db) ≡ 1
      → delete_interst_currency T pair_idx u db ≡ ok later
      → IsValid later
  delete_interst_currency-IsValid pair_idx u db later v one e =
      let (later', e', k) = (delete_interst_currency_lem pair_idx u db).1 one in
      let same : later' ≡ later = cc (e, e') in
      subst IsValid same (record {
        bounded = λ w. rw k (
            omega (
              arith,
              count_p-filter-le (of_user w) (λ r. not (of_pair_idx pair_idx u r)) (T.rows db),
              v.bounded w,
            ));
        ordered = λ w.
            rw (k, filter_comm (of_user w) (λ r. not (of_pair_idx pair_idx u r)) (T.rows db))
              (Distinct-filter (λ r. r.display_order) (λ r. not (of_pair_idx pair_idx u r)) _
                (v.ordered w));
      })
