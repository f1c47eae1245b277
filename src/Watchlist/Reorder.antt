-- ===== src/Watchlist/Reorder.antt =====
-- Moving a pair to another order: the search for the pair to swap with has its arguments swapped.
use exchange_watch.Base.{
  ℕ, ◌+◌, ◌≤◌, ◌<◌, ◌≡◌, ◌≢◌, refl, ap, inl, inr, true, false, not, List, [], ◌∷◌, arith, map, ok,
  err, any, count_p, IsIn, Distinct, any-eq-false, count_p-eq-zero, ◌&&◌, if◌then◌else◌, any_of_All,
  All-map_le, All_of_IsIn, ◌∙◌,
}
use exchange_watch.Prisma.{DbError}
use exchange_watch.Watchlist.Creation.{find_first_no, find_first_any}
use exchange_watch.Watchlist.{
  WatchlistEntity, WatchlistError, Watchlists, of_pair_idx, of_order, update_interest_pair_order,
}

-- The row after a move.
abbrev pub moved : ℕ → ℕ → ℕ → WatchlistEntity → WatchlistEntity
moved pair_idx u new_order r =
    if of_pair_idx pair_idx u r then record r { display_order = new_order } else r

count_p-moved :
    (pair_idx u n : ℕ) (xs : List WatchlistEntity)
    → count_p (of_order u n) (map (moved pair_idx u n) xs)
      ≡ count_p (of_pair_idx pair_idx u) xs
        + count_p (λ r. of_order u n r && not (of_pair_idx pair_idx u r)) xs
count_p-moved pair_idx u n [] = refl
count_p-moved pair_idx u n (x ∷ xs) = ground (arith, count_p-moved pair_idx u n xs)

-- A row of another user leaves no row of this user under its index.
other_user :
    (u : ℕ) (t : WatchlistEntity) (xs : List WatchlistEntity)
    → Distinct (λ r. r.idx) xs
    → IsIn t xs
    → t.user_idx ≢ u
    → any (of_pair_idx t.idx u) xs ≡ false
other_user u t [] d i ne = refl
other_user u t (x ∷ xs) d (inl e) ne =
    let a : x.user_idx ≢ u = λ h. ne (ap (λ (r : WatchlistEntity). r.user_idx) e ∙ h) in
    let b =
      any_of_All (of_pair_idx t.idx u) xs (All-map_le (λ y f. (ground (arith, f, e))) xs d.0) in
    ground (arith, a, b)
other_user u t (x ∷ xs) d (inr i) ne =
    let a = All_of_IsIn (λ y. x.idx ≢ y.idx) xs d.0 i in
    ground (arith, a, other_user u t xs d.1 i ne)

module _ (T : Watchlists) where
  moves :
      (pair_idx n u : ℕ) (db : T.Db)
      → count_p (of_pair_idx pair_idx u) (T.rows db) ≡ 1
      → any (of_order n u) (T.rows db) ≡ false
      → (later : T.Db) × (update_interest_pair_order T pair_idx n u db ≡ ok later)
        × (T.rows later ≡ map (moved pair_idx u n) (T.rows db))
  unfolding update_interest_pair_order
  moves pair_idx n u db one free =
      let (r, e) = find_first_any T (of_pair_idx pair_idx u) db (
        ground (
          arith,
          any-eq-false (of_pair_idx pair_idx u) (T.rows db),
          count_p-eq-zero (of_pair_idx pair_idx u) (T.rows db),
        )) in
      let (later, d, k) =
        T.update_ok (of_pair_idx pair_idx u) (λ x. record x { display_order = n }) db one in
      (later, ground (arith, e, d, find_first_no T (of_order n u) db free), k)

  -- The bug: where another pair of the user has the new order and the misdirected search finds nothing, the call succeeds and
  -- leaves the user with two pairs or more of that order, where it means to swap the two.
  pub update_duplicates_order :
      (pair_idx new_order u : ℕ) (db : T.Db)
      → count_p (of_pair_idx pair_idx u) (T.rows db) ≡ 1
      → any (of_order new_order u) (T.rows db) ≡ false
      → 0 < count_p (λ r. of_order u new_order r && not (of_pair_idx pair_idx u r)) (T.rows db)
      → (later : T.Db) × (update_interest_pair_order T pair_idx new_order u db ≡ ok later)
        × (2 ≤ count_p (of_order u new_order) (T.rows later))
  update_duplicates_order pair_idx n u db one free other =
      let (later, e, k) = moves pair_idx n u db one free in
      (later, e, rw k (omega (arith, count_p-moved pair_idx u n (T.rows db))))

  -- The bug: where the misdirected search finds a row of another user, the call fails with Prisma's error for a missing
  -- record, although the user has the pair.
  pub update_hits_other_user :
      (pair_idx new_order u : ℕ) (db : T.Db)
      → Distinct (λ r. r.idx) (T.rows db)
      → any (of_pair_idx pair_idx u) (T.rows db) ≡ true
      → any (of_order new_order u) (T.rows db) ≡ true
      → new_order ≢ u
      → update_interest_pair_order T pair_idx new_order u db
        ≡ err (WatchlistError.database DbError.record_not_found)
  unfolding update_interest_pair_order
  update_hits_other_user pair_idx n u db keys own hit ne =
      let (f, e) = find_first_any T (of_pair_idx pair_idx u) db own in
      let (t, g) = find_first_any T (of_order n u) db hit in
      let (q, i) = T.find_first_some (of_order n u) db t g in
      let none_there = other_user u t (T.rows db) keys i (λ same. absurd (ground arith)) in
      ground (
        arith,
        e,
        g,
        T.update_none (of_pair_idx t.idx u) (λ x. record x { display_order = f.display_order }) db
            none_there,
      )
