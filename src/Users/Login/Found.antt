-- ===== src/Users/Login/Found.antt =====
-- Which user an idx finds, after a login too.
use exchange_watch.Base.{
  ℕ, ◌≡◌, ◌≤◌, refl, sym, ap, subst, ◌∙◌, true, false, List, [], ◌∷◌, Result, ok, err, ◌==◌, any,
  count_p, count_p-append, any-IsIn, IsIn, inl, inr, Option-cases, arith,
}
use exchange_watch.Users.Login.{
  CreateBySocial, UserRow, UserEntity, from_row, Users, of_social, of_idx, create_user,
  handle_social_login, find_user_by_idx, find_first_by_idx,
}
use exchange_watch.Users.Login.Social.{
  only_one, none_conflicts, IsIn-last, login_of_found, login_of_none,
}

fresh_idx :
    (k : ℕ) (rows : List UserRow)
    → any (λ (b : UserRow). k == b.idx) rows ≡ false
    → count_p (of_idx k) rows ≡ 0
fresh_idx k [] e = refl
fresh_idx k (r ∷ rows) e = ground (arith, e, fresh_idx k rows)

abbrev value : {E A : Type 0} → A → Result E A → A
value a (ok b) = b
value a (err e) = a

last_one : (row : UserRow) → count_p (of_idx row.idx) (row ∷ []) ≡ 1
last_one row = ground arith

abbrev FindsItself : (T : Users) → UserEntity × T.Db → Type 0
FindsItself T r = find_user_by_idx T true ((r.0).idx) (r.1) ≡ ok (r.0)

module _ (T : Users) where
  pub find_user_by_idx-idx :
      (i : ℕ) (db : T.Db) (user : UserEntity)
      → find_user_by_idx T true i db ≡ ok user
      → user.idx ≡ i
  unfolding find_user_by_idx find_first_by_idx
  find_user_by_idx-idx i db user e = elim (Option-cases (T.find_first (of_idx i) db)) [
    | inl h ↦ ground (arith, e, h)
    | inr (r, h) ↦ ground (arith, e, h, (T.find_first_some (of_idx i) db r h).0)
  ]

  -- No two users have one idx, which is the primary key.
  abbrev pub IsKeyed : T.Db → Type 0
  IsKeyed db = (i : ℕ) → count_p (of_idx i) (T.rows db) ≤ 1

  found_by_idx :
      (row : UserRow) (db : T.Db)
      → IsIn row (T.rows db)
      → count_p (of_idx row.idx) (T.rows db) ≤ 1
      → find_user_by_idx T true row.idx db ≡ ok (from_row row)
  unfolding find_user_by_idx find_first_by_idx
  found_by_idx row db i le =
      let fits = of_idx row.idx in
      let self : fits row ≡ true = ground arith in
      elim (Option-cases (T.find_first fits db)) [
        | inl h ↦ cc (T.find_first_none fits db h, any-IsIn fits (T.rows db) i self)
        | inr (r, h) ↦
            let (q, j) = T.find_first_some fits db r h in
            rw (h, find_user_by_idx, only_one fits (T.rows db) r row le j i q self) refl
      ]

  -- The user of a login is found by its idx from then on.
  pub login-find_user_by_idx :
      (input : CreateBySocial) (db : T.Db) (user : UserEntity) (later : T.Db)
      → IsKeyed db
      → handle_social_login T input db ≡ ok (user, later)
      → find_user_by_idx T true user.idx later ≡ ok user
  unfolding handle_social_login create_user
  login-find_user_by_idx input db user later keyed e =
      let fits = of_social input.social_id input.social_provider in
      elim (Option-cases (T.find_first fits db)) [
        | inl h ↦
            let (row, next, f, made, fresh, all) =
              T.create_ok input db (none_conflicts (T.rows db)) in
            let one : count_p (of_idx row.idx) (T.rows next) ≤ 1 = omega (
              arith,
              ap (count_p (of_idx row.idx)) all,
              count_p-append (of_idx row.idx) (T.rows db) (row ∷ []),
              fresh_idx row.idx (T.rows db) fresh,
              last_one row,
            ) in
            let new : create_user T input db ≡ ok (from_row row, next) = rw (f, create_user) refl in
            let same : (from_row row, next) ≡ (user, later) =
              ap (value (user, later)) (sym (login_of_none T input db h ∙ new) ∙ e) in
            subst (FindsItself T) same
              (found_by_idx row next (subst (IsIn row) (sym all) (IsIn-last row (T.rows db))) one)
        | inr (row, h) ↦
            let (q, i) = T.find_first_some fits db row h in
            let same : (from_row row, db) ≡ (user, later) =
              ap (value (user, later)) (sym (login_of_found T input row db h) ∙ e) in
            subst (FindsItself T) same (found_by_idx row db i (keyed row.idx))
      ]
