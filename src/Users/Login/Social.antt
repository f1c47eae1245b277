-- ===== src/Users/Login/Social.antt =====
-- Which user a social login gives.
use exchange_watch.Base.{
  ℕ, ◌+◌, ◌≡◌, ◌≤◌, refl, sym, ap, subst, ◌∙◌, Bool, true, false, none, some, List, [], ◌∷◌, ◌++◌,
  String, str_eq, eq_iff, ok, any, count_p, count_p-append, count_p-eq-zero, count_p_pos, any-IsIn,
  IsIn, inl, inr, Option-cases, arith,
}
use exchange_watch.Users.Login.{
  SocialProvider, same_provider, CreateBySocial, UserRow, UserEntity, from_row, Users, of_social,
  create_user, find_user_by_social_id, login_found, handle_social_login,
}

-- Two entries that fit where one does are the same.
pub only_one :
    {A : Type 0} (p : A → Bool) (xs : List A) (a b : A)
    → count_p p xs ≤ 1
    → IsIn a xs
    → IsIn b xs
    → p a ≡ true
    → p b ≡ true
    → a ≡ b
only_one p [] a b le i j pa pb = absurd (i tt)
only_one p (x ∷ xs) a b le (inl i) (inl j) pa pb = i ∙ sym j
only_one p (x ∷ xs) a b le (inl i) (inr j) pa pb =
    ground (arith, le, count_p_pos p xs (any-IsIn p xs j pb), ap p i, pa)
only_one p (x ∷ xs) a b le (inr i) (inl j) pa pb =
    ground (arith, le, count_p_pos p xs (any-IsIn p xs i pa), ap p j, pb)
only_one p (x ∷ xs) a b le (inr i) (inr j) pa pb = only_one p xs a b (ground (arith, le)) i j pa pb

same_provider_self : (a : SocialProvider) → same_provider a a ≡ true
same_provider_self SocialProvider.google = refl
same_provider_self SocialProvider.kakao = refl

pub IsIn-last : {A : Type 0} (a : A) (xs : List A) → IsIn a (xs ++ a ∷ [])
IsIn-last a [] = inl refl
IsIn-last a (x ∷ xs) = inr (IsIn-last a xs)

pub none_conflicts : (xs : List UserRow) → any (λ r. false) xs ≡ false
none_conflicts [] = refl
none_conflicts (x ∷ xs) = none_conflicts xs

created-of_social :
    (input : CreateBySocial) (row : UserRow)
    → row.created ≡ input
    → of_social input.social_id input.social_provider row ≡ true
created-of_social input row e =
    let p : same_provider row.created.social_provider input.social_provider ≡ true =
      ap (λ (c : CreateBySocial). same_provider c.social_provider input.social_provider) e
      ∙ same_provider_self input.social_provider in
    let q : str_eq row.created.social_id input.social_id ≡ true =
      (eq_iff row.created.social_id input.social_id).1
        (ap (λ (c : CreateBySocial). c.social_id) e) in
    rw (p, q) refl

module _ (T : Users) where
  -- How many users have the account of a profile.
  abbrev pub accounts : CreateBySocial → T.Db → ℕ
  accounts input db = count_p (of_social input.social_id input.social_provider) (T.rows db)

  -- The user is made of a row that has the account.
  abbrev pub HasAccount : CreateBySocial → UserEntity → T.Db → Type 0
  HasAccount input user db =
      (row : UserRow) × (from_row row ≡ user)
      × IsIn row (T.rows db)
      × (of_social input.social_id input.social_provider row ≡ true)

  pub login_of_found :
      (input : CreateBySocial) (row : UserRow) (db : T.Db)
      → T.find_first (of_social input.social_id input.social_provider) db ≡ some row
      → handle_social_login T input db ≡ ok (from_row row, db)
  unfolding handle_social_login
  login_of_found input row db e = rw (e, handle_social_login) refl

  pub login_of_none :
      (input : CreateBySocial) (db : T.Db)
      → T.find_first (of_social input.social_id input.social_provider) db ≡ none
      → handle_social_login T input db ≡ create_user T input db
  unfolding handle_social_login
  login_of_none input db e = rw (e, handle_social_login) refl

  HasAccount-login :
      (input : CreateBySocial) (user : UserEntity) (db : T.Db)
      → accounts input db ≤ 1
      → HasAccount input user db
      → handle_social_login T input db ≡ ok (user, db)
  HasAccount-login input user db le (row, e, i, p) =
      let fits = of_social input.social_id input.social_provider in
      elim (Option-cases (T.find_first fits db)) [
        | inl h ↦ cc (T.find_first_none fits db h, any-IsIn fits (T.rows db) i p)
        | inr (r, h) ↦
            let (q, j) = T.find_first_some fits db r h in
            login_of_found input r db h
            ∙ ap (λ (u : UserEntity). ok (u, db))
                (ap from_row (only_one fits (T.rows db) r row le j i q p) ∙ e)
      ]

  -- A user is made where nobody has the account, and also where the lookup has found nobody before.
  pub create_user_lem :
      (input : CreateBySocial) (db : T.Db)
      → (user : UserEntity) × (later : T.Db) × (create_user T input db ≡ ok (user, later))
        × (accounts input later ≡ accounts input db + 1)
        × HasAccount input user later
  unfolding create_user
  create_user_lem input db =
      let (row, later, e, made, fresh, all) = T.create_ok input db (none_conflicts (T.rows db)) in
      let fits = of_social input.social_id input.social_provider in
      let p = created-of_social input row made in
      (
        from_row row,
        later,
        rw (e, create_user) refl,
        ap (count_p fits) all ∙ count_p-append fits (T.rows db) (row ∷ []) ∙ rw p refl,
        (row, refl, subst (IsIn row) (sym all) (IsIn-last row (T.rows db)), p),
      )

  -- A login with the account of a profile, which at most one user has: it succeeds, one user has the account afterwards, and a
  -- later login with the account gives the same user and changes nothing, whatever email and name the profile has then.
  pub handle_social_login_lem :
      (input : CreateBySocial) (db : T.Db)
      → accounts input db ≤ 1
      → (user : UserEntity) × (later : T.Db) × (handle_social_login T input db ≡ ok (user, later))
        × (accounts input later ≡ 1)
        × HasAccount input user later
        × ((email name password : String)
            → handle_social_login T
                (record input { email = email; name = name; password = password })
                later
              ≡ ok (user, later))
  handle_social_login_lem input db le =
      let fits = of_social input.social_id input.social_provider in
      elim (Option-cases (T.find_first fits db)) [
        | inl h ↦
            let (user, later, e, n, a) = create_user_lem input db in
            let none_before = count_p-eq-zero fits (T.rows db) (T.find_first_none fits db h) in
            let one : accounts input later ≡ 1 = omega (arith, n, none_before) in
            (
              user,
              later,
              login_of_none input db h ∙ e,
              one,
              a,
              (λ email name password.
                  HasAccount-login
                    (record input { email = email; name = name; password = password }) user later
                    (omega (arith, one)) a),
            )
        | inr (row, h) ↦
            let (q, i) = T.find_first_some fits db row h in
            let some_before = count_p_pos fits (T.rows db) (any-IsIn fits (T.rows db) i q) in
            (
              from_row row,
              db,
              login_of_found input row db h,
              omega (arith, le, some_before),
              (row, refl, i, q),
              (λ email name password.
                  HasAccount-login
                    (record input { email = email; name = name; password = password })
                    (from_row row) db le (row, refl, i, q)),
            )
      ]

  -- A bug: where two logins with a new account both look it up before either creates its user, both create one, and two users
  -- have the account: the unique constraint on the account takes the nulls of `deletedAt` as distinct.
  pub simultaneous_logins :
      (input : CreateBySocial) (db : T.Db)
      → find_user_by_social_id T input.social_id input.social_provider db ≡ none
      → accounts input db ≡ 0
      → (user : UserEntity) × (next : T.Db) × (other : UserEntity) × (later : T.Db) × (login_found T
            (find_user_by_social_id T input.social_id input.social_provider db)
            input
            db
          ≡ ok (user, next))
        × (login_found T
              (find_user_by_social_id T input.social_id input.social_provider db)
              input
              next
            ≡ ok (other, later))
        × (accounts input later ≡ 2)
  unfolding login_found
  simultaneous_logins input db e z =
      let (user, next, f, n, a) = create_user_lem input db in
      let (other, later, g, k, b) = create_user_lem input next in
      (
        user,
        next,
        other,
        later,
        rw (e, login_found) f,
        rw (e, login_found) g,
        omega (arith, n, k, z),
      )
