-- ===== src/Prisma/Memory.antt =====
-- A table in memory: concrete functions for the operations of `Table`, at which the theorems over
-- any table are instantiated.
use exchange_watch.Base.{
  zero, ap, ◌∙◌, ◌-◌, drop, length, length-drop, length-take, length-filter, take_all, All-take,
  All-filter, ℕ, suc, ◌≡◌, ◌≤◌, refl, sym, subst, Bool, true, false, not, Option, none, some, List,
  [], ◌∷◌, ◌++◌, map, Result, ok, err, any, filter, count_p, take, All, IsIn, sort_desc,
  if◌then◌else◌, ◌==◌, leb, arith, inl, inr, Bool-cases, Option-cases, All-map_le, if_of_true,
  if_of_false, count_p-eq-zero,
}
use Prim.Native.Nat.{max}
use exchange_watch.Prisma.{DbError, unique_constraint, record_not_found, Table}

module _ {Row : Type 0} where
  unfoldable pub find : (Row → Bool) → List Row → Option Row
  find p [] = none
  find p (x ∷ xs) = if p x then some x else find p xs

  pub find-some :
      (p : Row → Bool) (xs : List Row) (r : Row) → find p xs ≡ some r → (p r ≡ true) × IsIn r xs
  unfolding find
  find-some p [] r e = cc
  find-some p (x ∷ xs) r e = elim (Bool-cases (p x)) [
    | inl h ↦ let k : x ≡ r = ground arith in (rw (← k) h, inl (sym k))
    | inr h ↦ let (q, i) = find-some p xs r (ground arith) in (q, inr i)
  ]

  pub find-none : (p : Row → Bool) (xs : List Row) → find p xs ≡ none → any p xs ≡ false
  unfolding find
  find-none p [] e = refl
  find-none p (x ∷ xs) e = ground (arith, find-none p xs)

  -- The first row with the greatest key.
  unfoldable pub greatest : (Row → ℕ) → List Row → Option Row
  greatest key [] = none
  greatest key (x ∷ xs) = elim (greatest key xs) [
    | none ↦ some x
    | some y ↦ if leb (key y) (key x) then some x else some y
  ]

  unfoldable pub last : (Row → Bool) → (Row → ℕ) → List Row → Option Row
  unfolding greatest
  last p key xs = greatest key (filter p xs)

  greatest-none : (key : Row → ℕ) (xs : List Row) → greatest key xs ≡ none → xs ≡ []
  unfolding greatest
  greatest-none key [] e = refl
  greatest-none key (x ∷ xs) e = ground arith

  greatest-some :
      (key : Row → ℕ) (xs : List Row) (r : Row)
      → greatest key xs ≡ some r
      → IsIn r xs × All (λ x. key x ≤ key r) xs
  unfolding greatest
  greatest-some key [] r e = cc
  greatest-some key (x ∷ xs) r e = elim (Option-cases (greatest key xs)) [
    | inl h ↦
        let k : x ≡ r = ground arith in
        (
          inl (sym k),
          (ground arith, subst (All (λ y. key y ≤ key r)) (sym (greatest-none key xs h)) tt),
        )
    | inr (y, h) ↦
        let (i, a) = greatest-some key xs y h in
        elim (Bool-cases (leb (key y) (key x))) [
          | inl le ↦
              let k : x ≡ r = ground arith in
              (inl (sym k), (ground arith, All-map_le (λ z l. (ground arith)) xs a))
          | inr gt ↦
              let k : y ≡ r = ground arith in
              (
                inr (subst (λ z. IsIn z xs) k i),
                (ground arith, subst (λ w. All (λ z. key z ≤ key w) xs) k a),
              )
        ]
  ]

  filter-IsIn :
      (p : Row → Bool) (xs : List Row) (r : Row) → IsIn r (filter p xs) → (p r ≡ true) × IsIn r xs
  filter-IsIn p [] r i = absurd (i tt)
  filter-IsIn p (x ∷ xs) r i = elim (Bool-cases (p x)) [
    | inl h ↦
        let j : IsIn r (x ∷ filter p xs) =
          subst (IsIn r) (if_of_true (p x) (x ∷ filter p xs) _ h) i in
        elim j [ inl e ↦ (rw e h, inl e) | inr k ↦ let (q, l) = filter-IsIn p xs r k in (q, inr l) ]
    | inr h ↦
        let j = subst (IsIn r) (if_of_false (p x) (x ∷ filter p xs) _ h) i in
        let (q, l) = filter-IsIn p xs r j in (q, inr l)
  ]

  filter-All :
      (p : Row → Bool) (Q : Row → Type 0) (xs : List Row)
      → All Q (filter p xs)
      → All (λ x. p x ≡ true → Q x) xs
  filter-All p Q [] a = tt
  filter-All p Q (x ∷ xs) a = elim (Bool-cases (p x)) [
    | inl h ↦
        let b = subst (All Q) (if_of_true (p x) (x ∷ filter p xs) _ h) a in
        ((λ _. b.0), filter-All p Q xs b.1)
    | inr h ↦
        let b = subst (All Q) (if_of_false (p x) (x ∷ filter p xs) _ h) a in
        ((λ g. cc), filter-All p Q xs b)
  ]

  nil_of_filter : (p : Row → Bool) (xs : List Row) → filter p xs ≡ [] → any p xs ≡ false
  nil_of_filter p [] e = refl
  nil_of_filter p (x ∷ xs) e = ground (arith, nil_of_filter p xs)

  pub last-some :
      (p : Row → Bool) (key : Row → ℕ) (xs : List Row) (r : Row)
      → last p key xs ≡ some r
      → (p r ≡ true) × IsIn r xs × All (λ x. p x ≡ true → key x ≤ key r) xs
  unfolding last
  last-some p key xs r e =
      let (i, a) = greatest-some key (filter p xs) r e in
      let (q, j) = filter-IsIn p xs r i in (q, j, filter-All p (λ x. key x ≤ key r) xs a)

  pub last-none :
      (p : Row → Bool) (key : Row → ℕ) (xs : List Row) → last p key xs ≡ none → any p xs ≡ false
  unfolding last
  last-none p key xs e = nil_of_filter p xs (greatest-none key (filter p xs) e)

  unfoldable pub update : (Row → Bool) → (Row → Row) → List Row → Result DbError (List Row)
  update p f xs =
      if count_p p xs == 1 then ok (map (λ r. if p r then f r else r) xs) else err record_not_found

  unfoldable pub delete : (Row → Bool) → List Row → Result DbError (List Row)
  delete p xs = if count_p p xs == 1 then ok (filter (λ r. not (p r)) xs) else err record_not_found

  pub update-one :
      (p : Row → Bool) (f : Row → Row) (xs : List Row)
      → count_p p xs ≡ 1
      → update p f xs ≡ ok (map (λ r. if p r then f r else r) xs)
  unfolding update
  update-one p f xs h = rw h

  pub update-no :
      (p : Row → Bool) (f : Row → Row) (xs : List Row)
      → any p xs ≡ false
      → update p f xs ≡ err record_not_found
  unfolding update
  update-no p f xs h = rw (count_p-eq-zero p xs h)

  pub delete-one :
      (p : Row → Bool) (xs : List Row)
      → count_p p xs ≡ 1
      → delete p xs ≡ ok (filter (λ r. not (p r)) xs)
  unfolding delete
  delete-one p xs h = rw h

  pub delete-no :
      (p : Row → Bool) (xs : List Row) → any p xs ≡ false → delete p xs ≡ err record_not_found
  unfolding delete
  delete-no p xs h = rw (count_p-eq-zero p xs h)

  -- A key that no row has.
  unfoldable pub fresh : (Row → ℕ) → List Row → ℕ
  fresh key [] = 1
  fresh key (x ∷ xs) = max (suc (key x)) (fresh key xs)

  fresh-above :
      (key : Row → ℕ) (xs : List Row) (n : ℕ) → fresh key xs ≤ n → any (λ x. n == key x) xs ≡ false
  unfolding fresh
  fresh-above key [] n h = refl
  fresh-above key (x ∷ xs) n h = ground (arith, fresh-above key xs n)

module _ {Row Data : Type 0} (key : Row → ℕ) (build : ℕ → Data → Row) (data_of : Row → Data)
    (conflict : Data → Row → Bool) (key-build : (n : ℕ) (d : Data) → key (build n d) ≡ n)
    (data_of-build : (n : ℕ) (d : Data) → data_of (build n d) ≡ d) where
  unfoldable pub create : Data → List Row → Result DbError (Row × List Row)
  unfolding fresh
  create d xs =
      if any (conflict d) xs
      then err unique_constraint
      else ok (build (fresh key xs) d, xs ++ build (fresh key xs) d ∷ [])

  pub create-ok :
      (d : Data) (xs : List Row)
      → any (conflict d) xs ≡ false
      → (row : Row) × (after : List Row) × (create d xs ≡ ok (row, after))
        × (data_of row ≡ d)
        × (any (λ x. key row == key x) xs ≡ false)
        × (after ≡ xs ++ row ∷ [])
  unfolding create
  create-ok d xs h =
      let row = build (fresh key xs) d in
      (
        row,
        xs ++ row ∷ [],
        if_of_false _ _ _ h,
        data_of-build (fresh key xs) d,
        rw (key-build (fresh key xs) d) (fresh-above key xs (fresh key xs) (omega arith)),
        refl,
      )

  unfoldable pub upsert : (Row → Bool) → (Row → Row) → Data → List Row → Result DbError (List Row)
  unfolding create update
  upsert p f d xs =
      if count_p p xs == 0
      then elim (create d xs) [ err e ↦ err e | ok made ↦ ok (made.1) ]
      else update p f xs

  pub upsert-one :
      (p : Row → Bool) (f : Row → Row) (d : Data) (xs : List Row)
      → count_p p xs ≡ 1
      → upsert p f d xs ≡ ok (map (λ r. if p r then f r else r) xs)
  unfolding upsert update
  upsert-one p f d xs h = rw h refl

  pub upsert-no :
      (p : Row → Bool) (f : Row → Row) (d : Data) (xs : List Row)
      → any p xs ≡ false
      → any (conflict d) xs ≡ false
      → (row : Row) × (after : List Row) × (upsert p f d xs ≡ ok after)
        × (data_of row ≡ d)
        × (after ≡ xs ++ row ∷ [])
  unfolding upsert
  upsert-no p f d xs h free =
      let (row, after, e, q, _, k) = create-ok d xs free in
      (row, after, rw (count_p-eq-zero p xs h, e) refl, q, k)

  pub All_self : (p : Row → Bool) (xs : List Row) → All (λ r. p r ≡ true → p r ≡ true) xs
  All_self p [] = tt
  All_self p (x ∷ xs) = ((λ h. h), All_self p xs)

  pub All-drop :
      (p : Row → Bool) (k : ℕ) (xs : List Row)
      → All (λ r. p r ≡ true) xs
      → All (λ r. p r ≡ true) (drop k xs)
  All-drop p zero xs h = h
  All-drop p (suc k) [] h = tt
  All-drop p (suc k) (x ∷ xs) h = All-drop p k xs h.1

  pub page-length :
      (p : Row → Bool) (n k : ℕ) (xs : List Row)
      → length (take n (drop k (filter p xs)))
        ≡ (if leb n (count_p p xs - k) then n else count_p p xs - k)
  page-length p n k xs =
      let left : length (drop k (filter p xs)) ≡ count_p p xs - k =
        length-drop k (filter p xs) ∙ ap (λ m. m - k) (length-filter p xs) in
      elim (Bool-cases (leb n (count_p p xs - k))) [
        | inl h ↦ rw h (length-take n (drop k (filter p xs)) (ground (arith, h, left)))
        | inr h ↦
            rw h (ap length (take_all n (drop k (filter p xs)) (ground (arith, h, left))) ∙ left)
      ]

  -- The table as a list of rows, keyed by `key`.
  unfoldable pub table : Table Row Data (λ a b. key a == key b) data_of conflict
  unfolding create find last update delete upsert
  table = record {
    Db = List Row;
    rows = λ xs. xs;
    create = create;
    find_first = find;
    find_last = last;
    find_many = filter;
    find_desc = λ p k n xs. take n (sort_desc k (filter p xs));
    find_page = λ p n k xs. take n (drop k (filter p xs));
    count = count_p;
    update = update;
    delete = delete;
    upsert = upsert;
    create_ok = create-ok;
    create_conflict = λ d xs h. if_of_true _ _ _ h;
    find_first_some = find-some;
    find_first_none = find-none;
    find_last_some = last-some;
    find_last_none = last-none;
    find_many_any = λ p q xs. refl;
    find_many_count = λ p q xs. refl;
    find_desc_sorted = λ p k n xs h. refl;
    find_page_fits = λ p n k xs.
        All-take _ n _
          (All-drop p k (filter p xs) (All-filter p (λ r. p r ≡ true) xs (All_self p xs)));
    find_page_length = page-length;
    count_rows = λ p xs. refl;
    update_ok = λ p f xs h. (map (λ r. if p r then f r else r) xs, update-one p f xs h, refl);
    update_none = λ p f xs h. update-no p f xs h;
    delete_ok = λ p xs h. (filter (λ r. not (p r)) xs, delete-one p xs h, refl);
    delete_none = λ p xs h. delete-no p xs h;
    upsert_update =
        λ p f d xs h. (map (λ r. if p r then f r else r) xs, upsert-one p f d xs h, refl);
    upsert_create = upsert-no;
  }
