-- ===== src/Users/Devices.antt =====
-- Who has a device's token after it is registered.
use exchange_watch.Base.{
  ℕ, ◌+◌, ◌≡◌, ◌≢◌, ◌≤◌, refl, sym, subst, ap, ◌∙◌, Bool, true, false, not, ◌&&◌, some, List, [],
  ◌∷◌, ◌++◌, map, String, str_eq, eq_iff, ok, err, ◌==◌, any, filter, count_p, IsIn, any-IsIn,
  Bool-cases, Option-cases, inl, inr, arith, if◌then◌else◌, any-eq-false, count_p_pos,
  count_p-append, count_p-eq-zero,
}
use exchange_watch.Prisma.{DbError}
use exchange_watch.Users.{
  UserDeviceEntity, DeviceCreate, Devices, of_pair, of_token, data_of, find_token_by_device_token,
  delete_device_token, upsert_device_token, register_user_device,
}

module _ {A : Type 0} (p q : A → Bool) (sub : (x : A) → q x ≡ true → p x ≡ true) where
  count_p-sub-le : (xs : List A) → count_p q xs ≤ count_p p xs
  count_p-sub-le [] = omega arith
  count_p-sub-le (x ∷ xs) = ground (arith, count_p-sub-le xs, sub x)

  count_p-filter-not :
      (xs : List A) → count_p p (filter (λ x. not (q x)) xs) + count_p q xs ≡ count_p p xs
  count_p-filter-not [] = refl
  count_p-filter-not (x ∷ xs) = ground (arith, count_p-filter-not xs, sub x)

-- The row after it is registered again.
abbrev renewed : DeviceCreate → UserDeviceEntity → UserDeviceEntity
renewed input r =
    if of_pair input.user_idx input.device_token r
    then record r {
      user_idx = input.user_idx;
      device_type = input.device_type;
      device_token = input.device_token;
    }
    else r

str_eq_self : (s : String) → str_eq s s ≡ true
str_eq_self s = (eq_iff s s).1 refl

count_p-renewed :
    (input : DeviceCreate) (xs : List UserDeviceEntity)
    → (count_p (of_token input.device_token) (map (renewed input) xs)
        ≡ count_p (of_token input.device_token) xs)
      × (count_p (of_pair input.user_idx input.device_token) (map (renewed input) xs)
          ≡ count_p (of_pair input.user_idx input.device_token) xs)
count_p-renewed input [] = (refl, refl)
count_p-renewed input (x ∷ xs) =
    let (a, b) = count_p-renewed input xs in
    let self = str_eq_self input.device_token in (ground (arith, a, self), ground (arith, b, self))

module _ (T : Devices) (active : ℕ → Bool) where
  none_active :
      (u : ℕ) (t : String) (xs : List UserDeviceEntity)
      → active u ≡ false
      → any (λ r. of_pair u t r && active r.user_idx) xs ≡ false
  none_active u t [] h = refl
  none_active u t (x ∷ xs) h = elim (Bool-cases (x.user_idx == u)) [
    | inl e ↦
        let k : active x.user_idx ≡ active u = ap active (ground (arith, e)) in
        ground (arith, none_active u t xs h, h, k)
    | inr e ↦ ground (arith, none_active u t xs h)
  ]

  -- A bug: where the token is registered for a user who has been deleted, no other user can register it: the old row is found,
  -- but its deletion asks for an owner who has not been deleted.
  pub deleted_owner_keeps_token :
      (input : DeviceCreate) (db : T.Db) (existing : UserDeviceEntity)
      → T.find_first (of_token input.device_token) db ≡ some existing
      → existing.user_idx ≢ input.user_idx
      → active existing.user_idx ≡ false
      → register_user_device T active input db ≡ err DbError.record_not_found
  unfolding register_user_device find_token_by_device_token delete_device_token
  deleted_owner_keeps_token input db existing e ne dead =
      let gone =
        T.delete_none (λ r. of_pair existing.user_idx existing.device_token r && active r.user_idx)
          db (none_active existing.user_idx existing.device_token (T.rows db) dead) in
      ground (arith, e, ne, gone)

  -- The token is the user's and nobody else's.
  abbrev pub Owns : DeviceCreate → List UserDeviceEntity → Type 0
  Owns input rows =
      (count_p (of_token input.device_token) rows ≡ 1)
      × (count_p (of_pair input.user_idx input.device_token) rows ≡ 1)

  Owns-append :
      (input : DeviceCreate) (rows : List UserDeviceEntity) (row : UserDeviceEntity)
      → data_of row ≡ input
      → count_p (of_token input.device_token) rows ≡ 0
      → count_p (of_pair input.user_idx input.device_token) rows ≡ 0
      → Owns input (rows ++ row ∷ [])
  Owns-append input rows row d a b =
      let t : str_eq row.device_token input.device_token ≡ true =
        (eq_iff row.device_token input.device_token).1
          (ap (λ (c : DeviceCreate). c.device_token) d) in
      let u : row.user_idx ≡ input.user_idx = ap (λ (c : DeviceCreate). c.user_idx) d in
      (
        rw (count_p-append (of_token input.device_token) rows (row ∷ [])) (ground (arith, a, t)),
        rw (count_p-append (of_pair input.user_idx input.device_token) rows (row ∷ []))
            (ground (arith, b, t, u)),
      )

  creates :
      (input : DeviceCreate) (db : T.Db)
      → count_p (of_token input.device_token) (T.rows db) ≡ 0
      → (later : T.Db) × (upsert_device_token T active input db ≡ ok later)
        × Owns input (T.rows later)
  unfolding upsert_device_token
  creates input db none_there =
      let le =
        count_p-sub-le (of_token input.device_token) (of_pair input.user_idx input.device_token)
          (λ x h. (ground (arith, h))) (T.rows db) in
      let zero_pair : count_p (of_pair input.user_idx input.device_token) (T.rows db) ≡ 0 =
        omega (arith, le, none_there) in
      let no_pair =
        any-eq-false (of_pair input.user_idx input.device_token) (T.rows db) zero_pair in
      let (row, later, e, d, k) =
        T.upsert_create (of_pair input.user_idx input.device_token) _ input db no_pair no_pair in
      (
        later,
        e,
        subst (Owns input) (sym k) (Owns-append input (T.rows db) row d none_there zero_pair),
      )

  keeps :
      (input : DeviceCreate) (db : T.Db)
      → count_p (of_token input.device_token) (T.rows db) ≡ 1
      → count_p (of_pair input.user_idx input.device_token) (T.rows db) ≡ 1
      → (later : T.Db) × (upsert_device_token T active input db ≡ ok later)
        × Owns input (T.rows later)
  unfolding upsert_device_token
  keeps input db one own =
      let (later, e, k) =
        T.upsert_update (of_pair input.user_idx input.device_token) _ input db own in
      let (a, b) = count_p-renewed input (T.rows db) in (later, e, (rw k (a ∙ one), rw k (b ∙ own)))

  one_of :
      (q : UserDeviceEntity → Bool) (t : String) (rows : List UserDeviceEntity)
      (r : UserDeviceEntity)
      → ((x : UserDeviceEntity) → q x ≡ true → of_token t x ≡ true)
      → count_p (of_token t) rows ≤ 1
      → IsIn r rows
      → q r ≡ true
      → (count_p q rows ≡ 1) × (count_p (of_token t) rows ≡ 1)
  one_of q t rows r sub most i h =
      let le = count_p-sub-le (of_token t) q sub rows in
      let pos = count_p_pos q rows (any-IsIn q rows i h) in
      (omega (arith, le, pos, most), omega (arith, le, pos, most))

  -- Registering a device's token, where at most one row has the token and its owner has not been deleted: it succeeds, and
  -- afterwards one row has the token, which is the user's, whoever had it before.
  pub register_user_device_lem :
      (input : DeviceCreate) (db : T.Db)
      → count_p (of_token input.device_token) (T.rows db) ≤ 1
      → ((r : UserDeviceEntity)
          → IsIn r (T.rows db)
          → of_token input.device_token r ≡ true
          → active r.user_idx ≡ true)
      → (later : T.Db) × (register_user_device T active input db ≡ ok later)
        × Owns input (T.rows later)
  unfolding register_user_device find_token_by_device_token delete_device_token
  register_user_device_lem input db most alive =
      let t = input.device_token in
      elim (Option-cases (T.find_first (of_token t) db)) [
        | inl e ↦
            let (later, f, o) =
              creates input db
                (count_p-eq-zero (of_token t) (T.rows db) (T.find_first_none (of_token t) db e)) in
            (later, ground (arith, e, f), o)
        | inr (r, e) ↦
            let (has, i) = T.find_first_some (of_token t) db r e in
            elim (Bool-cases (r.user_idx == input.user_idx)) [
              | inl own ↦
                  let (pair, token) =
                    one_of (of_pair input.user_idx t) t (T.rows db) r (λ x h. (ground (arith, h)))
                      most i (ground (arith, has, own)) in
                  let (later, f, o) = keeps input db token pair in
                  (later, ground (arith, e, own, f), o)
              | inr other ↦
                  let same : r.device_token ≡ t = (eq_iff r.device_token t).0 has in
                  let q : UserDeviceEntity → Bool =
                    λ x. of_pair r.user_idx r.device_token x && active x.user_idx in
                  let sub : (x : UserDeviceEntity) → q x ≡ true → of_token t x ≡ true =
                    λ x h. (rw (← same) (ground (arith, h))) in
                  let (pair, token) =
                    one_of q t (T.rows db) r sub most i
                      (ground (arith, alive r i has, str_eq_self r.device_token)) in
                  let (mid, d, k) = T.delete_ok q db pair in
                  let n = count_p-filter-not (of_token t) q sub (T.rows db) in
                  let (later, f, o) = creates input mid (rw k (omega (arith, n, pair, token))) in
                  (later, ground (arith, e, other, d, f), o)
            ]
      ]
