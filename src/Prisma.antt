-- ===== src/Prisma.antt =====
-- The Prisma client of one table, and the database behind it, which are no part of the repository: the
-- operations that the repositories call, with what is documented of them. A `where` is a test of rows.
pub mod Memory
use exchange_watch.Base.{
  ℕ, ◌≡◌, Bool, true, false, not, Option, none, some, List, [], ◌∷◌, ◌++◌, map, Result, ok, err,
  any, filter, count_p, take, All, IsIn, Distinct, sort_desc, if◌then◌else◌, ◌≤◌, ◌-◌, length, leb,
}

-- P2002, a unique constraint failed, and P2025, the record to change was not found.
pub data DbError : Type 0 where
  unique_constraint record_not_found : DbError

-- `same_key` compares primary keys, `data_of` is what `create` was given, and `conflict` says which rows a unique
-- constraint sets against new data.
pub record Table (Row Data : Type 0) (same_key : Row → Row → Bool) (data_of : Row → Data)
    (conflict : Data → Row → Bool) : Type 1 where
  pub Db : Type 0
  -- the table's rows, in the order of their creation
  pub rows : Db → List Row
  pub create : Data → Db → Result DbError (Row × Db)
  -- `findFirst`, and with `orderBy: { key: 'desc' }`
  pub find_first : (Row → Bool) → Db → Option Row
  pub find_last : (Row → Bool) → (Row → ℕ) → Db → Option Row
  -- `findMany`, and with `orderBy: { key: 'desc' }` and `take`
  pub find_many : (Row → Bool) → Db → List Row
  pub find_desc : (Row → Bool) → (Row → ℕ) → ℕ → Db → List Row
  -- `findMany` with `take` and `skip`, in any order
  pub find_page : (Row → Bool) → ℕ → ℕ → Db → List Row
  pub count : (Row → Bool) → Db → ℕ
  pub update : (Row → Bool) → (Row → Row) → Db → Result DbError Db
  pub delete : (Row → Bool) → Db → Result DbError Db
  pub upsert : (Row → Bool) → (Row → Row) → Data → Db → Result DbError Db
  pub create_ok :
      (d : Data) (db : Db)
      → any (conflict d) (rows db) ≡ false
      → (row : Row) × (after : Db) × (create d db ≡ ok (row, after))
        × (data_of row ≡ d)
        × (any (same_key row) (rows db) ≡ false)
        × (rows after ≡ rows db ++ row ∷ [])
  pub create_conflict :
      (d : Data) (db : Db) → any (conflict d) (rows db) ≡ true → create d db ≡ err unique_constraint
  pub find_first_some :
      (p : Row → Bool) (db : Db) (r : Row)
      → find_first p db ≡ some r
      → (p r ≡ true) × IsIn r (rows db)
  pub find_first_none :
      (p : Row → Bool) (db : Db) → find_first p db ≡ none → any p (rows db) ≡ false
  pub find_last_some :
      (p : Row → Bool) (key : Row → ℕ) (db : Db) (r : Row)
      → find_last p key db ≡ some r
      → (p r ≡ true) × IsIn r (rows db) × All (λ x. p x ≡ true → key x ≤ key r) (rows db)
  pub find_last_none :
      (p : Row → Bool) (key : Row → ℕ) (db : Db)
      → find_last p key db ≡ none
      → any p (rows db) ≡ false
  -- without an order the rows that fit come in any
  pub find_many_any :
      (p q : Row → Bool) (db : Db) → any q (find_many p db) ≡ any q (filter p (rows db))
  pub find_many_count :
      (p q : Row → Bool) (db : Db) → count_p q (find_many p db) ≡ count_p q (filter p (rows db))
  -- rows with one key come in any order, so nothing is said of them
  pub find_desc_sorted :
      (p : Row → Bool) (key : Row → ℕ) (n : ℕ) (db : Db)
      → Distinct key (filter p (rows db))
      → find_desc p key n db ≡ take n (sort_desc key (filter p (rows db)))
  pub find_page_fits :
      (p : Row → Bool) (n skip : ℕ) (db : Db) → All (λ r. p r ≡ true) (find_page p n skip db)
  pub find_page_length :
      (p : Row → Bool) (n skip : ℕ) (db : Db)
      → length (find_page p n skip db)
        ≡ (if leb n (count_p p (rows db) - skip) then n else count_p p (rows db) - skip)
  pub count_rows : (p : Row → Bool) (db : Db) → count p db ≡ count_p p (rows db)
  -- the `where` of an update or a delete names a primary key or a unique constraint
  pub update_ok :
      (p : Row → Bool) (f : Row → Row) (db : Db)
      → count_p p (rows db) ≡ 1
      → (after : Db) × (update p f db ≡ ok after)
        × (rows after ≡ map (λ r. if p r then f r else r) (rows db))
  pub update_none :
      (p : Row → Bool) (f : Row → Row) (db : Db)
      → any p (rows db) ≡ false
      → update p f db ≡ err record_not_found
  pub delete_ok :
      (p : Row → Bool) (db : Db)
      → count_p p (rows db) ≡ 1
      → (after : Db) × (delete p db ≡ ok after) × (rows after ≡ filter (λ r. not (p r)) (rows db))
  pub delete_none :
      (p : Row → Bool) (db : Db) → any p (rows db) ≡ false → delete p db ≡ err record_not_found
  pub upsert_update :
      (p : Row → Bool) (f : Row → Row) (d : Data) (db : Db)
      → count_p p (rows db) ≡ 1
      → (after : Db) × (upsert p f d db ≡ ok after)
        × (rows after ≡ map (λ r. if p r then f r else r) (rows db))
  pub upsert_create :
      (p : Row → Bool) (f : Row → Row) (d : Data) (db : Db)
      → any p (rows db) ≡ false
      → any (conflict d) (rows db) ≡ false
      → (row : Row) × (after : Db) × (upsert p f d db ≡ ok after)
        × (data_of row ≡ d)
        × (rows after ≡ rows db ++ row ∷ [])
