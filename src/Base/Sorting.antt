-- ===== src/Base/Sorting.antt =====
-- Lists whose keys fall, and what cutting one by a bound gives.
use Prim.Native.Nat.{ℕ, zero, suc, ◌-◌, ◌≤◌, ◌<◌}
use mathlib.Core.Path.{◌≡◌, refl, ap}
use mathlib.Core.Logic.{◌≢◌, inl, inr}
use mathlib.Core.Bool.{Bool, true}
use mathlib.Core.Option.{Option, none, some}
use mathlib.Core.List.{List, [], ◌∷◌, ◌++◌}
use native.Mathlib.Omega.{arith}
use exchange_watch.Base.Tests.{if◌then◌else◌, leb, ltb, Bool-cases}
use exchange_watch.Base.Lists.{
  length, All, filter, take, drop, insert_desc, sort_desc, Distinct, All-map_le, All-filter_of,
}

module _ {ℓ} {A : Type ℓ} where
  pub take-append-drop : (n : ℕ) (xs : List A) → take n xs ++ drop n xs ≡ xs
  take-append-drop zero xs = refl
  take-append-drop (suc n) [] = refl
  take-append-drop (suc n) (x ∷ xs) = ap (λ ys. x ∷ ys) (take-append-drop n xs)

  pub length-drop : (n : ℕ) (xs : List A) → length (drop n xs) ≡ length xs - n
  length-drop zero xs = omega arith
  length-drop (suc n) [] = omega arith
  length-drop (suc n) (x ∷ xs) = omega (arith, length-drop n xs)

  pub length-take : (n : ℕ) (xs : List A) → n ≤ length xs → length (take n xs) ≡ n
  length-take zero xs h = refl
  length-take (suc n) [] h = omega (arith, h)
  length-take (suc n) (x ∷ xs) h = ap suc (length-take n xs (omega (arith, h)))

  pub take_all : (n : ℕ) (xs : List A) → length xs ≤ n → take n xs ≡ xs
  take_all zero [] h = refl
  take_all zero (x ∷ xs) h = absurd (omega (arith, h))
  take_all (suc n) [] h = refl
  take_all (suc n) (x ∷ xs) h = ap (λ ys. x ∷ ys) (take_all n xs (omega (arith, h)))

  pub take-take : (n m : ℕ) (xs : List A) → n ≤ m → take n (take m xs) ≡ take n xs
  take-take zero m xs h = refl
  take-take (suc n) zero xs h = absurd (omega (arith, h))
  take-take (suc n) (suc m) [] h = refl
  take-take (suc n) (suc m) (x ∷ xs) h = ap (λ ys. x ∷ ys) (take-take n m xs (omega (arith, h)))

  pub All-take {κ} : (P : A → Type κ) (n : ℕ) (xs : List A) → All P xs → All P (take n xs)
  All-take P zero xs h = tt
  All-take P (suc n) [] h = tt
  All-take P (suc n) (x ∷ xs) h = (h.0, All-take P n xs h.1)

  pub filter_all : (p : A → Bool) (xs : List A) → All (λ x. p x ≡ true) xs → filter p xs ≡ xs
  filter_all p [] h = refl
  filter_all p (x ∷ xs) h = rw (h.0) (ap (λ ys. x ∷ ys) (filter_all p xs h.1))

module _ {ℓ} {A : Type ℓ} (key : A → ℕ) where
  -- Each key lies above all later ones.
  abbrev pub Falls : List A → Type 0
  Falls [] = Unit
  Falls (x ∷ xs) = All (λ y. key y < key x) xs × Falls xs

  abbrev pub below : ℕ → A → Bool
  below c x = ltb (key x) c

  -- The last element's key.
  abbrev pub last_key : List A → Option ℕ
  last_key [] = none
  last_key (x ∷ []) = some (key x)
  last_key (x ∷ y ∷ xs) = last_key (y ∷ xs)

  All-insert_desc :
      (P : A → Type 0) (a : A) (xs : List A) → P a → All P xs → All P (insert_desc key a xs)
  All-insert_desc P a [] h t = (h, tt)
  All-insert_desc P a (x ∷ xs) h t = elim (Bool-cases (leb (key x) (key a))) [
    | inl e ↦ rw e (h, t)
    | inr e ↦ rw e (t.0, All-insert_desc P a xs h t.1)
  ]

  pub All-sort_desc : (P : A → Type 0) (xs : List A) → All P xs → All P (sort_desc key xs)
  All-sort_desc P [] h = tt
  All-sort_desc P (x ∷ xs) h = All-insert_desc P x (sort_desc key xs) h.0 (All-sort_desc P xs h.1)

  insert_desc-Falls :
      (a : A) (xs : List A) → All (λ y. key a ≢ key y) xs → Falls xs → Falls (insert_desc key a xs)
  insert_desc-Falls a [] d f = (tt, tt)
  insert_desc-Falls a (x ∷ xs) d f = elim (Bool-cases (leb (key x) (key a))) [
    | inl e ↦
        let l : key x < key a = ground (arith, d.0, e) in
        rw e ((l, All-map_le (λ y h. (omega (arith, h, l))) xs f.0), f)
    | inr e ↦ rw e (
      All-insert_desc (λ y. key y < key x) a xs (ground (arith, e)) f.0,
      insert_desc-Falls a xs d.1 f.1,
    )
  ]

  -- Where no two keys are equal, sorting gives falling keys.
  pub sort_desc-Falls : (xs : List A) → Distinct key xs → Falls (sort_desc key xs)
  sort_desc-Falls [] d = tt
  sort_desc-Falls (x ∷ xs) d =
      insert_desc-Falls x (sort_desc key xs) (All-sort_desc (λ y. key x ≢ key y) xs d.0)
        (sort_desc-Falls xs d.1)

  insert_desc_first :
      (a : A) (xs : List A) → All (λ y. key y ≤ key a) xs → insert_desc key a xs ≡ a ∷ xs
  insert_desc_first a [] h = refl
  insert_desc_first a (x ∷ xs) h = ground (arith, h.0)

  filter-insert_desc :
      (p : A → Bool) (a : A) (xs : List A)
      → Falls xs
      → filter p (insert_desc key a xs)
        ≡ (if p a then insert_desc key a (filter p xs) else filter p xs)
  filter-insert_desc p a [] f = refl
  filter-insert_desc p a (x ∷ xs) f = elim (Bool-cases (leb (key x) (key a))) [
    | inl e ↦
        let le : key x ≤ key a = ground (arith, e) in
        let rest =
          All-filter_of p (λ y. key y ≤ key a) xs
            (All-map_le (λ y h. (omega (arith, h, le))) xs f.0) in
        ground (arith, e, insert_desc_first a (filter p xs) rest)
    | inr e ↦ ground (arith, e, filter-insert_desc p a xs f.1)
  ]

  -- Sorting a part is the part of the sorted list.
  pub filter-sort_desc :
      (p : A → Bool) (xs : List A)
      → Distinct key xs
      → filter p (sort_desc key xs) ≡ sort_desc key (filter p xs)
  filter-sort_desc p [] d = refl
  filter-sort_desc p (x ∷ xs) d = ground (
    arith,
    filter-insert_desc p x (sort_desc key xs) (sort_desc-Falls xs d.1),
    filter-sort_desc p xs d.1,
  )

  pub last_key_lt :
      (k : ℕ) (xs : List A) (c : ℕ) → All (λ y. key y < k) xs → last_key xs ≡ some c → c < k
  last_key_lt k [] c h e = cc
  last_key_lt k (x ∷ []) c h e = ground (arith, h.0, e)
  last_key_lt k (x ∷ y ∷ xs) c h e = last_key_lt k (y ∷ xs) c h.1 e

  -- In a falling list, what lies below the last of the first `n` is what comes after them.
  pub filter-drop :
      (n : ℕ) (xs : List A) (c : ℕ)
      → Falls xs
      → last_key (take n xs) ≡ some c
      → filter (below c) xs ≡ drop n xs
  filter-drop zero xs c f e = cc
  filter-drop (suc n) [] c f e = cc
  filter-drop (suc zero) (x ∷ xs) c f e =
      let s = filter_all (below (key x)) xs (All-map_le (λ y h. (ground (arith, h))) xs f.0) in
      ground (arith, e, s)
  filter-drop (suc (suc n)) (x ∷ []) c f e = ground (arith, e)
  filter-drop (suc (suc n)) (x ∷ y ∷ xs) c f e =
      let l =
        last_key_lt (key x) (take (suc n) (y ∷ xs)) c
          (All-take (λ z. key z < key x) (suc n) (y ∷ xs) f.0) e in
      ground (arith, l, filter-drop (suc n) (y ∷ xs) c f.1 e)

  pub last_key-some : (xs : List A) → 0 < length xs → (c : ℕ) × (last_key xs ≡ some c)
  last_key-some [] h = absurd (omega (arith, h))
  last_key-some (x ∷ []) h = (key x, refl)
  last_key-some (x ∷ y ∷ xs) h = last_key-some (y ∷ xs) (omega arith)

  pub filter-below_zero : (xs : List A) → filter (below 0) xs ≡ []
  filter-below_zero [] = refl
  filter-below_zero (x ∷ xs) = ground (arith, filter-below_zero xs)

  pub filter-filter-below :
      (b c : ℕ) (xs : List A) → c ≤ b → filter (below c) (filter (below b) xs) ≡ filter (below c) xs
  filter-filter-below b c [] h = refl
  filter-filter-below b c (x ∷ xs) h = ground (arith, h, filter-filter-below b c xs h)

  pub filter-Falls : (p : A → Bool) (xs : List A) → Falls xs → Falls (filter p xs)
  filter-Falls p [] f = tt
  filter-Falls p (x ∷ xs) f = elim (Bool-cases (p x)) [
    | inl e ↦ rw e (All-filter_of p (λ y. key y < key x) xs f.0, filter-Falls p xs f.1)
    | inr e ↦ rw e (filter-Falls p xs f.1)
  ]
