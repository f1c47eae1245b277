-- ===== src/Base/Lists.antt =====
-- Lists measured by native numbers and filtered by Boolean tests, as the source's arrays are.
use Prim.Native.Nat.{ℕ, zero, suc, ◌+◌, ◌≤◌, ◌<◌}
use mathlib.Core.Path.{◌≡◌, refl, ap}
use mathlib.Core.Logic.{◌⊎◌, inl, inr, ◌≢◌}
use mathlib.Core.Bool.{Bool, true, false, ◌||◌}
use mathlib.Core.List.{List, [], ◌∷◌, ◌++◌}
use native.Mathlib.Omega.{arith}
use exchange_watch.Base.Tests.{if◌then◌else◌, leb, Bool-cases}

module _ {ℓ} {A : Type ℓ} where
  abbrev pub length : List A → ℕ
  length [] = 0
  length (x ∷ xs) = suc (length xs)

  -- Every element satisfies a predicate.
  abbrev pub All {κ} : (A → Type κ) → List A → Type κ
  All P [] = Unit
  All P (x ∷ xs) = P x × All P xs

  -- `a` stands in the list.
  abbrev pub IsIn : A → List A → Type ℓ
  IsIn a [] = Unit {ℓ} → ⊥
  IsIn a (x ∷ xs) = (a ≡ x) ⊎ IsIn a xs

  -- `Array.prototype.filter`, `some` and `slice(0, n)`.
  abbrev pub filter : (A → Bool) → List A → List A
  filter p [] = []
  filter p (x ∷ xs) = if p x then x ∷ filter p xs else filter p xs

  abbrev pub any : (A → Bool) → List A → Bool
  any p [] = false
  any p (x ∷ xs) = p x || any p xs

  abbrev pub count_p : (A → Bool) → List A → ℕ
  count_p p [] = 0
  count_p p (x ∷ xs) = if p x then suc (count_p p xs) else count_p p xs

  abbrev pub take : ℕ → List A → List A
  take zero xs = []
  take (suc n) [] = []
  take (suc n) (x ∷ xs) = x ∷ take n xs

  abbrev pub drop : ℕ → List A → List A
  drop zero xs = xs
  drop (suc n) [] = []
  drop (suc n) (x ∷ xs) = drop n xs

  pub length-append : (xs ys : List A) → length (xs ++ ys) ≡ length xs + length ys
  length-append [] ys = omega arith
  length-append (x ∷ xs) ys = omega (arith, length-append xs ys)

  pub length-filter : (p : A → Bool) (xs : List A) → length (filter p xs) ≡ count_p p xs
  length-filter p [] = refl
  length-filter p (x ∷ xs) = ground (arith, length-filter p xs)

  pub count_p-append :
      (p : A → Bool) (xs ys : List A) → count_p p (xs ++ ys) ≡ count_p p xs + count_p p ys
  count_p-append p [] ys = omega arith
  count_p-append p (x ∷ xs) ys = ground (arith, count_p-append p xs ys)

  pub count_p-filter-le : (p q : A → Bool) (xs : List A) → count_p p (filter q xs) ≤ count_p p xs
  count_p-filter-le p q [] = omega arith
  count_p-filter-le p q (x ∷ xs) = ground (arith, count_p-filter-le p q xs)

  pub any-append : (p : A → Bool) (xs ys : List A) → any p (xs ++ ys) ≡ any p xs || any p ys
  any-append p [] ys = refl
  any-append p (x ∷ xs) ys = ground (arith, any-append p xs ys)

  -- What holds of no element is counted zero times, and the other way round.
  pub count_p-eq-zero : (p : A → Bool) (xs : List A) → any p xs ≡ false → count_p p xs ≡ 0
  count_p-eq-zero p [] h = refl
  count_p-eq-zero p (x ∷ xs) h = ground (arith, count_p-eq-zero p xs)

  pub count_p_pos : (p : A → Bool) (xs : List A) → any p xs ≡ true → 0 < count_p p xs
  count_p_pos p [] h = cc
  count_p_pos p (x ∷ xs) h = ground (arith, count_p_pos p xs)

  pub any-eq-false : (p : A → Bool) (xs : List A) → count_p p xs ≡ 0 → any p xs ≡ false
  any-eq-false p [] h = refl
  any-eq-false p (x ∷ xs) h = ground (arith, any-eq-false p xs)

  pub any_of_All : (p : A → Bool) (xs : List A) → All (λ x. p x ≡ false) xs → any p xs ≡ false
  any_of_All p [] h = refl
  any_of_All p (x ∷ xs) h = rw (h.0) (any_of_All p xs h.1)

  pub All-append {κ} : (P : A → Type κ) (xs ys : List A) → All P xs → All P ys → All P (xs ++ ys)
  All-append P [] ys hx hy = hy
  All-append P (x ∷ xs) ys hx hy = (hx.0, All-append P xs ys hx.1 hy)

  pub All_of_IsIn {κ} : (P : A → Type κ) {a : A} (xs : List A) → All P xs → IsIn a xs → P a
  All_of_IsIn P [] h i = absurd (i tt)
  All_of_IsIn P (x ∷ xs) h (inl e) = rw e h.0
  All_of_IsIn P (x ∷ xs) h (inr i) = All_of_IsIn P xs h.1 i

  pub any-IsIn : (p : A → Bool) {a : A} (xs : List A) → IsIn a xs → p a ≡ true → any p xs ≡ true
  any-IsIn p [] i h = absurd (i tt)
  any-IsIn p {a} (x ∷ xs) (inl e) h = ground (arith, ap p e)
  any-IsIn p (x ∷ xs) (inr i) h = ground (arith, any-IsIn p xs i h)

  pub All-map_le {κ μ} :
      {P : A → Type κ} {Q : A → Type μ} (f : (a : A) → P a → Q a) (xs : List A)
      → All P xs
      → All Q xs
  All-map_le f [] h = tt
  All-map_le f (x ∷ xs) h = (f x h.0, All-map_le f xs h.1)

module _ {ℓ} {A : Type ℓ} (key : A → ℕ) where
  -- Sorted by falling keys.
  abbrev pub insert_desc : A → List A → List A
  insert_desc a [] = a ∷ []
  insert_desc a (x ∷ xs) = if leb (key x) (key a) then a ∷ x ∷ xs else x ∷ insert_desc a xs

  abbrev pub sort_desc : List A → List A
  sort_desc [] = []
  sort_desc (x ∷ xs) = insert_desc x (sort_desc xs)

  -- No two elements have one key.
  abbrev pub Distinct : List A → Type 0
  Distinct [] = Unit
  Distinct (x ∷ xs) = All (λ y. key x ≢ key y) xs × Distinct xs

module _ {ℓ} {A : Type ℓ} where
  pub filter-append :
      (p : A → Bool) (xs ys : List A) → filter p (xs ++ ys) ≡ filter p xs ++ filter p ys
  filter-append p [] ys = refl
  filter-append p (x ∷ xs) ys = ground (arith, filter-append p xs ys)

  pub All_of_none {κ} :
      (p : A → Bool) (P : A → Type κ) (xs : List A)
      → any p xs ≡ false
      → All (λ x. p x ≡ true → P x) xs
  All_of_none p P [] h = tt
  All_of_none p P (x ∷ xs) h = ((λ e. absurd (ground arith)), All_of_none p P xs (ground arith))

  -- A fact of the elements that pass the test is one of all elements, under the test.
  pub All-filter {κ} :
      (p : A → Bool) (P : A → Type κ) (xs : List A)
      → All (λ x. p x ≡ true → P x) xs
      → All P (filter p xs)
  All-filter p P [] h = tt
  All-filter p P (x ∷ xs) h = elim (Bool-cases (p x)) [
    | inl e ↦ rw e (h.0 e, All-filter p P xs h.1)
    | inr e ↦ rw e (All-filter p P xs h.1)
  ]

  pub Distinct-append :
      (key : A → ℕ) (xs : List A) (a : A)
      → Distinct key xs
      → All (λ x. key x ≢ key a) xs
      → Distinct key (xs ++ a ∷ [])
  Distinct-append key [] a d h = (tt, tt)
  Distinct-append key (x ∷ xs) a d h =
      (All-append (λ y. key x ≢ key y) xs (a ∷ []) d.0 (h.0, tt), Distinct-append key xs a d.1 h.1)

  -- A part of a list with distinct keys has distinct keys.
  pub All-filter_of {κ} :
      (p : A → Bool) (P : A → Type κ) (xs : List A) → All P xs → All P (filter p xs)
  All-filter_of p P xs h = All-filter p P xs (All-map_le (λ x f _. f) xs h)

  pub Distinct-filter :
      (key : A → ℕ) (p : A → Bool) (xs : List A) → Distinct key xs → Distinct key (filter p xs)
  Distinct-filter key p [] d = tt
  Distinct-filter key p (x ∷ xs) d = elim (Bool-cases (p x)) [
    | inl e ↦ rw e (All-filter_of p (λ y. key x ≢ key y) xs d.0, Distinct-filter key p xs d.1)
    | inr e ↦ rw e (Distinct-filter key p xs d.1)
  ]

  pub filter_comm : (p q : A → Bool) (xs : List A) → filter p (filter q xs) ≡ filter q (filter p xs)
  filter_comm p q [] = refl
  filter_comm p q (x ∷ xs) = ground (arith, filter_comm p q xs)
