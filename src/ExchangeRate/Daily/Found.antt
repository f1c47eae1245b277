-- ===== src/ExchangeRate/Daily/Found.antt =====
-- `createMany`: what the table has stays found, and what is written is found from then on.
use exchange_watch.Base.{
  ◌≡◌, refl, Bool, true, ◌&&◌, Bool-cases, inl, inr, List, [], ◌∷◌, ◌++◌, any, filter, arith,
}
use exchange_watch.Numbers.{Numbers}
use exchange_watch.ExchangeRate.Daily.{DailyRate, dated, same_day_pair, with_rows}

any-append :
    {A : Type 0} (f : A → Bool) (xs ys : List A) → any f xs ≡ true → any f (xs ++ ys) ≡ true
any-append f [] ys e = cc
any-append f (x ∷ xs) ys e = ground (arith, e, any-append f xs ys)

pub any-last :
    {A : Type 0} (f : A → Bool) (xs : List A) (y : A) → f y ≡ true → any f (xs ++ y ∷ []) ≡ true
any-last f [] y e = ground (arith, e)
any-last f (x ∷ xs) y e = ground (arith, any-last f xs y e)

pub any-filter :
    {A : Type 0} (p q : A → Bool) (xs : List A) → any q (filter p xs) ≡ any (λ x. p x && q x) xs
any-filter p q [] = refl
any-filter p q (x ∷ xs) = ground (arith, any-filter p q xs)

module _ (N : Numbers) where
  abbrev pub Fits : (DailyRate N → Bool) → Type 0
  Fits f = (x y : DailyRate N) → same_day_pair N x y ≡ true → f x ≡ true → f y ≡ true

  any_like :
      (f : DailyRate N → Bool) (x : DailyRate N) (rows : List (DailyRate N))
      → Fits f
      → f x ≡ true
      → any (same_day_pair N x) rows ≡ true
      → any f rows ≡ true
  any_like f x [] fits e h = cc
  any_like f x (y ∷ rows) fits e h = elim (Bool-cases (same_day_pair N x y)) [
    | inl k ↦ ground (arith, fits x y k e)
    | inr k ↦ ground (arith, any_like f x rows fits e (ground (arith, h, k)))
  ]

  pub any-with_rows :
      (f : DailyRate N → Bool) (xs rows : List (DailyRate N))
      → any f rows ≡ true
      → any f (with_rows N xs rows) ≡ true
  any-with_rows f [] rows e = e
  any-with_rows f (x ∷ xs) rows e = elim (Bool-cases (any (same_day_pair N (dated N x)) rows)) [
    | inl k ↦ rw k (any-with_rows f xs rows e)
    | inr k ↦
        rw k (any-with_rows f xs (rows ++ dated N x ∷ []) (any-append f rows (dated N x ∷ []) e))
  ]

  -- Whether what is true of a row stays true when its time is cut off.
  abbrev pub FitsDated : (DailyRate N → Bool) → Type 0
  FitsDated f = (x : DailyRate N) → f x ≡ true → f (dated N x) ≡ true

  -- What is written is found, under its own row or the one that it is a duplicate of.
  pub any_written :
      (f : DailyRate N → Bool) (xs rows : List (DailyRate N))
      → Fits f
      → FitsDated f
      → any f xs ≡ true
      → any f (with_rows N xs rows) ≡ true
  any_written f [] rows fits cut e = cc
  any_written f (x ∷ xs) rows fits cut e = elim (Bool-cases (f x)) [
    | inl h ↦ elim (Bool-cases (any (same_day_pair N (dated N x)) rows)) [
      | inl k ↦ rw k (any-with_rows f xs rows (any_like f (dated N x) rows fits (cut x h) k))
      | inr k ↦
          rw k (any-with_rows f xs (rows ++ dated N x ∷ []) (any-last f rows (dated N x) (cut x h)))
    ]
    | inr h ↦ any_written f xs _ fits cut (ground (arith, e, h))
  ]
