-- ===== src/ExchangeRate/Daily/Memory.antt =====
-- A table of daily rates that is a list of rows in memory, which the laws of `DailyTable` hold of.
use exchange_watch.Base.{
  ◌≡◌, refl, Bool, true, false, not, String, none, some, List, [], ◌∷◌, any, filter, All,
  if◌then◌else◌, Bool-cases, inl, inr, arith,
}
use exchange_watch.Numbers.{Numbers}
use exchange_watch.ExchangeRate.Daily.{
  DailyRate, DailyTable, with_rows, fits, refused, is_char_3, is_over_char_3,
}

over-char_3 : (s : String) → is_over_char_3 s ≡ true → is_char_3 s ≡ false
over-char_3 String.[] e = refl
over-char_3 (String.◌∷◌ a String.[]) e = refl
over-char_3 (String.◌∷◌ a (String.◌∷◌ b String.[])) e = refl
over-char_3 (String.◌∷◌ a (String.◌∷◌ b (String.◌∷◌ c String.[]))) e = cc
over-char_3 (String.◌∷◌ a (String.◌∷◌ b (String.◌∷◌ c (String.◌∷◌ d s)))) e = refl

module _ (N : Numbers) where
  abbrev pub unfit : DailyRate N → Bool
  unfit x = not (fits N x)

  refused-unfit : (x : DailyRate N) → refused N x ≡ true → unfit x ≡ true
  refused-unfit x e = elim (Bool-cases (is_over_char_3 x.base_currency)) [
    | inl h ↦ ground (arith, over-char_3 x.base_currency h)
    | inr h ↦ elim (Bool-cases (is_over_char_3 x.currency_code)) [
      | inl k ↦ ground (arith, over-char_3 x.currency_code k)
      | inr k ↦ ground (arith, e, h, k)
    ]
  ]

  pub any-refused : (xs : List (DailyRate N)) → any (refused N) xs ≡ true → any unfit xs ≡ true
  any-refused [] e = cc
  any-refused (x ∷ xs) e = elim (Bool-cases (refused N x)) [
    | inl h ↦ ground (arith, refused-unfit x h)
    | inr h ↦ let k : any (refused N) xs ≡ true = rw h at e in ground (arith, any-refused xs k)
  ]

  pub all_fit : (xs : List (DailyRate N)) → All (λ x. fits N x ≡ true) xs → any unfit xs ≡ false
  all_fit [] a = refl
  all_fit (x ∷ xs) a = rw (a.0) (all_fit xs a.1)

  abbrev pub memory : DailyTable N
  memory = record {
    Db = List (DailyRate N);
    rows = λ rows. rows;
    create_many = λ input rows. if any unfit input then none else some (with_rows N input rows);
    find_asc = λ p rows. filter p rows;
    create_many_fits = λ input rows a. (with_rows N input rows, rw (all_fit input a) refl, refl);
    create_many_refused = λ input rows e. rw (any-refused input e) refl;
    find_asc_any = λ p q rows. refl;
  }
