-- ===== src/Providers/CurrencyLayer/Parsing.antt =====
-- The currencies that the answers' pairs are parsed into.
use Prim.Native.String.{◌++◌ as str_append}
use exchange_watch.Base.{
  ◌≡◌, refl, ap, ◌∙◌, false, is_some, List, [], ◌∷◌, String, str_eq, map, All, arith,
}
use exchange_watch.Numbers.{Numbers}
use exchange_watch.Strings.{remove_first, from_entries, lookup}
use exchange_watch.Strings.Laws.{remove_first-append, DistinctKeys, from_entries-DistinctKeys}
use exchange_watch.Providers.{RawFluctuation}
use exchange_watch.Providers.CurrencyLayer.{
  parse_real_time_quotes, parse_time_series_quotes, parse_fluctuation_quotes, fluctuation_of,
}

-- An object's entries as CurrencyLayer quotes them: each currency under the pair of the source and it.
abbrev pub quoted {ℓ} : {A : Type ℓ} → String → List (String × A) → List (String × A)
quoted {A} source rates =
    map {B = String × A} (λ (r : String × A). (str_append source (r.0), r.1)) rates

unquoted :
    {A B : Type 0} (f : A → B) (source : String) (rates : List (String × A))
    → map {B = String × B}
        (λ (q : String × A). (remove_first source (q.0), f (q.1)))
        (quoted source rates)
      ≡ map {B = String × B} (λ (r : String × A). (r.0, f (r.1))) rates
unquoted f source [] = refl
unquoted f source ((c, r) ∷ rates) = rw (remove_first-append source c, unquoted f source rates) refl

abbrev pub with_values : {A B : Type 0} → (A → B) → List (String × A) → List (String × B)
with_values {A} {B} f = map {B = String × B} (λ (r : String × A). (r.0, f (r.1)))

with_values_id : {A : Type 0} (rates : List (String × A)) → with_values (λ (a : A). a) rates ≡ rates
with_values_id [] = refl
with_values_id (x ∷ rates) = ap (λ rest. x ∷ rest) (with_values_id rates)

module _ {A B : Type 0} (f : A → B) where
  apart-values :
      (k : String) (rates : List (String × A))
      → All (λ (e : String × A). str_eq k (e.0) ≡ false) rates
      → All (λ (e : String × B). str_eq k (e.0) ≡ false) (with_values f rates)
  apart-values k [] a = tt
  apart-values k (r ∷ rates) a = (a.0, apart-values k rates a.1)

  DistinctKeys-values :
      (rates : List (String × A)) → DistinctKeys rates → DistinctKeys (with_values f rates)
  DistinctKeys-values [] d = tt
  DistinctKeys-values (r ∷ rates) d = (apart-values (r.0) rates d.0, DistinctKeys-values rates d.1)

  pub lookup-values :
      (c : String) (rates : List (String × A))
      → is_some (lookup c (with_values f rates)) ≡ is_some (lookup c rates)
  lookup-values c [] = refl
  lookup-values c ((j, r) ∷ rates) = ground (arith, lookup-values c rates)

module _ (N : Numbers) where
  -- Parsing the pairs of one source gives the rates back by currency.
  pub parse_real_time_quotes-quoted :
      (source : String) (rates : List (String × N.Num))
      → DistinctKeys rates
      → parse_real_time_quotes N source (quoted source rates) ≡ rates
  unfolding parse_real_time_quotes
  parse_real_time_quotes-quoted source rates d =
      ap from_entries (unquoted (λ (r : N.Num). r) source rates ∙ with_values_id rates)
      ∙ from_entries-DistinctKeys rates d

  abbrev pub quoted_days :
      String → List (String × List (String × N.Num)) → List (String × List (String × N.Num))
  quoted_days source days = with_values (quoted source) days

  parsed_days :
      (source : String) (days : List (String × List (String × N.Num)))
      → All (λ (day : String × List (String × N.Num)). DistinctKeys day.1) days
      → with_values (parse_real_time_quotes N source) (quoted_days source days) ≡ days
  parsed_days source [] a = refl
  parsed_days source (day ∷ days) a =
      rw (parse_real_time_quotes-quoted source (day.1) a.0, parsed_days source days a.1) refl

  -- A series of rates by day and currency, quoted as CurrencyLayer quotes it, is parsed back: each day under its name, and each
  -- of its rates under its currency. No two days and no two currencies of one day may have the same name.
  pub parse_time_series_quotes-quoted :
      (source : String) (days : List (String × List (String × N.Num)))
      → DistinctKeys days
      → All (λ (day : String × List (String × N.Num)). DistinctKeys day.1) days
      → parse_time_series_quotes N source (quoted_days source days) ≡ days
  unfolding parse_time_series_quotes
  parse_time_series_quotes-quoted source days d a =
      ap from_entries (parsed_days source days a) ∙ from_entries-DistinctKeys days d

  pub parse_fluctuation_quotes-quoted :
      (source : String) (rates : List (String × RawFluctuation N))
      → DistinctKeys rates
      → parse_fluctuation_quotes N source (quoted source rates)
        ≡ with_values (fluctuation_of N) rates
  unfolding parse_fluctuation_quotes
  parse_fluctuation_quotes-quoted source rates d =
      ap from_entries (unquoted (fluctuation_of N) source rates)
      ∙ from_entries-DistinctKeys (with_values (fluctuation_of N) rates)
          (DistinctKeys-values (fluctuation_of N) rates d)
