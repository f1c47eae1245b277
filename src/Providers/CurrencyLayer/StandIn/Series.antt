-- ===== src/Providers/CurrencyLayer/StandIn/Series.antt =====
-- The series of the stand-in has every day of its period, and a rate of the code.
use Prim.Native.String.{◌++◌ as str_append}
use exchange_watch.Base.{
  ℕ, zero, suc, ◌+◌, ◌-◌, ◌*◌, ◌/◌, ◌%◌, ◌≤◌, ◌<◌, ◌≡◌, refl, ap, subst, ◌∙◌, Bool, true, is_some,
  String, str_eq, eq_iff, List, [], ◌∷◌, map, Option-cases, some, All, Bool-cases, inl, inr, arith,
  ◌==◌,
}
use exchange_watch.Numbers.{Numbers}
use exchange_watch.Strings.{put, put_all, lookup}
use exchange_watch.Strings.Laws.{lookup-put}
use exchange_watch.Date.{ms_per_day}
use exchange_watch.Providers.CurrencyLayer.{parse_time_series_quotes, parse_real_time_quotes}
use exchange_watch.Providers.CurrencyLayer.Parsing.{parse_real_time_quotes-quoted}
use exchange_watch.Providers.CurrencyLayer.StandIn.{
  day_count_between, get_random_rate, random_quotes, random_days, upper_symbols,
  mock_time_series_rate_fn, mock_time_series_data,
}

-- A time that the period has, a whole number of days after its start.
abbrev pub InPeriod : ℕ → ℕ → ℕ → Type 0
InPeriod start_date end_date d =
    (start_date ≤ d) × (d ≤ end_date) × ((d - start_date) % ms_per_day ≡ 0)

-- An object has a property.
abbrev has {ℓ} : {A : Type ℓ} → String → List (String × A) → Bool
has k o = is_some (lookup k o)

module _ {A : Type 0} where
  has-put_self : (k : String) (a : A) (o : List (String × A)) → has k (put k a o) ≡ true
  has-put_self k a o = rw (lookup-put k k a o, (eq_iff k k).1 refl) refl

  has-put_same : (j k : String) (a : A) (o : List (String × A)) → k ≡ j → has j (put k a o) ≡ true
  has-put_same j k a o e = subst (λ i. has i (put k a o) ≡ true) e (has-put_self k a o)

  has-put :
      (j k : String) (a : A) (o : List (String × A)) → has j o ≡ true → has j (put k a o) ≡ true
  has-put j k a o h =
      rw (lookup-put k j a o)
        (elim (Bool-cases (str_eq k j)) [ inl e ↦ rw e refl | inr e ↦ rw e h ])

  has-put_all :
      (j : String) (xs o : List (String × A)) → has j o ≡ true → has j (put_all xs o) ≡ true
  has-put_all j [] o h = h
  has-put_all j ((k, a) ∷ xs) o h = has-put_all j xs (put k a o) (has-put j k a o h)

  -- An object made of entries has the properties of each.
  has-put_all_of :
      (j : String) (xs o : List (String × A)) → has j xs ≡ true → has j (put_all xs o) ≡ true
  has-put_all_of j [] o h = cc
  has-put_all_of j ((k, a) ∷ xs) o h = elim (Bool-cases (str_eq k j)) [
    | inl e ↦
        let same : k ≡ j = (eq_iff k j).0 e in
        has-put_all j xs (put k a o)
          (subst (λ i. has i (put k a o) ≡ true) same (has-put_self k a o))
    | inr e ↦ has-put_all_of j xs (put k a o) (rw e at h)
  ]

has-map :
    {A B : Type 0} (f : A → B) (j : String) (xs : List (String × A))
    → has j (map {B = String × B} (λ (e : String × A). (e.0, f (e.1))) xs) ≡ has j xs
has-map f j [] = refl
has-map f j ((k, a) ∷ xs) = ground (arith, has-map f j xs)

-- What holds of the value of each property.
module _ {A : Type 0} (P : A → Type 0) where
  abbrev Values : List (String × A) → Type 0
  Values o = All (λ (e : String × A). P (e.1)) o

  Values-put : (k : String) (a : A) (o : List (String × A)) → P a → Values o → Values (put k a o)
  Values-put k a [] p v = (p, tt)
  Values-put k a ((j, b) ∷ o) p v = elim (Bool-cases (str_eq j k)) [
    | inl h ↦ rw h (p, v.1)
    | inr h ↦ rw h (v.0, Values-put k a o p v.1)
  ]

  Values-put_all : (xs o : List (String × A)) → Values xs → Values o → Values (put_all xs o)
  Values-put_all [] o w v = v
  Values-put_all ((k, a) ∷ xs) o w v = Values-put_all xs (put k a o) w.1 (Values-put k a o w.0 v)

  Values-lookup :
      (k : String) (a : A) (o : List (String × A)) → Values o → lookup k o ≡ some a → P a
  Values-lookup k a [] v e = cc
  Values-lookup k a ((j, b) ∷ o) v e = elim (Bool-cases (str_eq j k)) [
    | inl h ↦ let same : b ≡ a = ground (arith, e, h) in subst P same v.0
    | inr h ↦ Values-lookup k a o v.1 (ground (arith, e, h))
  ]

module _ (N : Numbers) (to_upper_case : String → String) (iso_day : ℕ → String) where
  -- One quote, of a random rate.
  abbrev OneQuote : (ℕ → N.Num) → String → List (String × N.Num) → Type 0
  OneQuote random pair quotes =
      (i : ℕ) × (quotes ≡ (pair, get_random_rate N to_upper_case iso_day (random i)) ∷ [])

  OneQuote-days :
      (random : ℕ → N.Num) (start : ℕ) (base target : String) (n i : ℕ)
      (quotes : List (String × List (String × N.Num)))
      → Values (OneQuote random (str_append base target)) quotes
      → Values
          (OneQuote random (str_append base target))
          (random_days N to_upper_case iso_day random start base (target ∷ []) n i quotes)
  unfolding random_days random_quotes
  OneQuote-days random start base target zero i quotes v = v
  OneQuote-days random start base target (suc n) i quotes v =
      OneQuote-days random start base target n (suc i) _ (
        Values-put (OneQuote random (str_append base target)) (iso_day (start + i * ms_per_day)) _
          quotes (i * 1, refl) v)

  OneQuote-parsed :
      (random : ℕ → N.Num) (base target : String) (days : List (String × List (String × N.Num)))
      → Values (OneQuote random (str_append base target)) days
      → Values (OneQuote random target) (
          map {B = String × List (String × N.Num)}
            (λ (q : String × List (String × N.Num)). (q.0, parse_real_time_quotes N base (q.1)))
            days)
  OneQuote-parsed random base target [] v = tt
  OneQuote-parsed random base target (day ∷ days) ((i, e), v) = (
    (
      i,
      rw e (
          parse_real_time_quotes-quoted N base
            ((target, get_random_rate N to_upper_case iso_day (random i)) ∷ []) (tt, tt)),
    ),
    OneQuote-parsed random base target days v,
  )

  has-parsed :
      (source j : String) (quotes : List (String × List (String × N.Num)))
      → has j quotes ≡ true
      → has j (parse_time_series_quotes N source quotes) ≡ true
  unfolding parse_time_series_quotes
  has-parsed source j quotes h =
      has-put_all_of j _ [] (has-map (parse_real_time_quotes N source) j quotes ∙ h)

  module _ (random : ℕ → N.Num) (start : ℕ) (base : String) (targets : List String) where
    abbrev days_of :
        ℕ → ℕ → List (String × List (String × N.Num)) → List (String × List (String × N.Num))
    days_of = random_days N to_upper_case iso_day random start base targets

    has-days_of :
        (n i : ℕ) (j : String) (quotes : List (String × List (String × N.Num)))
        → has j quotes ≡ true
        → has j (days_of n i quotes) ≡ true
    unfolding random_days
    has-days_of zero i j quotes h = h
    has-days_of (suc n) i j quotes h =
        has-days_of n (suc i) j _ (has-put j (iso_day (start + i * ms_per_day)) _ quotes h)

    has-each_day :
        (n i k : ℕ) (quotes : List (String × List (String × N.Num)))
        → i ≤ k
        → k < i + n
        → has (iso_day (start + k * ms_per_day)) (days_of n i quotes) ≡ true
    unfolding random_days
    has-each_day zero i k quotes le lt = absurd (omega (arith, le, lt))
    has-each_day (suc n) i k quotes le lt = elim (Bool-cases (i == k)) [
      | inl e ↦
          let same : i ≡ k = ground (arith, e) in
          has-days_of n (suc i) (iso_day (start + k * ms_per_day)) _ (
            has-put_same (iso_day (start + k * ms_per_day)) (iso_day (start + i * ms_per_day)) _
              quotes (ap (λ d. iso_day (start + d * ms_per_day)) same))
      | inr e ↦ has-each_day n (suc i) k _ (ground (arith, e, le)) (omega (arith, lt))
    ]

  -- The stand-in has rates of every day of the period that it is asked for.
  pub mock_time_series_data-has :
      (random : ℕ → N.Num) (start_date end_date : ℕ) (base : String) (codes : List String) (d : ℕ)
      → InPeriod start_date end_date d
      → is_some (
          lookup
            (iso_day d)
            (mock_time_series_data N to_upper_case iso_day random start_date end_date base
              codes).rates)
        ≡ true
  unfolding mock_time_series_data mock_time_series_rate_fn
  mock_time_series_data-has random s e base codes d (le, lt, whole) =
      let k = (d - s) / ms_per_day in
      let same : s + k * ms_per_day ≡ d = omega (arith, le, whole) in
      let inside : k < 0 + day_count_between s e = ground (arith, le, lt) in
      has-parsed base (iso_day d) _ (
        subst
          (λ t.
            has (iso_day t) (
              random_days N to_upper_case iso_day random s base
                (upper_symbols N to_upper_case iso_day base codes) (day_count_between s e) 0 [])
            ≡ true)
          same
          (has-each_day random s base (upper_symbols N to_upper_case iso_day base codes)
            (day_count_between s e) 0 k [] (omega arith) inside))

  -- For one code in capitals, the rates of each day of the period are one, of this code and a random rate.
  pub mock_time_series_data-price :
      (random : ℕ → N.Num) (start_date end_date : ℕ) (base code : String) (d : ℕ)
      → to_upper_case code ≡ code
      → InPeriod start_date end_date d
      → (of_day : List (String × N.Num)) × (lookup
            (iso_day d)
            (mock_time_series_data N to_upper_case iso_day random start_date end_date base
              (code ∷ [])).rates
          ≡ some of_day)
        × (i : ℕ) × (lookup code of_day ≡ some (get_random_rate N to_upper_case iso_day (random i)))
  unfolding mock_time_series_data mock_time_series_rate_fn parse_time_series_quotes
  mock_time_series_data-price random s e base code d capitals inside =
      let rates =
        (mock_time_series_data N to_upper_case iso_day random s e base (code ∷ [])).rates in
      elim (Option-cases (lookup (iso_day d) rates)) [
        | inl h ↦ absurd (
            let k = mock_time_series_data-has random s e base (code ∷ []) d inside in
            ground (arith, h, k))
        | inr (of_day, h) ↦
            let days =
              random_days N to_upper_case iso_day random s base (to_upper_case code ∷ [])
                (day_count_between s e) 0 [] in
            let (i, one) =
              Values-lookup (OneQuote random (to_upper_case code)) (iso_day d) of_day rates
                (Values-put_all (OneQuote random (to_upper_case code)) _ []
                  (OneQuote-parsed random base (to_upper_case code) days (
                    OneQuote-days random s base (to_upper_case code) (day_count_between s e) 0 []
                      tt))
                  tt)
                h in
            (
              of_day,
              h,
              i,
              ap (lookup code) one ∙ rw ((eq_iff (to_upper_case code) code).1 capitals) refl,
            )
      ]
