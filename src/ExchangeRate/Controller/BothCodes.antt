-- ===== src/ExchangeRate/Controller/BothCodes.antt =====
-- Two codes in the place of one in a request for a history.
use Prim.Native.Char.{Char}
use Prim.Native.String.append
use Prim.Native.String.{◌++◌ as str_append}
use exchange_watch.Base.{
  ℕ, ◌+◌, ◌≡◌, refl, ap, Bool, true, false, none, some, String, str_eq, eq_iff, List, err, any, ◌≤◌,
  ◌<◌, Bool-cases, inl, inr, arith, if◌then◌else◌,
}
use exchange_watch.Numbers.{Numbers}
use exchange_watch.Strings.Laws.{lacks, split-between}
use exchange_watch.Date.{Dayjs, InUtc, ManipulateType}
use exchange_watch.Requests.{
  Value, is_code, remove_spaces, utf16_length, is_valid_codes, is_valid_currency_code,
  is_before_than_constraint, is_after_constraint,
}
use exchange_watch.ExchangeRate.Daily.{DailyRate, DailyTable, is_blank, is_over_char_3}
use exchange_watch.ExchangeRate.Queries.{TimeSeriesApi, QueryError}
use exchange_watch.ExchangeRate.Queries.Refused.{get_historical_rates-fails}
use exchange_watch.ExchangeRate.Controller.{
  RequestError, accepts_history, get_current_exchange_histories,
}

module _ (to_upper_case : String → String) (codes : List String) where
  length-remove_spaces :
      (s t : String)
      → utf16_length (remove_spaces (str_append s t))
        ≡ utf16_length (remove_spaces s) + utf16_length (remove_spaces t)
  unfolding remove_spaces utf16_length
  length-remove_spaces String.[] t = rw (append.nil t) (omega arith)
  length-remove_spaces (String.◌∷◌ c s) t =
      rw (append.cons c s t) (ground (arith, length-remove_spaces s t))

  -- Two codes with a comma between them.
  abbrev pub both_codes : String → String → String
  both_codes a b = str_append a (str_append "," b)

  both-accepted :
      (a b : String)
      → lacks "," a ≡ true
      → lacks "," b ≡ true
      → is_code to_upper_case codes (remove_spaces a) ≡ true
      → is_code to_upper_case codes (remove_spaces b) ≡ true
      → is_valid_currency_code to_upper_case codes "currencyCode" (Value.text (both_codes a b))
        ≡ true
  unfolding is_valid_currency_code is_valid_codes
  both-accepted a b la lb ca cb = rw (split-between "," a b la lb) (ground (arith, ca, cb))

  both-no_code :
      (a b : String)
      → is_code to_upper_case codes (remove_spaces a) ≡ true
      → is_code to_upper_case codes (remove_spaces b) ≡ true
      → is_code to_upper_case codes (remove_spaces (both_codes a b)) ≡ false
  both-no_code a b ca cb =
      ground (arith, length-remove_spaces a (str_append "," b), length-remove_spaces "," b, ca, cb)

  both-not_empty :
      (a b : String)
      → is_code to_upper_case codes (remove_spaces a) ≡ true
      → str_eq (both_codes a b) "" ≡ false
  unfolding remove_spaces utf16_length
  both-not_empty a b ca = elim (Bool-cases (str_eq (both_codes a b) "")) [
    | inl h ↦
        let empty : utf16_length (remove_spaces (both_codes a b)) ≡ 0 =
          ap (λ t. utf16_length (remove_spaces t)) ((eq_iff (both_codes a b) "").0 h) in
        absurd (ground (arith, empty, length-remove_spaces a (str_append "," b), ca))
    | inr h ↦ h
  ]

  blank-units : (s : String) → is_blank s ≡ true → utf16_length (remove_spaces s) ≡ 0
  unfolding remove_spaces utf16_length
  blank-units String.[] e = refl
  blank-units (String.◌∷◌ c s) e = ground (arith, e, blank-units s)

  units-if :
      (b : Bool) (c : Char) (s : String)
      → utf16_length (if b then s else String.◌∷◌ c s) ≤ 2 + utf16_length s
  unfolding utf16_length
  units-if true c s = omega arith
  units-if false c s = ground arith

  units-cons :
      (c : Char) (s : String)
      → utf16_length (remove_spaces (String.◌∷◌ c s)) ≤ 2 + utf16_length (remove_spaces s)
  unfolding remove_spaces
  units-cons c s = units-if _ c (remove_spaces s)

  -- A text that a column Char(3) takes has at most three characters that are no blanks, of two units each.
  short-units : (s : String) → is_over_char_3 s ≡ false → utf16_length (remove_spaces s) ≤ 6
  unfolding utf16_length remove_spaces
  short-units String.[] e = omega arith
  short-units (String.◌∷◌ a String.[]) e = omega (arith, units-cons a "")
  short-units (String.◌∷◌ a (String.◌∷◌ b String.[])) e =
      omega (arith, units-cons a (String.◌∷◌ b ""), units-cons b "")
  short-units (String.◌∷◌ a (String.◌∷◌ b (String.◌∷◌ c s))) e =
      let blank = blank-units s (ground (arith, e)) in
      omega (
        arith,
        blank,
        units-cons a (String.◌∷◌ b (String.◌∷◌ c s)),
        units-cons b (String.◌∷◌ c s),
        units-cons c s,
      )

  both-over :
      (a b : String)
      → is_code to_upper_case codes (remove_spaces a) ≡ true
      → is_code to_upper_case codes (remove_spaces b) ≡ true
      → is_over_char_3 (both_codes a b) ≡ true
  unfolding remove_spaces utf16_length
  both-over a b ca cb = elim (Bool-cases (is_over_char_3 (both_codes a b))) [
    | inl h ↦ h
    | inr h ↦
        let comma : utf16_length (remove_spaces ",") ≡ 1 = refl in
        absurd (
          ground (
            arith,
            comma,
            short-units (both_codes a b) h,
            length-remove_spaces a (str_append "," b),
            length-remove_spaces "," b,
            ca,
            cb,
          ))
  ]

  module _ (N : Numbers) (T : DailyTable N) (d : Dayjs) (utc : InUtc d) where
    -- A bug: for dayjs in UTC, a request for the history of one currency that has two codes and a comma in the place of the code,
    -- and an accepted period, passes the validation, although that text is no code. Where the table has no row of that text,
    -- which its column could not hold, the handler then fails inside the service, whatever the API answers.
    pub get_current_exchange_histories-both_codes :
        (api : TimeSeriesApi N) (now started_at ended_at : ℕ) (a b : String) (db : T.Db)
        → lacks "," a ≡ true
        → lacks "," b ≡ true
        → is_code to_upper_case codes (remove_spaces a) ≡ true
        → is_code to_upper_case codes (remove_spaces b) ≡ true
        → is_before_than_constraint d 1 ManipulateType.years (some ended_at) (some started_at)
          ≡ true
        → is_after_constraint d none none now (some ended_at) ≡ true
        → any (λ (r : DailyRate N). str_eq r.currency_code (both_codes a b)) (T.rows db) ≡ false
        → (is_code to_upper_case codes (remove_spaces (both_codes a b)) ≡ false)
          × (accepts_history to_upper_case codes d now (record {
            base_currency = Value.text "KRW";
            currency_code = Value.text (both_codes a b);
            started_at = some started_at;
            ended_at = some ended_at;
          })
              ≡ true)
          × (x : QueryError) × (get_current_exchange_histories to_upper_case codes N T d api
                (record {
                  base_currency = Value.text "KRW";
                  currency_code = Value.text (both_codes a b);
                  started_at = some started_at;
                  ended_at = some ended_at;
                })
                now
                db
              ≡ err (RequestError.failed x))
    unfolding get_current_exchange_histories accepts_history is_before_than_constraint
    get_current_exchange_histories-both_codes api now s e a b db la lb ca cb before after absent =
        let valid = both-accepted a b la lb ca cb in
        let some_text = both-not_empty a b ca in
        let lt : s < e = ground (arith, before) in
        let (x, f) =
          get_historical_rates-fails N T d "KRW" (both_codes a b) utc api s e db
            (both-over a b ca cb) absent lt in
        (
          both-no_code a b ca cb,
          rw (accepts_history, some_text, valid, before, after) refl,
          x,
          rw (get_current_exchange_histories, some_text, valid, before, after, f) refl,
        )
