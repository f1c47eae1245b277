-- ===== src/Requests.antt =====
-- common/decorators/validations: what the application checks of the values of a request, before a controller sees them.
-- class-validator calls the checks; ISO 4217's codes are those of the package currency-codes.
pub mod Latin
use Prim.Native.Char.{Char, code}
use exchange_watch.Base.{
  ℕ, zero, suc, ◌+◌, ◌≡◌, Bool, true, false, not, ◌&&◌, ◌||◌, Option, none, some, List, [], ◌∷◌,
  map, String, str_eq, any, leb, ltb, ◌==◌, if◌then◌else◌,
}
use exchange_watch.Strings.{split, join}
use exchange_watch.Date.{Dayjs, ManipulateType, sub_date}

-- A parameter of the query: left out, given once, or given several times.
pub data Value : Type 0 where
  missing : Value
  text : String → Value
  texts : List String → Value

-- A `Date`, with `none` for an invalid one.
abbrev pub DateValue : Type 0
DateValue = Option ℕ

-- `@IsNotEmpty()` and `@Matches(/^KRW$/)`
abbrev pub is_not_empty : Value → Bool
is_not_empty missing = false
is_not_empty (text s) = not (str_eq s "")
is_not_empty (texts ss) = true

abbrev pub matches_krw : Value → Bool
matches_krw (text s) = str_eq s "KRW"
matches_krw missing = false
matches_krw (texts ss) = false

-- `\s`
abbrev is_space : ℕ → Bool
is_space c =
    leb 9 c && leb c 13
    || (c == 32
        || c == 160
        || c == 5760
        || leb 8192 c && leb c 8202
        || c == 8232
        || c == 8233
        || c == 8239
        || c == 8287
        || c == 12288
        || c == 65279)

-- `s.replace(/(\s*)/g, '')`
unfoldable pub remove_spaces : String → String
remove_spaces String.[] = ""
remove_spaces (String.◌∷◌ c s) =
    let rest = remove_spaces s in if is_space (code c) then rest else String.◌∷◌ c rest

-- `s.length`, which counts units of UTF-16.
unfoldable pub utf16_length : String → ℕ
utf16_length String.[] = 0
utf16_length (String.◌∷◌ c s) = (if ltb 65535 (code c) then 2 else 1) + utf16_length s

abbrev pub every {ℓ} : {A : Type ℓ} → (A → Bool) → List A → Bool
every p [] = true
every p (x ∷ xs) = p x && every p xs

-- `to_upper_case` is the method of strings, and `codes` what `currency.codes()` returns.
module _ (to_upper_case : String → String) (codes : List String) where
  -- The test of one code, its white space removed.
  abbrev pub is_code : String → Bool
  is_code s = utf16_length s == 3 && any (str_eq (to_upper_case s)) codes

  -- The branch of `baseCurrency`.
  abbrev pub is_valid_base : Value → Bool
  is_valid_base missing = false
  is_valid_base (text s) = not (str_eq s "") && any (str_eq (to_upper_case s)) codes
  is_valid_base (texts ss) = any (str_eq (to_upper_case (join "," ss))) codes

  -- The branch of all other properties.
  unfoldable pub is_valid_codes : Value → Bool
  is_valid_codes missing = true
  is_valid_codes (text s) = str_eq s "" || every is_code (map remove_spaces (split "," s))
  is_valid_codes (texts ss) = every is_code (map remove_spaces ss)

  -- `IsValidCurrencyCode`: `validate`
  unfoldable pub is_valid_currency_code : String → Value → Bool
  unfolding is_valid_codes
  is_valid_currency_code property_name value =
      if str_eq property_name "baseCurrency" then is_valid_base value else is_valid_codes value

module _ (d : Dayjs) where
  -- The limit of `IsAfterConstraint`: an amount of 0 counts as none.
  abbrev after_limit : Option ℕ → Option ManipulateType → ℕ → ℕ
  after_limit none format now = now
  after_limit (some zero) format now = now
  after_limit (some (suc n)) none now = now
  after_limit (some (suc n)) (some unit) now = sub_date d (suc n) unit now

  -- `IsAfterConstraint`: `validate`
  unfoldable pub is_after_constraint : Option ℕ → Option ManipulateType → ℕ → DateValue → Bool
  is_after_constraint amount date_format now none = false
  is_after_constraint amount date_format now (some value) =
      ltb value (after_limit amount date_format now)

  -- `IsBeforeConstraint`: `validate`
  unfoldable pub is_before_constraint : ℕ → ManipulateType → ℕ → DateValue → Bool
  is_before_constraint amount date_format now none = false
  is_before_constraint amount date_format now (some value) =
      ltb (sub_date d amount date_format now) value

  -- `IsBeforeThanConstraint`: `validate`, with the value of the target property
  unfoldable pub is_before_than_constraint : ℕ → ManipulateType → DateValue → DateValue → Bool
  unfolding sub_date
  is_before_than_constraint amount date_format target_property none = false
  is_before_than_constraint amount date_format none (some value) = false
  is_before_than_constraint amount date_format (some target) (some value) =
      leb (sub_date d amount date_format target) value && ltb value target
