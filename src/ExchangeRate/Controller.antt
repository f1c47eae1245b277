-- ===== src/ExchangeRate/Controller.antt =====
-- exchange-rate.controller.ts and its request objects: what is checked of a request, what the services are asked, and the response.
-- The parsed parameters of the query are the argument; a `Date` that is invalid is `none`.
pub mod History
pub mod Codes
pub mod BothCodes
mod Tests
use exchange_watch.Base.{
  ℕ, Bool, true, false, ◌&&◌, ◌||◌, not, Option, none, some, is_some, String, str_eq, List, [], ◌∷◌,
  map, Result, ok, err, ◌>>=◌, map_err, if◌then◌else◌,
}
use exchange_watch.Numbers.{Numbers}
use exchange_watch.Strings.{split}
use exchange_watch.Date.{Dayjs, ManipulateType}
use exchange_watch.Redis.Cache.{Client}
use exchange_watch.Requests.{
  Value, DateValue, is_not_empty, matches_krw, remove_spaces, is_valid_currency_code,
  is_before_than_constraint, is_after_constraint,
}
use exchange_watch.ExchangeRate.Daily.{DailyRate, DailyTable}
use exchange_watch.ExchangeRate.Queries.{
  QueryError, RateDetail, LatestApi, ChangeApi, TimeSeriesApi, get_currency_exchange_rates,
  get_historical_rates,
}

-- A refused request, a value of another type than the code or Prisma expects, and an error of the service.
pub data RequestError : Type 0 where
  bad_request : RequestError
  wrong_type : RequestError
  failed : QueryError → RequestError

-- `CurrentExchangeRateReqDto`, `CurrentExchangeHistoryReqDto`
pub record RatesQuery : Type 0 where
  pub base_currency : Value
  pub currency_codes : Value

pub record HistoryQuery : Type 0 where
  pub base_currency : Value
  pub currency_code : Value
  pub started_at : DateValue
  pub ended_at : DateValue

-- What follows a check that may refuse the request.
abbrev checked : Bool → Result RequestError (Unit {0})
checked true = ok tt
checked false = err RequestError.bad_request

-- A value where one text is expected.
abbrev pub as_text : Value → Result RequestError String
as_text Value.missing = err RequestError.wrong_type
as_text (Value.text s) = ok s
as_text (Value.texts ss) = err RequestError.wrong_type

abbrev pub as_date : DateValue → Result RequestError ℕ
as_date none = err RequestError.wrong_type
as_date (some t) = ok t

module _ (to_upper_case : String → String) (codes : List String) where
  -- `@Transform` of `currencyCodes`: a list has no method `split`, so the transformation throws.
  unfoldable pub transform_codes : Value → Result RequestError (List String)
  transform_codes Value.missing = ok []
  transform_codes (Value.text s) = ok (map (λ e. to_upper_case (remove_spaces e)) (split "," s))
  transform_codes (Value.texts ss) = err RequestError.wrong_type

  -- What `ValidationPipe` checks of the two request objects.
  unfoldable pub accepts_rates : Value → List String → Bool
  accepts_rates base_currency currency_codes =
      is_not_empty base_currency
      && (matches_krw base_currency
          && is_valid_currency_code to_upper_case codes "currencyCodes"
              (Value.texts currency_codes))

  unfoldable pub accepts_history : Dayjs → ℕ → HistoryQuery → Bool
  accepts_history d now q =
      is_not_empty q.base_currency
      && (matches_krw q.base_currency
          && (is_not_empty q.currency_code
              && (is_valid_currency_code to_upper_case codes "currencyCode" q.currency_code
                  && (is_some q.started_at
                      && (is_before_than_constraint d 1 ManipulateType.years q.ended_at q.started_at
                          && (is_some q.ended_at
                              && is_after_constraint d none none now q.ended_at))))))

  module _ (N : Numbers) (T : DailyTable N) (d : Dayjs) where
    open N use {Num}

    -- `RateHistory`
    pub record RateHistory : Type 0 where
      pub date : ℕ
      pub rate : Num

    -- `CurrentExchangeHistoryResDto.of`
    abbrev pub history_of : List (DailyRate N) → List RateHistory
    history_of entities =
        map (λ (e : DailyRate N). record { date = e.rate_date; rate = e.rate }) entities

    -- `getCurrentExchangeRates`
    unfoldable pub get_current_exchange_rates :
        (C : Client)
        → (String → ℕ)
        → LatestApi N
        → ChangeApi N
        → RatesQuery
        → ℕ
        → C.Db
        → T.Db
        → Result RequestError (String × List (String × RateDetail N) × T.Db)
    unfolding transform_codes accepts_rates
    get_current_exchange_rates C parse_date latest change q now redis db = do
      currency_codes ← transform_codes q.currency_codes
      valid ← checked (accepts_rates q.base_currency currency_codes)
      base ← as_text q.base_currency
      (details, later) ← map_err failed (
          get_currency_exchange_rates N T C d to_upper_case parse_date latest change base
            currency_codes now redis db)
      ok (base, details, later)

    -- `getCurrentExchangeHistories`; Prisma throws at a list where a text belongs.
    unfoldable pub get_current_exchange_histories :
        TimeSeriesApi N
        → HistoryQuery
        → ℕ
        → T.Db
        → Result RequestError (String × String × List RateHistory × T.Db)
    unfolding accepts_history
    get_current_exchange_histories api q now db = do
      valid ← checked (accepts_history d now q)
      base ← as_text q.base_currency
      code ← as_text q.currency_code
      started_at ← as_date q.started_at
      ended_at ← as_date q.ended_at
      (result, later) ←
          map_err failed (get_historical_rates N T d api base code started_at ended_at db)
      ok (base, code, history_of result, later)

-- What the agent answers: the type and the text of each response.
pub record AgentResponse : Type 0 where
  pub type : String
  pub text : Option String

-- `jsonResponses.find((response) => response.type === 'describe')`
abbrev describe_response : List AgentResponse → Option AgentResponse
describe_response [] = none
describe_response (r ∷ rs) = if str_eq r.type "describe" then some r else describe_response rs

-- `describeResponse?.text || '분석 결과를 생성할 수 없습니다.'`
abbrev text_or_default : Option AgentResponse → String
text_or_default none = "분석 결과를 생성할 수 없습니다."
text_or_default (some r) = elim (r.text) [
  | none ↦ "분석 결과를 생성할 수 없습니다."
  | some t ↦ if str_eq t "" then "분석 결과를 생성할 수 없습니다." else t
]

-- `getCurrencyExchangeInsight`, from where the agent has answered
abbrev pub insight_summary : List AgentResponse → String
insight_summary responses = text_or_default (describe_response responses)
