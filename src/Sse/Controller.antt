-- ===== src/Sse/Controller.antt =====
-- sse.controller.ts and its request object.
pub mod Silent
mod Tests
use Prim.Native.String.{◌++◌ as str_append}
use exchange_watch.Base.{
  ℕ, ◌+◌, ◌-◌, ◌<◌, ◌≡◌, refl, sym, ap, ◌∙◌, Bool, true, false, ◌&&◌, not, Option, none, some,
  String, str_eq, eq_iff, List, [], ◌∷◌, ◌++◌, any, Result, ok, err, Bool-cases, Option-cases, inl,
  inr, arith, ◌==◌, if◌then◌else◌,
}
use exchange_watch.Strings.{join, remove_first}
use exchange_watch.Strings.Laws.{remove_first-append}
use exchange_watch.Requests.{Value, is_not_empty, is_valid_currency_code}
use exchange_watch.ExchangeRate.Controller.{RequestError}
use exchange_watch.Sse.{
  Subject, LatestRateSseService, Signal, next, complete, subject_name, count_of, with_subject,
  get_last_rate_observable, emit_event, clean_up_channel,
}

-- The text that a parameter is where it stands in a text.
abbrev base_text : Value → String
base_text Value.missing = "undefined"
base_text (Value.text s) = s
base_text (Value.texts ss) = join "," ss

module _ (to_upper_case : String → String) (codes : List String) (A : Type 0) where
  -- What is checked of `LatestRateSSERequestDto`.
  unfoldable pub accepts_latest_rate : Value → Bool
  accepts_latest_rate base_currency =
      is_not_empty base_currency
      && is_valid_currency_code to_upper_case codes "baseCurrency" base_currency

  -- `latestRateSse`, up to the connection, and its `finalize`, when the client has gone
  unfoldable pub latest_rate_sse :
      Value → LatestRateSseService A → Result RequestError (Option Subject × LatestRateSseService A)
  unfolding accepts_latest_rate get_last_rate_observable
  latest_rate_sse base_currency s =
      if accepts_latest_rate base_currency
      then ok (get_last_rate_observable A (base_text base_currency) s)
      else err RequestError.bad_request

  unfoldable pub finalize_latest_rate : Value → LatestRateSseService A → LatestRateSseService A
  unfolding clean_up_channel
  finalize_latest_rate base_currency s = clean_up_channel A (base_text base_currency) s
