-- ===== src/Sse/Controller/Tests.antt =====
-- An instance of the theorem on the client that hears nothing.
use exchange_watch.Base.{ℕ, ◌≡◌, refl, some, ok, String, List, [], ◌∷◌}
use exchange_watch.Requests.{Value}
use exchange_watch.Requests.Latin.{to_upper_case}
use exchange_watch.Sse.{LatestRateSseService, new_service}
use exchange_watch.Sse.Controller.{latest_rate_sse}
use exchange_watch.Sse.Controller.Silent.{received, emits, latest_rate_sse-silent}

abbrev known_codes : List String
known_codes = "KRW" ∷ "USD" ∷ []

latest_rate_sse-silent_example :
    (opened : LatestRateSseService ℕ) × (latest_rate_sse to_upper_case known_codes ℕ
        (Value.text "krw")
        (new_service ℕ)
      ≡ ok (some 0, opened))
    × (received ℕ 0 (emits ℕ "KRW" (7 ∷ 8 ∷ []) opened).signals
        ≡ received ℕ 0 (new_service ℕ).signals)
unfolding to_upper_case
latest_rate_sse-silent_example =
    latest_rate_sse-silent to_upper_case known_codes ℕ "krw" (7 ∷ 8 ∷ []) (new_service ℕ) refl refl
      refl refl (λ name m h. cc)
