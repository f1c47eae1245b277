-- ===== src/Responses/Status.antt =====
-- The statuses of the answers to the requests for a history.
use exchange_watch.Base.{
  ap, sym, ◌∙◌, not, ◌==◌, ℕ, ◌≡◌, refl, true, Option, none, some, String, List, Result, ok, err,
  map_err, ◌>>=◌, Bool-cases, inl, inr, ◌⊎◌,
}
use exchange_watch.Numbers.{Numbers}
use exchange_watch.Date.{Dayjs}
use exchange_watch.Requests.{Value, DateValue}
use exchange_watch.ExchangeRate.Daily.{DailyTable}
use exchange_watch.ExchangeRate.Queries.{TimeSeriesApi, QueryError, get_historical_rates}
use exchange_watch.ExchangeRate.Controller.{
  HistoryQuery, RequestError, RateHistory, as_text, as_date, accepts_history,
  get_current_exchange_histories,
}
use exchange_watch.Responses.{Answer, Returned, Exception, answer}

-- What the controller throws: the checks an HttpException of the status 400, all else another error.
abbrev pub exception_of : Value → String → RequestError → Exception
exception_of refused thrown RequestError.bad_request = Exception.http_exception 400 refused
exception_of refused thrown RequestError.wrong_type = Exception.other_error thrown
exception_of refused thrown (RequestError.failed e) = Exception.other_error thrown

module _ {A : Type 0} where
  abbrev pub sent : Answer A → ℕ
  sent (Answer.success status r) = status
  sent (Answer.failure status r) = status

  abbrev pub status_of_body : Answer A → ℕ
  status_of_body (Answer.success status r) = r.status_code
  status_of_body (Answer.failure status r) = r.status_code

  answer-status_of_body :
      (message : Option String) (now : ℕ) (url : String) (r : Result Exception (Returned A))
      → status_of_body (answer 200 message now url r) ≡ sent (answer 200 message now url r)
  unfolding answer
  answer-status_of_body message now url (ok a) = refl
  answer-status_of_body message now url (err (Exception.http_exception code m)) = refl
  answer-status_of_body message now url (err (Exception.other_error m)) = refl

  abbrev pub returned : Value → String → Result RequestError A → Result Exception (Returned A)
  returned refused thrown (ok a) = ok (Returned.value a)
  returned refused thrown (err e) = err (exception_of refused thrown e)

  -- A result other than that of a refused request.
  abbrev IsServed : Result RequestError A → Type 0
  IsServed (ok a) = Unit
  IsServed (err RequestError.bad_request) = ⊥
  IsServed (err RequestError.wrong_type) = Unit
  IsServed (err (RequestError.failed e)) = Unit

  IsServed-status :
      (refused : Value) (thrown url : String) (now : ℕ) (r : Result RequestError A)
      → IsServed r
      → (sent (answer 200 none now url (returned refused thrown r)) ≡ 200)
        ⊎ (sent (answer 200 none now url (returned refused thrown r)) ≡ 500)
  unfolding answer
  IsServed-status refused thrown url now (ok a) v = inl refl
  IsServed-status refused thrown url now (err RequestError.bad_request) v = absurd v
  IsServed-status refused thrown url now (err RequestError.wrong_type) v = inr refl
  IsServed-status refused thrown url now (err (RequestError.failed e)) v = inr refl

module _ {A B : Type 0} where
  IsServed-bind :
      (m : Result RequestError A) (f : A → Result RequestError B)
      → IsServed m
      → ((a : A) → IsServed (f a))
      → IsServed (m >>= f)
  IsServed-bind (ok a) f v w = w a
  IsServed-bind (err RequestError.bad_request) f v w = v
  IsServed-bind (err RequestError.wrong_type) f v w = tt
  IsServed-bind (err (RequestError.failed e)) f v w = tt

IsServed-as_text : (v : Value) → IsServed (as_text v)
IsServed-as_text Value.missing = tt
IsServed-as_text (Value.text s) = tt
IsServed-as_text (Value.texts ss) = tt

IsServed-as_date : (v : DateValue) → IsServed (as_date v)
IsServed-as_date none = tt
IsServed-as_date (some t) = tt

IsServed-failed : {A : Type 0} (r : Result QueryError A) → IsServed (map_err RequestError.failed r)
IsServed-failed (ok a) = tt
IsServed-failed (err e) = tt

served :
    (to_upper_case : String → String) (codes : List String) (N : Numbers) (T : DailyTable N)
    (d : Dayjs) (api : TimeSeriesApi N) (q : HistoryQuery) (now : ℕ) (db : T.Db)
    → accepts_history to_upper_case codes d now q ≡ true
    → IsServed (get_current_exchange_histories to_upper_case codes N T d api q now db)
unfolding get_current_exchange_histories
served to_upper_case codes N T d api q now db h = rw h (
    IsServed-bind (as_text q.base_currency) _ (IsServed-as_text q.base_currency) (λ base.
      (IsServed-bind (as_text q.currency_code) _ (IsServed-as_text q.currency_code) (λ code.
        (IsServed-bind (as_date q.started_at) _ (IsServed-as_date q.started_at) (λ s.
          (IsServed-bind (as_date q.ended_at) _ (IsServed-as_date q.ended_at) (λ e.
            (IsServed-bind
              (map_err RequestError.failed (get_historical_rates N T d api base code s e db)) _
              (IsServed-failed (get_historical_rates N T d api base code s e db)) (λ r. tt))))))))))

-- The answer to a request for a history.
abbrev pub history_answer :
    (to_upper_case : String → String) (codes : List String) (N : Numbers) (T : DailyTable N)
    (d : Dayjs)
    → TimeSeriesApi N
    → Value
    → String
    → String
    → HistoryQuery
    → ℕ
    → T.Db
    → Answer (String × String × List (RateHistory to_upper_case codes N T d) × T.Db)
history_answer to_upper_case codes N T d api refused thrown url q now db = answer 200 none now url (
    returned refused thrown (get_current_exchange_histories to_upper_case codes N T d api q now db))

-- Every request for a history is answered with one status, in the header and in the body, which is 200, 400 or 500; and it is 400
-- exactly where the request is not accepted.
pub history_answer-sent :
    (to_upper_case : String → String) (codes : List String) (N : Numbers) (T : DailyTable N)
    (d : Dayjs) (api : TimeSeriesApi N) (refused : Value) (thrown url : String) (q : HistoryQuery)
    (now : ℕ) (db : T.Db)
    → let a = history_answer to_upper_case codes N T d api refused thrown url q now db in
      (status_of_body a ≡ sent a)
      × ((sent a ≡ 400) ⊎ (sent a ≡ 200) ⊎ (sent a ≡ 500))
      × ((sent a == 400) ≡ not (accepts_history to_upper_case codes d now q))
unfolding get_current_exchange_histories answer
history_answer-sent to_upper_case codes N T d api refused thrown url q now db =
    let r = get_current_exchange_histories to_upper_case codes N T d api q now db in
    let same = answer-status_of_body none now url (returned refused thrown r) in
    elim (Bool-cases (accepts_history to_upper_case codes d now q)) [
      | inl h ↦
          elim (IsServed-status refused thrown url now r
            (served to_upper_case codes N T d api q now db h)) [
              | inl e ↦ (same, inr (inl e), ap (λ n. n == 400) e ∙ sym (ap not h))
              | inr e ↦ (same, inr (inr e), ap (λ n. n == 400) e ∙ sym (ap not h))
            ]
      | inr h ↦ (same, inl (rw h refl), rw h refl)
    ]
