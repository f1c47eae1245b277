-- ===== src/Responses.antt =====
-- common/interceptor/response.interceptor.ts, common/filter and modules/exchange-rate/exceptions/ws.exception.ts: the form of every
-- response, of what a handler returns and of what it throws. Nest chooses the filter: the one of HttpException before the one of
-- all errors, as app.module.ts registers them.
pub mod Status
mod Tests
use Prim.Native.String.{◌++◌ as str_append}
use exchange_watch.Base.{
  ℕ, Bool, true, false, Option, none, some, String, str_eq, List, [], ◌∷◌, map, Result, ok, err,
  ◌==◌, if◌then◌else◌,
}
use exchange_watch.Strings.{join}
use exchange_watch.Requests.{Value}

-- A value that a handler returns: one that counts as false, or another one.
pub data Returned (A : Type 0) : Type 0 where
  falsy : Returned A
  value : A → Returned A

-- `data || {}`
pub data Body (A : Type 0) : Type 0 where
  empty_object : Body A
  body : A → Body A

-- `ISuccessResponse` and `IExceptionResponse`; a message may be undefined.
pub record SuccessResponse (A : Type 0) : Type 0 where
  pub status_code : ℕ
  pub message : String
  pub timestamp : ℕ
  pub request_url : String
  pub data' : Body A

pub record ExceptionResponse : Type 0 where
  pub status_code : ℕ
  pub message : Option String
  pub timestamp : ℕ
  pub request_url : String

-- What a handler throws: an HttpException with its status and the message of its response, or another error with its message.
pub data Exception : Type 0 where
  http_exception : ℕ → Value → Exception
  other_error : String → Exception

abbrev body_of : {A : Type 0} → Returned A → Body A
body_of falsy = empty_object
body_of (value a) = body a

abbrev message_or_empty : Option String → String
message_or_empty none = ""
message_or_empty (some s) = s

-- `intercept`, with the message that the handler is annotated with
unfoldable pub intercept :
    {A : Type 0} → ℕ → Option String → ℕ → String → Returned A → SuccessResponse A
intercept status response_message now path data' = record {
  status_code = status;
  message = message_or_empty response_message;
  timestamp = now;
  request_url = path;
  data' = body_of data';
}

-- `convertErrorMessage`
abbrev convert_error_message : List String → String
convert_error_message errors = join ", " (map (λ e. str_append "Validation Error: " e) errors)

abbrev exception_message : Value → Option String
exception_message Value.missing = none
exception_message (Value.text s) = some s
exception_message (Value.texts errors) = some (convert_error_message errors)

-- `HttpExceptionFilter`: `catch`, with the status that is sent
unfoldable pub catch_http : ℕ → Value → ℕ → String → ℕ × ExceptionResponse
catch_http status message now url = (
  status,
  record {
    status_code = status;
    message = exception_message message;
    timestamp = now;
    request_url = url;
  },
)

-- `UnhandledExceptionFilter`: `catch`, with the status that is sent; the message of the error is logged
unfoldable pub catch_unhandled : String → ℕ → String → ℕ × ExceptionResponse
catch_unhandled message now url = (
  500,
  record {
    status_code = 500;
    message = some "서버에서 오류가 발생하였습니다";
    timestamp = now;
    request_url = url;
  },
)

-- The answer to a request, with the status that is sent.
pub data Answer (A : Type 0) : Type 0 where
  success : ℕ → SuccessResponse A → Answer A
  failure : ℕ → ExceptionResponse → Answer A

unfoldable pub answer :
    {A : Type 0} → ℕ → Option String → ℕ → String → Result Exception (Returned A) → Answer A
unfolding intercept catch_http catch_unhandled
answer status response_message now url (ok data') =
    success status (intercept status response_message now url data')
answer status response_message now url (err (http_exception code message)) =
    let (sent, response) = catch_http code message now url in failure sent response
answer status response_message now url (err (other_error message)) =
    let (sent, response) = catch_unhandled message now url in failure sent response

-- ws.exception.ts: the types of the exceptions of a WebSocket.
pub data WsExceptionType : Type 0 where
  bad_request_exception unauthorized_exception unknown_exception : WsExceptionType

pub record WsTypeException : Type 0 where
  pub type : WsExceptionType
  pub message : String

-- The class of an HttpException, as far as the filter asks.
pub data HttpClass : Type 0 where
  bad_request_class unauthorized_class other_class : HttpClass

-- `WsExceptionFilter`: `catch`, with the error that is emitted
unfoldable pub catch_ws : HttpClass → String → WsTypeException
catch_ws bad_request_class message = record { type = bad_request_exception; message = message }
catch_ws unauthorized_class message = record { type = unauthorized_exception; message = message }
catch_ws other_class message = record { type = unknown_exception; message = message }
