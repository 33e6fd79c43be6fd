-- ===== src/Wrapper/Requests.antt =====
-- What a request of src/clawops/wrappers/base.py ends with, and the errors made of it.
use strongclaw.Prelude.Int.{ℤ, pos}
use strongclaw.Prelude.{
  ℕ, String, ◌<>◌, Bool, true, false, Option, none, some, List, [], ◌∷◌, eqb, if◌then◌else◌,
}
use strongclaw.Prelude.Text.{strip, is_nonempty, take_text, show_nat}
use strongclaw.Runtime.{Runtime}
use strongclaw.Wrapper.Results.{or_column}

-- What the code reads of a `requests.Response`.
pub record Response : Type 0 where
  pub ok : Bool
  pub status_code : ℕ
  pub text : String
  pub header : String → Option String

-- `RetryPolicy`; the delays between requests are not modelled
pub record RetryPolicy : Type 0 where
  pub name : String
  pub max_attempts : ℕ
  pub retryable_status_codes : List ℕ

pub record HttpResponseOutcome : Type 0 where
  pub response : Response
  pub request_method : String
  pub request_url : String
  pub request_attempts : ℕ
  pub retry_policy : RetryPolicy
  pub request_id : Option String
  pub retry_after_seconds : Option ℕ

pub record WrapperTransportError : Type 0 where
  pub error_type : String
  pub message : String
  pub method : String
  pub url : String
  pub retryable : Bool
  pub request_attempts : ℕ
  pub status_code : Option ℤ
  pub body_excerpt : Option String
  pub request_id : Option String
  pub retry_after_seconds : Option ℕ

-- The classes of `requests.RequestException` that the code tells apart.
pub data ExceptionClass : Type 0 where
  timeout connection_error request_error : ExceptionClass

-- What the callable `request` returns or raises; `other` is an exception of any other class.
pub data Reply : Type 0 where
  outcome : HttpResponseOutcome → Reply
  raw_response : Response → Reply
  transport_error : WrapperTransportError → Reply
  request_exception : ExceptionClass → String → Reply
  other : String → Reply

-- NO_RETRY_POLICY
abbrev pub no_retry_policy : RetryPolicy
no_retry_policy = record { name = "no-retry"; max_attempts = 1; retryable_status_codes = [] }

-- `_coerce_http_outcome` of a raw response
unfoldable pub coerce_response : Response → HttpResponseOutcome
coerce_response r = record {
  response = r;
  request_method = "UNKNOWN";
  request_url = "";
  request_attempts = 1;
  retry_policy = no_retry_policy;
  request_id = none;
  retry_after_seconds = none;
}

member : List ℕ → ℕ → Bool
member [] n = false
member (m ∷ ms) n = if eqb n m then true else member ms n

-- `RetryPolicy.allows_retry_for_status`
unfoldable pub allows_retry_for_status : RetryPolicy → ℕ → Bool
unfolding member
allows_retry_for_status p code = member p.retryable_status_codes code

-- value.strip(), if there is a value that is not blank
unfoldable pub nonblank : Option String → Option String
nonblank none = none
nonblank (some v) = if is_nonempty (strip v) then some (strip v) else none

-- `_response_request_id`
unfoldable pub response_request_id : Response → Option String
unfolding nonblank or_column
response_request_id r =
    or_column (nonblank (r.header "X-GitHub-Request-Id")) (nonblank (r.header "X-Request-Id"))

-- `_parse_retry_after_seconds`
unfoldable pub parse_retry_after : Runtime → Option String → Option ℕ
parse_retry_after rt none = none
parse_retry_after rt (some v) = if is_nonempty (strip v) then rt.delay (strip v) else none

-- text or None
unfoldable pub text_or_none : String → Option String
text_or_none s = if is_nonempty s then some s else none

-- `WrapperHttpStatusError.from_response`, of an outcome whose response is not ok
unfoldable pub status_error : Runtime → HttpResponseOutcome → WrapperTransportError
unfolding allows_retry_for_status text_or_none
status_error rt o =
    let excerpt = take_text 1000 o.response.text in
    record {
      error_type = "http_status";
      message =
          if is_nonempty excerpt
          then take_text 1000 excerpt
          else o.request_method
            <> " "
            <> o.request_url
            <> " returned HTTP "
            <> show_nat o.response.status_code;
      method = o.request_method;
      url = o.request_url;
      retryable = allows_retry_for_status o.retry_policy o.response.status_code;
      request_attempts = o.request_attempts;
      status_code = some (pos o.response.status_code);
      body_excerpt = text_or_none excerpt;
      request_id = or_column (response_request_id o.response) o.request_id;
      retry_after_seconds =
          or_column (parse_retry_after rt (o.response.header "Retry-After")) o.retry_after_seconds;
    }

unfoldable pub class_name : ExceptionClass → String
class_name timeout = "timeout"
class_name connection_error = "connection_error"
class_name request_error = "request_error"

-- `WrapperRequestError.from_exception`, with its arguments in order
unfoldable pub from_exception :
    ExceptionClass → String → String → String → Bool → ℕ → WrapperTransportError
unfolding class_name
from_exception class message method url retryable attempts = record {
  error_type = class_name class;
  message = message;
  method = method;
  url = url;
  retryable = retryable;
  request_attempts = attempts;
  status_code = none;
  body_excerpt = none;
  request_id = none;
  retry_after_seconds = none;
}

-- the excerpt of the body, if it is not blank, or the message
unfoldable pub message_text : Option String → String → String
message_text none message = message
message_text (some excerpt) message = if is_nonempty (strip excerpt) then excerpt else message

-- `WrapperTransportError.error_message`
unfoldable pub error_message : WrapperTransportError → String
unfolding message_text
error_message e = take_text 1000 (message_text e.body_excerpt e.message)
