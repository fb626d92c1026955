-- ===== src/Http.antt =====
-- src/config/exception.config.ts: the program's exceptions and what a client is answered.
use vnst_be.Base.{ℕ, Text, Exception, http_exception, error, other_value}

abbrev pub forbidden_exception : Text → Exception
forbidden_exception message = http_exception 403 message

abbrev pub un_authorized_exception : Text → Exception
un_authorized_exception message = http_exception 401 message

abbrev pub internal_error : Text → Exception
internal_error message = http_exception 500 message

unfoldable pub get_status_code : Exception → ℕ
get_status_code (http_exception status message) = status
get_status_code (error message) = 500
get_status_code (other_value message) = 500

pub record ErrorBody : Type 0 where
  pub timestamp : Text
  pub path : Text
  pub status_code : ℕ
  pub message : Text

-- `GlobalExceptionFilter.catch`. `to_text` is `String(exception)`, which prints the exception's class
-- too, and `now` the clock's ISO date.
unfoldable pub catch_exception : (Exception → Text) → Text → Text → Exception → ErrorBody
catch_exception to_text now url exception = record {
  timestamp = now;
  path = url;
  status_code = get_status_code exception;
  message = to_text exception;
}
