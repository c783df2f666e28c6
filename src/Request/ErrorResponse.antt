-- ===== src/Request/ErrorResponse.antt =====
-- `lws_error_response` of src/lws_request.c (lines 305 to 377). The response body file has no buffer, so that
-- fseek and the write of yyjson are calls of `lws_seek_response_body` and `lws_write_response_body`; what
-- yyjson makes of the document is a parameter.
pub mod Written
use lambda_lws.Prelude.{
  ℕ, Bool, true, false, Option, none, some, List, if◌then◌else◌, ℤ, pos, negsuc, rc_ok, rc_error,
  Run, ◌>>=◌,
}
use lambda_lws.Http.{HttpStatus, find_http_status}
use lambda_lws.Body.{Realloc}
use lambda_lws.Body.Response.{Response, seek_set, seek_response_body, write_response_body}

-- The document: the code, the status with its message, if there is one, and the diagnostic, if any.
pub record ErrorDoc : Type 0 where
  pub code : ℤ
  pub status : Option HttpStatus
  pub diagnostic : Option (List ℕ)

-- Whether the response body file is open, and yyjson makes the document; the JSON that it writes; the
-- diagnostic of the context; and the Content-Type of the response.
pub record Answers : Type 0 where
  pub opened : Bool
  pub made : Bool
  pub written : ErrorDoc → List ℕ
  pub diagnostic : Option (List ℕ)
  pub content_type : Option (List ℕ)

-- The result of the write, which is negative where it fails.
unfoldable pub wrote : ℤ × Response → ℤ × Response
wrote (pos n, s) = (rc_ok, s)
wrote (negsuc n, s) = (rc_error, s)

-- What follows the seek.
unfoldable pub write_error : Realloc → Answers → ℤ → ℤ × Response → Run (ℤ × Response)
write_error realloc a code (negsuc n, s) = some (rc_error, s)
write_error realloc a code (pos n, s) =
    if a.made
    then write_response_body realloc a.content_type s (
        a.written
          (record { code = code; status = find_http_status code; diagnostic = a.diagnostic }))
      >>= (λ r. some (wrote r))
    else some (rc_error, s)

-- lws_error_response
unfoldable pub error_response : Realloc → Answers → Response → ℤ → Run (ℤ × Response)
error_response realloc a s code =
    if a.opened
    then write_error realloc a code (seek_response_body s (pos 0) seek_set)
    else some (rc_error, s)
