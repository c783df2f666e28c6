-- ===== src/Http.antt =====
-- src/lws_http.c and src/lws_http.h: the table of HTTP statuses and `lws_find_http_status`. A pointer to
-- an entry is the entry; NULL is `none`.
pub mod Find
use lambda_lws.Prelude.{
  ℕ, suc, ◌+◌, Bool, ◌&&◌, Option, none, some, List, [], ◌∷◌, ◌++◌, map, ltb, if◌then◌else◌, get_or,
  get_elem?, ℤ, pos, ltb_ℤ, eqb_ℤ,
}
use lambda_lws.Search.{before, search_loop}
use Prim.Native.String.{String}

-- lws_http_status_t
pub record HttpStatus : Type 0 where
  pub code : ℕ
  pub key : String
  pub message : String

abbrev status : ℕ → String → String → HttpStatus
status c k m = record { code = c; key = k; message = m }

-- 1xx
status_1xx : List HttpStatus
status_1xx =
    status 100 "CONTINUE" "Continue"
    ∷ status 101 "SWITCHING_PROTOCOLS" "Switching Protocols"
    ∷ status 102 "PROCESSING" "Processing"
    ∷ []

-- 2xx
status_2xx : List HttpStatus
status_2xx =
    status 200 "OK" "OK"
    ∷ status 201 "CREATED" "Created"
    ∷ status 202 "ACCEPTED" "Accepted"
    ∷ status 203 "NON_AUTHORITATIVE_INFORMATION" "Non-Authoritative Information"
    ∷ status 204 "NO_CONTENT" "No Content"
    ∷ status 205 "RESET_CONTENT" "Reset Content"
    ∷ status 206 "PARTIAL_CONTENT" "Partial Content"
    ∷ []

-- 3xx
status_3xx : List HttpStatus
status_3xx =
    status 300 "MULTIPLE_CHOICES" "Multiple Choices"
    ∷ status 301 "MOVED_PERMANENTLY" "Moved Permanently"
    ∷ status 302 "FOUND" "Found"
    ∷ status 303 "SEE_OTHER" "See Other"
    ∷ status 304 "NOT_MODIFIED" "Not Modified"
    ∷ status 305 "USE_PROXY" "Use Proxy"
    ∷ status 307 "TEMPORARY_REDIRECT" "Temporary Redirect"
    ∷ status 308 "PERMANENT_REDIRECT" "Permanent Redirect"
    ∷ []

-- 4xx
status_4xx : List HttpStatus
status_4xx =
    status 400 "BAD_REQUEST" "Bad Request"
    ∷ status 401 "UNAUTHORIZED" "Unauthorized"
    ∷ status 402 "PAYMENT_REQUIRED" "Payment Required"
    ∷ status 403 "FORBIDDEN" "Forbidden"
    ∷ status 404 "NOT_FOUND" "Not Found"
    ∷ status 405 "METHOD_NOT_ALLOWED" "Method Not Allowed"
    ∷ status 406 "NOT_ACCEPTABLE" "Not Acceptable"
    ∷ status 407 "PROXY_AUTHENTICATION_REQUIRED" "Proxy Authentication Required"
    ∷ status 408 "REQUEST_TIMEOUT" "Request Timeout"
    ∷ status 409 "CONFLICT" "Conflict"
    ∷ status 410 "GONE" "Gone"
    ∷ status 411 "LENGTH_REQUIRED" "Length Required"
    ∷ status 412 "PRECONDITION_FAILED" "Precondition Failed"
    ∷ status 413 "CONTENT_TOO_LARGE" "Content Too Large"
    ∷ status 413 "REQUEST_ENTITY_TOO_LARGE" "Request Entity Too Large"
    ∷ status 414 "URI_TOO_LONG" "URI Too Long"
    ∷ status 414 "REQUEST_URI_TOO_LARGE" "Request URI Too Large"
    ∷ status 415 "UNSUPPORTED_MEDIA_TYPE" "Unsupported Media Type"
    ∷ status 416 "RANGE_NOT_SATISFIABLE" "Range Not Satisfiable"
    ∷ status 417 "EXPECTATION_FAILED" "Expectation Failed"
    ∷ status 421 "MISDIRECTED_REQUEST" "Misdirected Request"
    ∷ status 422 "UNPROCESSABLE_CONTENT" "Unprocessable Content"
    ∷ status 426 "UPGRADE_REQUIRED" "Upgrade Required"
    ∷ status 429 "TOO_MANY_REQUESTS" "Too Many Requests"
    ∷ []

-- 5xx
status_5xx : List HttpStatus
status_5xx =
    status 500 "INTERNAL_SERVER_ERROR" "Internal Server Error"
    ∷ status 501 "NOT_IMPLEMENTED" "Not Implemented"
    ∷ status 502 "BAD_GATEWAY" "Bad Gateway"
    ∷ status 503 "SERVICE_UNAVAILABLE" "Service Unavailable"
    ∷ status 504 "GATEWAY_TIMEOUT" "Gateway Timeout"
    ∷ status 505 "HTTP_VERSION_NOT_SUPPORTED" "HTTP Version Not Supported"
    ∷ status 507 "INSUFFICIENT_STORAGE" "Insufficient Storage"
    ∷ []

-- lws_http_status
unfoldable pub http_status : List HttpStatus
unfolding status_1xx status_2xx status_3xx status_4xx status_5xx
http_status = status_1xx ++ status_2xx ++ status_3xx ++ status_4xx ++ status_5xx

-- LWS_HTTP_STATUS_N
abbrev pub http_status_n : ℕ
http_status_n = 3 + 7 + 8 + 24 + 7

unfoldable pub codes : List ℕ
codes = map (λ (s : HttpStatus). s.code) http_status

-- lws_http_status[i].code < code
unfoldable pub below : ℤ → ℕ → Bool
below code i = ltb_ℤ (pos (get_or codes i 0)) code

-- lws_find_http_status
unfoldable pub find_http_status : ℤ → Option HttpStatus
find_http_status code =
    let lower = search_loop (below code) (suc http_status_n) 0 (before http_status_n) in
    if ltb lower http_status_n && eqb_ℤ (pos (get_or codes lower 0)) code
    then get_elem? http_status lower
    else none
