-- ===== src/Interface/Invocation.antt =====
-- `lws_get_next_invocation` of src/lws_interface.c (lines 341 to 600). Parameters are what `lws_curl_perform`
-- leaves behind its callbacks, `strtoul`, whether `setenv` and `unsetenv` succeed, and yyjson.
use lambda_lws.Prelude.{
  ℕ, zero, suc, ◌+◌, ◌-◌, ◌^◌, Bool, true, false, ◌&&◌, not, Option, none, some, List, [], ◌++◌,
  leb, ◌==◌, if◌then◌else◌, length, take, drop, replicate, codes, get_elem?, ℤ, pos, negsuc, rc_ok,
  rc_error, Run, ◌>>=◌,
}
use lambda_lws.Table.Methods.{get}
use lambda_lws.Runtime.Env.{Parsed}
use lambda_lws.Interface.Header.{Headers, Setting}
use lambda_lws.Interface.Payload.{Yyjson, Payload, read_payload}

-- The fields of lws_ctx_t that the call reads and writes. `request_id` is the address of a text, 0 for
-- NULL; `trace` is the variable _X_AMZN_TRACE_ID; `body` is the block behind body.data.
pub record Ctx : Type 0 where
  pub headers : Headers
  pub request_id : ℕ
  pub content_length : ℤ
  pub trace : Option (List ℕ)
  pub body : List ℕ
  pub body_len : ℕ
  pub payload : Payload

-- What the call uses of the C library, of libcurl by lws_curl_perform, and of yyjson: `read` is what
-- yyjson_read_opts gives for a text, by the root of the document, which can be missing.
pub record World : Type 1 where
  pub setting : Setting
  pub alloc : ℕ → Option (List ℕ)
  pub perform : Ctx → ℤ × Ctx
  pub strtoul : List ℕ → Parsed ℕ
  pub sets_env : Option (List ℕ) → Bool
  pub json : Yyjson
  pub read : List ℕ → Option (Option json.Val)
  pub padding : ℕ
  pub raw : Bool

-- LWS_CURL_OFF_T_MAX
abbrev pub off_t_max : ℕ
off_t_max = 2 ^ 63 - 1

-- lws_table_get of a header: its address and text, 0 where it is missing.
unfoldable pub get_header : Setting → Headers → List ℕ → Run (ℕ × Headers)
get_header w h name = do
  (v, t) ← get w.widen w.now h.headers name
  some (v, record h { headers = t })

-- The text at an address.
unfoldable pub text_at : Headers → ℕ → Run (Option (List ℕ))
text_at h zero = some none
text_at h (suc i) = get_elem? h.heap i >>= (λ t. some (some t))

-- "content length"
unfoldable pub length_of : (List ℕ → Parsed ℕ) → Option (List ℕ) → ℤ
length_of strtoul none = negsuc 0
length_of strtoul (some text) =
    let p = strtoul text in
    if (not p.errno && (p.taken == length text)) && leb p.number off_t_max
    then pos p.number
    else negsuc 0

-- "trace ID": setenv, or unsetenv where the header is missing
unfoldable pub set_trace : World → Option (List ℕ) → Ctx → ℤ × Ctx
set_trace w text s = if w.sets_env text then (rc_ok, record s { trace = text }) else (rc_error, s)

-- lws_memzero of the padding behind the body
unfoldable pub pad_body : ℕ → Ctx → Run Ctx
pad_body padding s =
    if leb (s.body_len + padding) (length s.body)
    then some (record s {
      body = take s.body_len s.body ++ (replicate padding 0 ++ drop (s.body_len + padding) s.body);
    })
    else none

-- The regular or the raw mode.
unfoldable pub take_payload : (w : World) → Option w.json.Val → Ctx → Run (ℤ × Ctx)
take_payload w root s =
    if w.raw
    then (let p : Payload = s.payload in
        some (rc_ok, record s { payload = record p { req_body = [] } }))
    else read_payload w.setting w.alloc w.json root s.payload
      >>= (λ (rc, p). some (rc, record s { payload = p }))

-- "parse inplace"
unfoldable pub parse_body : World → ℤ × Ctx → Run (ℤ × Ctx)
parse_body w (negsuc n, s) = some (rc_error, s)
parse_body w (pos n, s) = do
  s₁ ← pad_body w.padding s
  elim (w.read (take s₁.body_len s₁.body)) [
    | none ↦ some (rc_error, s₁)
    | some root ↦ take_payload w root s₁
  ]

-- What follows the request ID.
unfoldable pub read_invocation : World → Ctx → Run (ℤ × Ctx)
read_invocation w s = do
  (v, h) ← get_header w.setting s.headers (codes "Content-Length")
  len ← text_at h v
  (u, h₁) ← get_header w.setting h (codes "Lambda-Runtime-Trace-Id")
  trace ← text_at h₁ u
  parse_body w
      (set_trace w trace (record s { headers = h₁; content_length = length_of w.strtoul len }))

-- "request ID"
unfoldable pub read_request_id : World → Ctx → Run (ℤ × Ctx)
read_request_id w s = do
  (v, h) ← get_header w.setting s.headers (codes "Lambda-Runtime-Aws-Request-Id")
  let s₁ : Ctx = record s { headers = h; request_id = v }
  elim (v == 0) [ true ↦ some (rc_error, s₁) | false ↦ read_invocation w s₁ ]

-- lws_get_next_invocation
unfoldable pub get_next_invocation : World → Ctx → Run (ℤ × Ctx)
get_next_invocation w s = elim ((w.perform s).0) [
  | pos n ↦ elim (n == 0) [
    | true ↦ read_request_id w ((w.perform s).1)
    | false ↦ some (rc_error, (w.perform s).1)
  ]
  | negsuc n ↦ some (rc_error, (w.perform s).1)
]
