-- ===== src/Interface/Post.antt =====
-- `lws_post_response` of src/lws_interface.c (lines 693 to 830). What yyjson makes of the response is a
-- parameter, and so are the answers of libcurl; a run is `none` where these end before the call returns, or
-- where it accesses memory outside of the response's block.
pub mod Outcome
use lambda_lws.Prelude.{
  ℕ, Bool, true, false, not, Option, none, some, List, ltb, ◌==◌, if◌then◌else◌, length, ℤ,
  rc_error, Run, ◌>>=◌,
}
use lambda_lws.Body.{Realloc}
use lambda_lws.Body.Response.{Response}
use lambda_lws.Body.Response.Write.{content}
use lambda_lws.Body.Response.Send.{Sent, given_up, ready, prepare_body}
use lambda_lws.Interface.Invocation.{off_t_max}
use lambda_lws.Interface.Perform.{Curl, Conn, perform}

-- Whether the list of headers is made, and the document with its root and headers; whether the body and
-- the flag are added to it; the JSON for a body and the flag, and that of null; and the answers of libcurl.
pub record PostAnswers : Type 0 where
  pub listed : Bool
  pub made : Bool
  pub adds : Bool
  pub written : List ℕ → Bool → Option (List ℕ)
  pub null_written : Option (List ℕ)
  pub curl : Curl

-- The code, the response and the connection, and the bytes that were handed to libcurl.
pub record Posted : Type 0 where
  pub rc : ℤ
  pub response : Response
  pub conn : Conn
  pub bytes : Option (List ℕ)

-- A call that fails before the post.
unfoldable pub not_posted : Response → Conn → Posted
not_posted s c = record { rc = rc_error; response = s; conn = c; bytes = none }

-- "post response", unless the bytes are too many
unfoldable pub post_bytes : Curl → Response → Conn → List ℕ → Run Posted
post_bytes a s c bytes =
    if ltb off_t_max (length bytes)
    then some (not_posted s c)
    else perform a true true c
      >>= (λ (rc, d). some (record { rc = rc; response = s; conn = d; bytes = some bytes }))

-- "create JSON"
unfoldable pub post_json : Curl → Response → Conn → Option (List ℕ) → Run Posted
post_json a s c none = some (not_posted s c)
post_json a s c (some json) = post_bytes a s c json

-- The body and the flag, behind the part that prepares the body.
unfoldable pub post_sent : PostAnswers → Conn → Sent → Run Posted
post_sent a c (given_up s) = some (not_posted s c)
post_sent a c (ready base64 s) =
    if a.adds then post_json a.curl s c (a.written (content s) base64) else some (not_posted s c)

-- The raw mode.
unfoldable pub post_raw : PostAnswers → Response → Conn → Run Posted
post_raw a s c =
    if s.len == 0
    then (if a.made then post_json a.curl s c a.null_written else some (not_posted s c))
    else post_bytes a.curl s c (content s)

-- lws_post_response
unfoldable pub post_response : Realloc → PostAnswers → Bool → Response → Conn → Run Posted
post_response realloc a raw s c =
    if not a.listed
    then some (not_posted s c)
    else if raw
    then post_raw a s c
    else if a.made
    then prepare_body realloc s >>= post_sent a c
    else some (not_posted s c)
