-- ===== src/Runtime/Loop.antt =====
-- One round of the loop of `main` in src/lws_runtime.c (lines 297 to 357): what is told to the Lambda
-- runtime API, and whether the program goes on. What the functions that it calls answer is a parameter.
pub mod Answer
use lambda_lws.Prelude.{
  ℕ, zero, suc, Bool, true, false, ◌||◌, not, Option, none, some, List, [], ◌∷◌, ◌++◌, ltb_ℤ,
  if◌then◌else◌, ℤ, pos, negsuc,
}

-- The answers of a round: whether lws_get_next_invocation returns 0, whether `keep_running` still holds
-- then, and whether there is a request ID; what lws_handle_request returns, with `ctx.streaming` and
-- `ctx.resp_status` behind it; and whether lws_error_response, lws_post_response and lws_post_error
-- return 0.
pub record Answers : Type 0 where
  pub next : Bool
  pub keep_running : Bool
  pub request_id : Bool
  pub handled : ℤ
  pub streaming : Bool
  pub resp_status : ℕ
  pub error_response : Bool
  pub post_response : Bool
  pub post_error : Bool

-- What is posted, and whether that succeeds: a response with its status and the code of the error in
-- its body, if that is an error response; or an error.
pub data Post : Type 0 where
  response : ℕ → Option ℤ → Bool → Post
  error : Bool → Post

-- EXIT_SUCCESS and EXIT_FAILURE
abbrev pub exit_success : ℕ
exit_success = 0

abbrev pub exit_failure : ℕ
exit_failure = 1

-- lws_post_error, behind the posts before it
unfoldable pub tell : Answers → List Post → ℕ × List Post
tell a ps = (if a.post_error then exit_success else exit_failure, ps ++ error a.post_error ∷ [])

-- The code of the error response for a result: 500 outside of 100 to 599.
unfoldable pub request_code : ℤ → ℤ
request_code c = if ltb_ℤ c (pos 100) || not (ltb_ℤ c (pos 600)) then pos 500 else c

-- "send response, unless a streaming response was sent", with the code of the error in the body
unfoldable pub send : Answers → Option ℤ → ℕ × List Post
send a body =
    if a.streaming
    then (exit_success, [])
    else if a.post_response
    then (exit_success, response a.resp_status body true ∷ [])
    else tell a (response a.resp_status body false ∷ [])

-- "handle request", with the result
unfoldable pub respond : Answers → ℤ → ℕ × List Post
respond a (pos zero) = send a none
respond a (pos (suc n)) =
    if a.streaming
    then send a none
    else if a.error_response
    then send a (some (request_code (pos (suc n))))
    else tell a []
respond a (negsuc n) = tell a []

-- A round, up to its cleanup, with the exit code.
unfoldable pub iterate : Answers → ℕ × List Post
iterate a =
    if a.next
    then respond a a.handled
    else if a.keep_running
    then (if a.request_id then tell a [] else (exit_failure, []))
    else (exit_success, [])
