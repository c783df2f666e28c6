-- ===== src/Interface/Perform.antt =====
-- `lws_curl_perform` (lines 67 to 138), `lws_stream_response` (lines 832 to 933) and `lws_post_error` (lines
-- 935 to 1030) of src/lws_interface.c. What libcurl and yyjson answer is a parameter; a run is `none` where
-- its answers end before the call returns.
pub mod Attached
pub mod Kept
pub mod Session
use lambda_lws.Prelude.{
  ℕ, zero, suc, Bool, true, false, ◌&&◌, ◌||◌, not, Option, none, some, List, [], ◌∷◌, length, ltb,
  leb, ◌==◌, if◌then◌else◌, ℤ, pos, negsuc, rc_ok, rc_error, Run, ◌>>=◌,
}
use lambda_lws.Interface.Invocation.{off_t_max}

-- A call of curl_multi_perform: whether it gives CURLM_OK, the transfers that remain, and
-- ctx->streaming_paused behind its callbacks.
pub record Round : Type 0 where
  pub ok : Bool
  pub remain : ℕ
  pub paused : Bool

-- A message of curl_multi_info_read: whether it is CURLMSG_DONE, its result CURLE_OK, and the status, if
-- curl_easy_getinfo gives it.
pub record Message : Type 0 where
  pub done : Bool
  pub ok : Bool
  pub code : Option ℕ

-- The answers of libcurl to a call of lws_curl_perform: curl_multi_add_handle, the calls of
-- curl_multi_perform and curl_multi_info_read (`none` for NULL), and curl_multi_remove_handle.
pub record Curl : Type 0 where
  pub adds : Bool
  pub rounds : List Round
  pub messages : List (Option Message)
  pub removes : Bool

-- Whether the handle has been added, and ctx->streaming_paused.
pub record Conn : Type 0 where
  pub attached : Bool
  pub streaming_paused : Bool

-- How the loop ends that drives the request.
pub data Driven : Type 0 where
  failed : Driven
  suspended : Driven
  complete : Driven

-- A round that succeeded, by the flag LWS_CURL_FINALIZE; what follows it is taken where the loop goes on.
unfoldable pub drive_round : Bool → Round → Run (Driven × Bool) → Run (Driven × Bool)
drive_round finalize r rest =
    if not finalize && (r.paused || (r.remain == 0))
    then some (suspended, r.paused)
    else if r.remain == 0
    then some (complete, r.paused)
    else rest

-- "drive the request"
unfoldable pub drive : Bool → List Round → Run (Driven × Bool)
drive finalize [] = none
drive finalize (r ∷ rs) =
    let rest = drive finalize rs in
    if r.ok then drive_round finalize r rest else some (failed, r.paused)

-- code < 200 || code >= 300, or no code
unfoldable pub is_success : Option ℕ → Bool
is_success none = false
is_success (some code) = leb 200 code && ltb code 300

-- "reap the result"
unfoldable pub reap : List (Option Message) → Run Bool
reap [] = none
reap (none ∷ ms) = some false
reap (some m ∷ ms) = let rest = reap ms in if m.done then some (m.ok && is_success m.code) else rest

-- The cleanup: the handle is removed.
unfoldable pub detach : Bool → Bool → Conn → ℤ × Conn
detach removes ok c =
    if removes
    then (if ok then rc_ok else rc_error, record c { attached = false })
    else (rc_error, c)

-- What follows the loop.
unfoldable pub finish : Curl → Conn → Driven × Bool → Run (ℤ × Conn)
finish a c (failed, paused) = some (rc_error, record c { streaming_paused = paused })
finish a c (suspended, paused) = some (rc_ok, record c { streaming_paused = paused })
finish a c (complete, paused) = do
  ok ← reap a.messages
  some (detach a.removes ok (record c { streaming_paused = paused }))

-- lws_curl_perform, by the flags LWS_CURL_INITIATE and LWS_CURL_FINALIZE
unfoldable pub perform : Curl → Bool → Bool → Conn → Run (ℤ × Conn)
perform a initiate finalize c = if initiate && not a.adds then some (rc_error, c) else (do
  driven ← drive finalize a.rounds
  finish a (if initiate then record c { attached = true } else c) driven)

-- The fields of lws_ctx_t that a streaming response uses.
pub record Ctx : Type 0 where
  pub raw : Bool
  pub streaming : Bool
  pub prelude : Option (List ℕ)
  pub conn : Conn

-- The answers to a call of lws_stream_response: curl_easy_pause; whether the lists of headers and the
-- document are made; what yyjson_mut_write gives; and those of lws_curl_perform.
pub record StreamAnswers : Type 0 where
  pub resumes : Bool
  pub prepared : Bool
  pub written : Option (List ℕ)
  pub curl : Curl

-- "successfully initiated streaming response"
unfoldable pub initiated : Ctx → ℤ × Conn → ℤ × Ctx
initiated s (pos zero, c) = (rc_ok, record s { streaming = true; conn = c })
initiated s (pos (suc n), c) = (rc_error, record s { conn = c })
initiated s (negsuc n, c) = (rc_error, record s { conn = c })

-- "create JSON" and "initiate posting of streaming response"
unfoldable pub send_prelude_of : StreamAnswers → Option (List ℕ) → Ctx → Run (ℤ × Ctx)
send_prelude_of a none s = some (rc_error, record s { prelude = none })
send_prelude_of a (some json) s =
    perform a.curl true false s.conn
    >>= (λ r. some (initiated (record s { prelude = some json }) r))

-- The first call: the prelude is written and the transfer is started.
unfoldable pub start_stream : StreamAnswers → Ctx → Run (ℤ × Ctx)
start_stream a s = if a.prepared then send_prelude_of a a.written s else some (rc_error, s)

-- The further calls, with the transfer resumed where it was paused.
unfoldable pub resume_stream : StreamAnswers → Bool → Ctx → Run (ℤ × Ctx)
resume_stream a finish' s =
    let c : Conn = s.conn in
    perform a.curl false finish' (record c { streaming_paused = false })
    >>= (λ (rc, d). some (rc, record s { conn = d }))

-- lws_stream_response
unfoldable pub stream_response : StreamAnswers → Bool → Ctx → Run (ℤ × Ctx)
stream_response a finish' s =
    if s.raw
    then some (rc_error, s)
    else if s.streaming
    then (if s.conn.streaming_paused && not a.resumes
        then some (rc_error, s)
        else resume_stream a finish' s)
    else start_stream a s

-- lws_post_error, by whether the list of headers and the document are made, what yyjson_mut_write gives,
-- and the answers of libcurl
unfoldable pub post_error : Bool → Option (List ℕ) → Curl → Conn → Run (ℤ × Conn)
post_error prepared none a c = some (rc_error, c)
post_error prepared (some json) a c =
    if not prepared || ltb off_t_max (length json)
    then some (rc_error, c)
    else perform a true true c
