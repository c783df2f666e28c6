-- ===== src/Interface/Stream.antt =====
-- `lws_handle_read` of src/lws_interface.c (lines 274 to 334): the read callback of a streaming
-- response. It sends the prelude, eight zero bytes and the response body, as far as the body has been
-- written, and then pauses or ends. The state is the fields of `lws_ctx_t` that the callback uses; a
-- `lws_str_t` is the list of its `len` bytes, and what goes to `ptr` is the list of the bytes sent.
pub mod Reads
pub mod Schedule
use lambda_lws.Prelude.{
  ℕ, ◌+◌, ◌-◌, ◌*◌, ◌/◌, ◌%◌, ◌^◌, Bool, true, false, not, ◌&&◌, List, [], ◌∷◌, ◌++◌, ltb, ◌==◌,
  if◌then◌else◌, length, take, drop, replicate,
}
use lambda_lws.Codec.Base64.{size_max}

pub record Stream : Type 0 where
  pub streaming_prelude : List ℕ
  pub streaming_prelude_pos : ℕ
  pub streaming_separator : ℕ
  pub resp_body : List ℕ
  pub resp_body_pos : ℕ
  pub streaming_eof : Bool
  pub streaming_paused : Bool

-- LWS_LAMBDA_SEPARATOR_LEN
abbrev pub separator_len : ℕ
separator_len = 8

-- What the callback returns: CURL_READFUNC_ABORT, CURL_READFUNC_PAUSE, or the number of bytes sent,
-- which are given with it. No bytes sent end the transfer.
pub data ReadResult : Type 0 where
  abort : ReadResult
  pause : ReadResult
  sent : List ℕ → ReadResult

-- n, or `remain` if that is smaller
abbrev pub clip : ℕ → ℕ → ℕ
clip n remain = if ltb remain n then remain else n

-- Each of the three parts gives the bytes that it sends, and the new state.
unfoldable pub send_prelude : ℕ → Stream → List ℕ × Stream
send_prelude remain s =
    if ltb s.streaming_prelude_pos (length s.streaming_prelude)
    then (let n = clip (length s.streaming_prelude - s.streaming_prelude_pos) remain in
        (
          take n (drop s.streaming_prelude_pos s.streaming_prelude),
          record s { streaming_prelude_pos = s.streaming_prelude_pos + n },
        ))
    else ([], s)

-- The field has four bits.
unfoldable pub send_separator : ℕ → Stream → List ℕ × Stream
send_separator remain s =
    if ltb s.streaming_separator separator_len
    then (let n = clip (separator_len - s.streaming_separator) remain in
        (replicate n 0, record s { streaming_separator = (s.streaming_separator + n) % 2 ^ 4 }))
    else ([], s)

unfoldable pub send_body : ℕ → Stream → List ℕ × Stream
send_body remain s =
    if ltb s.resp_body_pos (length s.resp_body)
    then (let n = clip (length s.resp_body - s.resp_body_pos) remain in
        (
          take n (drop s.resp_body_pos s.resp_body),
          record s { resp_body_pos = s.resp_body_pos + n },
        ))
    else ([], s)

-- The three parts, in `len` bytes.
unfoldable pub send_parts : ℕ → Stream → List ℕ × Stream
send_parts len s =
    let (a, s₁) = send_prelude len s in
    let (b, s₂) = send_separator (len - length a) s₁ in
    let (c, s₃) = send_body (len - length a - length b) s₂ in (a ++ (b ++ c), s₃)

-- lws_handle_read
unfoldable pub handle_read : ℕ → ℕ → Stream → ReadResult × Stream
handle_read size nmemb s =
    if not (nmemb == 0) && ltb (size_max / nmemb) size
    then (abort, s)
    else (let (bytes, s') = send_parts (size * nmemb) s in
        if length bytes == 0
        then (if s'.streaming_eof
            then (sent [], s')
            else (pause, record s' { streaming_paused = true }))
        else (sent bytes, s'))
