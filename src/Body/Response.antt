-- ===== src/Body/Response.antt =====
-- src/lws_request.c, lines 59 to 133: `lws_write_response_body` and `lws_seek_response_body`, the
-- output functions of the response body's file. The state is the fields of `lws_ctx_t` that they use:
-- `mem` is the memory behind `resp_body.data` and `len` is `resp_body.len`. The Content-Type header
-- that `lws_table_get` finds, and `lws_realloc`, are parameters.
pub mod Write
pub mod Send
use lambda_lws.Prelude.{
  ℕ, ◌+◌, ◌-◌, ◌≤◌, ◌≡◌, Bool, true, false, not, ◌&&◌, ◌||◌, Option, none, some, List, [], ◌∷◌,
  ◌++◌, ltb, leb, ◌==◌, if◌then◌else◌, length, take, drop, codes, eqb_list, ℤ, pos, negsuc, rc_ok,
  rc_error, Run, ◌>>=◌,
}
use lambda_lws.Codec.Base64.{size_max, base64_encode_len}
use lambda_lws.Body.{Realloc, Block, reserve, copy}

pub record Response : Type 0 where
  pub mem : List ℕ
  pub len : ℕ
  pub resp_body_cap : ℕ
  pub likely_utf8 : Bool
  pub streaming : Bool

-- ct->len >= n && strncmp(ct->data, text, n) == 0, for a text of n bytes, none of them 0.
unfoldable pub starts_with : List ℕ → List ℕ → Bool
starts_with ct text = leb (length text) (length ct) && eqb_list (take (length text) ct) text

-- Whether the content type says text.
unfoldable pub is_text : Option (List ℕ) → Bool
unfolding starts_with
is_text none = false
is_text (some ct) =
    starts_with ct (codes "text/html")
    || starts_with ct (codes "text/plain")
    || starts_with ct (codes "application/json")

-- On the first bytes of a body the content type is looked at.
unfoldable pub look : Option (List ℕ) → Response → Response
look content_type s = if s.len == 0 then record s { likely_utf8 = is_text content_type } else s

-- The number of a result, or another one for an error.
abbrev pub or_else : Option ℕ → ℕ → ℕ
or_else none d = d
or_else (some n) d = n

-- The required space for a body of `size` bytes.
unfoldable pub required_space : Response → ℕ → ℕ
required_space s size =
    if s.likely_utf8 || s.streaming then size else or_else (base64_encode_len size) size

-- The end of the call: the copy, in the block that the allocation gave.
unfoldable pub append_data : Response → List ℕ → Block → Run (ℤ × Response)
unfolding copy
append_data s bytes none = some (rc_error, s)
append_data s bytes (some (m, c)) = do
  m' ← copy m s.len bytes
  some (pos (length bytes), record s { mem = m'; len = s.len + length bytes; resp_body_cap = c })

-- lws_write_response_body
unfoldable pub write_response_body :
    Realloc → Option (List ℕ) → Response → List ℕ → Run (ℤ × Response)
unfolding look required_space append_data reserve
write_response_body realloc content_type s bytes =
    if ltb (size_max - s.len) (length bytes) then some (rc_error, s) else (do
      let t : Response = look content_type s
      block ← reserve realloc t.mem t.resp_body_cap (required_space t (t.len + length bytes))
      append_data t bytes block)

-- SEEK_SET, and the other origins of a seek
pub data Whence : Type 0 where
  seek_set : Whence
  seek_other : Whence

-- lws_seek_response_body
unfoldable pub seek_response_body : Response → ℤ → Whence → ℤ × Response
seek_response_body s offset seek_other = (rc_error, s)
seek_response_body s (negsuc n) seek_set = (rc_error, s)
seek_response_body s (pos n) seek_set =
    if ltb s.len n then (rc_error, s) else (rc_ok, record s { len = n })
