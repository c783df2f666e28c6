-- ===== src/Runtime/Cleanup.antt =====
-- The cleanup behind a round of the loop of `main` in src/lws_runtime.c (lines 359 to 427). A text is
-- `none` for a NULL pointer. `doc`, the files and the request ID are whether the pointer is not NULL;
-- what is freed or closed is left to the C library.
pub mod Reset
use lambda_lws.Prelude.{
  ℕ, zero, suc, Bool, true, false, Option, none, some, List, if◌then◌else◌, ℤ, pos, negsuc, Run,
  ◌>>=◌,
}
use lambda_lws.Table.{Table}
use lambda_lws.Table.Methods.{clear}

-- The fields of lws_ctx_t that belong to a request, other than those of lws_handle_request's own.
pub record Context : Type 0 where
  pub headers : Table
  pub request_id : Bool
  pub content_length : ℤ
  pub body : Option (List ℕ)
  pub body_len : ℕ
  pub body_cap : ℕ
  pub doc : Bool
  pub req_method : Option (List ℕ)
  pub req_path : Option (List ℕ)
  pub req_args : Option (List ℕ)
  pub req_ip : Option (List ℕ)
  pub req_main : Option (List ℕ)
  pub req_path_info : Option (List ℕ)
  pub req_headers : Table
  pub req_body_file : Bool
  pub req_body : Option (List ℕ)
  pub resp_headers : Table
  pub resp_body_file : Bool
  pub resp_body : Option (List ℕ)
  pub resp_body_pos : ℕ
  pub resp_body_cap : ℕ
  pub diagnostic : Option (List ℕ)
  pub streaming_prelude : Option (List ℕ)
  pub streaming_prelude_pos : ℕ
  pub likely_utf8 : Bool
  pub streaming : Bool
  pub streaming_paused : Bool
  pub streaming_eof : Bool
  pub streaming_separator : ℕ

-- lws_free of a text, which is NULL then
abbrev pub freed : Option (List ℕ) → Option (List ℕ)
freed s = elim s [ none ↦ none | some bytes ↦ none ]

-- A number that is reset where a text is freed.
abbrev pub reset_with : Option (List ℕ) → ℕ → ℕ
reset_with s n = elim s [ none ↦ n | some bytes ↦ 0 ]

-- A file or a document that is closed or freed, where there is one.
abbrev pub closed : Bool → Bool
closed b = if b then false else b

-- "Lambda request cleanup"
unfoldable pub cleanup_lambda : Context → Run Context
cleanup_lambda c = clear c.headers >>= λ t. some (record c {
  headers = t;
  request_id = false;
  content_length = negsuc 0;
  body = freed c.body;
  body_len = reset_with c.body c.body_len;
  body_cap = reset_with c.body c.body_cap;
  doc = closed c.doc;
})

-- "payload request cleanup"
unfoldable pub cleanup_request : Context → Run Context
cleanup_request c = clear c.req_headers >>= λ t. some (record c {
  req_method = none;
  req_path = none;
  req_args = none;
  req_ip = none;
  req_main = freed c.req_main;
  req_path_info = freed c.req_path_info;
  req_headers = t;
  req_body_file = closed c.req_body_file;
  req_body = none;
})

-- "payload response cleanup"
unfoldable pub cleanup_response : Context → Run Context
cleanup_response c = clear c.resp_headers >>= λ t. some (record c {
  resp_headers = t;
  resp_body_file = closed c.resp_body_file;
  resp_body = freed c.resp_body;
  resp_body_pos = reset_with c.resp_body c.resp_body_pos;
  resp_body_cap = reset_with c.resp_body c.resp_body_cap;
  diagnostic = freed c.diagnostic;
  streaming_prelude = freed c.streaming_prelude;
  streaming_prelude_pos = reset_with c.streaming_prelude c.streaming_prelude_pos;
  likely_utf8 = false;
  streaming = false;
  streaming_paused = false;
  streaming_eof = false;
  streaming_separator = 0;
})

-- The cleanup of a round.
unfoldable pub cleanup : Context → Run Context
cleanup c = cleanup_lambda c >>= cleanup_request >>= cleanup_response
