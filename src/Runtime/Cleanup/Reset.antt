-- ===== src/Runtime/Cleanup/Reset.antt =====
-- What the cleanup of src/lws_runtime.c (lines 359 to 427) leaves of a request: nothing.
use lambda_lws.Prelude.{
  ℕ, ◌≤◌, ◌≡◌, refl, Bool, true, false, Option, none, some, List, [], negsuc, Returns,
}
use lambda_lws.Table.{Table}
use lambda_lws.Table.Find.{find}
use lambda_lws.Table.Methods.{clear}
use lambda_lws.Table.Methods.Clear.{IsCounted, clear_lem}
use lambda_lws.Runtime.Cleanup.{
  Context, freed, reset_with, closed, cleanup_lambda, cleanup_request, cleanup_response, cleanup,
}

-- A table as a request may leave it: the queue holds its slots, as many as are counted.
pub record IsUsable (t : Table) : Type 0 where
  pub counted : IsCounted t
  pub alloc : 1 ≤ t.alloc

-- A table without entries, in which no search finds anything.
pub record IsEmpty (t : Table) : Type 0 where
  pub order : t.order ≡ []
  pub count : t.count ≡ 0
  pub finds : (key : List ℕ) (hash : ℕ) → find t key hash ≡ some none

-- What holds of the context when a round ends: the tables are usable, and where a buffer has not been
-- allocated its length, capacity and position are 0.
pub record IsConsistent (c : Context) : Type 0 where
  pub headers : IsUsable c.headers
  pub req_headers : IsUsable c.req_headers
  pub resp_headers : IsUsable c.resp_headers
  pub body_len : c.body ≡ none → c.body_len ≡ 0
  pub body_cap : c.body ≡ none → c.body_cap ≡ 0
  pub resp_body_pos : c.resp_body ≡ none → c.resp_body_pos ≡ 0
  pub resp_body_cap : c.resp_body ≡ none → c.resp_body_cap ≡ 0
  pub streaming_prelude_pos : c.streaming_prelude ≡ none → c.streaming_prelude_pos ≡ 0

-- A context without a request.
pub record IsClean (c : Context) : Type 0 where
  pub headers : IsEmpty c.headers
  pub request_id : c.request_id ≡ false
  pub content_length : c.content_length ≡ negsuc 0
  pub body : (c.body ≡ none) × (c.body_len ≡ 0) × (c.body_cap ≡ 0)
  pub doc : c.doc ≡ false
  pub texts :
      (c.req_method ≡ none)
      × (c.req_path ≡ none)
      × (c.req_args ≡ none)
      × (c.req_ip ≡ none)
      × (c.req_main ≡ none)
      × (c.req_path_info ≡ none)
      × (c.req_body ≡ none)
  pub req_headers : IsEmpty c.req_headers
  pub req_body_file : c.req_body_file ≡ false
  pub resp_headers : IsEmpty c.resp_headers
  pub resp_body_file : c.resp_body_file ≡ false
  pub resp_body : (c.resp_body ≡ none) × (c.resp_body_pos ≡ 0) × (c.resp_body_cap ≡ 0)
  pub diagnostic : c.diagnostic ≡ none
  pub prelude : (c.streaming_prelude ≡ none) × (c.streaming_prelude_pos ≡ 0)
  pub likely_utf8 : c.likely_utf8 ≡ false
  pub streaming :
      (c.streaming ≡ false)
      × (c.streaming_paused ≡ false)
      × (c.streaming_eof ≡ false)
      × (c.streaming_separator ≡ 0)

freed_lem : (s : Option (List ℕ)) → freed s ≡ none
freed_lem none = refl
freed_lem (some bytes) = refl

reset_with_lem : (s : Option (List ℕ)) (n : ℕ) → (s ≡ none → n ≡ 0) → reset_with s n ≡ 0
reset_with_lem none n h = h refl
reset_with_lem (some bytes) n h = refl

closed_lem : (b : Bool) → closed b ≡ false
closed_lem true = refl
closed_lem false = refl

clear-IsEmpty : (t : Table) → IsUsable t → (u : Table) × (clear t ≡ some u) × IsEmpty u
clear-IsEmpty t h =
    let (u, runs, (e, finds)) = clear_lem t h.counted h.alloc in
    (u, runs, record { order = e.order; count = e.count; finds = finds })

-- The cleanup of a round leaves a context without a request.
pub cleanup_lem : (c : Context) → IsConsistent c → Returns (cleanup c) IsClean
unfolding cleanup cleanup_lambda cleanup_request cleanup_response
cleanup_lem c h =
    let (t, t_runs, t_empty) = clear-IsEmpty c.headers h.headers in
    let (u, u_runs, u_empty) = clear-IsEmpty c.req_headers h.req_headers in
    let (v, v_runs, v_empty) = clear-IsEmpty c.resp_headers h.resp_headers in
    (
      _,
      rw (t_runs, u_runs, v_runs) refl,
      record {
        headers = t_empty;
        request_id = refl;
        content_length = refl;
        body = (
          freed_lem c.body,
          reset_with_lem c.body c.body_len h.body_len,
          reset_with_lem c.body c.body_cap h.body_cap,
        );
        doc = closed_lem c.doc;
        texts = (refl, refl, refl, refl, freed_lem c.req_main, freed_lem c.req_path_info, refl);
        req_headers = u_empty;
        req_body_file = closed_lem c.req_body_file;
        resp_headers = v_empty;
        resp_body_file = closed_lem c.resp_body_file;
        resp_body = (
          freed_lem c.resp_body,
          reset_with_lem c.resp_body c.resp_body_pos h.resp_body_pos,
          reset_with_lem c.resp_body c.resp_body_cap h.resp_body_cap,
        );
        diagnostic = freed_lem c.diagnostic;
        prelude = (
          freed_lem c.streaming_prelude,
          reset_with_lem c.streaming_prelude c.streaming_prelude_pos h.streaming_prelude_pos,
        );
        likely_utf8 = refl;
        streaming = (refl, refl, refl, refl);
      },
    )
