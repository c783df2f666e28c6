-- ===== src/Request/ErrorResponse/Written.antt =====
-- What `lws_error_response` (src/lws_request.c, lines 305 to 377) leaves in the response body.
use lambda_lws.Prelude.{
  ℕ, ◌≡◌, ◌<◌, refl, sym, ap, ◌∙◌, ◌⊎◌, inl, inr, true, false, Option, none, some, List, [], ◌++◌,
  ltb, if_on, length, ℤ, pos, negsuc, rc_ok, rc_error, Run, ◌>>=◌, Returns, arith,
}
use lambda_lws.Codec.Base64.{size_max}
use lambda_lws.Http.{HttpStatus, http_status, find_http_status}
use lambda_lws.Http.Find.{scan, find_http_status-scan}
use lambda_lws.Body.{Realloc, Reallocates}
use lambda_lws.Body.Response.{Response, seek_set, seek_response_body, write_response_body}
use lambda_lws.Body.Response.Write.{IsValid, content, Written, write_response_body_lem}
use lambda_lws.Request.ErrorResponse.{ErrorDoc, Answers, wrote, write_error, error_response}

-- The body cut to nothing.
abbrev cut_all : Response → Response
cut_all s = record s { len = 0 }

-- The end of a call: the body is the JSON alone; or nothing is left of it, where a `size_t` does not hold
-- the length of the JSON or realloc refuses a block.
unfoldable pub Ended : Realloc → List ℕ → ℤ × Response → Type 0
Ended realloc json (rc, t) =
    IsValid t
    × (((rc ≡ rc_ok) × (content t ≡ json))
        ⊎ ((rc ≡ rc_error)
            × (content t ≡ [])
            × ((size_max < length json) ⊎ ((mem : List ℕ) × ((n : ℕ) × (realloc mem n ≡ none))))))

seek_lem : (s : Response) → seek_response_body s (pos 0) seek_set ≡ (rc_ok, cut_all s)
unfolding seek_response_body
seek_lem s = let within : ltb s.len 0 ≡ false = ground arith in rw within refl

signs : (n m : ℕ) → negsuc n ≡ pos m → ⊥
signs n m h = cc

wrote_lem :
    (realloc : Realloc) (s : Response) (json : List ℕ) (r : ℤ × Response)
    → content s ≡ []
    → s.len ≡ 0
    → Written realloc s json r
    → Ended realloc json (wrote r)
unfolding Written Ended wrote
wrote_lem realloc s json (pos n, t) e z (valid, _, inl (good, holds, l)) =
    (valid, inl (refl, holds ∙ ap (λ (xs : List ℕ). xs ++ json) e))
wrote_lem realloc s json (negsuc n, t) e z (valid, _, inl (good, holds, l)) =
    absurd (signs n (length json) good)
wrote_lem realloc s json (pos n, t) e z (valid, _, inr (bad, holds, l, why)) =
    absurd (signs 0 n (sym bad))
wrote_lem realloc s json (negsuc n, t) e z (valid, _, inr (bad, holds, l, why)) =
    (valid, inr (refl, holds ∙ e, elim why [ inl h ↦ inl (omega (arith, h, z)) | inr h ↦ inr h ]))

-- The document for a code.
abbrev document : Answers → ℤ → ErrorDoc
document a code = record { code = code; status = scan code http_status; diagnostic = a.diagnostic }

-- With the response body file open and the document made, in a valid state and with a realloc that does
-- what it documents, lws_error_response returns, makes no access outside of the block and leaves a valid
-- state. It returns 0 and the body is the JSON alone, whatever the body was, for the code, the status that
-- a scan of lws_http_status finds for it, and the diagnostic; or it returns -1 and the body is
-- empty, and only where the JSON is longer than SIZE_MAX or realloc refuses a block.
pub error_response_lem :
    (realloc : Realloc) (a : Answers) (s : Response) (code : ℤ)
    → Reallocates realloc
    → IsValid s
    → a.opened ≡ true
    → a.made ≡ true
    → Returns (error_response realloc a s code) (Ended realloc (a.written (document a code)))
unfolding error_response write_error
error_response_lem realloc a s code grants v opened made =
    let start : Response = cut_all s in
    let json = a.written (document a code) in
    let valid : IsValid start = record { block = v.block; within = omega arith } in
    let same : find_http_status code ≡ scan code http_status = find_http_status-scan code in
    let (r, runs, w) = write_response_body_lem realloc a.content_type start json grants valid in
    (
      wrote r,
      if_on a.opened (write_error realloc a code (seek_response_body s (pos 0) seek_set))
            (some (rc_error, s)) opened
          ∙ ap (write_error realloc a code) (seek_lem s)
          ∙ if_on a.made
              (write_response_body realloc a.content_type start (
                  a.written (record {
                    code = code;
                    status = find_http_status code;
                    diagnostic = a.diagnostic;
                  }))
                >>= (λ q. some (wrote q)))
              (some (rc_error, start)) made
          ∙ ap
              (λ (o : Option HttpStatus).
                write_response_body realloc a.content_type start
                  (a.written (record { code = code; status = o; diagnostic = a.diagnostic }))
                >>= (λ q. some (wrote q)))
              same
          ∙ ap (λ (o : Run (ℤ × Response)). o >>= (λ q. some (wrote q))) runs,
      wrote_lem realloc start json r (unfold content in refl) refl w,
    )
