-- ===== src/Tests/Runtime.antt =====
-- The theorems on src/lws_runtime.c at small inputs, and runs of its functions.
use lambda_lws.Prelude.{
  ℕ, ◌+◌, ◌-◌, ◌*◌, ◌≡◌, refl, ap, ◌∙◌, true, false, ◌&&◌, if◌then◌else◌, if_on, if_off, none, some,
  List, [], ◌∷◌, ◌++◌, codes, ltb, leb, length, All, pos, Returns, arith,
}
use lambda_lws.Codec.Base64.{size_max}
use lambda_lws.Request.Prepare.{Request, path_match, with_match, prepare_request}
use lambda_lws.Runtime.Env.{
  is_unset, text_of, Parsed, getenv_size, same_option, enum_loop, getenv_enum,
}
use lambda_lws.Runtime.Env.Read.{IsDigit, decimal_from, IsStrtoul, sized, unit_of, getenv_size_lem}
use lambda_lws.Runtime.Loop.{Answers, iterate}
use lambda_lws.Runtime.Loop.Answer.{successes, streamed, iterate-streamed}
use lambda_lws.Runtime.Cleanup.{Context, cleanup}
use lambda_lws.Runtime.Cleanup.Reset.{IsUsable, IsClean, cleanup_lem}
use lambda_lws.Tests.Prepare.{library, request, cache}

-- The number at the start of a text, behind a number, and how many characters it takes.
unfoldable scan : List ℕ → ℕ → ℕ → ℕ × ℕ
scan [] n k = (n, k)
scan (c ∷ cs) n k =
    let rest = scan cs (n * 10 + (c - b'0')) (k + 1) in
    if leb b'0' c && leb c b'9' then rest else (n, k)

unfoldable strtoul : List ℕ → Parsed ℕ
strtoul s = let r = scan s 0 0 in record { number = r.0; taken = r.1; errno = ltb size_max r.0 }

scan_suffix : (s : List ℕ) (n k : ℕ) → All (λ c. ¬ IsDigit c) s → scan s n k ≡ (n, k)
unfolding scan
scan_suffix [] n k h = refl
scan_suffix (c ∷ cs) n k (p, ps) = if_off (leb b'0' c && leb c b'9') _ (n, k) (ground (arith, p))

scan_lem :
    (ds s : List ℕ) (n k : ℕ)
    → All IsDigit ds
    → All (λ c. ¬ IsDigit c) s
    → scan (ds ++ s) n k ≡ (decimal_from n ds, k + length ds)
unfolding scan decimal_from
scan_lem [] s n k h g = scan_suffix s n k g ∙ ap (λ (j : ℕ). (n, j)) (omega arith)
scan_lem (d ∷ ds) s n k (p, ps) g =
    if_on (leb b'0' d && leb d b'9') (scan (ds ++ s) (n * 10 + (d - b'0')) (k + 1)) (n, k)
      (ground (arith, p))
    ∙ scan_lem ds s (n * 10 + (d - b'0')) (k + 1) ps g
    ∙ ap (λ (j : ℕ). (decimal_from (n * 10 + (d - b'0')) ds, j)) (omega arith)

strtoul-IsStrtoul : IsStrtoul strtoul
unfolding strtoul
strtoul-IsStrtoul = record {
  takes = λ d ds s h g. ap (λ (q : ℕ × ℕ). q.1) (scan_lem (d ∷ ds) s 0 0 h g) ∙ omega arith;
  reads = λ d ds s h g small.
      let e = ap (λ (q : ℕ × ℕ). q.0) (scan_lem (d ∷ ds) s 0 0 h g) in
      (ap (λ (q : ℕ). ltb size_max q) e ∙ ground (arith, small), e);
  overflows = λ d ds s h g large.
      ap (λ (q : ℕ × ℕ). ltb size_max q.0) (scan_lem (d ∷ ds) s 0 0 h g) ∙ ground (arith, large);
}

-- "64k"
getenv_size_lem_example : getenv_size strtoul (some (codes "64k")) ≡ sized 64 (unit_of (codes "k"))
unfolding decimal_from
getenv_size_lem_example =
    getenv_size_lem strtoul b'6' (b'4' ∷ []) (codes "k") strtoul-IsStrtoul (omega arith)
      (omega arith)

size_64k : sized 64 (unit_of (codes "k")) ≡ some 65536
unfolding sized unit_of
size_64k = refl

-- lws_log_levels
abbrev levels : List (List ℕ)
levels =
    codes "EMERG"
    ∷ codes "ALERT"
    ∷ codes "CRIT"
    ∷ codes "ERR"
    ∷ codes "WARN"
    ∷ codes "NOTICE"
    ∷ codes "INFO"
    ∷ codes "DEBUG"
    ∷ []

enum_warn : getenv_enum (some (codes "WARN")) (levels ++ [] ∷ []) (codes "INFO") ≡ some 4
unfolding getenv_enum enum_loop same_option is_unset text_of
enum_warn = refl

-- A request whose response cannot be posted.
abbrev unposted : Answers
unposted = record {
  next = true;
  keep_running = true;
  request_id = true;
  handled = pos 0;
  streaming = false;
  resp_status = 200;
  error_response = true;
  post_response = false;
  post_error = true;
}

iterate-streamed_example :
    (iterate unposted).0 + successes (iterate unposted).1 + streamed unposted ≡ 1
iterate-streamed_example = iterate-streamed unposted

-- A path that does not match.
abbrev unmatched_request : Request
unmatched_request = record request { re_nsub = 1 }

refused_404 :
    prepare_request library unmatched_request cache
    ≡ some (
      pos 404,
      record { stat_cache = cache; req_main = none; req_path_info = none; body_open = false },
    )
unfolding prepare_request with_match path_match
refused_404 = refl

cache-IsUsable : IsUsable cache
cache-IsUsable = record {
  counted = record { slots = tt; counted = refl; in_range = omega arith };
  alloc = omega arith;
}

-- A context behind a request with a body of one byte, and without a response.
abbrev used : Context
used = record {
  headers = cache;
  request_id = true;
  content_length = pos 1;
  body = some (codes "x");
  body_len = 1;
  body_cap = 16;
  doc = true;
  req_method = some (codes "GET");
  req_path = some (codes "/");
  req_args = none;
  req_ip = none;
  req_main = some (codes "/t/a.lua");
  req_path_info = none;
  req_headers = cache;
  req_body_file = true;
  req_body = some (codes "x");
  resp_headers = cache;
  resp_body_file = true;
  resp_body = none;
  resp_body_pos = 0;
  resp_body_cap = 0;
  diagnostic = none;
  streaming_prelude = none;
  streaming_prelude_pos = 0;
  likely_utf8 = true;
  streaming = false;
  streaming_paused = false;
  streaming_eof = false;
  streaming_separator = 0;
}

cleanup_lem_example : Returns (cleanup used) IsClean
cleanup_lem_example = cleanup_lem used (record {
  headers = cache-IsUsable;
  req_headers = cache-IsUsable;
  resp_headers = cache-IsUsable;
  body_len = λ e. cc;
  body_cap = λ e. cc;
  resp_body_pos = λ e. refl;
  resp_body_cap = λ e. refl;
  streaming_prelude_pos = λ e. refl;
})
