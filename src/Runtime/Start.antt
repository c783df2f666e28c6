-- ===== src/Runtime/Start.antt =====
-- The start of `main` in src/lws_runtime.c (lines 148 to 295): the configuration, libcurl and the tables, by
-- the variables of the environment and the answers of what it calls.
pub mod Variables
pub mod Ready
use lambda_lws.Prelude.{
  ℕ, zero, suc, ◌==◌, Bool, true, false, ◌||◌, not, Option, none, some, List, [], ◌∷◌,
  if◌then◌else◌, length, codes, ℤ, pos,
}
use lambda_lws.Table.{Table}
use lambda_lws.Table.Methods.{create, set_dup, set_free, set_ci, set_cap}
use lambda_lws.Runtime.Env.{
  Parsed, text_of, getenv_str, getenv_int, getenv_size, getenv_flag, getenv_enum,
}

-- lws_log_levels, with the empty one at its end
unfoldable pub log_levels : List (List ℕ)
log_levels =
    codes "EMERG"
    ∷ codes "ALERT"
    ∷ codes "CRIT"
    ∷ codes "ERR"
    ∷ codes "WARN"
    ∷ codes "NOTICE"
    ∷ codes "INFO"
    ∷ codes "DEBUG"
    ∷ []
    ∷ []

-- The variables, by their names; whether the calls of libcurl and regcomp succeed; what strtol and strtoul
-- give; and whether lws_calloc grants the two blocks of each table.
pub record World : Type 0 where
  pub getenv : List ℕ → Option (List ℕ)
  pub global_init : Bool
  pub easy_init : Bool
  pub multi_init : Bool
  pub regcomp : List ℕ → Bool
  pub strtol : List ℕ → Parsed ℤ
  pub strtoul : List ℕ → Parsed ℕ
  pub stat_cache_granted : Bool
  pub headers_granted : Bool
  pub req_headers_granted : Bool
  pub resp_headers_granted : Bool

-- The fields of the context that the start sets.
pub record Config : Type 0 where
  pub runtime_api : List ℕ
  pub task_root : List ℕ
  pub main : List ℕ
  pub path_info : List ℕ
  pub init : List ℕ
  pub pre : List ℕ
  pub post : List ℕ
  pub raw : ℕ
  pub state_gc : ℕ
  pub state_req_max : ℤ
  pub state_diagnostic : ℕ
  pub log_level : ℕ
  pub log_text : ℕ
  pub stat_cache : Table
  pub headers : Table
  pub req_headers : Table
  pub resp_headers : Table

-- The loop is entered; or the start fails, with what is told by lws_post_error.
pub data Start : Type 0 where
  ready : Config → Start
  silent : Start
  told : List ℕ → Start

-- A check that ends the start if it fails.
unfoldable pub check : Bool → Start → Start → Start
check ok failure rest = if ok then rest else failure

-- Whether there is a value, and the value.
unfoldable pub is_some {ℓ} : {A : Type ℓ} → Option A → Bool
is_some none = false
is_some (some a) = true

unfoldable pub value_or {ℓ} : {A : Type ℓ} → A → Option A → A
value_or d none = d
value_or d (some a) = a

-- A string of the environment; the null string has no bytes.
unfoldable pub str_of : World → List ℕ → List ℕ
str_of w name = value_or [] (getenv_str (w.getenv name))

-- LWS_STAT_CACHE_CAP
abbrev pub stat_cache_cap : ℕ
stat_cache_cap = 1024

-- The stat cache: lws_table_set_dup and lws_table_set_cap
unfoldable pub cache_of : Table → Table
cache_of t = (set_cap (set_dup t true).1 stat_cache_cap).1

-- A table of headers: lws_table_set_dup, where the keys are copied, lws_table_set_free, lws_table_set_ci
unfoldable pub headers_of : Bool → Table → Table
headers_of copied t = (set_ci (set_free (if copied then (set_dup t true).1 else t) true).1 true).1

-- The initialization of the tables, and the loop.
unfoldable pub start_tables :
    World → Option Table → Option Table → Option Table → Option Table → Start
start_tables w none h q p = told (codes "failed to create stat cache")
start_tables w (some c) none q p = told (codes "failed to create headers table")
start_tables w (some c) (some h) none p = told (codes "failed to create request headers table")
start_tables w (some c) (some h) (some q) none =
    told (codes "failed to create response headers table")
start_tables w (some c) (some h) (some q) (some p) = ready (record {
  runtime_api = str_of w (codes "AWS_LAMBDA_RUNTIME_API");
  task_root = str_of w (codes "LAMBDA_TASK_ROOT");
  main = str_of w (codes "LWS_MAIN");
  path_info = str_of w (codes "LWS_PATH_INFO");
  init = str_of w (codes "LWS_INIT");
  pre = str_of w (codes "LWS_PRE");
  post = str_of w (codes "LWS_POST");
  raw = value_or 0 (getenv_flag (w.getenv (codes "LWS_RAW")));
  state_gc = value_or 0 (getenv_size w.strtoul (w.getenv (codes "LWS_GC")));
  state_req_max = value_or (pos 0) (getenv_int w.strtol (w.getenv (codes "LWS_REQ_MAX")));
  state_diagnostic = value_or 0 (getenv_flag (w.getenv (codes "LWS_DIAGNOSTIC")));
  log_level = value_or 0 (getenv_enum (w.getenv (codes "LWS_LOG_LEVEL")) log_levels (codes "INFO"));
  log_text = value_or 0 (getenv_flag (w.getenv (codes "LWS_LOG_TEXT")));
  stat_cache = cache_of c;
  headers = headers_of true h;
  req_headers = headers_of false q;
  resp_headers = headers_of true p;
})

-- The check of LWS_MATCH.
unfoldable pub compiles : World → List ℕ → Bool
compiles w match' = (length match' == 0) || w.regcomp match'

-- "get LWS configuration" and what follows
unfoldable pub configure : World → Start
configure w =
    check (compiles w (str_of w (codes "LWS_MATCH")))
      (told (codes "failed to compile LWS_MATCH regex"))
      (check (not (length (str_of w (codes "LWS_MAIN")) == 0)) (told (codes "LWS_MAIN not set")) (
        check (is_some (getenv_flag (w.getenv (codes "LWS_RAW"))))
          (told (codes "bad LWS_RAW value"))
          (check (is_some (getenv_size w.strtoul (w.getenv (codes "LWS_GC"))))
            (told (codes "bad LWS_GC value"))
            (check (is_some (getenv_int w.strtol (w.getenv (codes "LWS_REQ_MAX"))))
              (told (codes "bad LWS_REQ_MAX value"))
              (check (is_some (getenv_flag (w.getenv (codes "LWS_DIAGNOSTIC"))))
                (told (codes "bad LWS_DIAGNOSTIC value"))
                (check
                  (is_some
                    (getenv_enum (w.getenv (codes "LWS_LOG_LEVEL")) log_levels (codes "INFO")))
                  (told (codes "bad LWS_LOG_LEVEL value"))
                  (check (is_some (getenv_flag (w.getenv (codes "LWS_LOG_TEXT"))))
                    (told (codes "bad LWS_LOG_TEXT value"))
                    (start_tables w (create w.stat_cache_granted w.stat_cache_granted 32)
                      (create w.headers_granted w.headers_granted 32)
                      (create w.req_headers_granted w.req_headers_granted 32)
                      (create w.resp_headers_granted w.resp_headers_granted 32)))))))))

-- The start of main
unfoldable pub start : World → Start
start w = check (not (length (str_of w (codes "AWS_LAMBDA_RUNTIME_API")) == 0)) silent (
    check (not (length (str_of w (codes "LAMBDA_TASK_ROOT")) == 0)) silent (
      check w.global_init silent
        (check w.easy_init silent (check w.multi_init silent (configure w)))))
