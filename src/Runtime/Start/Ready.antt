-- ===== src/Runtime/Start/Ready.antt =====
-- What the start of `main` (src/lws_runtime.c, lines 148 to 295) has done where it ends, and where the loop
-- is entered.
use lambda_lws.Prelude.{ℕ, ◌≤◌, ◌<◌, ◌≡◌, ◌⊎◌, true, Option, none, some, ◌==◌, not, length, codes}
use lambda_lws.Table.{Table}
use lambda_lws.Table.Methods.{empty_table}
use lambda_lws.Table.Refine.Map.{Represents}
use lambda_lws.Runtime.Env.{getenv_int, getenv_size, getenv_flag, getenv_enum}
use lambda_lws.Runtime.Start.Variables.{IsEnvText, IsFlag}
use lambda_lws.Runtime.Start.{
  log_levels, World, Config, Start, ready, silent, told, is_some, str_of, stat_cache_cap, compiles,
}

-- The runtime API is known, and libcurl is set up.
pub record IsUp (w : World) : Type 0 where
  pub api : 0 < length (str_of w (codes "AWS_LAMBDA_RUNTIME_API"))
  pub root : 0 < length (str_of w (codes "LAMBDA_TASK_ROOT"))
  pub global_init : w.global_init ≡ true
  pub easy_init : w.easy_init ≡ true
  pub multi_init : w.multi_init ≡ true

-- The variables are what they have to be, and the configuration holds their values.
pub record IsConfigured (w : World) (c : Config) : Type 0 where
  pub matches : compiles w (str_of w (codes "LWS_MATCH")) ≡ true
  pub main_set : 0 < length c.main
  pub runtime_api : IsEnvText (w.getenv (codes "AWS_LAMBDA_RUNTIME_API")) c.runtime_api
  pub task_root : IsEnvText (w.getenv (codes "LAMBDA_TASK_ROOT")) c.task_root
  pub main : IsEnvText (w.getenv (codes "LWS_MAIN")) c.main
  pub path_info : IsEnvText (w.getenv (codes "LWS_PATH_INFO")) c.path_info
  pub init : IsEnvText (w.getenv (codes "LWS_INIT")) c.init
  pub pre : IsEnvText (w.getenv (codes "LWS_PRE")) c.pre
  pub post : IsEnvText (w.getenv (codes "LWS_POST")) c.post
  pub raw : IsFlag (w.getenv (codes "LWS_RAW")) c.raw
  pub state_gc : getenv_size w.strtoul (w.getenv (codes "LWS_GC")) ≡ some c.state_gc
  pub state_req_max : getenv_int w.strtol (w.getenv (codes "LWS_REQ_MAX")) ≡ some c.state_req_max
  pub state_diagnostic : IsFlag (w.getenv (codes "LWS_DIAGNOSTIC")) c.state_diagnostic
  pub log_level :
      getenv_enum (w.getenv (codes "LWS_LOG_LEVEL")) log_levels (codes "INFO") ≡ some c.log_level
  pub log_text : IsFlag (w.getenv (codes "LWS_LOG_TEXT")) c.log_text

-- A table of headers is the empty map from names in any case to values that it owns, with room for 32.
pub record IsHeaders (widen : ℕ → ℕ) (t : Table) : Type 0 where
  pub empty : Represents widen t (λ _. 0)
  pub any_case : t.ci ≡ true
  pub owned : t.free ≡ true
  pub room : 32 ≤ t.load

pub record HasTables (widen : ℕ → ℕ) (c : Config) : Type 0 where
  pub headers : IsHeaders widen c.headers
  pub req_headers : IsHeaders widen c.req_headers
  pub resp_headers : IsHeaders widen c.resp_headers
  pub cache_copies : c.stat_cache.dup ≡ true
  pub cache_capped : c.stat_cache.capped ≡ true
  pub cache_cap : c.stat_cache.cap ≡ stat_cache_cap

-- The end of the start, by what it is.
unfoldable pub Outcome : (ℕ → ℕ) → World → Start → Type 0
Outcome widen w silent = IsUp w → ⊥
Outcome widen w (told message) = IsUp w
Outcome widen w (ready c) = IsUp w × IsConfigured w c × HasTables widen c

-- The checks of the configuration that have passed.
record Checked (w : World) : Type 0 where
  matches : compiles w (str_of w (codes "LWS_MATCH")) ≡ true
  main_set : not (length (str_of w (codes "LWS_MAIN")) == 0) ≡ true
  raw : is_some (getenv_flag (w.getenv (codes "LWS_RAW"))) ≡ true
  gc : is_some (getenv_size w.strtoul (w.getenv (codes "LWS_GC"))) ≡ true
  req_max : is_some (getenv_int w.strtol (w.getenv (codes "LWS_REQ_MAX"))) ≡ true
  diagnostic : is_some (getenv_flag (w.getenv (codes "LWS_DIAGNOSTIC"))) ≡ true
  level : is_some (getenv_enum (w.getenv (codes "LWS_LOG_LEVEL")) log_levels (codes "INFO")) ≡ true
  log_text : is_some (getenv_flag (w.getenv (codes "LWS_LOG_TEXT"))) ≡ true

-- A table is created, or it is not.
abbrev IsCreated : Option Table → Type 0
IsCreated o = (o ≡ none) ⊎ (o ≡ some (empty_table 41))
