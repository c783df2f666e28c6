-- ===== src/Tests/Start.antt =====
-- The start of `main` (src/lws_runtime.c) in a small environment.
use lambda_lws.Prelude.{
  ℕ, ◌≡◌, refl, true, false, Bool, Option, none, some, List, [], codes, if◌then◌else◌, eqb_list,
  pos,
}
use lambda_lws.Runtime.Env.{
  is_unset, text_of, getenv_str, getenv_int, getenv_size, getenv_flag, flag_of, getenv_enum,
  enum_loop, same_option,
}
use lambda_lws.Table.Size.{table_sizes, size_at, smaller, table_size, slots_for}
use lambda_lws.Search.{before, search_loop}
use lambda_lws.Table.Methods.{create, create_sized}
use lambda_lws.Runtime.Start.{
  log_levels, World, Start, ready, silent, told, check, is_some, value_or, str_of, start_tables,
  compiles, configure, start,
}

-- The address of the runtime API, the task root, and a value for LWS_MAIN.
variables : Option (List ℕ) → List ℕ → Option (List ℕ)
variables main name =
    if eqb_list name (codes "AWS_LAMBDA_RUNTIME_API")
    then some (codes "api")
    else if eqb_list name (codes "LAMBDA_TASK_ROOT")
    then some (codes "/t")
    else if eqb_list name (codes "LWS_MAIN")
    then main
    else none

abbrev world : Option (List ℕ) → World
world main = record {
  getenv = variables main;
  global_init = true;
  easy_init = true;
  multi_init = true;
  regcomp = λ text. true;
  strtol = λ text. record { number = pos 0; taken = 0; errno = true };
  strtoul = λ text. record { number = 0; taken = 0; errno = true };
  stat_cache_granted = true;
  headers_granted = true;
  req_headers_granted = true;
  resp_headers_granted = true;
}

is_ready : Start → Bool
is_ready (ready c) = true
is_ready silent = false
is_ready (told message) = false

program : List ℕ
unfolding variables is_ready start configure check compiles str_of value_or is_some start_tables
    getenv_str getenv_int getenv_size getenv_flag flag_of getenv_enum enum_loop same_option is_unset
    text_of log_levels create create_sized table_size slots_for table_sizes size_at smaller before
    search_loop
program = []

starts : is_ready (start (world (some (codes "a.lua")))) ≡ true
unfolding program
starts = refl

no_main : start (world none) ≡ told (codes "LWS_MAIN not set")
unfolding program
no_main = refl
