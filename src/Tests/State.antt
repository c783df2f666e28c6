-- ===== src/Tests/State.antt =====
-- The theorems on src/lws_state.c and `lws_run` at small requests, and runs of their functions.
use lambda_lws.Prelude.{
  ℕ, ◌^◌, ◌≡◌, refl, ap, ◌∙◌, Bool, true, false, none, some, codes, ℤ, pos, rc_error,
}
use lambda_lws.State.{
  LuaCtx, close_state, create_state, acquire_state, is_over, release_state, run_ended,
}
use lambda_lws.State.Chunks.{
  Chunk, init_chunk, pre_chunk, main_chunk, post_chunk, Result, nil, integer, failure, ChunkRun,
  Oracle, Config, to_int, not_negative, check_result, completes, call_ended, call_chunk, call_if,
  run_init, run_post, run_main, run_chunks,
}
use lambda_lws.State.Chunks.Order.{IsFailing, negative, no_integer, error, IsAnswer, Ordered}
use lambda_lws.State.Chunks.Order.Run.{run_chunks_lem}
use lambda_lws.State.Life.{World, pcall_ended, run_state, run_released, serve_acquired, serve}
use lambda_lws.State.Life.Release.{IsIdle}
use lambda_lws.State.Life.Idle.{Served, serve_lem}
use lambda_lws.State.Life.Reach.{starts, next, Reachable-serve}

-- Before the first request, with two requests for a Lua state.
abbrev pub first_ctx : LuaCtx
first_ctx = record {
  lua = false;
  req_count = 0;
  state_req_max = pos 2;
  state_gc = 0;
  state_init = false;
  state_close = false;
  state_diagnostic = true;
  diagnostic = none;
}

abbrev gives : Result → ChunkRun
gives x = record { result = x; sets_complete = false; sets_close = false; message = codes "bad" }

-- The pre chunk gives 302, which completes the request.
abbrev redirects : Oracle
redirects init_chunk = gives nil
redirects pre_chunk = gives (integer (pos 302))
redirects main_chunk = gives nil
redirects post_chunk = gives nil

-- The main chunk fails.
abbrev pub fails : Oracle
fails init_chunk = gives nil
fails pre_chunk = gives nil
fails main_chunk = gives failure
fails post_chunk = gives nil

abbrev pub every_chunk : Config
every_chunk = record { has_init = true; has_pre = true; has_post = true }

abbrev pub world : Oracle → World
world oracle = record {
  new_state = record { granted = true; initialized = true };
  oracle = oracle;
  granted = true;
  memory = record { kilobytes = 1; bytes = 0 };
}

run_chunks_lem_example :
    Ordered redirects every_chunk first_ctx (run_chunks redirects every_chunk first_ctx)
run_chunks_lem_example = run_chunks_lem redirects every_chunk first_ctx

pub first_ctx-IsIdle : IsIdle first_ctx
first_ctx-IsIdle = record {
  open_lem = refl;
  fresh_count = λ _. refl;
  fresh_init = λ _. refl;
  below_max = λ _. refl;
}

serve_lem_example :
    (rc : ℤ) × ((u : LuaCtx) × (serve (world fails) every_chunk first_ctx ≡ some (rc, u))
      × Served (world fails) every_chunk first_ctx rc u)
serve_lem_example = serve_lem (world fails) every_chunk first_ctx first_ctx-IsIdle

-- What a request with a main chunk that fails leaves.
abbrev failed_ctx : LuaCtx
failed_ctx = record first_ctx { diagnostic = some (codes "bad") }

serve-fails : serve (world fails) every_chunk first_ctx ≡ some (rc_error, failed_ctx)
unfolding serve serve_acquired acquire_state create_state run_released run_state pcall_ended
    run_chunks run_init run_main call_if call_chunk call_ended check_result not_negative to_int
    completes run_ended release_state is_over close_state
serve-fails = refl

-- The request behind it gives 302, in a new state that has served one request.
serve-redirects :
    serve (world redirects) every_chunk failed_ctx
    ≡ some (pos 302, record failed_ctx { lua = true; req_count = 1; state_init = true })
unfolding serve serve_acquired acquire_state create_state run_released run_state pcall_ended
    run_chunks run_init run_main run_post call_if call_chunk call_ended check_result not_negative
    to_int completes run_ended release_state is_over close_state
serve-redirects = refl

failing_none : (r : Result) → IsFailing r → check_result r ≡ none
unfolding check_result not_negative
failing_none r (negative i n e p) = ap check_result e ∙ ap not_negative p
failing_none r (no_integer e) = ap check_result e
failing_none r (error e) = ap check_result e

passes : (c : Chunk) → ¬ IsFailing (redirects c).result
unfolding check_result not_negative to_int
passes init_chunk = λ p. let e = failing_none nil p in cc
passes pre_chunk = λ p. let e = failing_none (integer (pos 302)) p in cc
passes main_chunk = λ p. let e = failing_none nil p in cc
passes post_chunk = λ p. let e = failing_none nil p in cc

-- An integer that an int does not hold: 2 ^ 32 passes as 0, and 2 ^ 31 is negative.
wraps : check_result (integer (pos (2 ^ 32))) ≡ some (pos 0)
unfolding check_result not_negative to_int
wraps = refl

turns_negative : check_result (integer (pos (2 ^ 31))) ≡ none
unfolding check_result not_negative to_int
turns_negative = refl

Reachable-serve_example :
    (n : ℕ) × ((u : LuaCtx) × (serve (world redirects) every_chunk failed_ctx ≡ some (pos n, u))
      × IsIdle u
      × ((b : Bool) × IsAnswer redirects every_chunk b n))
Reachable-serve_example =
    Reachable-serve every_chunk failed_ctx (world redirects)
      (next (world fails) first_ctx rc_error failed_ctx (starts first_ctx refl refl refl refl)
        serve-fails)
      refl passes
