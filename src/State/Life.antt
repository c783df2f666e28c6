-- ===== src/State/Life.antt =====
-- The life of the Lua state over a request, as `lws_handle_request` of src/lws_request.c strings it
-- together: acquired, run, and released.
pub mod Idle
pub mod Release
pub mod Reach
use lambda_lws.Prelude.{
  ℕ, zero, suc, ◌+◌, ◌*◌, ◌≤◌, Bool, true, false, ◌&&◌, ◌||◌, Option, none, some, List, ltb, leb,
  if◌then◌else◌, ℤ, pos, negsuc, rc_ok, rc_error, Run, ◌>>=◌,
}
use lambda_lws.State.{
  LuaCtx, NewState, Memory, Ended, returned, raised, acquire_state, run_ended, release_state,
}
use lambda_lws.State.Chunks.{Oracle, Config, Running, Called, goes_on, breaks_off, run_chunks}

-- What the world answers in a request: lua_newstate, the chunks, lws_alloc for the diagnostic, and lua_gc.
pub record World : Type 0 where
  pub new_state : NewState
  pub oracle : Oracle
  pub granted : Bool
  pub memory : Memory

-- lua_pcall of lws_run, and what lws_run_state makes of its end.
unfoldable pub pcall_ended : Bool → Called → ℤ × LuaCtx
pcall_ended granted (goes_on rc r) = run_ended granted (returned rc) r.ctx
pcall_ended granted (breaks_off msg r) = run_ended granted (raised msg) r.ctx

-- lws_run_state: the call needs a Lua state.
unfoldable pub run_state : World → Config → LuaCtx → Run (ℤ × LuaCtx)
run_state w cfg s = if s.lua then some (pcall_ended w.granted (run_chunks w.oracle cfg s)) else none

-- lws_run_state and lws_release_state
unfoldable pub run_released : World → Config → LuaCtx → Run (ℤ × LuaCtx)
run_released w cfg s =
    run_state w cfg s >>= λ (rc, t). release_state w.memory t >>= λ (collected, u). some (rc, u)

-- The state's part of lws_handle_request: `acquired` is the result of lws_acquire_state.
unfoldable pub serve_acquired : World → Config → ℤ × LuaCtx → Run (ℤ × LuaCtx)
serve_acquired w cfg (pos zero, s) = run_released w cfg s
serve_acquired w cfg (rc, s) = some (rc, s)

unfoldable pub serve : World → Config → LuaCtx → Run (ℤ × LuaCtx)
serve w cfg s = serve_acquired w cfg (acquire_state w.new_state s)
