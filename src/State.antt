-- ===== src/State.antt =====
-- src/lws_state.c, lines 64 to 169, and `lws_run` of src/lws_lib.c: the life of the Lua state. The state
-- is the fields of `lws_ctx_t` that it uses; `lua` is whether `L` is not NULL, and a run is `none` where
-- Lua is called without a state. What the Lua API and the chunks do are parameters.
pub mod Chunks
pub mod Life
use lambda_lws.Prelude.{
  ℕ, zero, suc, ◌+◌, ◌*◌, ◌≤◌, ◌<◌, Bool, true, false, ◌&&◌, ◌||◌, Option, none, some, List, ltb,
  leb, ltb_ℤ, if◌then◌else◌, ℤ, pos, negsuc, rc_ok, rc_error, Run, ◌>>=◌,
}

pub record LuaCtx : Type 0 where
  pub lua : Bool
  pub req_count : ℕ
  pub state_req_max : ℤ
  pub state_gc : ℕ
  pub state_init : Bool
  pub state_close : Bool
  pub state_diagnostic : Bool
  pub diagnostic : Option (List ℕ)

-- lws_close_state
unfoldable pub close_state : LuaCtx → Run LuaCtx
close_state s =
    if s.lua
    then some (record s { lua = false; req_count = 0; state_init = false; state_close = false })
    else none

-- What `lua_newstate` and the initialization by `lua_pcall` answer.
pub record NewState : Type 0 where
  pub granted : Bool
  pub initialized : Bool

-- lws_create_state
unfoldable pub create_state : NewState → LuaCtx → ℤ × LuaCtx
create_state n s =
    if n.granted
    then (if n.initialized
        then (rc_ok, record s { lua = true })
        else (rc_error, record s { lua = false }))
    else (rc_error, record s { lua = false })

-- lws_acquire_state
unfoldable pub acquire_state : NewState → LuaCtx → ℤ × LuaCtx
acquire_state n s = if s.lua then (rc_ok, s) else create_state n s

-- What `lua_gc` says of the memory in use: LUA_GCCOUNT and LUA_GCCOUNTB.
pub record Memory : Type 0 where
  pub kilobytes : ℕ
  pub bytes : ℕ

-- memory_used
abbrev pub memory_used : Memory → ℕ
memory_used m = m.kilobytes * 1024 + m.bytes

-- Whether the state is to be closed.
unfoldable pub is_over : LuaCtx → Bool
is_over s =
    s.state_close
    || (ltb_ℤ (pos 0) s.state_req_max
        && (if ltb_ℤ (pos s.req_count) s.state_req_max then false else true))

-- lws_release_state, with whether it collected the garbage.
unfoldable pub release_state : Memory → LuaCtx → Run (Bool × LuaCtx)
release_state m s =
    let t : LuaCtx = record s { req_count = s.req_count + 1 } in
    if is_over t
    then close_state t >>= (λ u. some (false, u))
    else if ltb 0 t.state_gc
    then (if t.lua then some (leb t.state_gc (memory_used m), t) else none)
    else some (false, t)

-- How `lua_pcall` of `lws_run` ends: with an integer, or with an error message.
pub data Ended : Type 0 where
  returned : ℤ → Ended
  raised : List ℕ → Ended

-- lws_run_state behind the call, with what `lws_alloc` grants, and the state that the chunks left.
unfoldable pub run_ended : Bool → Ended → LuaCtx → ℤ × LuaCtx
run_ended granted (returned rc) s = (rc, s)
run_ended granted (raised msg) s = (
  rc_error,
  record s {
    state_close = true;
    diagnostic = (if s.state_diagnostic && granted then some msg else s.diagnostic);
  },
)
