-- ===== src/Request/Handle.antt =====
-- `lws_handle_request` of src/lws_request.c (lines 282 to 304) with `lws_prepare_response` (lines 254 to
-- 270) and `lws_finalize_response` (lines 272 to 280): the answers of the C library and of Lua, and of
-- `lws_stream_response` at the end, are parameters.
pub mod Code
use lambda_lws.Prelude.{
  ℕ, zero, suc, Bool, true, false, Option, none, some, if◌then◌else◌, ltb_ℤ, ℤ, pos, negsuc, rc_ok,
  rc_error, Run, ◌>>=◌,
}
use lambda_lws.Table.{Table}
use lambda_lws.State.{LuaCtx, acquire_state}
use lambda_lws.State.Chunks.{Config}
use lambda_lws.State.Life.{World, run_released}
use lambda_lws.Request.Prepare.{Request, Library, Prepared, prepare_request}

-- What the C library answers for the response: fopencookie and setvbuf; whether the chunks of the run
-- have begun to stream the response; and whether lws_stream_response succeeds at the end.
pub record Response : Type 0 where
  pub opens_body : Bool
  pub unbuffered : Bool
  pub streaming : Bool
  pub finishes : Bool

-- The part of the context that the functions set.
pub record Handled : Type 0 where
  pub lua_ctx : LuaCtx
  pub stat_cache : Table
  pub resp_status : ℕ
  pub streaming_eof : Bool

-- lws_prepare_response
unfoldable pub prepare_response : Response → Handled → ℤ × Handled
prepare_response a h =
    if a.opens_body
    then (if a.unbuffered then rc_ok else rc_error, record h { resp_status = 200 })
    else (rc_error, record h { resp_status = 200 })

-- lws_finalize_response
unfoldable pub finalize_response : Response → Handled → ℤ × Handled
finalize_response a h =
    if a.streaming
    then (if a.finishes then rc_ok else rc_error, record h { streaming_eof = true })
    else (rc_ok, h)

-- rc < 0, which stands for a Lua error
unfoldable pub run_code : ℤ → ℤ
run_code (pos n) = pos n
run_code (negsuc n) = pos 500

-- rc_finalize != 0
unfoldable pub finalized : ℤ → ℤ × Handled → ℤ × Handled
finalized rc (pos zero, h) = (rc, h)
finalized rc (pos (suc n), h) = (pos (suc n), h)
finalized rc (negsuc n, h) = (negsuc n, h)

-- Behind the run and the release of the Lua state, with their result.
unfoldable pub handle_released : Response → Handled → ℤ × LuaCtx → ℤ × Handled
handle_released a h (rc, u) =
    finalized (run_code rc) (finalize_response a (record h { lua_ctx = u }))

-- Behind lws_acquire_state.
unfoldable pub handle_acquired :
    Response → World → Config → Handled → ℤ × LuaCtx → Run (ℤ × Handled)
handle_acquired a w cfg h (pos zero, s) = run_released w cfg s >>= λ q. some (handle_released a h q)
handle_acquired a w cfg h (pos (suc n), s) = some (pos (suc n), record h { lua_ctx = s })
handle_acquired a w cfg h (negsuc n, s) = some (negsuc n, record h { lua_ctx = s })

-- Behind lws_prepare_request.
unfoldable pub handle_prepared :
    Response → World → Config → Handled → ℤ × Prepared → Run (ℤ × Handled)
handle_prepared a w cfg h (pos zero, q) =
    handle_acquired a w cfg (record h { stat_cache = q.stat_cache })
      (acquire_state w.new_state h.lua_ctx)
handle_prepared a w cfg h (pos (suc n), q) =
    some (pos (suc n), record h { stat_cache = q.stat_cache })
handle_prepared a w cfg h (negsuc n, q) = some (negsuc n, record h { stat_cache = q.stat_cache })

-- Behind lws_prepare_response.
unfoldable pub handle_response :
    Library → Request → Response → World → Config → ℤ × Handled → Run (ℤ × Handled)
handle_response l r a w cfg (pos zero, h) =
    prepare_request l r h.stat_cache >>= handle_prepared a w cfg h
handle_response l r a w cfg (pos (suc n), h) = some (pos (suc n), h)
handle_response l r a w cfg (negsuc n, h) = some (negsuc n, h)

-- lws_handle_request
unfoldable pub handle_request :
    Library → Request → Response → World → Config → Handled → Run (ℤ × Handled)
handle_request l r a w cfg h = handle_response l r a w cfg (prepare_response a h)
