-- ===== src/State/Chunks.antt =====
-- `lws_run` of src/lws_lib.c (lines 1134 to 1190) and the end of `lws_call` (lines 1107 to 1133): which
-- chunks a request runs. `oracle` is what the chunks do: how they end, and whether they call
-- setcomplete (which is an error outside of the pre chunk) and setclose.
pub mod Order
use lambda_lws.Prelude.{
  ℕ, zero, suc, ◌+◌, ◌-◌, ◌%◌, ◌^◌, ltb, Bool, true, false, not, ◌&&◌, ◌||◌, Option, none, some,
  List, [], ◌∷◌, ◌++◌, ltb_ℤ, if◌then◌else◌, ℤ, pos, negsuc, Run, ◌>>=◌,
}
use lambda_lws.State.{LuaCtx, Ended, returned, raised}

-- LWS_LC_INIT, LWS_LC_PRE, LWS_LC_MAIN and LWS_LC_POST
pub data Chunk : Type 0 where
  init_chunk : Chunk
  pre_chunk : Chunk
  main_chunk : Chunk
  post_chunk : Chunk

-- What a chunk leaves on the stack: nil, a value that lua_tointegerx converts to a lua_Integer, or another
-- value; or it ends by an error.
pub data Result : Type 0 where
  nil : Result
  integer : ℤ → Result
  other : Result
  failure : Result

-- A run of a chunk: its result, whether it called setcomplete and setclose, and the message of the
-- error if the call ends with one.
pub record ChunkRun : Type 0 where
  pub result : Result
  pub sets_complete : Bool
  pub sets_close : Bool
  pub message : List ℕ

abbrev pub Oracle : Type 0
Oracle = Chunk → ChunkRun

-- Whether the chunks are configured, by the lengths of their names.
pub record Config : Type 0 where
  pub has_init : Bool
  pub has_pre : Bool
  pub has_post : Bool

-- The state of a run: the context, `complete`, and the chunks that were called.
pub record Running : Type 0 where
  pub ctx : LuaCtx
  pub complete : Bool
  pub called : List Chunk

-- A call that goes on with a value, or ends by a Lua error with its message.
pub data Called : Type 0 where
  goes_on : ℤ → Running → Called
  breaks_off : List ℕ → Running → Called

-- The conversion of a lua_Integer to an `int`, which has 32 bits: modulo 2 ^ 32.
unfoldable pub to_int : ℤ → ℤ
to_int (pos n) = let m = n % 2 ^ 32 in if ltb m (2 ^ 31) then pos m else negsuc (2 ^ 32 - 1 - m)
to_int (negsuc n) = let m = n % 2 ^ 32 in if ltb m (2 ^ 31) then negsuc m else pos (2 ^ 32 - 1 - m)

-- The test `rc < 0` of lws_call.
unfoldable pub not_negative : ℤ → Option ℤ
not_negative (pos n) = some (pos n)
not_negative (negsuc n) = none

-- The result of a chunk as the `int` rc, and its test.
unfoldable pub check_result : Result → Option ℤ
check_result nil = some (pos 0)
check_result (integer i) = not_negative (to_int i)
check_result other = none
check_result failure = none

-- rc > 0 && chunk == LWS_LC_PRE, or setcomplete in that chunk
unfoldable pub completes : Chunk → Bool → ℤ → Bool
completes init_chunk set rc = false
completes pre_chunk set rc = set || ltb_ℤ (pos 0) rc
completes main_chunk set rc = false
completes post_chunk set rc = false

-- The end of lws_call, with the result that was checked.
unfoldable pub call_ended : Chunk → ChunkRun → Running → Option ℤ → Called
call_ended c run r none = breaks_off run.message r
call_ended c run r (some rc) =
    goes_on rc (record r { complete = r.complete || completes c run.sets_complete rc })

-- lws_call
unfoldable pub call_chunk : Oracle → Chunk → Running → Called
call_chunk oracle c r =
    let run : ChunkRun = oracle c in
    let s : LuaCtx = r.ctx in
    call_ended c run
      (record r {
        ctx = record s { state_close = s.state_close || run.sets_close };
        called = r.called ++ c ∷ [];
      })
      (check_result run.result)

infixl 5 ◌>>>◌
-- What follows a call that goes on.
abbrev pub ◌>>>◌ : Called → (ℤ → Running → Called) → Called
goes_on rc r >>> k = k rc r
breaks_off msg r >>> k = breaks_off msg r

-- A chunk that is called where it is configured; else the value is the one given.
unfoldable pub call_if : Oracle → Bool → Chunk → ℤ → Running → Called
call_if oracle configured c rc r = if configured then call_chunk oracle c r else goes_on rc r

-- "init"
unfoldable pub run_init : Oracle → Config → Running → Called
run_init oracle cfg r =
    if r.ctx.state_init
    then goes_on (pos 0) r
    else (call_if oracle cfg.has_init init_chunk (pos 0) r >>> λ rc q.
        let s : LuaCtx = q.ctx in goes_on rc (record q { ctx = record s { state_init = true } }))

-- "post chunk", which keeps the value
unfoldable pub run_post : Oracle → Config → ℤ → Running → Called
run_post oracle cfg rc r =
    if cfg.has_post then (call_chunk oracle post_chunk r >>> λ _ q. goes_on rc q) else goes_on rc r

-- "main chunk", unless the pre chunk has completed the request
unfoldable pub run_main : Oracle → Config → ℤ → Running → Called
run_main oracle cfg rc r =
    if r.complete
    then run_post oracle cfg rc r
    else (call_chunk oracle main_chunk r >>> run_post oracle cfg)

-- lws_run
unfoldable pub run_chunks : Oracle → Config → LuaCtx → Called
run_chunks oracle cfg s =
    run_init oracle cfg (record { ctx = s; complete = false; called = [] })
    >>> (λ _ r. call_if oracle cfg.has_pre pre_chunk (pos 0) r)
    >>> run_main oracle cfg
