-- ===== src/State/Life/Reach.antt =====
-- The Lua states that a series of requests leaves, each served as in `lws_handle_request` of
-- src/lws_request.c.
use lambda_lws.Prelude.{
  ℕ, Bool, ◌≡◌, sym, ap, ◌∙◌, subst, inl, inr, true, false, ◌&&◌, none, some, ltb_ℤ, ℤ, pos, Run,
}
use lambda_lws.State.{LuaCtx}
use lambda_lws.State.Chunks.{Chunk, Config}
use lambda_lws.State.Chunks.Order.{IsFailing, IsAnswer}
use lambda_lws.State.Life.{World, serve}
use lambda_lws.State.Life.Idle.{serve_lem}
use lambda_lws.State.Life.Release.{IsIdle}

-- A state that a series of requests leaves.
pub data Reachable (cfg : Config) : LuaCtx → Type 0 where
  starts :
      (s : LuaCtx)
      → s.lua ≡ false
      → s.req_count ≡ 0
      → s.state_init ≡ false
      → s.state_close ≡ false
      → Reachable cfg s
  next :
      (w : World) (s : LuaCtx) (rc : ℤ) (u : LuaCtx)
      → Reachable cfg s
      → serve w cfg s ≡ some (rc, u)
      → Reachable cfg u

-- The state in a pair that a run ends in.
state_of : LuaCtx → Run (ℤ × LuaCtx) → LuaCtx
state_of s none = s
state_of s (some (rc, u)) = u

pub Reachable-IsIdle : {cfg : Config} (s : LuaCtx) → Reachable cfg s → IsIdle s
unfolding state_of
Reachable-IsIdle _ (starts s off zero_count no_init no_close) = record {
  open_lem = no_close;
  fresh_count = λ _. zero_count;
  fresh_init = λ _. no_init;
  below_max = λ p. subst (λ (k : ℕ). ltb_ℤ (pos k) s.state_req_max ≡ true) (sym zero_count) p;
}
Reachable-IsIdle {cfg} _ (next w s rc u h p) =
    let (rc', (v, q, served)) = serve_lem w cfg s (Reachable-IsIdle s h) in
    subst IsIdle (ap (state_of s) (sym q ∙ p)) served.idle

-- After any series of requests from the start, whatever their chunks did, a request ends with the value of
-- the pre chunk if it has completed the request and of the main chunk if not, which is not negative, if
-- none of its chunks fails (by an error, a result that is no integer, or one that is negative as an int)
-- and a Lua state can be made where there is none; and it leaves an idle state.
pub Reachable-serve :
    (cfg : Config) (s : LuaCtx) (w : World)
    → Reachable cfg s
    → (w.new_state.granted && w.new_state.initialized) ≡ true
    → ((c : Chunk) → ¬ IsFailing (w.oracle c).result)
    → (n : ℕ) × ((u : LuaCtx) × (serve w cfg s ≡ some (pos n, u))
        × IsIdle u
        × ((b : Bool) × IsAnswer w.oracle cfg b n))
Reachable-serve cfg s w h made passes =
    let (rc, (u, p, served)) = serve_lem w cfg s (Reachable-IsIdle s h) in
    elim served.verdict [
      | inl (n, e, answer) ↦ (n, (u, p ∙ ap (λ (k : ℤ). some (k, u)) e, served.idle, answer))
      | inr (e, off, inl (c, bad)) ↦ absurd (passes c bad)
      | inr (e, off, inr bad) ↦ cc
    ]
