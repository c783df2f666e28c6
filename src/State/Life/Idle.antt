-- ===== src/State/Life/Idle.antt =====
-- What holds of the Lua state between requests (src/lws_state.c and the calls of its functions in
-- `lws_handle_request` of src/lws_request.c).
use lambda_lws.Prelude.{
  ℕ, ◌≡◌, refl, ap, ◌∙◌, ◌⊎◌, inl, inr, Bool, true, false, Bool-cases, ◌&&◌, none, some, if_on,
  if_off, ℤ, pos, rc_ok, rc_error, ◌>>=◌,
}
use lambda_lws.State.{LuaCtx, NewState, create_state, acquire_state, run_ended}
use lambda_lws.State.Chunks.{Chunk, Oracle, Config, Called, goes_on, breaks_off, run_chunks}
use lambda_lws.State.Chunks.Order.{IsFailing, IsAnswer, Ordered}
use lambda_lws.State.Chunks.Order.Run.{run_chunks_lem}
use lambda_lws.State.Life.{World, pcall_ended, run_state, run_released, serve_acquired, serve}
use lambda_lws.State.Life.Release.{IsIdle, release_state_lem}

-- How a run ends: by the value of the pre or the main chunk, or by -1 and with the state marked for close, because
-- of a chunk that fails.
pub record Ran (oracle : Oracle) (cfg : Config) (s : LuaCtx) (rc : ℤ) (t : LuaCtx) : Type 0 where
  pub lua : t.lua ≡ s.lua
  pub req_count : t.req_count ≡ s.req_count
  pub state_req_max : t.state_req_max ≡ s.state_req_max
  pub verdict :
      ((n : ℕ) × (rc ≡ pos n) × ((b : Bool) × IsAnswer oracle cfg b n))
      ⊎ ((rc ≡ rc_error) × (t.state_close ≡ true) × ((c : Chunk) × IsFailing (oracle c).result))

called_lem :
    (granted : Bool) (oracle : Oracle) (cfg : Config) (s : LuaCtx) (c : Called)
    → Ordered oracle cfg s c
    → (rc : ℤ) × ((t : LuaCtx) × (pcall_ended granted c ≡ (rc, t)) × Ran oracle cfg s rc t)
unfolding pcall_ended run_ended Ordered
called_lem granted oracle cfg s (goes_on rc r) (k, (n, p, answer), _, _, _, _) = (
  rc,
  (
    r.ctx,
    refl,
    record {
      lua = k.lua;
      req_count = k.req_count;
      state_req_max = k.state_req_max;
      verdict = inl (n, p, (r.complete, answer));
    },
  ),
)
called_lem granted oracle cfg s (breaks_off msg r) (k, (c, (before, called, bad, p))) = (
  rc_error,
  (
    _,
    refl,
    record {
      lua = k.lua;
      req_count = k.req_count;
      state_req_max = k.state_req_max;
      verdict = inr (refl, refl, (c, bad));
    },
  ),
)

pub run_state_lem :
    (w : World) (cfg : Config) (s : LuaCtx)
    → s.lua ≡ true
    → (rc : ℤ) × ((t : LuaCtx) × (run_state w cfg s ≡ some (rc, t)) × Ran w.oracle cfg s rc t)
unfolding run_state
run_state_lem w cfg s e =
    let (rc, (t, p, ran)) =
      called_lem w.granted w.oracle cfg s (run_chunks w.oracle cfg s)
        (run_chunks_lem w.oracle cfg s) in
    (
      rc,
      (
        t,
        if_on s.lua (some (pcall_ended w.granted (run_chunks w.oracle cfg s))) none e ∙ ap some p,
        ran,
      ),
    )

acquire_live : (n : NewState) (s : LuaCtx) → s.lua ≡ true → acquire_state n s ≡ (rc_ok, s)
unfolding acquire_state
acquire_live n s e = if_on s.lua (rc_ok, s) (create_state n s) e

acquire_fresh : (n : NewState) (s : LuaCtx) → s.lua ≡ false → acquire_state n s ≡ create_state n s
unfolding acquire_state
acquire_fresh n s e = if_off s.lua (rc_ok, s) (create_state n s) e

-- What lws_create_state does: it gives a Lua state, or says -1 and gives none.
create_state_lem :
    (n : NewState) (s : LuaCtx)
    → ((n.granted && n.initialized) ≡ true × (create_state n s ≡ (rc_ok, record s { lua = true })))
      ⊎ ((n.granted && n.initialized) ≡ false
          × (create_state n s ≡ (rc_error, record s { lua = false })))
unfolding create_state
create_state_lem n s = elim (Bool-cases n.granted) [
  | inr e ↦ inr (rw e refl, rw e refl)
  | inl e ↦ elim (Bool-cases n.initialized) [
    | inl q ↦ inl (rw (e, q) refl, rw (e, q) refl)
    | inr q ↦ inr (rw (e, q) refl, rw (e, q) refl)
  ]
]

-- Acquiring from an idle state: a Lua state is there, or none could be made and the state is idle still.
pub acquire_state_lem :
    (n : NewState) (s : LuaCtx)
    → IsIdle s
    → ((t : LuaCtx) × (acquire_state n s ≡ (rc_ok, t))
        × (t.lua ≡ true)
        × (t.state_req_max ≡ s.state_req_max))
      ⊎ ((t : LuaCtx) × (acquire_state n s ≡ (rc_error, t))
          × IsIdle t
          × (t.lua ≡ false)
          × (t.state_req_max ≡ s.state_req_max)
          × ((n.granted && n.initialized) ≡ false))
acquire_state_lem n s idle = elim (Bool-cases s.lua) [
  | inl e ↦ inl (s, acquire_live n s e, e, refl)
  | inr e ↦ elim (create_state_lem n s) [
    | inl (ok, q) ↦ inl (record s { lua = true }, acquire_fresh n s e ∙ q, refl, refl)
    | inr (bad, q) ↦
        let still : IsIdle (record s { lua = false }) = record {
          open_lem = idle.open_lem;
          fresh_count = λ _. idle.fresh_count e;
          fresh_init = λ _. idle.fresh_init e;
          below_max = idle.below_max;
        } in
        inr (record s { lua = false }, acquire_fresh n s e ∙ q, still, refl, refl, bad)
  ]
]

-- What a run and its release leave: an idle state. A result is that of the pre or the main chunk; or it is
-- -1, closes the Lua state, and comes
-- from a chunk that fails.
pub record Finished (oracle : Oracle) (cfg : Config) (s : LuaCtx) (rc : ℤ) (u : LuaCtx)
    : Type 0 where
  pub idle : IsIdle u
  pub state_req_max : u.state_req_max ≡ s.state_req_max
  pub verdict :
      ((n : ℕ) × (rc ≡ pos n) × ((b : Bool) × IsAnswer oracle cfg b n))
      ⊎ ((rc ≡ rc_error) × (u.lua ≡ false) × ((c : Chunk) × IsFailing (oracle c).result))

pub run_released_lem :
    (w : World) (cfg : Config) (s : LuaCtx)
    → s.lua ≡ true
    → (rc : ℤ) × ((u : LuaCtx) × (run_released w cfg s ≡ some (rc, u))
        × Finished w.oracle cfg s rc u)
unfolding run_released
run_released_lem w cfg s live =
    let (rc, (t, runs, ran)) = run_state_lem w cfg s live in
    let (b, (u, releases, rel)) = release_state_lem w.memory t (ran.lua ∙ live) in
    (
      rc,
      (
        u,
        rw (runs, ◌>>=◌, releases) refl,
        record {
          idle = rel.idle;
          state_req_max = rel.state_req_max ∙ ran.state_req_max;
          verdict = elim ran.verdict [
            | inl p ↦ inl p
            | inr (p, q, bad) ↦ inr (p, rel.closes q, bad)
          ];
        },
      ),
    )

-- What a request leaves of an idle state: an idle one. A result is that of the pre or the main chunk; or it
-- is -1, closes the state, and comes
-- from a chunk that fails or from a state that could not be made.
pub record Served (w : World) (cfg : Config) (s : LuaCtx) (rc : ℤ) (u : LuaCtx) : Type 0 where
  pub idle : IsIdle u
  pub state_req_max : u.state_req_max ≡ s.state_req_max
  pub verdict :
      ((n : ℕ) × (rc ≡ pos n) × ((b : Bool) × IsAnswer w.oracle cfg b n))
      ⊎ ((rc ≡ rc_error)
          × (u.lua ≡ false)
          × (((c : Chunk) × IsFailing (w.oracle c).result)
              ⊎ ((w.new_state.granted && w.new_state.initialized) ≡ false)))

serve_acquired_ok :
    (w : World) (cfg : Config) (s : LuaCtx) → serve_acquired w cfg (rc_ok, s) ≡ run_released w cfg s
unfolding serve_acquired
serve_acquired_ok w cfg s = refl

serve_acquired_error :
    (w : World) (cfg : Config) (s : LuaCtx)
    → serve_acquired w cfg (rc_error, s) ≡ some (rc_error, s)
unfolding serve_acquired
serve_acquired_error w cfg s = refl

-- From a state that is idle (not marked for close, nothing counted and not initialized where there is no
-- Lua state, and fewer requests served than its limit) a request acquires, runs and releases the Lua state
-- without a call on a state that is not there, and leaves an idle one; it ends with the value of the pre
-- chunk if it has completed the request and of the main chunk if not, or with -1 and no Lua state left,
-- and then a chunk failed or no state could be made. A value is what an int holds of the integer that a
-- chunk gives, 0 for nil.
pub serve_lem :
    (w : World) (cfg : Config) (s : LuaCtx)
    → IsIdle s
    → (rc : ℤ) × ((u : LuaCtx) × (serve w cfg s ≡ some (rc, u)) × Served w cfg s rc u)
unfolding serve
serve_lem w cfg s idle = elim (acquire_state_lem w.new_state s idle) [
  | inl (t, a, live, same) ↦
      let (rc, (u, p, done)) = run_released_lem w cfg t live in
      (
        rc,
        (
          u,
          ap (serve_acquired w cfg) a ∙ serve_acquired_ok w cfg t ∙ p,
          record {
            idle = done.idle;
            state_req_max = done.state_req_max ∙ same;
            verdict = elim done.verdict [
              | inl q ↦ inl q
              | inr (q, off, bad) ↦ inr (q, off, inl bad)
            ];
          },
        ),
      )
  | inr (t, a, still, off, same, bad) ↦ (
    rc_error,
    (
      t,
      ap (serve_acquired w cfg) a ∙ serve_acquired_error w cfg t,
      record { idle = still; state_req_max = same; verdict = inr (refl, off, inr bad) },
    ),
  )
]
