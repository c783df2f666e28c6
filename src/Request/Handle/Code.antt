-- ===== src/Request/Handle/Code.antt =====
-- What `lws_handle_request` (src/lws_request.c, lines 282 to 304) returns, and the Lua state it leaves.
use lambda_lws.Prelude.{
  ℕ, zero, suc, ◌≡◌, refl, sym, ap, ◌∙◌, subst, ◌≢◌, ◌⊎◌, inl, inr, true, false, Bool-cases, not,
  ◌&&◌, ◌||◌, Bool, arith, some, List, ℤ, pos, negsuc, rc_ok, rc_error, Run, ◌>>=◌,
}
use lambda_lws.State.{LuaCtx}
use lambda_lws.State.Chunks.{Chunk, Config}
use lambda_lws.State.Chunks.Order.{IsFailing, IsAnswer}
use lambda_lws.State.Life.{World}
use lambda_lws.State.Life.Release.{IsIdle}
use lambda_lws.State.Life.Idle.{Finished, run_released_lem, acquire_state_lem}
use lambda_lws.Request.Substitute.{Match}
use lambda_lws.Request.Substitute.Expand.{IsMatches}
use lambda_lws.Request.Substitute.Loops.{Allocates}
use lambda_lws.Request.Prepare.{Request, Library, Prepared, prepare_request}
use lambda_lws.Request.Prepare.Outcome.{Outcome, IsLookable, prepare_request_lem}
use lambda_lws.Request.Handle.{
  Response, Handled, prepare_response, finalize_response, run_code, finalized, handle_released,
  handle_acquired, handle_prepared, handle_response, handle_request,
}

-- The ways in which a request ends. Chunks run only for a request that is prepared with 0; the result is
-- then the value of the run, or 500 where a chunk fails, if the end of the response is not refused.
pub data Handling (l : Library) (r : Request) (a : Response) (w : World) (cfg : Config)
    (h : Handled) : ℤ → Handled → Type 0 where
  no_response :
      (g : Handled)
      → (a.opens_body && a.unbuffered) ≡ false
      → g.lua_ctx ≡ h.lua_ctx
      → Handling l r a w cfg h rc_error g
  not_prepared :
      (g : Handled) (rc : ℤ) (q : Prepared)
      → Outcome l r h.stat_cache rc q
      → rc ≢ rc_ok
      → g.lua_ctx ≡ h.lua_ctx
      → Handling l r a w cfg h rc g
  no_state :
      (g : Handled) (q : Prepared)
      → Outcome l r h.stat_cache rc_ok q
      → (w.new_state.granted && w.new_state.initialized) ≡ false
      → g.lua_ctx.lua ≡ false
      → Handling l r a w cfg h rc_error g
  ran :
      (g : Handled) (q : Prepared) (b : Bool) (n : ℕ)
      → Outcome l r h.stat_cache rc_ok q
      → IsAnswer w.oracle cfg b n
      → (a.streaming && not a.finishes) ≡ false
      → g.streaming_eof ≡ (a.streaming || h.streaming_eof)
      → Handling l r a w cfg h (pos n) g
  chunk_failed :
      (g : Handled) (q : Prepared) (c : Chunk)
      → Outcome l r h.stat_cache rc_ok q
      → IsFailing (w.oracle c).result
      → (a.streaming && not a.finishes) ≡ false
      → g.streaming_eof ≡ (a.streaming || h.streaming_eof)
      → g.lua_ctx.lua ≡ false
      → Handling l r a w cfg h (pos 500) g
  not_finished :
      (g : Handled) (q : Prepared)
      → Outcome l r h.stat_cache rc_ok q
      → (a.streaming && not a.finishes) ≡ true
      → g.streaming_eof ≡ true
      → Handling l r a w cfg h rc_error g

-- A run that ends with a result of which a predicate holds, and an idle Lua state.
abbrev pub EndsIdle : Run (ℤ × Handled) → (ℤ → Handled → Type 0) → Type 0
EndsIdle run P = (rc : ℤ) × ((g : Handled) × (run ≡ some (rc, g)) × IsIdle g.lua_ctx × P rc g)

-- The end of the response turns the result to -1 if it fails, and leaves the Lua state alone.
finalized_lem :
    (a : Response) (rc : ℤ) (h : Handled)
    → (g : Handled) × (g.lua_ctx ≡ h.lua_ctx)
      × (g.streaming_eof ≡ (a.streaming || h.streaming_eof))
      × (((finalized rc (finalize_response a h) ≡ (rc, g))
            × ((a.streaming && not a.finishes) ≡ false))
          ⊎ ((finalized rc (finalize_response a h) ≡ (rc_error, g))
              × ((a.streaming && not a.finishes) ≡ true)))
unfolding finalized finalize_response
finalized_lem a rc h = elim (Bool-cases a.streaming) [
  | inr e ↦ (h, refl, rw e refl, inl (rw e refl, rw e refl))
  | inl e ↦ elim (Bool-cases a.finishes) [
    | inl f ↦
        (record h { streaming_eof = true }, refl, rw e refl, inl (rw (e, f) refl, rw (e, f) refl))
    | inr f ↦
        (record h { streaming_eof = true }, refl, rw e refl, inr (rw (e, f) refl, rw (e, f) refl))
  ]
]

pos_lem : (k n : ℕ) → pos n ≡ pos k → k ≡ n
pos_lem k n p = cc

streaming_lem : (s f e : Bool) → (s && not f) ≡ true → (s || e) ≡ true
streaming_lem s f e p = ground (arith, p)

module _ (l : Library) (r : Request) (a : Response) (w : World) (cfg : Config) (h : Handled) where
  eof_lem :
      (g j : Handled)
      → j.streaming_eof ≡ h.streaming_eof
      → g.streaming_eof ≡ (a.streaming || j.streaming_eof)
      → g.streaming_eof ≡ (a.streaming || h.streaming_eof)
  eof_lem g j e p = p ∙ ap (λ (b : Bool). a.streaming || b) e

  eof_on :
      (g j : Handled)
      → (a.streaming && not a.finishes) ≡ true
      → g.streaming_eof ≡ (a.streaming || j.streaming_eof)
      → g.streaming_eof ≡ true
  eof_on g j e p = p ∙ streaming_lem a.streaming a.finishes j.streaming_eof e

  released_lem :
      (j : Handled) (s : LuaCtx) (q : Prepared)
      → Outcome l r h.stat_cache rc_ok q
      → j.streaming_eof ≡ h.streaming_eof
      → (rc : ℤ) (u : LuaCtx) → Finished w.oracle cfg s rc u
      → EndsIdle (some (handle_released a j (rc, u))) (Handling l r a w cfg h)
  unfolding handle_released run_code
  released_lem j s q ok kept (pos n) u done =
      let (g, same, eof, ends) = finalized_lem a (pos n) (record j { lua_ctx = u }) in
      let idle : IsIdle g.lua_ctx = subst IsIdle (sym same) done.idle in
      elim ends [
        | inl (e, fine) ↦ elim done.verdict [
          | inl (k, p, (b, answer)) ↦
              let m : k ≡ n = pos_lem k n p in
              (
                pos n,
                (
                  g,
                  ap some e,
                  idle,
                  ran g q b n ok (subst (λ (i : ℕ). IsAnswer w.oracle cfg b i) m answer) fine
                      (eof_lem g j kept eof),
                ),
              )
          | inr (p, off, c) ↦ cc
        ]
        | inr (e, bad) ↦
            (rc_error, (g, ap some e, idle, not_finished g q ok bad (eof_on g j bad eof)))
      ]
  released_lem j s q ok kept (negsuc n) u done =
      let (g, same, eof, ends) = finalized_lem a (pos 500) (record j { lua_ctx = u }) in
      let idle : IsIdle g.lua_ctx = subst IsIdle (sym same) done.idle in
      elim ends [
        | inl (e, fine) ↦ elim done.verdict [
          | inl (k, p, answer) ↦ cc
          | inr (p, off, (c, bad)) ↦ (
            pos 500,
            (
              g,
              ap some e,
              idle,
              chunk_failed g q c ok bad fine (eof_lem g j kept eof)
                  (ap (λ (t : LuaCtx). t.lua) same ∙ off),
            ),
          )
        ]
        | inr (e, bad) ↦
            (rc_error, (g, ap some e, idle, not_finished g q ok bad (eof_on g j bad eof)))
      ]

  run_lem :
      (j : Handled) (s : LuaCtx) (q : Prepared)
      → Outcome l r h.stat_cache rc_ok q
      → s.lua ≡ true
      → j.streaming_eof ≡ h.streaming_eof
      → EndsIdle (handle_acquired a w cfg j (rc_ok, s)) (Handling l r a w cfg h)
  unfolding handle_acquired
  run_lem j s q ok live kept =
      let (rc, (u, runs, done)) = run_released_lem w cfg s live in
      rw (runs, ◌>>=◌) (released_lem j s q ok kept rc u done)

  stateless_lem :
      (j : Handled) (s : LuaCtx) (q : Prepared)
      → Outcome l r h.stat_cache rc_ok q
      → IsIdle s
      → s.lua ≡ false
      → (w.new_state.granted && w.new_state.initialized) ≡ false
      → EndsIdle (handle_acquired a w cfg j (rc_error, s)) (Handling l r a w cfg h)
  unfolding handle_acquired
  stateless_lem j s q ok idle off bad =
      let g : Handled = record j { lua_ctx = s } in
      (rc_error, (g, refl, idle, no_state g q ok bad off))

  prepared_lem :
      (j : Handled) (rc : ℤ) (q : Prepared)
      → j.lua_ctx ≡ h.lua_ctx
      → j.streaming_eof ≡ h.streaming_eof
      → IsIdle h.lua_ctx
      → Outcome l r h.stat_cache rc q
      → EndsIdle (handle_prepared a w cfg j (rc, q)) (Handling l r a w cfg h)
  unfolding handle_prepared
  prepared_lem j (pos zero) q same kept idle ok =
      let k : Handled = record j { stat_cache = q.stat_cache } in
      elim (acquire_state_lem w.new_state j.lua_ctx (subst IsIdle (sym same) idle)) [
        | inl (t, e, live, _) ↦ rw e (run_lem k t q ok live kept)
        | inr (t, e, still, off, _, bad) ↦ rw e (stateless_lem k t q ok still off bad)
      ]
  prepared_lem j (pos (suc n)) q same kept idle ok = (
    pos (suc n),
    (
      record j { stat_cache = q.stat_cache },
      refl,
      subst IsIdle (sym same) idle,
      not_prepared _ (pos (suc n)) q ok (λ p. cc) same,
    ),
  )
  prepared_lem j (negsuc n) q same kept idle ok = (
    negsuc n,
    (
      record j { stat_cache = q.stat_cache },
      refl,
      subst IsIdle (sym same) idle,
      not_prepared _ (negsuc n) q ok (λ p. cc) same,
    ),
  )

  prepare_response_lem :
      (g : Handled) × (g.lua_ctx ≡ h.lua_ctx)
      × (g.stat_cache ≡ h.stat_cache)
      × (g.streaming_eof ≡ h.streaming_eof)
      × (((prepare_response a h ≡ (rc_ok, g)) × ((a.opens_body && a.unbuffered) ≡ true))
          ⊎ ((prepare_response a h ≡ (rc_error, g)) × ((a.opens_body && a.unbuffered) ≡ false)))
  unfolding prepare_response
  prepare_response_lem = (
    record h { resp_status = 200 },
    refl,
    refl,
    refl,
    elim (Bool-cases a.opens_body) [
      | inr e ↦ inr (rw e refl, rw e refl)
      | inl e ↦ elim (Bool-cases a.unbuffered) [
        | inl f ↦ inl (rw (e, f) refl, rw (e, f) refl)
        | inr f ↦ inr (rw (e, f) refl, rw (e, f) refl)
      ]
    ],
  )

  unbound_lem :
      (g : Handled)
      → g.lua_ctx ≡ h.lua_ctx
      → IsIdle h.lua_ctx
      → (a.opens_body && a.unbuffered) ≡ false
      → EndsIdle (handle_response l r a w cfg (rc_error, g)) (Handling l r a w cfg h)
  unfolding handle_response
  unbound_lem g same idle bad =
      (rc_error, (g, refl, subst IsIdle (sym same) idle, no_response g bad same))

  bound_lem :
      (g : Handled)
      → g.lua_ctx ≡ h.lua_ctx
      → g.stat_cache ≡ h.stat_cache
      → g.streaming_eof ≡ h.streaming_eof
      → IsIdle h.lua_ctx
      → (rc : ℤ) × ((q : Prepared) × (prepare_request l r h.stat_cache ≡ some (rc, q))
          × Outcome l r h.stat_cache rc q)
      → EndsIdle (handle_response l r a w cfg (rc_ok, g)) (Handling l r a w cfg h)
  unfolding handle_response
  bound_lem g same cached kept idle (rc, (q, runs, outcome)) =
      rw (ap (prepare_request l r) cached ∙ runs, ◌>>=◌)
        (prepared_lem g rc q same kept idle outcome)

-- Where the allocator gives blocks of the size asked, regexec gives groups inside the path, and the stat
-- cache is usable (no entry was deleted from it, its statuses are known, it is below its cap, and it has
-- space for the file's name if that is new, which has no zero byte), and with an idle Lua state,
-- lws_handle_request ends with an idle Lua state and in one of these ways: -1 because the response body
-- could not be set up, with the Lua state unchanged; what lws_prepare_request returns where that is not 0,
-- with the Lua state unchanged; and where that is 0: -1 and no Lua state if none could be made; -1 if the
-- response is streamed and its end fails; and else the value of the pre chunk if it has completed the
-- request, and of the main chunk if not, or 500 with the Lua state closed because of a chunk that fails.
-- Behind a run the end of the stream is set where the response is streamed, and only there.
pub handle_request_lem :
    (l : Library) (r : Request) (a : Response) (w : World) (cfg : Config) (h : Handled)
    → Allocates l.alloc_main
    → Allocates l.alloc_filename
    → Allocates l.alloc_path_info
    → ((m : List Match) → l.regexec r.req_path ≡ some m → IsMatches r.req_path m)
    → IsLookable l r h.stat_cache
    → IsIdle h.lua_ctx
    → EndsIdle (handle_request l r a w cfg h) (Handling l r a w cfg h)
unfolding handle_request
handle_request_lem l r a w cfg h gives_main gives gives_info matches looks idle =
    let prepares = prepare_request_lem l r h.stat_cache gives_main gives gives_info matches looks in
    let (g, same, cached, kept, ends) = prepare_response_lem l r a w cfg h in
    elim ends [
      | inl (e, fine) ↦ rw e (bound_lem l r a w cfg h g same cached kept idle prepares)
      | inr (e, bad) ↦ rw e (unbound_lem l r a w cfg h g same idle bad)
    ]
