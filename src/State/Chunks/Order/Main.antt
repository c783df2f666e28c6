-- ===== src/State/Chunks/Order/Main.antt =====
-- What `lws_run` (src/lws_lib.c, lines 1166 to 1181) calls behind the init chunk.
use lambda_lws.Prelude.{
  ℕ, ◌≡◌, refl, sym, ap, ◌∙◌, inl, inr, Bool, true, false, Bool-cases, not, ◌&&◌, ◌||◌, ltb, arith,
  List, [], ◌∷◌, ◌++◌, append-nil, if_on, if_off, subst, ℤ, pos,
}
use lambda_lws.State.{LuaCtx}
use lambda_lws.State.Chunks.{
  Chunk, init_chunk, pre_chunk, main_chunk, post_chunk, Oracle, Config, Running, Called, goes_on,
  breaks_off, ◌>>>◌, completes, call_chunk, call_if, run_post, run_main,
}
use lambda_lws.State.Chunks.Order.{
  when, Keeps, IsFailing, PreEnds, no_pre, pre_ended, IsAnswer, of_pre, of_main, PassesIf, Ordered,
  call_chunk_lem, or_false, Keeps-Keeps, listing, completed, pending, with, without,
}

module _ (oracle : Oracle) (cfg : Config) (s : LuaCtx) where
  -- The chunks before the main chunk.
  abbrev pub first : List Chunk
  first = when (not s.state_init && cfg.has_init) init_chunk

  abbrev pub second : List Chunk
  second = when cfg.has_pre pre_chunk

  abbrev pub early : List Chunk
  early = first ++ second

  -- A state in which the chunks of a list have been called, with the init chunk done.
  pub record Reached (before : List Chunk) (r : Running) : Type 0 where
    pub keeps : Keeps s r.ctx
    pub init : r.ctx.state_init ≡ true
    pub called : r.called ≡ before
    pub init_passes : PassesIf oracle (not s.state_init && cfg.has_init) init_chunk

  run_post_on :
      (rc : ℤ) (r : Running)
      → cfg.has_post ≡ true
      → run_post oracle cfg rc r ≡ (call_chunk oracle post_chunk r >>> λ _ q. goes_on rc q)
  unfolding run_post
  run_post_on rc r e =
      if_on cfg.has_post (call_chunk oracle post_chunk r >>> λ _ q. goes_on rc q) (goes_on rc r) e

  run_post_off :
      (rc : ℤ) (r : Running) → cfg.has_post ≡ false → run_post oracle cfg rc r ≡ goes_on rc r
  unfolding run_post
  run_post_off rc r e =
      if_off cfg.has_post (call_chunk oracle post_chunk r >>> λ _ q. goes_on rc q) (goes_on rc r) e

  run_post_lem :
      (n : ℕ) (r : Running)
      → Reached (early ++ when (not r.complete) main_chunk) r
      → IsAnswer oracle cfg r.complete n
      → Ordered oracle cfg s (run_post oracle cfg (pos n) r)
  unfolding Ordered completes
  run_post_lem n r h answer =
      let called : (b : Bool)
          → cfg.has_post ≡ b
          → r.called ++ when b post_chunk
            ≡ first
              ++ (second ++ (when (not r.complete) main_chunk ++ when cfg.has_post post_chunk)) =
        λ b e.
          ap (λ (c : Bool). r.called ++ when c post_chunk) (sym e)
          ∙ listing first second (when (not r.complete) main_chunk) (when cfg.has_post post_chunk)
              r.called h.called in
      elim (Bool-cases cfg.has_post) [
        | inr e ↦ subst (Ordered oracle cfg s) (sym (run_post_off (pos n) r e)) (
          h.keeps,
          (n, refl, answer),
          h.init,
          sym (append-nil r.called) ∙ called false e,
          h.init_passes,
          λ q. cc,
        )
        | inl e ↦
            subst (Ordered oracle cfg s) (sym (run_post_on (pos n) r e))
              (elim (call_chunk_lem oracle post_chunk r) [
                | inl (k, value, runs) ↦
                    rw (runs, ◌>>>◌, or_false r.complete)
                      (
                        Keeps-Keeps s r.ctx (r.ctx.state_close || (oracle post_chunk).sets_close)
                            h.keeps,
                        (n, refl, answer),
                        h.init,
                        called true e,
                        h.init_passes,
                        λ q. (k, value),
                      )
                | inr (bad, runs) ↦
                    rw (runs, ◌>>>◌)
                      (
                        Keeps-Keeps s r.ctx (r.ctx.state_close || (oracle post_chunk).sets_close)
                            h.keeps,
                        (post_chunk, (r.called, refl, bad, refl)),
                      )
              ])
      ]

  -- The state behind a call of a chunk.
  abbrev pub behind : Chunk → ℤ → Running → Running
  behind c rc r =
      let t : LuaCtx = r.ctx in
      record {
        ctx = record t { state_close = t.state_close || (oracle c).sets_close };
        complete = r.complete || completes c (oracle c).sets_complete rc;
        called = r.called ++ c ∷ [];
      }

  breaks_lem :
      (c : Chunk) (before : List Chunk) (r : Running)
      → Reached before r
      → IsFailing (oracle c).result
      → (b : Bool)
      → Ordered oracle cfg s (
          breaks_off (oracle c).message (record {
            ctx =
                (let t : LuaCtx = r.ctx in
                  record t { state_close = r.ctx.state_close || (oracle c).sets_close });
            complete = b;
            called = r.called ++ c ∷ [];
          }))
  unfolding Ordered
  breaks_lem c before r h bad b = (
    Keeps-Keeps s r.ctx (r.ctx.state_close || (oracle c).sets_close) h.keeps,
    (c, (r.called, refl, bad, refl)),
  )

  pub broken_lem :
      (c : Chunk)
      → IsFailing (oracle c).result
      → Ordered oracle cfg s (
          breaks_off (oracle c).message (record {
            ctx = record s { state_close = s.state_close || (oracle c).sets_close };
            complete = false;
            called = [] ++ c ∷ [];
          }))
  unfolding Ordered
  broken_lem c bad =
      (record { lua = refl; req_count = refl; state_req_max = refl }, (c, ([], refl, bad, refl)))

  run_main_on :
      (rc : ℤ) (r : Running)
      → r.complete ≡ true
      → run_main oracle cfg rc r ≡ run_post oracle cfg rc r
  unfolding run_main
  run_main_on rc r e =
      if_on r.complete (run_post oracle cfg rc r)
        (call_chunk oracle main_chunk r >>> run_post oracle cfg) e

  run_main_off :
      (rc : ℤ) (r : Running)
      → r.complete ≡ false
      → run_main oracle cfg rc r ≡ (call_chunk oracle main_chunk r >>> run_post oracle cfg)
  unfolding run_main
  run_main_off rc r e =
      if_off r.complete (run_post oracle cfg rc r)
        (call_chunk oracle main_chunk r >>> run_post oracle cfg) e

  run_main_lem :
      (n : ℕ) (r : Running)
      → Reached early r
      → PreEnds oracle cfg n r.complete
      → Ordered oracle cfg s (run_main oracle cfg (pos n) r)
  unfolding completes
  run_main_lem n r h pre = elim (Bool-cases r.complete) [
    | inl e ↦ subst (Ordered oracle cfg s) (sym (run_main_on (pos n) r e)) (
        run_post_lem n r
          (record {
            keeps = h.keeps;
            init = h.init;
            called = completed r.complete early r.called e h.called;
            init_passes = h.init_passes;
          })
          (of_pre e pre))
    | inr e ↦
        subst (Ordered oracle cfg s) (sym (run_main_off (pos n) r e))
          (elim (call_chunk_lem oracle main_chunk r) [
            | inl (m, value, runs) ↦
                rw (runs, ◌>>>◌)
                  (run_post_lem m (behind main_chunk (pos m) r)
                    (record {
                      keeps =
                          Keeps-Keeps s r.ctx (r.ctx.state_close || (oracle main_chunk).sets_close)
                            h.keeps;
                      init = h.init;
                      called = pending r.complete early r.called e h.called;
                      init_passes = h.init_passes;
                    })
                    (subst (λ (b : Bool). IsAnswer oracle cfg b m) (sym (or_false r.complete))
                      (of_main n e pre value)))
            | inr (bad, runs) ↦ rw (runs, ◌>>>◌) (breaks_lem main_chunk early r h bad r.complete)
          ])
  ]

  pub call_if_on :
      (b : Bool) (c : Chunk) (rc : ℤ) (r : Running)
      → b ≡ true
      → call_if oracle b c rc r ≡ call_chunk oracle c r
  unfolding call_if
  call_if_on b c rc r e = if_on b (call_chunk oracle c r) (goes_on rc r) e

  pub call_if_off :
      (b : Bool) (c : Chunk) (rc : ℤ) (r : Running)
      → b ≡ false
      → call_if oracle b c rc r ≡ goes_on rc r
  unfolding call_if
  call_if_off b c rc r e = if_off b (call_chunk oracle c r) (goes_on rc r) e

  pre_complete :
      (b set : Bool) (m : ℕ) → b ≡ false → (b || completes pre_chunk set (pos m)) ≡ (set || ltb 0 m)
  unfolding completes
  pre_complete b set m e = ground (arith, e)

  pub run_pre_lem :
      (r : Running)
      → Reached first r
      → r.complete ≡ false
      → Ordered oracle cfg s
          (call_if oracle cfg.has_pre pre_chunk (pos 0) r >>> run_main oracle cfg)
  unfolding completes
  run_pre_lem r h open_lem = elim (Bool-cases cfg.has_pre) [
    | inr e ↦
        subst (λ (c : Called). Ordered oracle cfg s (c >>> run_main oracle cfg))
          (sym (call_if_off cfg.has_pre pre_chunk (pos 0) r e))
          (run_main_lem 0 r
            (record {
              keeps = h.keeps;
              init = h.init;
              called = without cfg.has_pre pre_chunk first r.called e h.called;
              init_passes = h.init_passes;
            })
            (no_pre e refl open_lem))
    | inl e ↦
        subst (λ (c : Called). Ordered oracle cfg s (c >>> run_main oracle cfg))
          (sym (call_if_on cfg.has_pre pre_chunk (pos 0) r e))
          (elim (call_chunk_lem oracle pre_chunk r) [
            | inl (m, value, runs) ↦
                rw (runs, ◌>>>◌)
                  (run_main_lem m (behind pre_chunk (pos m) r)
                    (record {
                      keeps =
                          Keeps-Keeps s r.ctx (r.ctx.state_close || (oracle pre_chunk).sets_close)
                            h.keeps;
                      init = h.init;
                      called = with cfg.has_pre pre_chunk first r.called e h.called;
                      init_passes = h.init_passes;
                    })
                    (pre_ended e value
                      (pre_complete r.complete (oracle pre_chunk).sets_complete m open_lem)))
            | inr (bad, runs) ↦ rw (runs, ◌>>>◌) (breaks_lem pre_chunk first r h bad r.complete)
          ])
  ]
