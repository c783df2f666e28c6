-- ===== src/State/Chunks/Order/Run.antt =====
-- The chunks that `lws_run` (src/lws_lib.c, lines 1134 to 1190) calls, from the init chunk on.
use lambda_lws.Prelude.{
  ◌≡◌, refl, sym, ap, ◌∙◌, inl, inr, Bool, true, false, Bool-cases, not, ◌&&◌, arith, [], if_on,
  if_off, subst, pos,
}
use lambda_lws.State.{LuaCtx}
use lambda_lws.State.Chunks.{
  init_chunk, pre_chunk, Oracle, Config, Running, Called, goes_on, ◌>>>◌, completes, call_if,
  run_init, run_main, run_chunks,
}
use lambda_lws.State.Chunks.Order.{when, Keeps, Ordered, call_chunk_lem, not_init, once}
use lambda_lws.State.Chunks.Order.Main.{behind, run_pre_lem, broken_lem, call_if_on, call_if_off}

not_configured : (b c : Bool) → c ≡ false → (not b && c) ≡ true → ⊥
not_configured b c e q = ground (arith, e, q)

not_fresh : (b c : Bool) → b ≡ true → (not b && c) ≡ true → ⊥
not_fresh b c e q = ground (arith, e, q)

module _ (oracle : Oracle) (cfg : Config) (s : LuaCtx) where
  abbrev start : Running
  start = record { ctx = s; complete = false; called = [] }

  -- The context with the flag set that says that the init chunk has run.
  abbrev initialized : Running → Running
  initialized r = let t : LuaCtx = r.ctx in record r { ctx = record t { state_init = true } }

  -- What follows the init chunk.
  abbrev after_init : Called → Called
  after_init c =
      c >>> (λ _ r. call_if oracle cfg.has_pre pre_chunk (pos 0) r) >>> run_main oracle cfg

  run_init_on : s.state_init ≡ true → run_init oracle cfg start ≡ goes_on (pos 0) start
  unfolding run_init
  run_init_on e =
      if_on s.state_init (goes_on (pos 0) start)
        (call_if oracle cfg.has_init init_chunk (pos 0) start >>> λ rc q.
          goes_on rc (initialized q))
        e

  run_init_off :
      s.state_init ≡ false
      → run_init oracle cfg start ≡ (
          call_if oracle cfg.has_init init_chunk (pos 0) start >>> λ rc q.
          goes_on rc (initialized q))
  unfolding run_init
  run_init_off e =
      if_off s.state_init (goes_on (pos 0) start)
        (call_if oracle cfg.has_init init_chunk (pos 0) start >>> λ rc q.
          goes_on rc (initialized q))
        e

  same : Keeps s s
  same = record { lua = refl; req_count = refl; state_req_max = refl }

  init_called_lem :
      s.state_init ≡ false
      → Ordered oracle cfg s (
          after_init (
            call_if oracle cfg.has_init init_chunk (pos 0) start >>> λ rc q.
            goes_on rc (initialized q)))
  unfolding completes
  init_called_lem off = elim (Bool-cases cfg.has_init) [
    | inr e ↦
        subst
          (λ (c : Called).
            Ordered oracle cfg s (after_init (c >>> λ rc q. goes_on rc (initialized q))))
          (sym (call_if_off oracle cfg s cfg.has_init init_chunk (pos 0) start e))
          (run_pre_lem oracle cfg s (initialized start)
            (record {
              keeps = record { lua = refl; req_count = refl; state_req_max = refl };
              init = refl;
              called =
                  sym (
                    not_init s.state_init cfg.has_init off
                    ∙ ap (λ (b : Bool). when b init_chunk) e);
              init_passes = λ q. absurd (not_configured s.state_init cfg.has_init e q);
            })
            refl)
    | inl e ↦
        subst
          (λ (c : Called).
            Ordered oracle cfg s (after_init (c >>> λ rc q. goes_on rc (initialized q))))
          (sym (call_if_on oracle cfg s cfg.has_init init_chunk (pos 0) start e))
          (elim (call_chunk_lem oracle init_chunk start) [
            | inl (m, value, runs) ↦
                rw (runs, ◌>>>◌)
                  (run_pre_lem oracle cfg s
                    (initialized (behind oracle cfg s init_chunk (pos m) start))
                    (record {
                      keeps = record { lua = refl; req_count = refl; state_req_max = refl };
                      init = refl;
                      called = sym (
                          not_init s.state_init cfg.has_init off
                          ∙ ap (λ (b : Bool). when b init_chunk) e);
                      init_passes = λ q. (m, value);
                    })
                    refl)
            | inr (bad, runs) ↦ rw (runs, ◌>>>◌) (broken_lem oracle cfg s init_chunk bad)
          ])
  ]

  run_init_lem : Ordered oracle cfg s (after_init (run_init oracle cfg start))
  run_init_lem = elim (Bool-cases s.state_init) [
    | inl e ↦
        subst (λ (c : Called). Ordered oracle cfg s (after_init c)) (sym (run_init_on e))
          (run_pre_lem oracle cfg s start
            (record {
              keeps = same;
              init = e;
              called = sym (once s.state_init cfg.has_init e);
              init_passes = λ q. absurd (not_fresh s.state_init cfg.has_init e q);
            })
            refl)
    | inr e ↦
        subst (λ (c : Called). Ordered oracle cfg s (after_init c)) (sym (run_init_off e))
          (init_called_lem e)
  ]

-- lws_run either goes on to its end with a value that is not negative, after the init chunk where the state
-- was not initialized, the pre chunk, the main chunk unless the pre chunk has completed the request, and the
-- post chunk, each where it is configured and with none of them failing, the state being initialized. The
-- pre chunk has completed the request exactly if it is configured and called setcomplete or has a result
-- above 0; the value is then the result of the pre chunk, and else that of the main chunk, where nil is 0
-- and an integer is what an int holds of it. Or the last chunk it called has failed (an error, a result
-- that is no integer, or one that is negative as an int) and its message is the error's. It leaves the Lua
-- state, the state's request count and its limit alone.
pub run_chunks_lem :
    (oracle : Oracle) (cfg : Config) (s : LuaCtx) → Ordered oracle cfg s (run_chunks oracle cfg s)
unfolding run_chunks
run_chunks_lem oracle cfg s = run_init_lem oracle cfg s
