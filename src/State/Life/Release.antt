-- ===== src/State/Life/Release.antt =====
-- What holds of the Lua state between requests, and how `lws_release_state` (src/lws_state.c, lines 108
-- to 130) brings it about.
-- `lws_handle_request` of src/lws_request.c).
use lambda_lws.Prelude.{
  ◌+◌, ◌≡◌, refl, ◌⊎◌, inl, inr, Bool, true, false, Bool-cases, ◌&&◌, ◌||◌, none, some, ltb, leb,
  ltb_ℤ, if◌then◌else◌, if_on, pos, arith,
}
use lambda_lws.State.{LuaCtx, Memory, memory_used, close_state, is_over, release_state}

-- Between requests: no state is marked for close; without a Lua state nothing is counted and the init
-- chunk has not run; and with a limit on the requests of a state, a state has served fewer.
pub record IsIdle (s : LuaCtx) : Type 0 where
  pub open_lem : s.state_close ≡ false
  pub fresh_count : s.lua ≡ false → s.req_count ≡ 0
  pub fresh_init : s.lua ≡ false → s.state_init ≡ false
  pub below_max :
      ltb_ℤ (pos 0) s.state_req_max ≡ true → ltb_ℤ (pos s.req_count) s.state_req_max ≡ true

close_state_lem :
    (s : LuaCtx)
    → s.lua ≡ true
    → close_state s
      ≡ some (record s { lua = false; req_count = 0; state_init = false; state_close = false })
unfolding close_state
close_state_lem s e =
    if_on s.lua
      (some (record s { lua = false; req_count = 0; state_init = false; state_close = false })) none
      e

-- What lws_release_state leaves: the state it was given, with the request counted and not marked for
-- close and below the limit; or a closed state.
pub record Released (s u : LuaCtx) : Type 0 where
  pub idle : IsIdle u
  pub state_req_max : u.state_req_max ≡ s.state_req_max
  pub closes : s.state_close ≡ true → u.lua ≡ false
  pub serves :
      (u.lua ≡ false)
      ⊎ ((u.lua ≡ true) × (u.req_count ≡ s.req_count + 1) × (u.state_init ≡ s.state_init))

below_lem :
    (b c l : Bool)
    → (b || (c && (if l then false else true))) ≡ false
    → (b ≡ false) × (c ≡ true → l ≡ true)
below_lem b c l h = (ground arith, λ p. ground arith)

closed_lem : (b d : Bool) → b ≡ true → (b || d) ≡ false → false ≡ true
closed_lem b d p q = ground arith

over_lem :
    (s : LuaCtx)
    → Released s (record s { lua = false; req_count = 0; state_init = false; state_close = false })
over_lem s = record {
  idle = record {
    open_lem = refl;
    fresh_count = λ _. refl;
    fresh_init = λ _. refl;
    below_max = λ p. p;
  };
  state_req_max = refl;
  closes = λ _. refl;
  serves = inl refl;
}

kept_lem :
    (s : LuaCtx)
    → s.lua ≡ true
    → is_over (record s { req_count = s.req_count + 1 }) ≡ false
    → Released s (record s { req_count = s.req_count + 1 })
unfolding is_over
kept_lem s live e =
    let (o, b) =
      below_lem s.state_close (ltb_ℤ (pos 0) s.state_req_max)
        (ltb_ℤ (pos (s.req_count + 1)) s.state_req_max) e in
    record {
      idle = record { open_lem = o; fresh_count = λ p. cc; fresh_init = λ p. cc; below_max = b };
      state_req_max = refl;
      closes = λ p. cc;
      serves = inr (live, refl, refl);
    }

pub release_state_lem :
    (m : Memory) (s : LuaCtx)
    → s.lua ≡ true
    → (collected : Bool) × ((u : LuaCtx) × (release_state m s ≡ some (collected, u)) × Released s u)
unfolding release_state
release_state_lem m s live =
    let t : LuaCtx = record s { req_count = s.req_count + 1 } in
    elim (Bool-cases (is_over t)) [
      | inl e ↦ (false, (_, rw (e, close_state_lem t live) refl, over_lem s))
      | inr e ↦ elim (Bool-cases (ltb 0 t.state_gc)) [
        | inl g ↦ (leb t.state_gc (memory_used m), (t, rw (e, g, live) refl, kept_lem s live e))
        | inr g ↦ (false, (t, rw (e, g) refl, kept_lem s live e))
      ]
    ]
