-- ===== src/State/Chunks/Order.antt =====
-- The order of the chunks that `lws_run` (src/lws_lib.c, lines 1134 to 1190) calls.
pub mod Main
pub mod Run
use lambda_lws.Prelude.{
  ℕ, ◌≡◌, refl, sym, ap, ◌∙◌, ◌⊎◌, inl, inr, Bool, true, false, Bool-cases, not, ◌&&◌, ◌||◌, none,
  some, ltb, List, [], ◌∷◌, ◌++◌, append_assoc, append-nil, if◌then◌else◌, if_on, if_off, subst, ℤ,
  pos, negsuc, arith,
}
use lambda_lws.State.{LuaCtx}
use lambda_lws.State.Chunks.{
  Chunk, init_chunk, pre_chunk, main_chunk, post_chunk, Result, nil, integer, other, failure,
  Oracle, Config, Running, Called, goes_on, breaks_off, ◌>>>◌, to_int, not_negative, check_result,
  completes, call_ended, call_chunk, call_if, run_init, run_post, run_main, run_chunks,
}

-- A chunk, where a condition holds.
abbrev pub when : Bool → Chunk → List Chunk
when b c = if b then c ∷ [] else []

-- The fields of the context that the chunks leave alone.
pub record Keeps (s t : LuaCtx) : Type 0 where
  pub lua : t.lua ≡ s.lua
  pub req_count : t.req_count ≡ s.req_count
  pub state_req_max : t.state_req_max ≡ s.state_req_max

-- A result that passes, with its value: nil is 0, and an integer is what an `int` holds of it, if that is
-- not negative.
pub data IsValue (r : Result) (n : ℕ) : Type 0 where
  no_value : r ≡ nil → n ≡ 0 → IsValue r n
  int_value : (i : ℤ) → r ≡ integer i → to_int i ≡ pos n → IsValue r n

-- A result that does not pass.
pub data IsFailing (r : Result) : Type 0 where
  negative : (i : ℤ) (n : ℕ) → r ≡ integer i → to_int i ≡ negsuc n → IsFailing r
  no_integer : r ≡ other → IsFailing r
  error : r ≡ failure → IsFailing r

-- The value behind the pre chunk, and whether it has completed the request: by setcomplete, or with a value
-- above 0.
pub data PreEnds (oracle : Oracle) (cfg : Config) (n : ℕ) (complete : Bool) : Type 0 where
  no_pre : cfg.has_pre ≡ false → n ≡ 0 → complete ≡ false → PreEnds oracle cfg n complete
  pre_ended :
      cfg.has_pre ≡ true
      → IsValue (oracle pre_chunk).result n
      → complete ≡ ((oracle pre_chunk).sets_complete || ltb 0 n)
      → PreEnds oracle cfg n complete

-- The value of a run: of the pre chunk if it has completed the request, else of the main chunk.
pub data IsAnswer (oracle : Oracle) (cfg : Config) (complete : Bool) (n : ℕ) : Type 0 where
  of_pre : complete ≡ true → PreEnds oracle cfg n complete → IsAnswer oracle cfg complete n
  of_main :
      (p : ℕ)
      → complete ≡ false
      → PreEnds oracle cfg p complete
      → IsValue (oracle main_chunk).result n
      → IsAnswer oracle cfg complete n

-- A chunk that passes, where a condition holds.
abbrev pub PassesIf : Oracle → Bool → Chunk → Type 0
PassesIf oracle b c = b ≡ true → (n : ℕ) × IsValue (oracle c).result n

-- How a run ends. If no chunk breaks it off: with the value of the pre chunk if that has completed
-- the request and else of the main chunk, the state being initialized, after the init chunk where the state
-- was not initialized, the pre chunk, the main chunk unless the pre chunk has completed the request, and the
-- post chunk, each where it is configured; and the init and the post chunk pass where they are called.
-- Else the last chunk called has a negative result, one that is no integer, or an error.
unfoldable pub Ordered : Oracle → Config → LuaCtx → Called → Type 0
Ordered oracle cfg s (goes_on rc r) =
    Keeps s r.ctx
    × ((n : ℕ) × (rc ≡ pos n) × IsAnswer oracle cfg r.complete n)
    × (r.ctx.state_init ≡ true)
    × (r.called
        ≡ when (not s.state_init && cfg.has_init) init_chunk
          ++ (when cfg.has_pre pre_chunk
              ++ (when (not r.complete) main_chunk ++ when cfg.has_post post_chunk)))
    × PassesIf oracle (not s.state_init && cfg.has_init) init_chunk
    × PassesIf oracle cfg.has_post post_chunk
Ordered oracle cfg s (breaks_off msg r) =
    Keeps s r.ctx
    × ((c : Chunk) × ((before : List Chunk) × (r.called ≡ before ++ c ∷ [])
          × IsFailing (oracle c).result
          × (msg ≡ (oracle c).message)))

not_negative_lem :
    (r : Result) (i j : ℤ)
    → r ≡ integer i
    → to_int i ≡ j
    → ((n : ℕ) × (not_negative j ≡ some (pos n)) × IsValue r n)
      ⊎ ((not_negative j ≡ none) × IsFailing r)
unfolding not_negative
not_negative_lem r i (pos n) e p = inl (n, refl, int_value i e p)
not_negative_lem r i (negsuc n) e p = inr (refl, negative i n e p)

-- A result passes the check with its value, or does not.
check_result_lem :
    (r : Result)
    → ((n : ℕ) × (check_result r ≡ some (pos n)) × IsValue r n)
      ⊎ ((check_result r ≡ none) × IsFailing r)
unfolding check_result
check_result_lem nil = inl (0, refl, no_value refl refl)
check_result_lem (integer i) = not_negative_lem (integer i) i (to_int i) refl refl
check_result_lem other = inr (refl, no_integer refl)
check_result_lem failure = inr (refl, error refl)

-- A call of a chunk, by whether its result passes the check.
pub call_chunk_lem :
    (oracle : Oracle) (c : Chunk) (r : Running)
    → let s : LuaCtx = r.ctx in
      let t : LuaCtx = record s { state_close = s.state_close || (oracle c).sets_close } in
      ((n : ℕ) × IsValue (oracle c).result n
        × (call_chunk oracle c r
            ≡ goes_on (pos n) (record {
              ctx = t;
              complete = r.complete || completes c (oracle c).sets_complete (pos n);
              called = r.called ++ c ∷ [];
            })))
      ⊎ (IsFailing (oracle c).result
          × (call_chunk oracle c r
              ≡ breaks_off
                  (oracle c).message
                  (record { ctx = t; complete = r.complete; called = r.called ++ c ∷ [] })))
unfolding call_chunk call_ended
call_chunk_lem oracle c r = elim (check_result_lem (oracle c).result) [
  | inr (e, bad) ↦ inr (bad, rw e refl)
  | inl (n, e, value) ↦ inl (n, value, rw e refl)
]

pub or_false : (b : Bool) → (b || false) ≡ b
or_false b = ground arith

-- The context behind a call keeps what the context before it keeps.
pub Keeps-Keeps : (s t : LuaCtx) (b : Bool) → Keeps s t → Keeps s (record t { state_close = b })
Keeps-Keeps s t b k = record {
  lua = k.lua;
  req_count = k.req_count;
  state_req_max = k.state_req_max;
}

pub listing : (a b m t l : List Chunk) → l ≡ (a ++ b) ++ m → l ++ t ≡ a ++ (b ++ (m ++ t))
listing a b m t l e = simp (e, append_assoc)

pub completed :
    (b : Bool) (early l : List Chunk) → b ≡ true → l ≡ early → l ≡ early ++ when (not b) main_chunk
completed b early l e p = rw e (p ∙ sym (append-nil early))

pub pending :
    (b : Bool) (early l : List Chunk)
    → b ≡ false
    → l ≡ early
    → l ++ main_chunk ∷ [] ≡ early ++ when (not (b || false)) main_chunk
pending b early l e p = rw (e, p) refl

pub with :
    (b : Bool) (c : Chunk) (before l : List Chunk)
    → b ≡ true
    → l ≡ before
    → l ++ c ∷ [] ≡ before ++ when b c
with b c before l e p = rw (e, p) refl

pub without :
    (b : Bool) (c : Chunk) (before l : List Chunk) → b ≡ false → l ≡ before → l ≡ before ++ when b c
without b c before l e p = rw e (p ∙ sym (append-nil before))

pub not_init : (b c : Bool) → b ≡ false → when (not b && c) init_chunk ≡ when c init_chunk
not_init b c e = rw e refl

pub once : (b c : Bool) → b ≡ true → when (not b && c) init_chunk ≡ []
once b c e = rw e refl
