-- ===== src/Runtime/Loop/Answer.antt =====
-- How the rounds of the loop in src/lws_runtime.c (lines 297 to 357) answer an invocation.
use lambda_lws.Prelude.{
  ℕ, zero, suc, ◌+◌, ◌≡◌, inl, inr, Bool-cases, ◌||◌, ◌&&◌, not, List, [], ◌∷◌, if◌then◌else◌,
  ltb_ℤ, ℤ, pos, negsuc, arith,
}
use lambda_lws.Runtime.Loop.{Answers, Post, response, error, tell, send, respond, iterate}

-- How many posts have succeeded.
unfoldable pub successes : List Post → ℕ
successes [] = 0
successes (response s b ok ∷ ps) = (if ok then 1 else 0) + successes ps
successes (error ok ∷ ps) = (if ok then 1 else 0) + successes ps

-- Whether the request was handled by a response that was streamed.
unfoldable pub streamed : Answers → ℕ
streamed a = if a.next && (a.streaming && not (ltb_ℤ a.handled (pos 0))) then 1 else 0

respond_lem :
    (a : Answers) (c : ℤ)
    → (respond a c).0
        + successes (respond a c).1
        + (if a.streaming && not (ltb_ℤ c (pos 0)) then 1 else 0)
      ≡ 1
unfolding respond send tell successes
respond_lem a (pos zero) = ground arith
respond_lem a (pos (suc n)) = ground arith
respond_lem a (negsuc n) = ground arith

-- A round either ends the program or answers the invocation, and that once: by a response or an error
-- whose post succeeds, or by a streamed response. Neither is done only for a round that a term signal
-- ends.
pub iterate-streamed :
    (a : Answers)
    → (iterate a).0 + successes (iterate a).1 + streamed a
      ≡ (if a.next || a.keep_running then 1 else 0)
unfolding iterate streamed tell successes respond send
iterate-streamed a = elim (Bool-cases a.next) [
  | inl e ↦ rw e (respond_lem a a.handled)
  | inr e ↦ ground (arith, e)
]
