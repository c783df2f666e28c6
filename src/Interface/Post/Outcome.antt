-- ===== src/Interface/Post/Outcome.antt =====
-- What `lws_post_response` (src/lws_interface.c, lines 693 to 830) posts, and how it ends.
use lambda_lws.Prelude.{ℕ, ◌≤◌, ◌≡◌, Bool, true, none, List, length, rc_error, Returns}
use lambda_lws.Body.Response.{Response}
use lambda_lws.Body.Response.Write.{content}
use lambda_lws.Body.Response.Send.{Sent, given_up, ready}
use lambda_lws.Interface.Invocation.{off_t_max}
use lambda_lws.Interface.Perform.{Conn}
use lambda_lws.Interface.Perform.Attached.{Serves, EndsIn, Finalized}
use lambda_lws.Interface.Post.{PostAnswers, Posted}

-- yyjson makes what it is asked for, with a size that libcurl takes, and libcurl serves the post.
pub record IsServed (a : PostAnswers) : Type 0 where
  pub listed : a.listed ≡ true
  pub made : a.made ≡ true
  pub adds : a.adds ≡ true
  pub written :
      (body : List ℕ) (base64 : Bool)
      → Returns (a.written body base64) (λ json. length json ≤ off_t_max)
  pub attaches : a.curl.adds ≡ true
  pub serves : Serves a.curl.rounds
  pub ends : EndsIn a.curl.messages

-- The end of a call, by what was prepared: nothing is posted, or the JSON for the body and its flag.
pub Ended : PostAnswers → Conn → Sent → Posted → Type 0
Ended a c (given_up t) p = (p.rc ≡ rc_error) × (p.conn ≡ c) × (p.bytes ≡ none)
Ended a c (ready base64 t) p =
    (p.response ≡ t) × (p.bytes ≡ a.written (content t) base64) × Finalized a.curl p.rc p.conn
