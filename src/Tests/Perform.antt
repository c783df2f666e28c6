-- ===== src/Tests/Perform.antt =====
-- The posts of src/lws_interface.c at concrete answers of libcurl.
use lambda_lws.Prelude.{◌≡◌, refl, true, false, none, some, [], ◌∷◌, codes, Returns, pos, rc_ok}
use lambda_lws.Body.Response.Write
use lambda_lws.Interface.Perform.{
  Round, Message, Curl, Conn, drive_round, drive, is_success, reap, detach, finish, perform, Ctx,
  StreamAnswers, post_error,
}
use lambda_lws.Interface.Post.{PostAnswers}
use lambda_lws.Interface.Post.Outcome.{Ended}
use lambda_lws.Request.ErrorResponse
use lambda_lws.Request.ErrorResponse.{error_response}
use lambda_lws.Request.ErrorResponse.Written.{error_response_lem}
use lambda_lws.Tests.Body.{fresh, fresh-Reallocates, small, small-IsValid}

abbrev more : Round
more = record { ok = true; remain = 1; paused = false }

abbrev pausing : Round
pausing = record { ok = true; remain = 1; paused = true }

abbrev no_more : Round
no_more = record { ok = true; remain = 0; paused = false }

abbrev ok_200 : Message
ok_200 = record { done = true; ok = true; code = some 200 }

-- A transfer that ends in the second round, with the status 200.
abbrev served : Curl
served = record {
  adds = true;
  rounds = more ∷ no_more ∷ [];
  messages = some ok_200 ∷ none ∷ [];
  removes = true;
}

abbrev closed : Conn
closed = record { attached = false; streaming_paused = false }

error_posted : post_error true (some (codes "{}")) served closed ≡ some (rc_ok, closed)
unfolding post_error perform drive drive_round finish reap is_success detach
error_posted = refl

abbrev fresh_ctx : Ctx
fresh_ctx = record { raw = false; streaming = false; prelude = none; conn = closed }

-- The first call pauses behind the prelude.
abbrev opening : StreamAnswers
opening = record {
  resumes = true;
  prepared = true;
  written = some (codes "{}");
  curl = record { adds = true; rounds = pausing ∷ []; messages = []; removes = true };
}

abbrev closing : StreamAnswers
closing = record { resumes = true; prepared = true; written = none; curl = served }

abbrev live_ctx : Ctx
live_ctx = record {
  raw = false;
  streaming = true;
  prelude = some (codes "{}");
  conn = record { attached = true; streaming_paused = true };
}

abbrev posting : PostAnswers
posting = record {
  listed = true;
  made = true;
  adds = true;
  written = λ body base64. some (codes "{}");
  null_written = some (codes "null");
  curl = served;
}

-- An error response for 404 in place of what the body holds.
abbrev answers : ErrorResponse.Answers
answers = record {
  opened = true;
  made = true;
  written = λ doc. codes "{}";
  diagnostic = none;
  content_type = none;
}

error_response_lem_example :
    Returns
      (error_response fresh answers small (pos 404))
      (ErrorResponse.Written.Ended fresh (codes "{}"))
error_response_lem_example =
    error_response_lem fresh answers small (pos 404) fresh-Reallocates small-IsValid refl refl
