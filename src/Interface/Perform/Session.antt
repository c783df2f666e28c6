-- ===== src/Interface/Perform/Session.antt =====
-- A streaming response as a sequence of calls of `lws_stream_response` (src/lws_interface.c, lines 832 to
-- 933): one for each write, and one that finishes it.
use lambda_lws.Prelude.{
  ◌≡◌, Bool, true, false, ◌&&◌, not, some, if◌then◌else◌, ℤ, rc_ok, rc_error, Run,
}
use lambda_lws.Interface.Perform.{
  Conn, Ctx, StreamAnswers, start_stream, resume_stream, stream_response,
}

abbrev reply : ℤ → Ctx → Run (ℤ × Ctx)
reply rc s = some (rc, s)

-- While the response is streamed, and only then, the handle is added.
pub record IsLive (s : Ctx) : Type 0 where
  pub attached_lem : s.conn.attached ≡ true
  pub streaming_lem : s.streaming ≡ true
  pub regular : s.raw ≡ false

abbrev with_conn : Ctx → ℤ × Conn → Run (ℤ × Ctx)
with_conn t (rc, d) = reply rc (record t { conn = d })

abbrev continues : StreamAnswers → Bool → Ctx → Run (ℤ × Ctx)
continues a last s =
    if s.conn.streaming_paused && not a.resumes then reply rc_error s else resume_stream a last s

abbrev streams : StreamAnswers → Bool → Ctx → Run (ℤ × Ctx)
streams a last s = if s.streaming then continues a last s else start_stream a s

-- Calls that succeed, none of which finishes the response.
pub data Calls : Ctx → Ctx → Type 0 where
  first : (a : StreamAnswers) (s t : Ctx) → stream_response a false s ≡ some (rc_ok, t) → Calls s t
  then_call :
      (a : StreamAnswers) (s t u : Ctx)
      → Calls s t
      → stream_response a false t ≡ some (rc_ok, u)
      → Calls s u
