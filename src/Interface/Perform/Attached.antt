-- ===== src/Interface/Perform/Attached.antt =====
-- How `lws_curl_perform` (src/lws_interface.c, lines 67 to 138) ends, and whether the handle is still added
-- to the multi handle then.
use lambda_lws.Prelude.{
  ℕ, zero, suc, ◌<◌, ◌≡◌, refl, sym, ◌∙◌, inl, inr, Bool, true, false, Bool-cases, ◌&&◌, not,
  Option, none, some, List, ◌∷◌, ◌==◌, if◌then◌else◌, get_elem?, ℤ, rc_ok, rc_error, ◌>>=◌, Returns,
  arith,
}
use lambda_lws.Interface.Perform.{
  Round, Message, Curl, Conn, complete, drive_round, drive, is_success, reap, detach, finish,
  perform,
}

-- The calls of curl_multi_perform succeed until no transfer remains.
pub data Serves : List Round → Type 0 where
  last : (r : Round) (rs : List Round) → r.ok ≡ true → r.remain ≡ 0 → Serves (r ∷ rs)
  next : (r : Round) (rs : List Round) → r.ok ≡ true → 0 < r.remain → Serves rs → Serves (r ∷ rs)

-- The messages end.
pub data EndsIn : List (Option Message) → Type 0 where
  null : (ms : List (Option Message)) → EndsIn (none ∷ ms)
  later : (m : Message) (ms : List (Option Message)) → EndsIn ms → EndsIn (some m ∷ ms)

-- The first message that is done tells a success, with a status from 200 to 299.
pub record Accepted (ms : List (Option Message)) : Type 0 where
  pub number : ℕ
  pub message : Message
  pub at : get_elem? ms number ≡ some (some message)
  pub done_lem : message.done ≡ true
  pub ok_lem : message.ok ≡ true
  pub success : is_success message.code ≡ true
  pub before :
      (j : ℕ) → j < number → (m : Message) × (get_elem? ms j ≡ some (some m)) × (m.done ≡ false)

drive_lem : (rs : List Round) → Serves rs → (p : Bool) × (drive true rs ≡ some (complete, p))
unfolding drive drive_round
drive_lem _ (last r rs ok zero_lem) =
    let z : (r.remain == 0) ≡ true = ground (arith, zero_lem) in (r.paused, rw (ok, z) refl)
drive_lem _ (next r rs ok some_lem s) =
    let z : (r.remain == 0) ≡ false = ground (arith, some_lem) in
    let (p, e) = drive_lem rs s in (p, rw (ok, z) e)

Accepted-later :
    (m : Message) (ms : List (Option Message))
    → m.done ≡ false
    → Accepted ms
    → Accepted (some m ∷ ms)
Accepted-later m ms h a = record {
  number = suc a.number;
  message = a.message;
  at = a.at;
  done_lem = a.done_lem;
  ok_lem = a.ok_lem;
  success = a.success;
  before = before_lem;
}
  where
    before_lem :
        (j : ℕ)
        → j < suc a.number
        → (n : Message) × (get_elem? (some m ∷ ms) j ≡ some (some n)) × (n.done ≡ false)
    before_lem zero l = (m, refl, h)
    before_lem (suc j) l = a.before j (omega (arith, l))

reap_lem :
    (ms : List (Option Message)) → EndsIn ms → Returns (reap ms) (λ ok. ok ≡ true → Accepted ms)
unfolding reap
reap_lem _ (null ms) = (false, refl, λ h. absurd cc)
reap_lem _ (later m ms e) = elim (Bool-cases m.done) [
  | inl d ↦ (
    m.ok && is_success m.code,
    rw d refl,
    λ h. record {
      number = 0;
      message = m;
      at = refl;
      done_lem = d;
      ok_lem = ground (arith, h);
      success = ground (arith, h);
      before = λ j l. absurd (omega (arith, l));
    },
  )
  | inr d ↦
      let (ok, runs, good) = reap_lem ms e in (ok, rw d runs, λ h. Accepted-later m ms d (good h))
]

-- What a call that finalizes leaves: the handle is removed, unless that fails, and the code is 0 only where
-- the request was accepted.
pub record Finalized (a : Curl) (rc : ℤ) (d : Conn) : Type 0 where
  pub released : a.removes ≡ true → d.attached ≡ false
  pub accepted : rc ≡ rc_ok → Accepted a.messages × (d.attached ≡ false)

pub negative : rc_error ≡ rc_ok → ⊥
negative h = cc

detach_lem :
    (a : Curl) (removes ok : Bool) (c : Conn)
    → a.removes ≡ removes
    → (ok ≡ true → Accepted a.messages)
    → Finalized a (detach removes ok c).0 (detach removes ok c).1
unfolding detach
detach_lem a false ok c e good = record {
  released = λ h. (let clash : true ≡ false = sym h ∙ e in absurd cc);
  accepted = λ h. absurd (negative h);
}
detach_lem a true true c e good = record { released = λ h. refl; accepted = λ h. (good refl, refl) }
detach_lem a true false c e good = record {
  released = λ h. refl;
  accepted = λ h. absurd (negative h);
}

-- If the calls of curl_multi_perform succeed until no transfer remains, and the messages end, then
-- lws_curl_perform with LWS_CURL_FINALIZE, where the handle could be added if that is due, returns; the
-- handle is removed, if curl_multi_remove_handle succeeds, whether the request was accepted or not; and 0
-- is returned only where the first message that is done tells a success with a status from 200 to 299 and
-- the handle is removed.
pub perform_lem :
    (a : Curl) (initiate : Bool) (c : Conn)
    → (initiate && not a.adds) ≡ false
    → Serves a.rounds
    → EndsIn a.messages
    → Returns (perform a initiate true c) (λ (rc, d). Finalized a rc d)
unfolding perform finish
perform_lem a initiate c added s e =
    let (p, drives) = drive_lem a.rounds s in
    let (ok, reaps, good) = reap_lem a.messages e in
    let c' : Conn = if initiate then record c { attached = true } else c in
    let c'' : Conn = record c' { streaming_paused = p } in
    (
      detach a.removes ok c'',
      rw (added, drives, ◌>>=◌, reaps) refl,
      detach_lem a a.removes ok c'' refl good,
    )
