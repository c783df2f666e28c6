-- ===== src/Interface/Perform/Kept.antt =====
-- `lws_curl_perform` (src/lws_interface.c, lines 67 to 138) without LWS_CURL_FINALIZE, and the handle
-- behind it.
use lambda_lws.Prelude.{
  ◌≡◌, refl, sym, ap, ◌∙◌, inl, inr, Bool, true, false, Bool-cases, ◌||◌, not, none, some, List, [],
  ◌∷◌, ◌==◌, if◌then◌else◌, if_on, if_off, ℤ, rc_ok, rc_error, Run, ◌>>=◌, arith,
}
use lambda_lws.Interface.Perform.{
  Round, Curl, Conn, Driven, failed, suspended, complete, drive_round, drive, finish, perform,
}
use lambda_lws.Interface.Perform.Attached.{negative}

abbrev driven : Driven → Bool → Run (Driven × Bool)
driven d p = some (d, p)

abbrev is_complete : Driven → Bool
is_complete failed = false
is_complete suspended = false
is_complete complete = true

ends_lem : (d e : Driven) (p q : Bool) → driven d p ≡ driven e q → is_complete d ≡ is_complete e
ends_lem d e p q h =
    ap (λ (o : Run (Driven × Bool)). elim o [ none ↦ is_complete d | some (x, y) ↦ is_complete x ])
      h

no_run : (d : Driven) (p : Bool) → none ≡ driven d p → ⊥
no_run d p h = cc

-- Without LWS_CURL_FINALIZE the loop does not go on to the result.
drive_lem : (rs : List Round) (p : Bool) → drive false rs ≡ driven complete p → ⊥
unfolding drive drive_round
drive_lem [] p h = no_run complete p h
drive_lem (r ∷ rs) p h = elim (Bool-cases r.ok) [
  | inr e ↦
      let bad =
        ends_lem failed complete r.paused p (
          sym (if_off r.ok (drive_round false r (drive false rs)) (driven failed r.paused) e)
          ∙ h) in
      cc
  | inl e ↦
      let goes : drive_round false r (drive false rs) ≡ driven complete p =
        sym (if_on r.ok (drive_round false r (drive false rs)) (driven failed r.paused) e) ∙ h in
      elim (Bool-cases (r.paused || (r.remain == 0))) [
        | inl q ↦
            let bad = ends_lem suspended complete r.paused p (
              sym (
                if_on (r.paused || (r.remain == 0)) (driven suspended r.paused)
                  (if r.remain == 0 then driven complete r.paused else drive false rs) q)
              ∙ goes) in
            cc
        | inr q ↦
            let busy : (r.remain == 0) ≡ false = ground (arith, q) in
            drive_lem rs p (
              sym (
                if_off (r.paused || (r.remain == 0)) (driven suspended r.paused)
                  (if r.remain == 0 then driven complete r.paused else drive false rs) q
                ∙ if_off (r.remain == 0) (driven complete r.paused) (drive false rs) busy)
              ∙ goes)
      ]
]

abbrev pub answer : ℤ → Conn → Run (ℤ × Conn)
answer rc c = some (rc, c)

code_lem : (a b : ℤ) (c d : Conn) → answer a c ≡ answer b d → a ≡ b
code_lem a b c d h = ap (λ (o : Run (ℤ × Conn)). elim o [ none ↦ a | some (x, y) ↦ x ]) h

conn_lem : (a b : ℤ) (c d : Conn) → answer a c ≡ answer b d → c ≡ d
conn_lem a b c d h = ap (λ (o : Run (ℤ × Conn)). elim o [ none ↦ c | some (x, y) ↦ y ]) h

finish_kept :
    (a : Curl) (c d : Conn) (x : Driven) (p : Bool)
    → drive false a.rounds ≡ driven x p
    → finish a c (x, p) ≡ answer rc_ok d
    → d.attached ≡ c.attached
unfolding finish
finish_kept a c d failed p e h =
    absurd (negative (code_lem rc_error rc_ok (record c { streaming_paused = p }) d h))
finish_kept a c d suspended p e h =
    ap (λ (k : Conn). k.attached)
      (sym (conn_lem rc_ok rc_ok (record c { streaming_paused = p }) d h))
finish_kept a c d complete p e h = absurd (drive_lem a.rounds p e)

pub no_answer : (rc : ℤ) (c : Conn) → none ≡ answer rc c → ⊥
no_answer rc c h = cc

kept_run :
    (a : Curl) (c d : Conn) (o : Run (Driven × Bool))
    → drive false a.rounds ≡ o
    → (o >>= finish a c) ≡ answer rc_ok d
    → d.attached ≡ c.attached
kept_run a c d none e h = absurd (no_answer rc_ok d h)
kept_run a c d (some (x, p)) e h = finish_kept a c d x p e h

-- A call that succeeds without LWS_CURL_FINALIZE leaves the handle added.
pub perform_kept :
    (a : Curl) (initiate : Bool) (c d : Conn)
    → perform a initiate false c ≡ answer rc_ok d
    → d.attached ≡ (if initiate then true else c.attached)
unfolding perform
perform_kept a false c d h = kept_run a c d (drive false a.rounds) refl h
perform_kept a true c d h =
    let begun : Conn = record c { attached = true } in
    elim (Bool-cases (not a.adds)) [
      | inl e ↦ absurd (
          negative (
            code_lem rc_error rc_ok c d (
              sym
                (if_on (not a.adds) (answer rc_error c) (drive false a.rounds >>= finish a begun) e)
              ∙ h)))
      | inr e ↦ kept_run a begun d (drive false a.rounds) refl (
          sym (if_off (not a.adds) (answer rc_error c) (drive false a.rounds >>= finish a begun) e)
          ∙ h)
    ]
