-- ===== src/Codec/Utf8.antt =====
-- src/lws_codec.c, lines 20 to 21, 59 to 78 and 208 to 220: `lws_valid_utf8`, an automaton over a table whose
-- first part maps a byte to its class, and whose second maps a state and a class to a state. The
-- `n` bytes at `p` are a list.
pub mod Spec
pub mod Automaton
pub mod Valid
use lambda_lws.Prelude.{
  ℕ, ◌+◌, List, [], ◌∷◌, ◌++◌, ◌==◌, if◌then◌else◌, get_or, ℤ, rc_ok, rc_error,
}

-- LWS_UTF8_ACCEPT and LWS_UTF8_REJECT
abbrev pub accept : ℕ
accept = 0

abbrev pub reject : ℕ
reject = 12

classes : List ℕ
classes =
    0 ∷ 0 ∷ 0 ∷ 0 ∷ 0 ∷ 0 ∷ 0 ∷ 0 ∷ 0 ∷ 0 ∷ 0 ∷ 0 ∷ 0 ∷ 0 ∷ 0 ∷ 0 ∷ 0 ∷ 0 ∷ 0 ∷ 0 ∷ 0 ∷ 0 ∷ 0 ∷ 0
    ∷ 0 ∷ 0 ∷ 0 ∷ 0 ∷ 0 ∷ 0 ∷ 0 ∷ 0 ∷ 0 ∷ 0 ∷ 0 ∷ 0 ∷ 0 ∷ 0 ∷ 0 ∷ 0 ∷ 0 ∷ 0 ∷ 0 ∷ 0 ∷ 0 ∷ 0 ∷ 0 ∷ 0
    ∷ 0 ∷ 0 ∷ 0 ∷ 0 ∷ 0 ∷ 0 ∷ 0 ∷ 0 ∷ 0 ∷ 0 ∷ 0 ∷ 0 ∷ 0 ∷ 0 ∷ 0 ∷ 0 ∷ 0 ∷ 0 ∷ 0 ∷ 0 ∷ 0 ∷ 0 ∷ 0 ∷ 0
    ∷ 0 ∷ 0 ∷ 0 ∷ 0 ∷ 0 ∷ 0 ∷ 0 ∷ 0 ∷ 0 ∷ 0 ∷ 0 ∷ 0 ∷ 0 ∷ 0 ∷ 0 ∷ 0 ∷ 0 ∷ 0 ∷ 0 ∷ 0 ∷ 0 ∷ 0 ∷ 0 ∷ 0
    ∷ 0 ∷ 0 ∷ 0 ∷ 0 ∷ 0 ∷ 0 ∷ 0 ∷ 0 ∷ 0 ∷ 0 ∷ 0 ∷ 0 ∷ 0 ∷ 0 ∷ 0 ∷ 0 ∷ 0 ∷ 0 ∷ 0 ∷ 0 ∷ 0 ∷ 0 ∷ 0 ∷ 0
    ∷ 0 ∷ 0 ∷ 0 ∷ 0 ∷ 0 ∷ 0 ∷ 0 ∷ 0 ∷ 1 ∷ 1 ∷ 1 ∷ 1 ∷ 1 ∷ 1 ∷ 1 ∷ 1 ∷ 1 ∷ 1 ∷ 1 ∷ 1 ∷ 1 ∷ 1 ∷ 1 ∷ 1
    ∷ 9 ∷ 9 ∷ 9 ∷ 9 ∷ 9 ∷ 9 ∷ 9 ∷ 9 ∷ 9 ∷ 9 ∷ 9 ∷ 9 ∷ 9 ∷ 9 ∷ 9 ∷ 9 ∷ 7 ∷ 7 ∷ 7 ∷ 7 ∷ 7 ∷ 7 ∷ 7 ∷ 7
    ∷ 7 ∷ 7 ∷ 7 ∷ 7 ∷ 7 ∷ 7 ∷ 7 ∷ 7 ∷ 7 ∷ 7 ∷ 7 ∷ 7 ∷ 7 ∷ 7 ∷ 7 ∷ 7 ∷ 7 ∷ 7 ∷ 7 ∷ 7 ∷ 7 ∷ 7 ∷ 7 ∷ 7
    ∷ 8 ∷ 8 ∷ 2 ∷ 2 ∷ 2 ∷ 2 ∷ 2 ∷ 2 ∷ 2 ∷ 2 ∷ 2 ∷ 2 ∷ 2 ∷ 2 ∷ 2 ∷ 2 ∷ 2 ∷ 2 ∷ 2 ∷ 2 ∷ 2 ∷ 2 ∷ 2 ∷ 2
    ∷ 2 ∷ 2 ∷ 2 ∷ 2 ∷ 2 ∷ 2 ∷ 2 ∷ 2 ∷ 10 ∷ 3 ∷ 3 ∷ 3 ∷ 3 ∷ 3 ∷ 3 ∷ 3 ∷ 3 ∷ 3 ∷ 3 ∷ 3 ∷ 3 ∷ 4 ∷ 3 ∷ 3
    ∷ 11 ∷ 6 ∷ 6 ∷ 6 ∷ 5 ∷ 8 ∷ 8 ∷ 8 ∷ 8 ∷ 8 ∷ 8 ∷ 8 ∷ 8 ∷ 8 ∷ 8 ∷ 8 ∷ []

transitions : List ℕ
transitions =
    0 ∷ 12 ∷ 24 ∷ 36 ∷ 60 ∷ 96 ∷ 84 ∷ 12 ∷ 12 ∷ 12 ∷ 48 ∷ 72 ∷ 12 ∷ 12 ∷ 12 ∷ 12 ∷ 12 ∷ 12 ∷ 12 ∷ 12
    ∷ 12 ∷ 12 ∷ 12 ∷ 12 ∷ 12 ∷ 0 ∷ 12 ∷ 12 ∷ 12 ∷ 12 ∷ 12 ∷ 0 ∷ 12 ∷ 0 ∷ 12 ∷ 12 ∷ 12 ∷ 24 ∷ 12 ∷ 12
    ∷ 12 ∷ 12 ∷ 12 ∷ 24 ∷ 12 ∷ 24 ∷ 12 ∷ 12 ∷ 12 ∷ 12 ∷ 12 ∷ 12 ∷ 12 ∷ 12 ∷ 12 ∷ 24 ∷ 12 ∷ 12 ∷ 12
    ∷ 12 ∷ 12 ∷ 24 ∷ 12 ∷ 12 ∷ 12 ∷ 12 ∷ 12 ∷ 12 ∷ 12 ∷ 24 ∷ 12 ∷ 12 ∷ 12 ∷ 12 ∷ 12 ∷ 12 ∷ 12 ∷ 12
    ∷ 12 ∷ 36 ∷ 12 ∷ 36 ∷ 12 ∷ 12 ∷ 12 ∷ 36 ∷ 12 ∷ 12 ∷ 12 ∷ 12 ∷ 12 ∷ 36 ∷ 12 ∷ 36 ∷ 12 ∷ 12 ∷ 12
    ∷ 36 ∷ 12 ∷ 12 ∷ 12 ∷ 12 ∷ 12 ∷ 12 ∷ 12 ∷ 12 ∷ 12 ∷ 12 ∷ []

unfoldable pub utf8d : List ℕ
unfolding classes transitions
utf8d = classes ++ transitions

-- utf8d[256 + state + utf8d[b]]
unfoldable pub next : ℕ → ℕ → ℕ
next state b = get_or utf8d (256 + state + get_or utf8d b 0) 0

-- The loop, from a state, with the return value.
unfoldable pub utf8_loop : ℕ → List ℕ → ℤ
utf8_loop state [] = if state == accept then rc_ok else rc_error
utf8_loop state (b ∷ bs) =
    let rest = utf8_loop (next state b) bs in if next state b == reject then rc_error else rest

-- lws_valid_utf8
unfoldable pub valid_utf8 : List ℕ → ℤ
valid_utf8 p = utf8_loop accept p
