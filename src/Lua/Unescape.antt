-- ===== src/Lua/Unescape.antt =====
-- `lws_unescape_url` of src/lws_lib.c (lines 175 to 236). The pointer `s` is the characters before it,
-- the last one first, and those from it to `last`; what goes to `d` is the list of the bytes written. A
-- `char` is its byte: the digits' tests and the sums agree with those on a signed `char`.
pub mod Text
pub mod Rounds
pub mod Encoding
use lambda_lws.Prelude.{
  ℕ, zero, suc, ◌+◌, ◌-◌, ◌*◌, ◌%◌, ◌≤◌, ◌<◌, ◌≡◌, refl, sym, ap, ◌∙◌, inl, inr, Bool, true, false,
  Bool-cases, ◌&&◌, Option, none, some, List, [], ◌∷◌, ◌++◌, leb, ◌==◌, if◌then◌else◌, length, Run,
  ◌>>=◌, codes, arith,
}

-- The states 0, 1 (expect first hex digit) and 2 (expect second hex digit).
pub data State : Type 0 where
  plain : State
  first : State
  second : State

-- A step of the loop: the bytes written, where `s` goes, the next state and `c`.
pub data Move : Type 0 where
  on : Move
  stay : Move
  back : Move

pub record Step : Type 0 where
  pub bytes : List ℕ
  pub move : Move
  pub state : State
  pub c : ℕ

-- A hex digit's value.
unfoldable pub hex : ℕ → Option ℕ
hex b =
    if leb b'0' b && leb b b'9'
    then some (b - b'0')
    else if leb b'a' b && leb b b'f'
    then some (b - b'a' + 10)
    else if leb b'A' b && leb b b'F'
    then some (b - b'A' + 10)
    else none

-- A step in state 1 and in state 2, with the digit's value, and in state 0.
unfoldable pub first_digit : ℕ → Option ℕ → Step
first_digit c none = record { bytes = b'%' ∷ []; move = stay; state = plain; c = c }
first_digit c (some v) = record { bytes = []; move = on; state = second; c = v * 16 % 256 }

unfoldable pub second_digit : ℕ → Option ℕ → Step
second_digit c none = record { bytes = b'%' ∷ []; move = back; state = plain; c = c }
second_digit c (some v) = record { bytes = (c + v) % 256 ∷ []; move = on; state = plain; c = c }

unfoldable pub step : State → ℕ → ℕ → Step
unfolding hex first_digit second_digit
step plain c b =
    if b == b'+'
    then record { bytes = b' ' ∷ []; move = on; state = plain; c = c }
    else if b == b'%'
    then record { bytes = []; move = on; state = first; c = c }
    else record { bytes = b ∷ []; move = on; state = plain; c = c }
step first c b = first_digit c (hex b)
step second c b = second_digit c (hex b)

-- The pointer after a move, from a character `b` with the rest behind it. A move back from the start
-- leaves the memory.
unfoldable pub moved : Move → List ℕ → ℕ → List ℕ → Run (List ℕ × List ℕ)
moved on before b after = some (b ∷ before, after)
moved stay before b after = some (before, b ∷ after)
moved back [] b after = none
moved back (a ∷ before) b after = some (before, a ∷ b ∷ after)

-- The loop, on fuel; `none` is a run out of fuel, or out of the memory.
unfoldable pub unescape_loop : ℕ → List ℕ → List ℕ → State → ℕ → Run (List ℕ)
unfolding step moved
unescape_loop fuel before [] state c = some []
unescape_loop zero before (b ∷ after) state c = none
unescape_loop (suc fuel) before (b ∷ after) state c = do
  let t : Step = step state c b
  (before', after') ← moved t.move before b after
  rest ← unescape_loop fuel before' after' t.state t.c
  some (t.bytes ++ rest)

-- lws_unescape_url: the bytes written. Two rounds for each character are enough.
unfoldable pub unescape_url : List ℕ → Run (List ℕ)
unfolding unescape_loop
unescape_url src = unescape_loop (2 * length src) [] src plain 0
