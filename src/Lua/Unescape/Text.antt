-- ===== src/Lua/Unescape/Text.antt =====
-- The text that `lws_unescape_url` (src/lws_lib.c, lines 175 to 236) has to write, with the hex digits as a
-- row of digits.
use lambda_lws.Prelude.{
  ℕ, ◌+◌, ◌*◌, ◌≡◌, Option, none, some, List, [], ◌∷◌, codes, ◌==◌, if◌then◌else◌, arith,
}
use lambda_lws.Lua.Unescape.{hex}

-- Where a character stands in a text, counted from a number.
unfoldable pub place : ℕ → List ℕ → ℕ → Option ℕ
place b [] i = none
place b (c ∷ cs) i = let rest = place b cs (i + 1) in if b == c then some i else rest

-- The first of two answers.
unfoldable pub either_of : Option ℕ → Option ℕ → Option ℕ
either_of none o = o
either_of (some v) o = some v

-- The value of a hex digit is its place in the row of digits, in lower or in upper case.
unfoldable pub digit_value : ℕ → Option ℕ
digit_value b =
    either_of (place b (codes "0123456789abcdef") 0) (place b (codes "0123456789ABCDEF") 0)

-- What a character stands for outside of an escape.
unfoldable pub plain_text : ℕ → ℕ
plain_text b = if b == b'+' then b' ' else b

-- Whether two characters are the digits of an escape, and its byte.
unfoldable pub escaped : Option ℕ → Option ℕ → Option ℕ
escaped none l = none
escaped (some h) none = none
escaped (some h) (some l) = some (h * 16 + l)

-- The text of `%` and what is behind it: an escape, or a `%` that stands for itself. At the end of the
-- text an escape that is not complete stands for nothing.
unfoldable pub unescaped : List ℕ → List ℕ
unfolding plain_text escaped
unescaped [] = []
unescaped (a ∷ []) = if a == b'%' then [] else plain_text a ∷ []
unescaped (a ∷ b ∷ []) =
    let rest = unescaped (b ∷ []) in
    if a == b'%'
    then elim (digit_value b) [ none ↦ b'%' ∷ rest | some v ↦ [] ]
    else plain_text a ∷ rest
unescaped (a ∷ b ∷ c ∷ s) =
    let rest = unescaped (b ∷ c ∷ s) in
    let behind = unescaped s in
    if a == b'%'
    then elim (escaped (digit_value b) (digit_value c)) [ none ↦ b'%' ∷ rest | some v ↦ v ∷ behind ]
    else plain_text a ∷ rest

-- The digits of the code are those of the table.
pub hex-digit_value : (b : ℕ) → hex b ≡ digit_value b
unfolding hex digit_value place either_of
hex-digit_value b = ground arith
