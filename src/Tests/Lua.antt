-- ===== src/Tests/Lua.antt =====
-- Texts with escapes, `lws_unescape_url` at them, and the theorems on it.
use lambda_lws.Prelude.{ℕ, ◌≡◌, refl, Bool, none, some, List, [], ◌∷◌, codes, map, leb, ◌&&◌, arith}
use lambda_lws.Lua.Unescape.{
  hex, first_digit, second_digit, step, moved, unescape_loop, unescape_url,
}
use lambda_lws.Lua.Unescape.Text.{plain_text, escaped, unescaped, digit_value, place, either_of}
use lambda_lws.Lua.Unescape.Rounds.{unescape_url_lem}
use lambda_lws.Lua.Unescape.Encoding.{hex_digit, percent_encode, unescape_url-percent_encode}

program : List ℕ
unfolding hex first_digit second_digit step moved unescape_loop unescape_url plain_text escaped
    unescaped hex_digit percent_encode
program = []

unescape_name : unescape_url (codes "a+b%2Fc%4z") ≡ some (codes "a b/c%4z")
unfolding program
unescape_name = refl

-- An escape that the end of the text cuts off is lost.
unescape_cut : unescape_url (codes "a%2") ≡ some (codes "a")
unfolding program
unescape_cut = refl

-- The lower-case letters are kept.
abbrev letters : ℕ → Bool
letters b = leb b'a' b && leb b b'z'

encode_path : percent_encode letters (codes "a+b") ≡ codes "a%2Bb"
unfolding program
encode_path = refl

-- The digits in both cases, and what is beside them.
digits :
    map digit_value (codes "09afAF/:@G`g")
    ≡ some 0
      ∷ some 9
      ∷ some 10
      ∷ some 15
      ∷ some 10
      ∷ some 15
      ∷ none
      ∷ none
      ∷ none
      ∷ none
      ∷ none
      ∷ none
      ∷ []
unfolding digit_value place either_of
digits = refl

unescape_url_lem_example : unescape_url (codes "a+b%2Fc%4z") ≡ some (unescaped (codes "a+b%2Fc%4z"))
unescape_url_lem_example = unescape_url_lem (codes "a+b%2Fc%4z")

unescape_url-percent_encode_example :
    unescape_url (percent_encode letters (codes "a+b/")) ≡ some (codes "a+b/")
unescape_url-percent_encode_example =
    unescape_url-percent_encode letters (codes "a+b/") refl refl (omega arith)
