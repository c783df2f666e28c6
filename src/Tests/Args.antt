-- ===== src/Tests/Args.antt =====
-- Arguments of a request: `lws_parseargs` of src/lws_lib.c at them.
use lambda_lws.Prelude.{ℕ, ◌≡◌, refl, Bool, some, List, [], ◌∷◌, ◌&&◌, leb, codes, arith}
use lambda_lws.Lua.Unescape.{
  first_digit, second_digit, step, hex, moved, unescape_loop, unescape_url,
}
use lambda_lws.Lua.Args.{
  is_delimiter, token, item, at_equals, field, continued, parse_loop, parse_args,
}
use lambda_lws.Lua.Args.Pairs.{IsKeeping, encode_args, parse_args-encode_args}

-- The encoding that keeps lower case letters.
unfoldable lower : ℕ → Bool
lower c = leb b'a' c && leb c b'z'

lower-IsKeeping : IsKeeping lower
unfolding lower
lower-IsKeeping = record { plus = refl; percent = refl; equals = refl; ampersand = refl }

-- The pairs (q, a&b) and (r, "")
abbrev two_pairs : List (List ℕ × List ℕ)
two_pairs = (codes "q", codes "a&b") ∷ (codes "r", []) ∷ []

parse_args-encode_args_example : parse_args (encode_args lower two_pairs) ≡ some two_pairs
parse_args-encode_args_example =
    parse_args-encode_args lower two_pairs lower-IsKeeping (omega arith)

-- A second "=" starts a key of its own; a field without one has an empty value.
parse_equals :
    parse_args (codes "a=b=c&&d")
    ≡ some ((codes "a", codes "b") ∷ (codes "c", []) ∷ (codes "d", []) ∷ [])
unfolding parse_args parse_loop continued field at_equals item token is_delimiter unescape_url
    unescape_loop moved step first_digit second_digit hex
parse_equals = refl
