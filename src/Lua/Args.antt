-- ===== src/Lua/Args.antt =====
-- `lws_parseargs` of src/lws_lib.c (lines 755 to 826): the arguments of a request as a Lua table. The
-- table is the pairs that `lua_rawset` is called with, in that order; the number of records for which it
-- makes room has no effect on them.
pub mod Pairs
use lambda_lws.Prelude.{
  ℕ, zero, suc, ◌+◌, Bool, true, false, ◌||◌, Option, none, some, List, [], ◌∷◌, ◌++◌, ◌==◌,
  if◌then◌else◌, length, Run, ◌>>=◌,
}
use lambda_lws.Lua.Unescape.{unescape_url}

-- *pos is '=' or '&'
unfoldable pub is_delimiter : ℕ → Bool
is_delimiter c = (c == b'=') || (c == b'&')

-- The characters up to a delimiter, and those from it on.
unfoldable pub token : List ℕ → List ℕ × List ℕ
token [] = ([], [])
token (c ∷ cs) = let q = token cs in if is_delimiter c then ([], c ∷ cs) else (c ∷ q.0, q.1)

-- What is pushed for it.
unfoldable pub item : List ℕ → Run (List ℕ)
item tok = if length tok == 0 then some [] else unescape_url tok

-- *pos == '=', at the end of the text a zero byte
unfoldable pub at_equals : List ℕ → Bool
at_equals [] = false
at_equals (c ∷ cs) = c == b'='

-- The key for state 1 (`none` for state 0), and the pairs that are set, by the state, the token, its
-- item, and what follows it.
unfoldable pub field :
    Option (List ℕ) → List ℕ → List ℕ → List ℕ → Option (List ℕ) × List (List ℕ × List ℕ)
field (some key) tok value rest = (none, (key, value) ∷ [])
field none tok value rest =
    if at_equals rest
    then (some value, [])
    else (none, if length tok == 0 then [] else (value, []) ∷ [])

-- pos >= last, or pos++ and the next round
unfoldable pub continued :
    (Option (List ℕ) → List ℕ → Run (List (List ℕ × List ℕ)))
    → List ℕ
    → Option (List ℕ) × List (List ℕ × List ℕ)
    → Run (List (List ℕ × List ℕ))
continued next [] (key, pairs) = some pairs
continued next (c ∷ cs) (key, pairs) = next key cs >>= (λ more. some (pairs ++ more))

-- The loop, on fuel; `none` is a run out of fuel.
unfoldable pub parse_loop : ℕ → Option (List ℕ) → List ℕ → Run (List (List ℕ × List ℕ))
parse_loop zero key text = none
parse_loop (suc fuel) key text = item (token text).0 >>= (λ value.
    continued (parse_loop fuel) (token text).1 (field key (token text).0 value (token text).1))

-- lws_parseargs. A round for each character and one more are enough.
unfoldable pub parse_args : List ℕ → Run (List (List ℕ × List ℕ))
parse_args args = if length args == 0 then some [] else parse_loop (length args + 1) none args
