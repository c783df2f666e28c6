-- ===== src/Interface/Cookies.antt =====
-- The cookies of a response in src/lws_interface.c: `lws_add_cookie` (lines 602 to 622) and the part of
-- `lws_add_headers` that splits the value of Set-Cookie (lines 671 to 689). The array of yyjson is the list
-- of its strings; whether yyjson makes a string, and adds it to an array, is a parameter. A run is `none`
-- if it reads outside of the value.
pub mod Fold
pub mod Split
use lambda_lws.Prelude.{
  ℕ, zero, suc, ◌+◌, ◌-◌, Bool, true, false, Option, none, some, List, [], ◌∷◌, ◌++◌, ltb, ◌==◌,
  if◌then◌else◌, load, ℤ, pos, negsuc, rc_ok, rc_error, Run, ◌>>=◌,
}
use lambda_lws.Interface.Header.{is_blank, bytes_at}

-- yyjson_mut_strn and yyjson_mut_arr_add_val, by the array so far and the string
pub record Writer : Type 0 where
  pub makes : List (List ℕ) → List ℕ → Bool
  pub adds : List (List ℕ) → List ℕ → Bool

-- The loop that makes start larger, on the distance to the end.
unfoldable pub skip_start : List ℕ → ℕ → ℕ → Run ℕ
skip_start sc_data start zero = some start
skip_start sc_data start (suc n) =
    let rest = skip_start sc_data (start + 1) n in
    load sc_data start >>= (λ c. if is_blank c then rest else some start)

-- The loop that makes end smaller: what is left of the distance to the start.
unfoldable pub trim_end : List ℕ → ℕ → ℕ → Run ℕ
trim_end sc_data start zero = some 0
trim_end sc_data start (suc n) =
    let rest = trim_end sc_data start n in
    load sc_data (start + n) >>= (λ c. if is_blank c then rest else some (suc n))

-- The string is made and added.
unfoldable pub put_cookie : Writer → List ℕ → List (List ℕ) → ℤ × List (List ℕ)
put_cookie w text arr =
    if w.makes arr text
    then (if w.adds arr text then (rc_ok, arr ++ text ∷ []) else (rc_error, arr))
    else (rc_error, arr)

-- lws_add_cookie, for start <= end
unfoldable pub add_cookie : Writer → List ℕ → ℕ → ℕ → List (List ℕ) → Run (ℤ × List (List ℕ))
add_cookie w sc_data start end' arr = do
  s ← skip_start sc_data start (end' - start)
  n ← trim_end sc_data s (end' - s)
  if ltb s (s + n)
      then bytes_at sc_data s n >>= (λ text. some (put_cookie w text arr))
      else some (rc_ok, arr)

-- What follows a cookie in the loop.
unfoldable pub next_cookie :
    ℤ × List (List ℕ) → (List (List ℕ) → Run (ℤ × List (List ℕ))) → Run (ℤ × List (List ℕ))
next_cookie (pos zero, arr) rest = rest arr
next_cookie (pos (suc n), arr) rest = some (rc_error, arr)
next_cookie (negsuc n, arr) rest = some (rc_error, arr)

-- The loop over the positions, on their number, and the last cookie.
unfoldable pub cookie_loop : Writer → List ℕ → ℕ → ℕ → ℕ → List (List ℕ) → Run (ℤ × List (List ℕ))
cookie_loop w sc_data zero sc_pos sc_start arr = do
  done ← add_cookie w sc_data sc_start sc_pos arr
  next_cookie done (λ arr'. some (rc_ok, arr'))
cookie_loop w sc_data (suc n) sc_pos sc_start arr = do
  c ← load sc_data sc_pos
  elim (c == b',') [
    | true ↦ do
      done ← add_cookie w sc_data sc_start sc_pos arr
      next_cookie done (cookie_loop w sc_data n (sc_pos + 1) (sc_pos + 1))
    | false ↦ cookie_loop w sc_data n (sc_pos + 1) sc_start arr
  ]

-- The cookies of a value of a length, in a new array.
unfoldable pub add_cookies : Writer → List ℕ → ℕ → Run (ℤ × List (List ℕ))
add_cookies w sc_data sc_len = cookie_loop w sc_data sc_len 0 0 []
