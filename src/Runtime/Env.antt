-- ===== src/Runtime/Env.antt =====
-- The readers of environment variables of src/lws_runtime.c (lines 39 to 146). A variable is what
-- `getenv` gives, a text without its zero byte; `strtol` and `strtoul` are parameters. A result is
-- `none` where the source returns -1, else the value that it stores.
pub mod Options
pub mod Read
use lambda_lws.Prelude.{
  ℕ, zero, suc, ◌+◌, ◌*◌, ◌/◌, Bool, true, false, ◌&&◌, ◌||◌, not, Option, none, some, List, [],
  ◌∷◌, ltb, ◌==◌, if◌then◌else◌, length, take, drop, eqb_list, ℤ, pos, negsuc,
}
use lambda_lws.Codec.Base64.{size_max}

-- s is NULL or *s is a zero byte
unfoldable pub is_unset : Option (List ℕ) → Bool
is_unset none = true
is_unset (some []) = true
is_unset (some (c ∷ cs)) = false

-- The text of a variable that is set.
unfoldable pub text_of : Option (List ℕ) → List ℕ
text_of none = []
text_of (some s) = s

-- lws_getenv_str: `none` is the null string.
unfoldable pub getenv_str : Option (List ℕ) → Option (List ℕ)
getenv_str v = if is_unset v then none else some (text_of v)

-- What strtol (or strtoul) says of a text in base 10: the number, how many characters it took, and
-- whether it set errno.
pub record Parsed (A : Type 0) : Type 0 where
  pub number : A
  pub taken : ℕ
  pub errno : Bool

-- lws_getenv_int
unfoldable pub getenv_int : (List ℕ → Parsed ℤ) → Option (List ℕ) → Option ℤ
getenv_int strtol v =
    if is_unset v
    then some (pos 0)
    else (let p = strtol (text_of v) in
        if p.errno || not (p.taken == length (text_of v)) then none else some p.number)

-- The multiplier by what stands behind the number.
unfoldable pub multiplier : List ℕ → Option ℕ
multiplier [] = some 1
multiplier (c ∷ []) =
    if c == b'k' then some 1024 else if c == b'm' then some (1024 * 1024) else none
multiplier (c ∷ d ∷ cs) = none

-- base > SIZE_MAX / mult, and the product
unfoldable pub scaled : ℕ → Option ℕ → Option ℕ
scaled base none = none
scaled base (some mult) = if ltb (size_max / mult) base then none else some (base * mult)

-- lws_getenv_size
unfoldable pub getenv_size : (List ℕ → Parsed ℕ) → Option (List ℕ) → Option ℕ
getenv_size strtoul v =
    if is_unset v
    then some 0
    else (let p = strtoul (text_of v) in
        if p.errno || p.taken == 0
        then none
        else scaled p.number (multiplier (drop p.taken (text_of v))))

-- The comparisons of s[0], s[1] and so on with "on" and "off", of which each stops at the first that
-- differs.
unfoldable pub flag_of : List ℕ → Option ℕ
flag_of (a ∷ b ∷ []) = if a == b'o' && b == b'n' then some 1 else none
flag_of (a ∷ b ∷ c ∷ []) = if a == b'o' && (b == b'f' && c == b'f') then some 0 else none
flag_of s = none

-- lws_getenv_flag
unfoldable pub getenv_flag : Option (List ℕ) → Option ℕ
getenv_flag v = if is_unset v then some 0 else flag_of (text_of v)

-- lws_strncmp of an option and a text of the same length
unfoldable pub same_option : List ℕ → List ℕ → Bool
same_option o s = length o == length s && eqb_list o s

-- The loop over the options, up to the empty one.
unfoldable pub enum_loop : List ℕ → List (List ℕ) → ℕ → Option ℕ
enum_loop s [] i = none
enum_loop s (o ∷ os) i =
    let rest = enum_loop s os (i + 1) in
    if length o == 0 then none else if same_option o s then some i else rest

-- lws_getenv_enum
unfoldable pub getenv_enum : Option (List ℕ) → List (List ℕ) → List ℕ → Option ℕ
getenv_enum v options dfl = enum_loop (if is_unset v then dfl else text_of v) options 0
