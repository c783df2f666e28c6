-- ===== src/Interface/Header.antt =====
-- `lws_handle_header` of src/lws_interface.c (lines 152 to 211), the header callback of libcurl: a line of
-- `size * nitems` bytes at the start of `mem`. The values in the table are addresses in a heap of texts,
-- and a run is `none` if it accesses memory outside of `mem`, the table or the heap.
pub mod Split
pub mod Added
use lambda_lws.Prelude.{
  ℕ, zero, suc, ◌+◌, ◌-◌, ◌*◌, ◌/◌, Bool, true, false, ◌&&◌, ◌||◌, not, Option, none, some, List,
  [], ◌∷◌, ◌++◌, ltb, leb, ◌==◌, if◌then◌else◌, length, get_elem?, take, drop, load, ℤ, Run, ◌>>=◌,
}
use lambda_lws.Codec.Base64.{size_max, size_mod}
use lambda_lws.Table.{Table}
use lambda_lws.Table.Methods.{Grants, get, set_value}

-- *val == ' ' || *val == '\t'
unfoldable pub is_blank : ℕ → Bool
is_blank c = (c == b' ') || (c == 9)

-- A blank, '\r' or '\n'
unfoldable pub is_trailing : ℕ → Bool
is_trailing c = ((c == b' ') || (c == 9)) || ((c == 13) || (c == 10))

-- memchr(buffer, ':', len), from the index `i` on
unfoldable pub find_colon : List ℕ → ℕ → ℕ → Run (Option ℕ)
find_colon cs zero i = some none
find_colon [] (suc n) i = none
find_colon (c ∷ cs) (suc n) i =
    let rest = find_colon cs n (i + 1) in if c == b':' then some (some i) else rest

-- The loop that skips blanks; it does not look for the end of the line.
unfoldable pub skip_blanks : List ℕ → ℕ → Run ℕ
skip_blanks [] i = none
skip_blanks (c ∷ cs) i = let rest = skip_blanks cs (i + 1) in if is_blank c then rest else some i

-- The loop that makes val_len smaller.
unfoldable pub trim : List ℕ → ℕ → ℕ → Run ℕ
trim mem val zero = some 0
trim mem val (suc k) =
    let rest = trim mem val k in
    load mem (val + k) >>= (λ c. if is_trailing c then rest else some (suc k))

-- buffer + len - val, as a size_t
unfoldable pub distance : ℕ → ℕ → ℕ
distance len val = if leb val len then len - val else size_mod + len - val

-- memcpy of `n` bytes from an index on
unfoldable pub bytes_at : List ℕ → ℕ → ℕ → Run (List ℕ)
bytes_at mem i n = if leb (i + n) (length mem) then some (take n (drop i mem)) else none

-- The value, behind a colon at an index.
unfoldable pub value_at : List ℕ → ℕ → ℕ → Run (List ℕ)
value_at mem len colon =
    skip_blanks (drop (colon + 1) mem) (colon + 1)
    >>= (λ val. trim mem val (distance len val) >>= (λ n. bytes_at mem val n))

-- "split header": the name and the value; `none` inside a run where there is no colon.
unfoldable pub split_header : List ℕ → ℕ → Run (Option (List ℕ × List ℕ))
split_header mem len = find_colon mem len 0 >>= (λ colon. elim colon [
  | none ↦ some none
  | some i ↦ value_at mem len i >>= (λ v. some (some (take i mem, v)))
])

-- The table of headers, and the texts that its values stand for: the value `suc i` for the text `i`.
pub record Headers : Type 0 where
  pub headers : Table
  pub heap : List (List ℕ)

-- What the calls are granted, the time, and the conversion of a `char`.
pub record Setting : Type 0 where
  pub widen : ℕ → ℕ
  pub now : ℕ
  pub grants : Grants
  pub granted : Bool

-- The text of a value: the new one, or behind the old one and a comma.
unfoldable pub header_text : List (List ℕ) → List ℕ → ℕ → Run (List ℕ)
header_text heap val zero = some val
header_text heap val (suc i) = get_elem? heap i >>= (λ old. some (old ++ (b',' ∷ b' ' ∷ val)))

-- lws_table_get, the allocation and lws_table_set
unfoldable pub add_header : Setting → Headers → List ℕ → List ℕ → ℕ → Run (ℕ × Headers)
add_header w s key val len = get w.widen w.now s.headers key >>= (λ (v, t).
    header_text s.heap val v >>= (λ text.
      if w.granted
      then (set_value w.widen w.grants w.now t key (length s.heap + 1)
          >>= (λ (rc, u). some (len, record { headers = u; heap = s.heap ++ text ∷ [] })))
      else some (0, record s { headers = t })))

-- With the parts of the header.
unfoldable pub handle_split : Setting → Headers → ℕ → Option (List ℕ × List ℕ) → Run (ℕ × Headers)
handle_split w s len none = some (len, s)
handle_split w s len (some ([], val)) = some (len, s)
handle_split w s len (some (c ∷ cs, val)) = add_header w s (c ∷ cs) val len

-- lws_handle_header
unfoldable pub handle_header : Setting → List ℕ → ℕ → ℕ → Headers → Run (ℕ × Headers)
handle_header w mem size nitems s =
    if not (nitems == 0) && ltb (size_max / nitems) size
    then some (0, s)
    else (split_header mem (size * nitems) >>= handle_split w s (size * nitems))
