-- ===== src/Interface/Payload.antt =====
-- The payload of an invocation: what `lws_get_next_invocation` of src/lws_interface.c (lines 409 to 598)
-- takes from the JSON document. The document of yyjson is a parameter; a text is its bytes. The values in
-- the table of headers are addresses in a heap of texts. A run is `none` if it accesses memory outside of
-- a block or the table.
pub mod Folding
pub mod CookieHeader
pub mod Body
use lambda_lws.Prelude.{
  ℕ, zero, suc, ◌+◌, ◌-◌, Bool, true, false, ◌&&◌, ◌||◌, not, Option, none, some, List, [], ◌∷◌,
  ◌++◌, ltb, leb, ◌==◌, eqb_list, if◌then◌else◌, length, take, drop, codes, store, ℤ, pos, negsuc,
  rc_ok, rc_error, Run, ◌>>=◌,
}
use lambda_lws.Codec.Base64.{size_max, Decoded, base64_decode}
use lambda_lws.Table.Methods.{set_value}
use lambda_lws.Interface.Header.{Headers, Setting}

-- What the code calls of yyjson on a document that has been read.
pub record Yyjson : Type 1 where
  pub Val : Type 0
  pub obj_get : Val → List ℕ → Option Val
  pub is_str : Val → Bool
  pub get_str : Val → List ℕ
  pub is_obj : Val → Bool
  pub members : Val → List (Val × Val)
  pub is_arr : Val → Bool
  pub elements : Val → List Val
  pub is_bool : Val → Bool
  pub is_true : Val → Bool

-- The request that is taken from a payload.
pub record Payload : Type 0 where
  pub req_path : List ℕ
  pub req_method : List ℕ
  pub req_args : List ℕ
  pub req_ip : List ℕ
  pub req_headers : Headers
  pub req_body : List ℕ

-- What follows where the code is 0.
unfoldable pub then_ok : ℤ × Payload → (Payload → Run (ℤ × Payload)) → Run (ℤ × Payload)
then_ok (pos zero, p) next = next p
then_ok (pos (suc n), p) next = some (rc_error, p)
then_ok (negsuc n, p) next = some (rc_error, p)

-- !val || !yyjson_is_str(val), and the text
unfoldable pub text_of_val : (j : Yyjson) → Option j.Val → Option (List ℕ)
text_of_val j none = none
text_of_val j (some v) = if j.is_str v then some (j.get_str v) else none

-- As far as the first zero byte, as strcmp reads it.
unfoldable pub until_zero : List ℕ → List ℕ
until_zero [] = []
until_zero (c ∷ cs) = let rest = until_zero cs in if c == 0 then [] else c ∷ rest

-- "version"
unfoldable pub is_version : Option (List ℕ) → Bool
is_version none = false
is_version (some text) = eqb_list (until_zero text) (codes "2.0")

-- "path" and "method", by the text and what stores it
unfoldable pub required : Option (List ℕ) → (List ℕ → Payload) → Payload → ℤ × Payload
required none put p = (rc_error, p)
required (some text) put p = (rc_ok, put text)

-- "args" and "source IP", by the payload where the value is missing
unfoldable pub optional :
    (j : Yyjson) → Option j.Val → (List ℕ → Payload) → Payload → Payload → ℤ × Payload
optional j none put missing p = (rc_ok, missing)
optional j (some v) put missing p = if j.is_str v then (rc_ok, put (j.get_str v)) else (rc_error, p)

-- The loop over the headers.
unfoldable pub header_loop :
    Setting → (j : Yyjson) → List (j.Val × j.Val) → Headers → Run (ℤ × Headers)
header_loop w j [] h = some (rc_ok, h)
header_loop w j ((k, v) ∷ rest) h =
    if not (j.is_str k) || not (j.is_str v)
    then some (rc_error, h)
    else if not w.granted
    then some (rc_error, h)
    else (do
      (rc, t) ← set_value w.widen w.grants w.now h.headers (j.get_str k) (length h.heap + 1)
      let h' : Headers = record { headers = t; heap = h.heap ++ j.get_str v ∷ [] }
      elim rc [
        | pos n ↦ elim (n == 0) [ true ↦ header_loop w j rest h' | false ↦ some (rc_error, h') ]
        | negsuc n ↦ some (rc_error, h')
      ])

-- "headers"
unfoldable pub read_headers : Setting → (j : Yyjson) → Option j.Val → Payload → Run (ℤ × Payload)
read_headers w j none p = some (rc_ok, p)
read_headers w j (some v) p =
    if not (j.is_obj v)
    then some (rc_error, p)
    else header_loop w j (j.members v) p.req_headers
      >>= (λ (rc, h). some (rc, record p { req_headers = h }))

-- The size of lws_str_t.
abbrev pub str_size : ℕ
str_size = 16

-- The first loop over the cookies: their length with the separators, and their number.
unfoldable pub cookie_total : (j : Yyjson) → List j.Val → ℕ → ℕ → Option (ℕ × ℕ)
cookie_total j [] total count = some (total, count)
cookie_total j (v ∷ vs) total count =
    let len = length (j.get_str v) in
    if not (j.is_str v)
    then none
    else if len == 0
    then cookie_total j vs total count
    else if ltb (size_max - str_size - 2) len || ltb (size_max - str_size - 2 - len) total
    then none
    else cookie_total j vs (total + (len + (if count == 0 then 0 else 2))) (count + 1)

-- memcpy to an index of a block
unfoldable pub copy_to : List ℕ → ℕ → List ℕ → Run (List ℕ)
copy_to block i text =
    if leb (i + length text) (length block)
    then some (take i block ++ (text ++ drop (i + length text) block))
    else none

-- memcpy(cookie_ptr, ", ", 2) behind a cookie
unfoldable pub separate : List ℕ → ℕ → ℕ → Run (List ℕ × ℕ)
separate block i zero = some (block, i)
separate block i (suc n) = copy_to block i (b',' ∷ b' ' ∷ []) >>= (λ m. some (m, i + 2))

-- The second loop over the cookies: the block, with cookie_ptr as an index.
unfoldable pub cookie_copy : (j : Yyjson) → List j.Val → List ℕ → ℕ → ℕ → Run (List ℕ)
cookie_copy j [] block i count = some block
cookie_copy j (v ∷ vs) block i count =
    if length (j.get_str v) == 0
    then cookie_copy j vs block i count
    else separate block i count >>= (λ (m, k).
      copy_to m k (j.get_str v)
      >>= (λ m'. cookie_copy j vs m' (k + length (j.get_str v)) (count + 1)))

-- The Cookie header, with what `lws_alloc` gives for the length of the cookies.
unfoldable pub set_cookies :
    Setting
    → (ℕ → Option (List ℕ))
    → (j : Yyjson) → List j.Val
    → Payload
    → Option (ℕ × ℕ)
    → Run (ℤ × Payload)
set_cookies w alloc j vs p none = some (rc_error, p)
set_cookies w alloc j vs p (some (total, zero)) = some (rc_ok, p)
set_cookies w alloc j vs p (some (total, suc n)) = elim (alloc total) [
  | none ↦ some (rc_error, p)
  | some block ↦ do
    text ← cookie_copy j vs block 0 0
    let h : Headers = p.req_headers
    (rc, t) ← set_value w.widen w.grants w.now h.headers (codes "Cookie") (length h.heap + 1)
    some (rc, record p { req_headers = record { headers = t; heap = h.heap ++ text ∷ [] } })
]

-- "cookies"
unfoldable pub read_cookies :
    Setting → (ℕ → Option (List ℕ)) → (j : Yyjson) → Option j.Val → Payload → Run (ℤ × Payload)
read_cookies w alloc j none p = some (rc_ok, p)
read_cookies w alloc j (some v) p =
    if not (j.is_arr v)
    then some (rc_error, p)
    else set_cookies w alloc j (j.elements v) p (cookie_total j (j.elements v) 0 0)

-- The zero byte behind what lws_base64_decode gives
unfoldable pub finish_body : Payload → ℤ → List ℕ → ℕ → Run (ℤ × Payload)
finish_body p (pos zero) block n =
    store block n 0 >>= (λ m. some (rc_ok, record p { req_body = take n m }))
finish_body p (pos (suc k)) block n = some (rc_error, p)
finish_body p (negsuc k) block n = some (rc_error, p)

-- "isBase64Encoded"; a text of yyjson has a zero byte behind it.
unfoldable pub decode_body : (j : Yyjson) → List ℕ → Option j.Val → Payload → Run (ℤ × Payload)
decode_body j text none p = some (rc_error, p)
decode_body j text (some v) p =
    if not (j.is_bool v)
    then some (rc_error, p)
    else if j.is_true v
    then base64_decode (text ++ 0 ∷ []) (length text)
      >>= (λ d. finish_body p d.rc d.in_out d.in_out_len)
    else some (rc_ok, record p { req_body = text })

-- "request body", by the values of "body" and "isBase64Encoded"
unfoldable pub read_body : (j : Yyjson) → Option j.Val → Option j.Val → Payload → Run (ℤ × Payload)
read_body j none encoded p = some (rc_ok, record p { req_body = [] })
read_body j (some v) encoded p =
    if not (j.is_str v) then some (rc_error, p) else decode_body j (j.get_str v) encoded p

-- What follows the objects of "requestContext" and "http".
unfoldable pub read_request :
    Setting → (ℕ → Option (List ℕ)) → (j : Yyjson) → j.Val → j.Val → Payload → Run (ℤ × Payload)
read_request w alloc j root http p =
    then_ok
      (required (text_of_val j (j.obj_get http (codes "method"))) (λ m. record p { req_method = m })
        p)
      (λ p₁.
        then_ok
          (optional j (j.obj_get root (codes "rawQueryString")) (λ a. record p₁ { req_args = a })
            (record p₁ { req_args = [] }) p₁)
          (λ p₂.
            then_ok
              (optional j (j.obj_get http (codes "sourceIp")) (λ a. record p₂ { req_ip = a }) p₂ p₂)
              (λ p₃. do
                headers ← read_headers w j (j.obj_get root (codes "headers")) p₃
                then_ok headers (λ p₄. do
                  cookies ← read_cookies w alloc j (j.obj_get root (codes "cookies")) p₄
                  then_ok cookies (
                      read_body j (j.obj_get root (codes "body"))
                        (j.obj_get root (codes "isBase64Encoded")))))))

-- An object that must be there.
unfoldable pub with_object :
    (j : Yyjson) → Option j.Val → Payload → (j.Val → Run (ℤ × Payload)) → Run (ℤ × Payload)
with_object j none p next = some (rc_error, p)
with_object j (some v) p next = next v

-- The regular mode, for the root of the document.
unfoldable pub read_payload :
    Setting → (ℕ → Option (List ℕ)) → (j : Yyjson) → Option j.Val → Payload → Run (ℤ × Payload)
read_payload w alloc j none p = some (rc_error, p)
read_payload w alloc j (some root) p =
    if is_version (text_of_val j (j.obj_get root (codes "version")))
    then then_ok
        (required (text_of_val j (j.obj_get root (codes "rawPath")))
          (λ a. record p { req_path = a }) p)
        (λ p₁. with_object j (j.obj_get root (codes "requestContext")) p₁ (λ context.
          with_object j (j.obj_get context (codes "http")) p₁
            (λ http. read_request w alloc j root http p₁)))
    else some (rc_error, p)
