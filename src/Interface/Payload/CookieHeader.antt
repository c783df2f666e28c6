-- ===== src/Interface/Payload/CookieHeader.antt =====
-- The cookies of an invocation become one request header (src/lws_interface.c, lines 521 to 567).
use native.Mathlib.Nat.{zero-add}
use lambda_lws.Prelude.{
  ℕ, ◌+◌, ◌≤◌, ◌≡◌, refl, ap, ◌∙◌, not, true, false, Option, some, List, [], ◌∷◌, ◌++◌, length,
  codes, All, ℤ, rc_ok, Run, ◌>>=◌, Returns, arith,
}
use lambda_lws.Codec.Base64.{size_max}
use lambda_lws.Table.Methods.{set_value}
use lambda_lws.Interface.Header.{Headers, Setting}
use lambda_lws.Interface.Payload.{
  Yyjson, Payload, str_size, cookie_total, cookie_copy, set_cookies, read_cookies,
}
use lambda_lws.Interface.Cookies.Split.{fold}
use lambda_lws.Interface.Payload.Folding.{filled, texts, counted, cookie_total_lem, cookie_copy_lem}

-- The header Cookie with the folded cookies, if there are any.
unfoldable pub folded_header : Setting → Payload → List (List ℕ) → Run (ℤ × Payload)
folded_header w p [] = some (rc_ok, p)
folded_header w p (c ∷ cs) = do
  let h : Headers = p.req_headers
  (rc, t) ← set_value w.widen w.grants w.now h.headers (codes "Cookie") (length h.heap + 1)
  some (rc, record p { req_headers = record { headers = t; heap = h.heap ++ fold (c ∷ cs) ∷ [] } })

set_cookies_lem :
    (w : Setting) (alloc : ℕ → Option (List ℕ)) (j : Yyjson) (vs : List j.Val) (p : Payload)
    (cs : List (List ℕ)) (block : List ℕ)
    → alloc (length (fold cs)) ≡ some block
    → cookie_copy j vs block 0 0 ≡ some (fold cs)
    → set_cookies w alloc j vs p (some (length (fold cs), length cs)) ≡ folded_header w p cs
unfolding set_cookies folded_header
set_cookies_lem w alloc j vs p [] block a c = refl
set_cookies_lem w alloc j vs p (d ∷ ds) block a c = rw (a, c, ◌>>=◌) refl

-- For an array of strings of which those that are not empty, with two bytes between them, take less than
-- a size_t by 18 bytes, and an lws_alloc that gives a block of the size asked for, the cookies are written
-- without an access outside of the block; the header Cookie is set to those that are not empty, folded with
-- a comma and a blank between them, and is not set if there are none.
pub read_cookies_lem :
    (w : Setting) (alloc : ℕ → Option (List ℕ)) (j : Yyjson) (v : j.Val) (p : Payload)
    → ((n : ℕ) → Returns (alloc n) (λ b. length b ≡ n))
    → j.is_arr v ≡ true
    → All (λ e. j.is_str e ≡ true) (j.elements v)
    → length (fold (filled (texts j (j.elements v)))) + str_size + 2 ≤ size_max
    → read_cookies w alloc j (some v) p ≡ folded_header w p (filled (texts j (j.elements v)))
unfolding read_cookies
read_cookies_lem w alloc j v p grants arr strs small =
    let vs = j.elements v in
    let cs = filled (texts j vs) in
    let (block, a, n) = grants (length (fold cs)) in
    let off : not (j.is_arr v) ≡ false = ap not arr in
    let total : cookie_total j vs 0 0 ≡ some (length (fold cs), length cs) =
      cookie_total_lem j vs 0 0 strs (omega (arith, small))
      ∙ ap (λ (k : ℕ). counted k (0 + length cs)) (zero-add (length (fold cs)))
      ∙ ap (counted (length (fold cs))) (zero-add (length cs)) in
    rw (off, total) (set_cookies_lem w alloc j vs p cs block a (cookie_copy_lem j vs [] block 0 n))
