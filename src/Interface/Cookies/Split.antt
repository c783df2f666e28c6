-- ===== src/Interface/Cookies/Split.antt =====
-- The loop of `lws_add_headers` over a Set-Cookie value (src/lws_interface.c, lines 671 to 689),
-- against the cookies of the value, and against the folding of cookies.
use lambda_lws.Prelude.{
  ℕ, ◌+◌, ◌≡◌, refl, sym, ap, ◌∙◌, inl, inr, false, Bool-cases, some, List, [], ◌∷◌, ◌++◌,
  append_assoc, append-nil, ◌==◌, length, length-append, load, All, rc_ok, ◌>>=◌, arith,
}
use lambda_lws.Interface.Header.{is_blank}
use lambda_lws.Interface.Cookies.{Writer, next_cookie, cookie_loop, add_cookies}
use lambda_lws.Interface.Cookies.Fold.{
  IsGranted, unless_empty, strip_start, strip, cookies_from, cookies_of, add_cookie_lem, load_here,
}

cookie_loop_lem :
    (w : Writer) (sc_data pre cur rest post : List ℕ) (sc_pos sc_start : ℕ) (arr : List (List ℕ))
    → IsGranted w
    → sc_data ≡ pre ++ (cur ++ (rest ++ post))
    → sc_start ≡ length pre
    → sc_pos ≡ length pre + length cur
    → cookie_loop w sc_data (length rest) sc_pos sc_start arr
      ≡ some (rc_ok, arr ++ cookies_from cur rest)
unfolding cookie_loop next_cookie cookies_from
cookie_loop_lem w sc_data pre cur [] post sc_pos sc_start arr g e a b =
    rw (add_cookie_lem w sc_data pre cur post sc_start sc_pos arr g e a b, ◌>>=◌) refl
cookie_loop_lem w sc_data pre cur (c ∷ cs) post sc_pos sc_start arr g e a b =
    let front : sc_data ≡ (pre ++ cur) ++ c ∷ (cs ++ post) =
      e ∙ sym (append_assoc pre cur (c ∷ (cs ++ post))) in
    let at : sc_pos ≡ length (pre ++ cur) = b ∙ sym (length-append pre cur) in
    let here : load sc_data sc_pos ≡ some c =
      ap (load sc_data) at
      ∙ ap (λ (m : List ℕ). load m (length (pre ++ cur))) front
      ∙ load_here (pre ++ cur) c (cs ++ post) in
    elim (Bool-cases (c == b',')) [
      | inl p ↦
          let next : sc_data ≡ ((pre ++ cur) ++ c ∷ []) ++ ([] ++ (cs ++ post)) =
            front ∙ sym (append_assoc (pre ++ cur) (c ∷ []) (cs ++ post)) in
          let place : sc_pos + 1 ≡ length ((pre ++ cur) ++ c ∷ []) =
            omega (arith, at, length-append (pre ++ cur) (c ∷ [])) in
          rw
            (
              here,
              ◌>>=◌,
              p,
              add_cookie_lem w sc_data pre cur (c ∷ (cs ++ post)) sc_start sc_pos arr g e a b,
              ◌>>=◌,
            )
            (cookie_loop_lem w sc_data ((pre ++ cur) ++ c ∷ []) [] cs post (sc_pos + 1) (sc_pos + 1)
                (arr ++ unless_empty (strip cur)) g next place (omega (arith, place))
              ∙ ap (λ (o : List (List ℕ)). some (rc_ok, o))
                  (append_assoc arr (unless_empty (strip cur)) (cookies_from [] cs)))
      | inr p ↦
          let next : sc_data ≡ pre ++ ((cur ++ c ∷ []) ++ (cs ++ post)) =
            e ∙ ap (λ (m : List ℕ). pre ++ m) (sym (append_assoc cur (c ∷ []) (cs ++ post))) in
          rw (here, ◌>>=◌, p)
            (cookie_loop_lem w sc_data pre (cur ++ c ∷ []) cs post (sc_pos + 1) sc_start arr g next
              a (omega (arith, b, length-append cur (c ∷ []))))
    ]

-- lws_add_headers, where yyjson makes and adds what it is given, reads nothing outside of the value of
-- Set-Cookie and adds its cookies: the texts between the commas, without the blanks around them, and
-- without those that are empty then.
pub add_cookies_lem :
    (w : Writer) (text post : List ℕ)
    → IsGranted w
    → add_cookies w (text ++ post) (length text) ≡ some (rc_ok, cookies_of text)
unfolding add_cookies cookies_of
add_cookies_lem w text post g =
    cookie_loop_lem w (text ++ post) [] [] text post 0 0 [] g refl refl refl

-- A text without commas, and without blanks around it, that is not empty.
pub record IsCookie (text : List ℕ) : Type 0 where
  pub no_comma : All (λ c. (c == b',') ≡ false) text
  pub stripped : strip text ≡ text
  pub some_text : unless_empty text ≡ text ∷ []

-- Cookies, folded into a text.
abbrev pub fold : List (List ℕ) → List ℕ
fold [] = []
fold (c ∷ []) = c
fold (c ∷ d ∷ cs) = c ++ (b',' ∷ b' ' ∷ fold (d ∷ cs))

cookies_from-append :
    (cur text rest : List ℕ)
    → All (λ c. (c == b',') ≡ false) text
    → cookies_from cur (text ++ rest) ≡ cookies_from (cur ++ text) rest
unfolding cookies_from
cookies_from-append cur [] rest h = ap (λ (m : List ℕ). cookies_from m rest) (sym (append-nil cur))
cookies_from-append cur (c ∷ cs) rest (p, ps) = rw p (
    cookies_from-append (cur ++ c ∷ []) cs rest ps
    ∙ ap (λ (m : List ℕ). cookies_from m rest) (append_assoc cur (c ∷ []) cs))

strip_blank : (text : List ℕ) → strip (b' ' ∷ text) ≡ strip text
unfolding strip strip_start is_blank
strip_blank text = refl

-- Behind blanks or at the start, the cookies of a fold are those that were folded.
fold_from :
    (lead text : List ℕ) (cs : List (List ℕ))
    → strip (lead ++ text) ≡ strip text
    → All IsCookie (text ∷ cs)
    → cookies_from lead (fold (text ∷ cs)) ≡ text ∷ cs
unfolding cookies_from
fold_from lead text [] same (h, _) =
    ap (cookies_from lead) (sym (append-nil text))
    ∙ cookies_from-append lead text [] h.no_comma
    ∙ ap unless_empty (same ∙ h.stripped)
    ∙ h.some_text
fold_from lead text (d ∷ cs) same (h, hs) =
    cookies_from-append lead text (b',' ∷ b' ' ∷ fold (d ∷ cs)) h.no_comma
    ∙ ap (λ (m : List (List ℕ)). m ++ cookies_from (b' ' ∷ []) (fold (d ∷ cs)))
        (ap unless_empty (same ∙ h.stripped) ∙ h.some_text)
    ∙ ap (λ (m : List (List ℕ)). text ∷ m) (fold_from (b' ' ∷ []) d cs (strip_blank d) hs)

-- Where yyjson makes and adds what it is given, the cookies that lws_add_headers adds for folded cookies
-- are these, for cookies without commas and without blanks around them that are not empty.
pub add_cookies-fold :
    (w : Writer) (c : List ℕ) (cs : List (List ℕ)) (post : List ℕ)
    → IsGranted w
    → All IsCookie (c ∷ cs)
    → add_cookies w (fold (c ∷ cs) ++ post) (length (fold (c ∷ cs))) ≡ some (rc_ok, c ∷ cs)
unfolding cookies_of
add_cookies-fold w c cs post g h =
    add_cookies_lem w (fold (c ∷ cs)) post g
    ∙ ap (λ (o : List (List ℕ)). some (rc_ok, o)) (fold_from [] c cs refl h)
