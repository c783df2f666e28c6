-- ===== src/Lua/Unescape/Encoding.antt =====
-- Percent-encoding (RFC 3986, section 2.1), which `lws_unescape_url` (src/lws_lib.c) reverses, and the
-- room that its output takes.
use lambda_lws.Prelude.{
  ℕ, ◌+◌, ◌-◌, ◌*◌, ◌/◌, ◌%◌, ◌≤◌, ◌<◌, ◌≡◌, refl, ap, ◌∙◌, inl, inr, Bool, true, false, Bool-cases,
  Option-cases, some, List, [], ◌∷◌, ltb, ◌==◌, if◌then◌else◌, length, IsBytes, Returns, arith,
}
use lambda_lws.Lua.Unescape.{hex, unescape_url}
use lambda_lws.Lua.Unescape.Text.{plain_text, escaped, unescaped}
use lambda_lws.Lua.Unescape.Rounds.{
  unescaped-plain, unescaped-no_first, unescaped-no_second, unescaped-both, unescape_url_lem,
}

-- The digit of a value below 16.
unfoldable pub hex_digit : ℕ → ℕ
hex_digit v = if ltb v 10 then b'0' + v else b'A' + (v - 10)

-- The encoding that leaves the bytes of `keep` as they are.
unfoldable pub percent_encode : (ℕ → Bool) → List ℕ → List ℕ
percent_encode keep [] = []
percent_encode keep (b ∷ bs) =
    let rest = percent_encode keep bs in
    if keep b then b ∷ rest else b'%' ∷ hex_digit (b / 16) ∷ hex_digit (b % 16) ∷ rest

hex-hex_digit : (v : ℕ) → v < 16 → hex (hex_digit v) ≡ some v
unfolding hex hex_digit
hex-hex_digit v h = ground arith

kept : (keep : ℕ → Bool) (b x : ℕ) → keep x ≡ false → keep b ≡ true → (b == x) ≡ false
kept keep b x h k = elim (Bool-cases (b == x)) [
  | inl e ↦ absurd (clash (ground (arith, e)))
  | inr e ↦ e
]
  where
    clash : b ≡ x → ⊥
    clash e = cc

unescaped-percent_encode :
    (keep : ℕ → Bool) (bs : List ℕ)
    → keep b'+' ≡ false
    → keep b'%' ≡ false
    → IsBytes bs
    → unescaped (percent_encode keep bs) ≡ bs
unfolding percent_encode
unescaped-percent_encode keep [] p q v = unfold unescaped in refl
unescaped-percent_encode keep (b ∷ bs) p q (small, v) =
    let rest = unescaped-percent_encode keep bs p q v in
    let tail : List ℕ = percent_encode keep bs in
    elim (Bool-cases (keep b)) [
      | inl k ↦
          let no_plus = kept keep b b'+' p k in
          let itself : plain_text b ≡ b = unfold plain_text in rw no_plus refl in
          let no_percent = kept keep b b'%' q k in
          rw k (
            unescaped-plain b tail no_percent
            ∙ (ap (λ t. t ∷ unescaped tail) itself ∙ ap (λ t. b ∷ t) rest))
      | inr k ↦ rw k (
          unescaped-both b'%' (hex_digit (b / 16)) (hex_digit (b % 16)) (b / 16) (b % 16) tail refl
            (hex-hex_digit (b / 16) (omega (arith, small))) (hex-hex_digit (b % 16) (omega arith))
          ∙ (ap (λ t. t ∷ unescaped tail) (whole b) ∙ ap (λ t. b ∷ t) rest))
    ]
  where
    whole : (b : ℕ) → b / 16 * 16 + b % 16 ≡ b
    whole b = omega arith

-- For a set of bytes to keep that has neither `+` nor `%`, `lws_unescape_url` gives back any bytes from
-- their percent-encoding.
pub unescape_url-percent_encode :
    (keep : ℕ → Bool) (bs : List ℕ)
    → keep b'+' ≡ false
    → keep b'%' ≡ false
    → IsBytes bs
    → unescape_url (percent_encode keep bs) ≡ some bs
unescape_url-percent_encode keep bs p q v =
    unescape_url_lem (percent_encode keep bs)
    ∙ ap (λ t. some t) (unescaped-percent_encode keep bs p q v)

length-unescaped : (s : List ℕ) → length (unescaped s) ≤ length s
unfolding unescaped escaped
length-unescaped [] = omega arith
length-unescaped (a ∷ []) = ground arith
length-unescaped (a ∷ b ∷ []) = ground (arith, length-unescaped (b ∷ []))
length-unescaped (a ∷ b ∷ c ∷ s) =
    let one = length-unescaped (b ∷ c ∷ s) in
    let two = length-unescaped s in
    elim (Bool-cases (a == b'%')) [
      | inr e ↦ omega (arith, one, ap length (unescaped-plain a (b ∷ c ∷ s) e))
      | inl e ↦ elim (Option-cases (hex b)) [
        | inl x ↦ omega (arith, one, ap length (unescaped-no_first a b (c ∷ s) e x))
        | inr (v, x) ↦ elim (Option-cases (hex c)) [
          | inl y ↦ omega (arith, one, ap length (unescaped-no_second a b c v s e x y))
          | inr (l, y) ↦ omega (arith, two, ap length (unescaped-both a b c v l s e x y))
        ]
      ]
    ]

-- `lws_unescape_url` returns for every text, and writes no more bytes than the text has.
pub length-unescape_url :
    (src : List ℕ) → Returns (unescape_url src) (λ out. length out ≤ length src)
length-unescape_url src = (unescaped src, unescape_url_lem src, length-unescaped src)
