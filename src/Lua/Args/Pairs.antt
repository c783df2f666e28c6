-- ===== src/Lua/Args/Pairs.antt =====
-- `lws_parseargs` (src/lws_lib.c, lines 755 to 826) undoes the encoding of a form.
use lambda_lws.Prelude.{
  ℕ, zero, suc, ◌+◌, ◌*◌, ◌/◌, ◌%◌, ◌≤◌, ◌<◌, ◌≡◌, refl, sym, ap, ◌∙◌, inl, inr, Bool, true, false,
  Bool-cases, none, some, List, [], ◌∷◌, ◌++◌, ◌==◌, if_off, length, length-append, All, IsBytes,
  ◌>>=◌, arith,
}
use lambda_lws.Lua.Unescape.{unescape_url, unescape_loop}
use lambda_lws.Lua.Unescape.Encoding.{hex_digit, percent_encode, unescape_url-percent_encode}
use lambda_lws.Lua.Args.{
  is_delimiter, token, item, at_equals, field, continued, parse_loop, parse_args,
}

abbrev IsPlain : List ℕ → Type 0
IsPlain s = All (λ c. is_delimiter c ≡ false) s

token_end : (s : List ℕ) → IsPlain s → token s ≡ (s, [])
unfolding token
token_end [] h = refl
token_end (c ∷ cs) (p, ps) = rw (p, token_end cs ps) refl

token_at :
    (s : List ℕ) (d : ℕ) (rest : List ℕ)
    → IsPlain s
    → is_delimiter d ≡ true
    → token (s ++ d ∷ rest) ≡ (s, d ∷ rest)
unfolding token
token_at [] d rest h e = rw e refl
token_at (c ∷ cs) d rest (p, ps) e = rw (p, token_at cs d rest ps e) refl

item_lem : (tok : List ℕ) → item tok ≡ unescape_url tok
unfolding item unescape_url unescape_loop
item_lem [] = refl
item_lem (c ∷ cs) = if_off (length (c ∷ cs) == 0) (some []) (unescape_url (c ∷ cs)) (ground arith)

-- What an encoding keeps: no character that has a meaning in a form.
pub record IsKeeping (keep : ℕ → Bool) : Type 0 where
  pub plus : keep b'+' ≡ false
  pub percent : keep b'%' ≡ false
  pub equals : keep b'=' ≡ false
  pub ampersand : keep b'&' ≡ false

kept_lem : (keep : ℕ → Bool) (b : ℕ) → IsKeeping keep → keep b ≡ true → is_delimiter b ≡ false
unfolding is_delimiter
kept_lem keep b k h = elim (Bool-cases (b == b'=')) [
  | inl e ↦
      let same : b ≡ b'=' = ground (arith, e) in
      let clash : true ≡ false = sym h ∙ ap keep same ∙ k.equals in cc
  | inr e ↦ elim (Bool-cases (b == b'&')) [
    | inl f ↦
        let same : b ≡ b'&' = ground (arith, f) in
        let clash : true ≡ false = sym h ∙ ap keep same ∙ k.ampersand in cc
    | inr f ↦ rw (e, f) refl
  ]
]

digit_lem : (v : ℕ) → v < 16 → is_delimiter (hex_digit v) ≡ false
unfolding is_delimiter hex_digit
digit_lem v h = ground arith

equals_lem : is_delimiter b'=' ≡ true
unfolding is_delimiter
equals_lem = refl

ampersand_lem : is_delimiter b'&' ≡ true
unfolding is_delimiter
ampersand_lem = refl

percent_lem : is_delimiter b'%' ≡ false
unfolding is_delimiter
percent_lem = refl

percent_encode-IsPlain :
    (keep : ℕ → Bool) (bs : List ℕ) → IsKeeping keep → IsBytes bs → IsPlain (percent_encode keep bs)
unfolding percent_encode
percent_encode-IsPlain keep [] k v = tt
percent_encode-IsPlain keep (b ∷ bs) k (p, ps) = elim (Bool-cases (keep b)) [
  | inl e ↦ rw e (kept_lem keep b k e, percent_encode-IsPlain keep bs k ps)
  | inr e ↦ rw e (
    percent_lem,
    (
      digit_lem (b / 16) (omega (arith, p)),
      (digit_lem (b % 16) (omega arith), percent_encode-IsPlain keep bs k ps),
    ),
  )
]

-- A form: `key=value` for each pair, joined by `&`.
unfoldable pub encode_args : (ℕ → Bool) → List (List ℕ × List ℕ) → List ℕ
encode_args keep [] = []
encode_args keep ((k, v) ∷ []) = percent_encode keep k ++ b'=' ∷ percent_encode keep v
encode_args keep ((k, v) ∷ q ∷ ps) =
    percent_encode keep k ++ b'=' ∷ (percent_encode keep v ++ b'&' ∷ encode_args keep (q ∷ ps))

module _ (keep : ℕ → Bool) (kept : IsKeeping keep) where
  item-percent_encode : (bs : List ℕ) → IsBytes bs → item (percent_encode keep bs) ≡ some bs
  item-percent_encode bs h =
      item_lem (percent_encode keep bs)
      ∙ unescape_url-percent_encode keep bs kept.plus kept.percent h

  key_round :
      (f : ℕ) (k rest : List ℕ)
      → IsBytes k
      → parse_loop (suc f) none (percent_encode keep k ++ b'=' ∷ rest)
        ≡ (parse_loop f (some k) rest >>= λ more. some more)
  unfolding parse_loop field continued at_equals
  key_round f k rest h =
      rw
        (
          token_at (percent_encode keep k) b'=' rest (percent_encode-IsPlain keep k kept h)
              equals_lem,
          item-percent_encode k h,
          ◌>>=◌,
        )
        refl

  value_round :
      (f : ℕ) (k v rest : List ℕ)
      → IsBytes v
      → parse_loop (suc f) (some k) (percent_encode keep v ++ b'&' ∷ rest)
        ≡ (parse_loop f none rest >>= λ more. some ((k, v) ∷ more))
  unfolding parse_loop field continued
  value_round f k v rest h =
      rw
        (
          token_at (percent_encode keep v) b'&' rest (percent_encode-IsPlain keep v kept h)
              ampersand_lem,
          item-percent_encode v h,
          ◌>>=◌,
        )
        refl

  last_round :
      (f : ℕ) (k v : List ℕ)
      → IsBytes v
      → parse_loop (suc f) (some k) (percent_encode keep v) ≡ some ((k, v) ∷ [])
  unfolding parse_loop field continued
  last_round f k v h =
      rw
        (
          token_end (percent_encode keep v) (percent_encode-IsPlain keep v kept h),
          item-percent_encode v h,
          ◌>>=◌,
        )
        refl

  abbrev IsPair : List ℕ × List ℕ → Type 0
  IsPair q = IsBytes q.0 × IsBytes q.1

  loop_lem :
      (f : ℕ) (p : List ℕ × List ℕ) (ps : List (List ℕ × List ℕ))
      → All IsPair (p ∷ ps)
      → 2 * length (p ∷ ps) ≤ f
      → parse_loop f none (encode_args keep (p ∷ ps)) ≡ some (p ∷ ps)
  unfolding encode_args
  loop_lem zero p ps h l = absurd (omega (arith, l))
  loop_lem (suc zero) p ps h l = absurd (omega (arith, l))
  loop_lem (suc (suc f)) (k, v) [] ((hk, hv), _) l =
      rw (key_round (suc f) k (percent_encode keep v) hk, last_round f k v hv, ◌>>=◌) refl
  loop_lem (suc (suc f)) (k, v) (q ∷ ps) ((hk, hv), hs) l =
      rw
        (
          key_round (suc f) k (percent_encode keep v ++ b'&' ∷ encode_args keep (q ∷ ps)) hk,
          value_round f k v (encode_args keep (q ∷ ps)) hv,
          loop_lem f q ps hs (omega (arith, l)),
          ◌>>=◌,
        )
        refl

  length-encode_args :
      (p : List ℕ × List ℕ) (ps : List (List ℕ × List ℕ))
      → 2 * length (p ∷ ps) ≤ length (encode_args keep (p ∷ ps)) + 1
  unfolding encode_args
  length-encode_args (k, v) [] =
      omega (arith, length-append (percent_encode keep k) (b'=' ∷ percent_encode keep v))
  length-encode_args (k, v) (q ∷ ps) = omega (
    arith,
    length-encode_args q ps,
    length-append (percent_encode keep k)
        (b'=' ∷ (percent_encode keep v ++ b'&' ∷ encode_args keep (q ∷ ps))),
    length-append (percent_encode keep v) (b'&' ∷ encode_args keep (q ∷ ps)),
  )

-- lws_parseargs gives the pairs of a form back.
pub parse_args-encode_args :
    (keep : ℕ → Bool) (ps : List (List ℕ × List ℕ))
    → IsKeeping keep
    → All (λ q. IsBytes q.0 × IsBytes q.1) ps
    → parse_args (encode_args keep ps) ≡ some ps
unfolding parse_args
parse_args-encode_args keep [] kept h = unfold encode_args in refl
parse_args-encode_args keep (p ∷ ps) kept h =
    let text = encode_args keep (p ∷ ps) in
    let n = length-encode_args keep kept p ps in
    if_off (length text == 0) (some []) (parse_loop (length text + 1) none text) (ground (arith, n))
    ∙ loop_lem keep kept (length text + 1) p ps h n
