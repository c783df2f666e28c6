-- ===== src/Lua/Unescape/Rounds.antt =====
-- The loop of `lws_unescape_url` (src/lws_lib.c, lines 185 to 232) ends within two rounds for each
-- character, and writes what the text stands for.
use lambda_lws.Prelude.{
  ℕ, zero, suc, ◌+◌, ◌*◌, ◌%◌, ◌≤◌, ◌<◌, ◌≡◌, refl, sym, ap, ◌∙◌, inl, inr, true, false, Bool-cases,
  Option-cases, Option, none, some, List, [], ◌∷◌, ◌==◌, length, arith,
}
use lambda_lws.Lua.Unescape.{
  plain, first, second, hex, first_digit, second_digit, step, moved, unescape_loop, unescape_url,
}
use lambda_lws.Lua.Unescape.Text.{plain_text, escaped, unescaped, digit_value, hex-digit_value}

hex_range : (b v : ℕ) → hex b ≡ some v → v < 16
unfolding hex
hex_range b v e = ground arith

hex-plain : (b v : ℕ) → hex b ≡ some v → (b == b'%') ≡ false
unfolding hex
hex-plain b v e = ground arith

pub unescaped-plain :
    (b : ℕ) (s : List ℕ) → (b == b'%') ≡ false → unescaped (b ∷ s) ≡ plain_text b ∷ unescaped s
unfolding unescaped
unescaped-plain b [] e = rw e refl
unescaped-plain b (a ∷ []) e = rw e refl
unescaped-plain b (a ∷ c ∷ s) e = rw e refl

as_digit : (b : ℕ) (o : Option ℕ) → hex b ≡ o → digit_value b ≡ o
as_digit b o e = sym (hex-digit_value b) ∙ e

pub unescaped-no_first :
    (a b : ℕ) (s : List ℕ)
    → (a == b'%') ≡ true
    → hex b ≡ none
    → unescaped (a ∷ b ∷ s) ≡ b'%' ∷ unescaped (b ∷ s)
unfolding unescaped escaped
unescaped-no_first a b [] e x = rw (e, as_digit b none x) refl
unescaped-no_first a b (c ∷ s) e x = rw (e, as_digit b none x) refl

pub unescaped-no_second :
    (a b c v : ℕ) (s : List ℕ)
    → (a == b'%') ≡ true
    → hex b ≡ some v
    → hex c ≡ none
    → unescaped (a ∷ b ∷ c ∷ s) ≡ b'%' ∷ unescaped (b ∷ c ∷ s)
unfolding unescaped escaped
unescaped-no_second a b c v s e x y = rw (e, as_digit b (some v) x, as_digit c none y) refl

pub unescaped-both :
    (a b c v l : ℕ) (s : List ℕ)
    → (a == b'%') ≡ true
    → hex b ≡ some v
    → hex c ≡ some l
    → unescaped (a ∷ b ∷ c ∷ s) ≡ (v * 16 + l) ∷ unescaped s
unfolding unescaped escaped
unescaped-both a b c v l s e x y = rw (e, as_digit b (some v) x, as_digit c (some l) y) refl

-- A round in each state, before the rounds that write r.
plain_round :
    (f a c : ℕ) (before s r : List ℕ)
    → (a == b'%') ≡ false
    → unescape_loop f (a ∷ before) s plain c ≡ some r
    → unescape_loop (suc f) before (a ∷ s) plain c ≡ some (plain_text a ∷ r)
unfolding unescape_loop plain_text step moved
plain_round f a c before s r e h = elim (Bool-cases (a == b'+')) [
  | inl p ↦ rw (p, h) refl
  | inr p ↦ rw (p, e, h) refl
]

percent_round :
    (f a c : ℕ) (before s r : List ℕ)
    → (a == b'%') ≡ true
    → unescape_loop f (a ∷ before) s first c ≡ some r
    → unescape_loop (suc f) before (a ∷ s) plain c ≡ some r
unfolding unescape_loop step moved
percent_round f a c before s r e h = let p : (a == b'+') ≡ false = ground arith in rw (p, e, h) refl

first_refused :
    (f b c : ℕ) (before s r : List ℕ)
    → hex b ≡ none
    → unescape_loop f before (b ∷ s) plain c ≡ some r
    → unescape_loop (suc f) before (b ∷ s) first c ≡ some (b'%' ∷ r)
unfolding unescape_loop step moved first_digit
first_refused f b c before s r e h = rw (e, h) refl

first_taken :
    (f b c v : ℕ) (before s r : List ℕ)
    → hex b ≡ some v
    → unescape_loop f (b ∷ before) s second (v * 16 % 256) ≡ some r
    → unescape_loop (suc f) before (b ∷ s) first c ≡ some r
unfolding unescape_loop step moved first_digit
first_taken f b c v before s r e h = rw (e, h) refl

second_refused :
    (f a b c : ℕ) (before s r : List ℕ)
    → hex b ≡ none
    → unescape_loop f before (a ∷ b ∷ s) plain c ≡ some r
    → unescape_loop (suc f) (a ∷ before) (b ∷ s) second c ≡ some (b'%' ∷ r)
unfolding unescape_loop step moved second_digit
second_refused f a b c before s r e h = rw (e, h) refl

second_taken :
    (f b v l : ℕ) (before s r : List ℕ)
    → v < 16
    → hex b ≡ some l
    → unescape_loop f (b ∷ before) s plain (v * 16 % 256) ≡ some r
    → unescape_loop (suc f) before (b ∷ s) second (v * 16 % 256) ≡ some ((v * 16 + l) ∷ r)
unfolding unescape_loop step moved second_digit
second_taken f b v l before s r k e h =
    let m : (v * 16 % 256 + l) % 256 ≡ v * 16 + l = omega (arith, k, hex_range b l e) in
    rw (e, h) (ap (λ q. some (q ∷ r)) m)

-- Two characters in state 0, for rounds that write what is left when the first stands for itself, when
-- the second is no digit, and when it is.
two_characters :
    (f a b c : ℕ) (before s : List ℕ)
    → unescape_loop (suc (suc (suc f))) (a ∷ before) (b ∷ s) plain c ≡ some (unescaped (b ∷ s))
    → unescape_loop (suc (suc f)) (a ∷ before) (b ∷ s) plain c ≡ some (unescaped (b ∷ s))
    → ((v : ℕ)
        → (a == b'%') ≡ true
        → hex b ≡ some v
        → unescape_loop (suc (suc f)) (b ∷ a ∷ before) s second (v * 16 % 256)
          ≡ some (unescaped (a ∷ b ∷ s)))
    → unescape_loop (suc (suc (suc (suc f)))) before (a ∷ b ∷ s) plain c
      ≡ some (unescaped (a ∷ b ∷ s))
two_characters f a b c before s itself no_digit digit = elim (Bool-cases (a == b'%')) [
  | inr e ↦
      plain_round (suc (suc (suc f))) a c before (b ∷ s) (unescaped (b ∷ s)) e itself
      ∙ ap (λ q. some q) (sym (unescaped-plain a (b ∷ s) e))
  | inl e ↦ elim (Option-cases (hex b)) [
    | inl x ↦
        percent_round (suc (suc (suc f))) a c before (b ∷ s) (b'%' ∷ unescaped (b ∷ s)) e
          (first_refused (suc (suc f)) b c (a ∷ before) s (unescaped (b ∷ s)) x no_digit)
        ∙ ap (λ q. some q) (sym (unescaped-no_first a b s e x))
    | inr (v, x) ↦
        percent_round (suc (suc (suc f))) a c before (b ∷ s) (unescaped (a ∷ b ∷ s)) e
          (first_taken (suc (suc f)) b c v (a ∷ before) s (unescaped (a ∷ b ∷ s)) x (digit v e x))
  ]
]

-- From state 0, with two rounds for each character.
loop_lem :
    (f c : ℕ) (before s : List ℕ)
    → 2 * length s ≤ f
    → unescape_loop f before s plain c ≡ some (unescaped s)
loop_lem f c before [] h = unfold unescape_loop unescaped in refl
loop_lem zero c before (a ∷ s) h = absurd (omega arith)
loop_lem (suc zero) c before (a ∷ s) h = absurd (omega arith)
loop_lem (suc (suc f)) c before (a ∷ []) h =
    unfold unescaped in
    elim (Bool-cases (a == b'%')) [
      | inl e ↦ rw e (percent_round (suc f) a c before [] [] e (unfold unescape_loop in refl))
      | inr e ↦ rw e (plain_round (suc f) a c before [] [] e (unfold unescape_loop in refl))
    ]
loop_lem (suc (suc zero)) c before (a ∷ b ∷ s) h = absurd (omega arith)
loop_lem (suc (suc (suc zero))) c before (a ∷ b ∷ s) h = absurd (omega arith)
loop_lem (suc (suc (suc (suc f)))) c before (a ∷ b ∷ []) h =
    two_characters f a b c before []
      (loop_lem (suc (suc (suc f))) c (a ∷ before) (b ∷ []) (omega arith))
      (loop_lem (suc (suc f)) c (a ∷ before) (b ∷ []) (omega arith))
      (λ v e x. unfold unescape_loop unescaped in rw (e, as_digit b (some v) x) refl)
loop_lem (suc (suc (suc (suc f)))) c before (a ∷ b ∷ d ∷ s) h =
    two_characters f a b c before (d ∷ s)
      (loop_lem (suc (suc (suc f))) c (a ∷ before) (b ∷ d ∷ s) (omega (arith, h)))
      (loop_lem (suc (suc f)) c (a ∷ before) (b ∷ d ∷ s) (omega (arith, h)))
      (λ v e x. elim (Option-cases (hex d)) [
        | inl y ↦
            second_refused (suc f) b d (v * 16 % 256) (a ∷ before) s
              (plain_text b ∷ unescaped (d ∷ s)) y
              (plain_round f b (v * 16 % 256) (a ∷ before) (d ∷ s) (unescaped (d ∷ s))
                (hex-plain b v x)
                (loop_lem f (v * 16 % 256) (b ∷ a ∷ before) (d ∷ s) (omega (arith, h))))
            ∙ ap (λ q. some q)
                (ap (λ q. b'%' ∷ q) (sym (unescaped-plain b (d ∷ s) (hex-plain b v x)))
                  ∙ sym (unescaped-no_second a b d v s e x y))
        | inr (l, y) ↦
            second_taken (suc f) d v l (b ∷ a ∷ before) s (unescaped s) (hex_range b v x) y
              (loop_lem (suc f) (v * 16 % 256) (d ∷ b ∷ a ∷ before) s (omega (arith, h)))
            ∙ ap (λ q. some q) (sym (unescaped-both a b d v l s e x y))
      ])

-- `lws_unescape_url` ends within two rounds for each character and makes no access outside the text.
-- It writes the text with every `+` as a space and every `%` with two hex digits as the byte that they
-- stand for; any other `%` stands for itself, except that at the end of the text a `%` with nothing or
-- one hex digit behind it stands for nothing, together with that digit.
pub unescape_url_lem : (src : List ℕ) → unescape_url src ≡ some (unescaped src)
unfolding unescape_url
unescape_url_lem src = loop_lem (2 * length src) 0 [] src (omega arith)
