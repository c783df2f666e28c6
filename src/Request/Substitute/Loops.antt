-- ===== src/Request/Substitute/Loops.antt =====
-- The two loops of `lws_string_sub` (src/lws_request.c, lines 141 to 183) agree: the first gives the
-- length of what the second writes.
use lambda_lws.Prelude.{
  ℕ, ◌+◌, ◌-◌, ◌≤◌, ◌<◌, ◌≡◌, refl, sym, ap, subst, ◌∙◌, ◌⊎◌, inl, inr, true, Bool-cases, Option,
  none, some, List, [], ◌∷◌, ◌++◌, append-nil, ltb, leb, if◌then◌else◌, length, length-append,
  length-take, length-drop, take, take_eq, drop, Option-cases, take_past, Run, ◌>>=◌, Returns,
  arith,
}
use native.Mathlib.Nat.{zero-add}
use lambda_lws.Codec.Base64.{size_max}
use lambda_lws.Body.{copy}
use lambda_lws.Body.Reserve.{copy_lem}
use lambda_lws.Request.Substitute.{
  Match, match_len, is_group, group_len, measure, slice, fill, Alloc, substitute, string_sub,
}
use lambda_lws.Request.Substitute.Expand.{
  pieces, match_text, piece_text, join, expand, IsMatch, unmatched, matched, IsMatches, bounded,
  Filled, Filled-Filled, bounded-join, bounded-join_over, digit, char_len_lem, add_len_lem,
  match_len-matched,
}

-- A piece's text in the first loop, before the loop `k` over the rest.
measure_step :
    (len n : ℕ) (xs : List ℕ) (o : Option (List ℕ)) (k : ℕ → Run (Option ℕ))
    → length xs ≡ n
    → ((l : ℕ) → l ≤ size_max → k l ≡ some (bounded l o))
    → (elim (if ltb size_max (len + n) then none else some (len + n)) as (λ _. Run (Option ℕ)) [
      | none ↦ some none
      | some l ↦ k l
    ])
      ≡ some (bounded len (join (some xs) o))
measure_step len n xs o k l h = elim (Bool-cases (ltb size_max (len + n))) [
  | inl e ↦ rw e (ap (λ q. some q) (sym (bounded-join_over len xs o (ground (arith, l, e)))))
  | inr e ↦ rw e (
      h (len + n) (ground (arith, e))
      ∙ ap (λ q. some q)
          (ap (λ q. bounded (len + q) o) (sym l) ∙ bounded-join len xs o (ground (arith, l, e))))
]

length-slice :
    (src : List ℕ) (i j : ℕ) → i ≤ j → j ≤ length src → length (take (j - i) (drop i src)) ≡ j - i
length-slice src i j h k = length-take (j - i) (drop i src) ∙ omega (arith, h, k, length-drop i src)

group_step :
    (src : List ℕ) (g : Match) (len : ℕ) (o : Option (List ℕ)) (k : ℕ → Run (Option ℕ))
    → IsMatch src g
    → len ≤ size_max
    → ((l : ℕ) → l ≤ size_max → k l ≡ some (bounded l o))
    → (elim (group_len len g) as (λ _. Run (Option ℕ)) [ none ↦ some none | some l ↦ k l ])
      ≡ some (bounded len (join (match_text src (some g)) o))
unfolding group_len match_text bounded join
group_step src g len o k (unmatched n eo) s h = refl
group_step src g len o k (matched i j le within) s h =
    rw (match_len-matched i j le, add_len_lem len (j - i) s)
      (measure_step len (j - i) (take (j - i) (drop i src)) o k (length-slice src i j le within) h)

-- The first loop calculates the length of the text, and fails if a group has not matched or the length
-- is no `size_t`.
pub measure_lem :
    (m : List Match) (src tmpl : List ℕ) (len : ℕ)
    → IsMatches src m
    → len ≤ size_max
    → measure m tmpl len ≡ some (bounded len (expand m src (pieces tmpl)))
unfolding measure pieces expand piece_text IsMatches
measure_lem m src [] len ok h = unfold bounded in ground arith
measure_lem m src (a ∷ []) len ok h = unfold bounded join in ap (λ q. some q) (char_len_lem len h)
measure_lem m src (a ∷ b ∷ rest) len ok h = elim (Bool-cases (is_group a b)) [
  | inl e ↦
      let (g, at, is) = ok (b - b'0') (digit a b e) in
      rw (e, at, measure)
        (group_step src g len (expand m src (pieces rest)) (λ l. measure m rest l) is h
          (λ l k. measure_lem m src rest l ok k))
  | inr e ↦
      rw (e, char_len_lem len h, measure)
        (measure_step len 1 (a ∷ []) (expand m src (pieces (b ∷ rest)))
          (λ l. measure m (b ∷ rest) l) refl (λ l k. measure_lem m src (b ∷ rest) l ok k))
]

join_both :
    (o r : Option (List ℕ)) (zs : List ℕ)
    → join o r ≡ some zs
    → (xs : List ℕ) × ((ys : List ℕ) × (o ≡ some xs) × (r ≡ some ys) × (zs ≡ xs ++ ys))
unfolding join
join_both none r zs e = absurd cc
join_both (some xs) none zs e = absurd cc
join_both (some xs) (some ys) zs e = (xs, (ys, refl, refl, cc))

-- A group's bytes are its text.
slice_lem :
    (src : List ℕ) (g : Match) (xs : List ℕ)
    → IsMatch src g
    → match_text src (some g) ≡ some xs
    → (slice src g.rm_so (match_len g) ≡ some xs) × (match_len g ≡ length xs)
unfolding match_text slice
slice_lem src g xs (unmatched n eo) e = absurd cc
slice_lem src g xs (matched i j le within) e =
    let t : List ℕ = take (j - i) (drop i src) in
    let same : t ≡ xs = cc in
    let fits : leb (i + (j - i)) (length src) ≡ true = ground arith in
    (
      rw (match_len-matched i j le, fits) (ap (λ q. some q) same),
      match_len-matched i j le ∙ (sym (length-slice src i j le within) ∙ ap length same),
    )

-- A copy is a fill.
copy_to :
    (block : List ℕ) (p : ℕ) (ys xs : List ℕ)
    → ys ≡ xs
    → p + length xs ≤ length block
    → Returns (copy block p ys) (Filled block p xs)
unfolding Filled
copy_to block p ys xs e h =
    subst (λ t. Returns (copy block p t) (Filled block p xs)) (sym e) (copy_lem block p xs h)

-- The loop over the rest behind a copy.
then_fill :
    (block : List ℕ) (p n : ℕ) (ys zs : List ℕ) (k : List ℕ → Run (List ℕ))
    → length ys ≡ n
    → p + length (ys ++ zs) ≤ length block
    → ((q : List ℕ) → p + n + length zs ≤ length q → Returns (k q) (Filled q (p + n) zs))
    → Returns (copy block p ys >>= k) (Filled block p (ys ++ zs))
unfolding Filled
then_fill block p n ys zs k l h rest =
    let (q, runs, f) = copy_lem block p ys (omega (arith, h, length-append ys zs)) in
    let r = rest q (omega (arith, h, f.0, l, length-append ys zs)) in
    (r.0, rw runs r.1, Filled-Filled block q r.0 p n ys zs l f r.2)

-- The second loop, in a block with room for the text behind `p`, makes no access outside the source and
-- the block, and puts the text there.
pub fill_lem :
    (m : List Match) (src tmpl block : List ℕ) (p : ℕ) (xs : List ℕ)
    → IsMatches src m
    → expand m src (pieces tmpl) ≡ some xs
    → p + length xs ≤ length block
    → Returns (fill m src tmpl block p) (Filled block p xs)
unfolding fill pieces expand piece_text IsMatches
fill_lem m src [] block p xs ok e h =
    let none_left : [] ≡ xs = cc in
    (
      block,
      refl,
      unfold Filled in
          (
            refl,
            subst (λ t. take (p + length t) block ≡ take p block ++ t) none_left
                (take_eq block {m = p + 0} {n = p} (omega arith) ∙ sym (append-nil (take p block))),
          ),
    )
fill_lem m src (a ∷ []) block p xs ok e h =
    let one : a ∷ [] ≡ xs = unfold join in cc in copy_to block p (a ∷ []) xs one h
fill_lem m src (a ∷ b ∷ rest) block p xs ok e h = elim (Bool-cases (is_group a b)) [
  | inl i ↦
      let (g, at, is) = ok (b - b'0') (digit a b i) in
      let head : expand m src (pieces (a ∷ b ∷ rest))
          ≡ join (match_text src (some g)) (expand m src (pieces rest)) =
        rw (i, at) refl in
      let (ys, (zs, ey, ez, exs)) =
        join_both (match_text src (some g)) (expand m src (pieces rest)) xs (sym head ∙ e) in
      let s = slice_lem src g ys is ey in
      subst (λ t. Returns (fill m src (a ∷ b ∷ rest) block p) (Filled block p t)) (sym exs)
        (rw (i, at, s.0, fill)
          (then_fill block p (match_len g) ys zs (λ q. fill m src rest q (p + match_len g))
            (sym s.1) (omega (arith, h, ap length exs))
            (λ q room. fill_lem m src rest q (p + match_len g) zs ok ez room)))
  | inr i ↦
      let head : expand m src (pieces (a ∷ b ∷ rest))
          ≡ join (some (a ∷ [])) (expand m src (pieces (b ∷ rest))) =
        rw i refl in
      let (ys, (zs, ey, ez, exs)) =
        join_both (some (a ∷ [])) (expand m src (pieces (b ∷ rest))) xs (sym head ∙ e) in
      let one : a ∷ [] ≡ ys = cc in
      subst (λ t. Returns (fill m src (a ∷ b ∷ rest) block p) (Filled block p t))
        (ap (λ t. t ++ zs) one ∙ sym exs)
        (rw (i, fill)
          (then_fill block p 1 (a ∷ []) zs (λ q. fill m src (b ∷ rest) q (p + 1)) refl
            (omega (arith, h, ap length exs, ap length one, length-append ys zs))
            (λ q room. fill_lem m src (b ∷ rest) q (p + 1) zs ok ez room)))
]

-- What `lws_alloc` documents: a block has the size asked for.
unfoldable pub Allocates : Alloc → Type 0
Allocates alloc = (n : ℕ) (block : List ℕ) → alloc n ≡ some block → length block ≡ n

-- A result is the text of the template; without one, a group has not matched, or the text is too long
-- for a `size_t`, or `lws_alloc` has refused a block of its length.
unfoldable pub Substituted : Alloc → List ℕ → List ℕ → List Match → Option (List ℕ) → Type 0
Substituted alloc tmpl src m (some dest) = expand m src (pieces tmpl) ≡ some dest
Substituted alloc tmpl src m none =
    (expand m src (pieces tmpl) ≡ none)
    ⊎ ((xs : List ℕ) × (expand m src (pieces tmpl) ≡ some xs)
        × ((size_max < length xs) ⊎ (alloc (length xs) ≡ none)))

substitute_lem :
    (alloc : Alloc) (tmpl src : List ℕ) (m : List Match) (xs : List ℕ)
    → Allocates alloc
    → IsMatches src m
    → expand m src (pieces tmpl) ≡ some xs
    → (answer : Option (List ℕ)) → alloc (length xs) ≡ answer
    → Returns (substitute m src tmpl answer) (Substituted alloc tmpl src m)
unfolding substitute Substituted Allocates Filled
substitute_lem alloc tmpl src m xs gives ok e none a = (none, refl, inr (xs, e, inr a))
substitute_lem alloc tmpl src m xs gives ok e (some block) a =
    let n = gives (length xs) block a in
    let (q, runs, f) = fill_lem m src tmpl block 0 xs ok e (omega (arith, n)) in
    let same : q ≡ xs = sym (take_past (0 + length xs) q (omega (arith, n, f.0))) ∙ f.1 in
    (some q, rw runs refl, e ∙ ap (λ t. some t) (sym same))

pub string_sub_lem :
    (alloc : Alloc) (tmpl src : List ℕ) (m : List Match)
    → Allocates alloc
    → IsMatches src m
    → Returns (string_sub alloc tmpl src m) (Substituted alloc tmpl src m)
unfolding string_sub Substituted bounded
string_sub_lem alloc tmpl src m gives ok =
    let length_first = measure_lem m src tmpl 0 ok (omega arith) in
    elim (Option-cases (expand m src (pieces tmpl))) [
      | inl e ↦ (none, rw (length_first, e) refl, inl e)
      | inr (xs, e) ↦ elim (Bool-cases (ltb size_max (0 + length xs))) [
        | inl long ↦
            (none, rw (length_first, e, long) refl, inr (xs, e, inl (ground (arith, long))))
        | inr short ↦
            let s =
              substitute_lem alloc tmpl src m xs gives ok e (alloc (0 + length xs))
                (ap alloc (sym (zero-add (length xs)))) in
            (s.0, rw (length_first, e, short) s.1, s.2)
      ]
    ]
