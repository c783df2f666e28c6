-- ===== src/Request/Substitute/Expand.antt =====
-- What a template of `lws_string_sub` (src/lws_request.c, lines 135 to 187) stands for: its pieces,
-- and their texts one behind the other.
use lambda_lws.Prelude.{
  ℕ, ◌+◌, ◌-◌, ◌≤◌, ◌<◌, ◌≡◌, refl, ap, ◌∙◌, true, Option, none, some, List, [], ◌∷◌, ◌++◌,
  append_assoc, ltb, if◌then◌else◌, length, length-append, get_elem?, take, take_eq, drop, ℤ, pos,
  negsuc, pos_part, arith,
}
use lambda_lws.Codec.Base64.{size_max}
use lambda_lws.Request.Substitute.{Match, to_size, match_len, is_group, add_len, char_len}

-- A character, or a group by its number.
pub data Piece : Type 0 where
  literal : ℕ → Piece
  group : ℕ → Piece

-- The pieces of a template.
unfoldable pub pieces : List ℕ → List Piece
pieces [] = []
pieces (a ∷ []) = literal a ∷ []
pieces (a ∷ b ∷ rest) =
    let p = pieces rest in
    let q = pieces (b ∷ rest) in if is_group a b then group (b - b'0') ∷ p else literal a ∷ q

-- The text of a group that has matched.
unfoldable pub match_text : List ℕ → Option Match → Option (List ℕ)
match_text src none = none
match_text src (some g) = elim g.rm_so [
  | negsuc n ↦ none
  | pos n ↦ some (take (pos_part g.rm_eo - n) (drop n src))
]

unfoldable pub piece_text : List Match → List ℕ → Piece → Option (List ℕ)
piece_text m src (literal c) = some (c ∷ [])
piece_text m src (group d) = match_text src (get_elem? m d)

-- One text behind another, where there are both.
unfoldable pub join : Option (List ℕ) → Option (List ℕ) → Option (List ℕ)
join none ys = none
join (some xs) none = none
join (some xs) (some ys) = some (xs ++ ys)

-- The texts of the pieces; nothing if a group among them has not matched.
unfoldable pub expand : List Match → List ℕ → List Piece → Option (List ℕ)
expand m src [] = some []
expand m src (p ∷ ps) = join (piece_text m src p) (expand m src ps)

-- A group as `regexec` leaves it: not matched, or a part of the source.
pub data IsMatch (src : List ℕ) : Match → Type 0 where
  unmatched : (n : ℕ) (eo : ℤ) → IsMatch src (record { rm_so = negsuc n; rm_eo = eo })
  matched :
      (i j : ℕ) → i ≤ j → j ≤ length src → IsMatch src (record { rm_so = pos i; rm_eo = pos j })

-- The array holds ten such groups.
unfoldable pub IsMatches : List ℕ → List Match → Type 0
IsMatches src m = (d : ℕ) → d < 10 → (g : Match) × (get_elem? m d ≡ some g) × IsMatch src g

-- The length of a text behind `len` bytes, if it is a `size_t`.
unfoldable pub bounded : ℕ → Option (List ℕ) → Option ℕ
bounded len none = none
bounded len (some xs) = if ltb size_max (len + length xs) then none else some (len + length xs)

-- The second loop's result for a text: it stands behind the bytes before `p`.
unfoldable pub Filled : List ℕ → ℕ → List ℕ → List ℕ → Type 0
Filled block p xs q = (length q ≡ length block) × (take (p + length xs) q ≡ take p block ++ xs)

-- Two fills, one behind the other.
pub Filled-Filled :
    (block q r : List ℕ) (p n : ℕ) (xs ys : List ℕ)
    → length xs ≡ n
    → Filled block p xs q
    → Filled q (p + n) ys r
    → Filled block p (xs ++ ys) r
unfolding Filled
Filled-Filled block q r p n xs ys l (lq, eq) (lr, er) = (
  lr ∙ lq,
  take_eq r {m = p + length (xs ++ ys)} {n = p + n + length ys}
        (omega (arith, l, length-append xs ys))
      ∙ (er
          ∙ (ap (λ t. t ++ ys) (take_eq q {m = p + n} {n = p + length xs} (omega (arith, l)) ∙ eq)
              ∙ append_assoc (take p block) xs ys)),
)

pub bounded-join :
    (len : ℕ) (xs : List ℕ) (o : Option (List ℕ))
    → len + length xs ≤ size_max
    → bounded (len + length xs) o ≡ bounded len (join (some xs) o)
unfolding bounded join
bounded-join len xs none h = refl
bounded-join len xs (some ys) h = ground (arith, length-append xs ys)

pub bounded-join_over :
    (len : ℕ) (xs : List ℕ) (o : Option (List ℕ))
    → size_max < len + length xs
    → bounded len (join (some xs) o) ≡ none
unfolding bounded join
bounded-join_over len xs none h = refl
bounded-join_over len xs (some ys) h = ground (arith, length-append xs ys)

pub digit : (a b : ℕ) → is_group a b ≡ true → b - b'0' < 10
unfolding is_group
digit a b h = ground arith

pub char_len_lem :
    (len : ℕ)
    → len ≤ size_max
    → char_len len ≡ (if ltb size_max (len + 1) then none else some (len + 1))
unfolding char_len
char_len_lem len h = ground arith

pub add_len_lem :
    (len n : ℕ)
    → len ≤ size_max
    → add_len len n ≡ (if ltb size_max (len + n) then none else some (len + n))
unfolding add_len
add_len_lem len n h = ground arith

pub match_len-matched :
    (i j : ℕ) → i ≤ j → match_len (record { rm_so = pos i; rm_eo = pos j }) ≡ j - i
unfolding match_len to_size
match_len-matched i j h = ground arith
