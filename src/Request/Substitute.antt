-- ===== src/Request/Substitute.antt =====
-- `lws_string_sub` of src/lws_request.c (lines 135 to 187): a template in which `$0` to `$9` stand for
-- the groups of a match. `lws_alloc` is a parameter; a run is `none` if it accesses memory outside of
-- the array of matches, the source or the new block.
pub mod Expand
pub mod Loops
use lambda_lws.Prelude.{
  ℕ, ◌+◌, ◌-◌, ◌≤◌, ◌≡◌, Bool, true, false, ◌&&◌, Option, none, some, List, [], ◌∷◌, ltb, leb, ◌==◌,
  if◌then◌else◌, length, get_elem?, take, drop, ℤ, pos, negsuc, sub_ℕ, pos_part, neg_part, Run,
  ◌>>=◌,
}
use lambda_lws.Codec.Base64.{size_max, size_mod}
use lambda_lws.Body.{copy}

-- regmatch_t: the offsets of a group, rm_so negative where the group has not matched.
pub record Match : Type 0 where
  pub rm_so : ℤ
  pub rm_eo : ℤ

-- A conversion to size_t.
unfoldable pub to_size : ℤ → ℕ
to_size (pos n) = n
to_size (negsuc n) = size_mod - 1 - n

-- (size_t)(match[d].rm_eo - match[d].rm_so)
unfoldable pub match_len : Match → ℕ
unfolding to_size
match_len g =
    to_size (sub_ℕ (pos_part g.rm_eo + neg_part g.rm_so) (pos_part g.rm_so + neg_part g.rm_eo))

-- '$' and a digit
unfoldable pub is_group : ℕ → ℕ → Bool
is_group a b = (a == b'$') && (leb b'0' b && leb b b'9')

-- match_len > SIZE_MAX - len, and the sum
unfoldable pub add_len : ℕ → ℕ → Option ℕ
add_len len n = if ltb (size_max - len) n then none else some (len + n)

-- A group's contribution to the length; `none` is the return code -1.
unfoldable pub group_len : ℕ → Match → Option ℕ
unfolding match_len add_len
group_len len g = elim g.rm_so [ negsuc n ↦ none | pos n ↦ add_len len (match_len g) ]

-- A character's.
unfoldable pub char_len : ℕ → Option ℕ
char_len len = if len == size_max then none else some (len + 1)

-- The loop that calculates the length, with the length so far.
unfoldable pub measure : List Match → List ℕ → ℕ → Run (Option ℕ)
unfolding group_len char_len is_group
measure m [] len = some (some len)
measure m (a ∷ []) len = some (char_len len)
measure m (a ∷ b ∷ rest) len = elim (is_group a b) [
  | true ↦ do
    g ← get_elem? m (b - b'0')
    elim (group_len len g) [ none ↦ some none | some l ↦ measure m rest l ]
  | false ↦ elim (char_len len) [ none ↦ some none | some l ↦ measure m (b ∷ rest) l ]
]

-- The bytes of a group in the source.
unfoldable pub slice : List ℕ → ℤ → ℕ → Run (List ℕ)
slice src (negsuc i) n = none
slice src (pos i) n = if leb (i + n) (length src) then some (take n (drop i src)) else none

-- The loop that substitutes, with the block and the place `p` in it.
unfoldable pub fill : List Match → List ℕ → List ℕ → List ℕ → ℕ → Run (List ℕ)
unfolding slice copy match_len is_group
fill m src [] block p = some block
fill m src (a ∷ []) block p = copy block p (a ∷ [])
fill m src (a ∷ b ∷ rest) block p = elim (is_group a b) [
  | true ↦ do
    g ← get_elem? m (b - b'0')
    bytes ← slice src g.rm_so (match_len g)
    q ← copy block p bytes
    fill m src rest q (p + match_len g)
  | false ↦ do q ← copy block p (a ∷ []); fill m src (b ∷ rest) q (p + 1)
]

-- lws_alloc
abbrev pub Alloc : Type 0
Alloc = ℕ → Option (List ℕ)

-- With the block that `lws_alloc` gave.
unfoldable pub substitute : List Match → List ℕ → List ℕ → Option (List ℕ) → Run (Option (List ℕ))
unfolding fill
substitute m src tmpl none = some none
substitute m src tmpl (some block) = fill m src tmpl block 0 >>= λ q. some (some q)

-- lws_string_sub: `none` inside a run is the return code -1, a list is `dest`.
unfoldable pub string_sub : Alloc → List ℕ → List ℕ → List Match → Run (Option (List ℕ))
unfolding measure substitute
string_sub alloc tmpl src m = do
  len ← measure m tmpl 0
  elim len [ none ↦ some none | some n ↦ substitute m src tmpl (alloc n) ]
