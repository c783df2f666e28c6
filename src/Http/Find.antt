-- ===== src/Http/Find.antt =====
-- `lws_find_http_status` finds what a scan from the start of the table finds.
use lambda_lws.Prelude.{
  ℕ, zero, suc, ◌≤◌, ◌<◌, ◌≡◌, refl, inl, inr, true, false, ◌&&◌, Bool-cases, Option, none, some,
  List, [], ◌∷◌, map, ltb, if◌then◌else◌, get_or, get_elem?, length, length-map, ℤ, pos, ltb_ℤ,
  eqb_ℤ, arith,
}
use lambda_lws.Search.Bounds.{search-IsFirst, is_sorted, get_or_mono}
use lambda_lws.Http.{HttpStatus, http_status, codes, below, find_http_status}

-- The first entry of a code.
pub scan : ℤ → List HttpStatus → Option HttpStatus
scan c [] = none
scan c (s ∷ ss) = if eqb_ℤ (pos s.code) c then some s else scan c ss

codes_sorted : is_sorted codes ≡ true
unfolding is_sorted codes http_status
codes_sorted = refl

length-codes : length codes ≡ 49
unfolding codes http_status
length-codes = refl

below_sorted : (c : ℤ) (i j : ℕ) → i ≤ j → j < 49 → below c j ≡ true → below c i ≡ true
unfolding below
below_sorted c i j h k e =
    ground (arith, get_or_mono codes i j codes_sorted h (omega (arith, length-codes)))

length-http_status : length http_status ≡ 49
unfolding http_status
length-http_status = refl

tail_sorted :
    (s : HttpStatus) (ss : List HttpStatus)
    → is_sorted (map (λ (t : HttpStatus). t.code) (s ∷ ss)) ≡ true
    → is_sorted (map (λ (t : HttpStatus). t.code) ss) ≡ true
unfolding is_sorted
tail_sorted s [] h = refl
tail_sorted s (t ∷ ss) h = ground arith

-- The code of an entry.
abbrev at : List HttpStatus → ℕ → ℕ
at ss i = get_or (map (λ (s : HttpStatus). s.code) ss) i 0

scan-none :
    (c : ℤ) (ss : List HttpStatus)
    → ((i : ℕ) → i < length ss → eqb_ℤ (pos (at ss i)) c ≡ false)
    → scan c ss ≡ none
unfolding scan
scan-none c [] h = refl
scan-none c (s ∷ ss) h = rw (h zero (omega arith), scan-none c ss (λ i k. h (suc i) (omega arith)))

-- Where the first code is larger than `c`, so are the others.
none_behind :
    (c : ℤ) (s : HttpStatus) (ss : List HttpStatus)
    → is_sorted (map (λ (t : HttpStatus). t.code) (s ∷ ss)) ≡ true
    → ltb_ℤ (pos s.code) c ≡ false
    → eqb_ℤ (pos s.code) c ≡ false
    → (i : ℕ) → i < length (s ∷ ss)
    → eqb_ℤ (pos (at (s ∷ ss) i)) c ≡ false
none_behind c s ss sorted l e i h = ground (
  arith,
  get_or_mono (map (λ (t : HttpStatus). t.code) (s ∷ ss)) 0 i sorted (omega arith)
      (omega (arith, length-map ss (λ (t : HttpStatus). t.code))),
)

scan-at :
    (c : ℤ) (ss : List HttpStatus) (r : ℕ)
    → ((i : ℕ) → i < r → ltb_ℤ (pos (at ss i)) c ≡ true)
    → ((i : ℕ) → r ≤ i → i < length ss → ltb_ℤ (pos (at ss i)) c ≡ false)
    → is_sorted (map (λ (s : HttpStatus). s.code) ss) ≡ true
    → (if ltb r (length ss) && eqb_ℤ (pos (at ss r)) c then get_elem? ss r else none) ≡ scan c ss
unfolding scan
scan-at c [] r lo hi sorted = ground arith
scan-at c (s ∷ ss) zero lo hi sorted = elim (Bool-cases (eqb_ℤ (pos s.code) c)) [
  | inl e ↦ ground arith
  | inr e ↦
      let rest = scan-none c ss (λ i h.
        none_behind c s ss sorted (hi 0 (omega arith) (omega arith)) e (suc i) (omega arith)) in
      ground arith
]
scan-at c (s ∷ ss) (suc r) lo hi sorted =
    let rest =
      scan-at c ss r (λ i h. lo (suc i) (omega arith))
        (λ i h k. hi (suc i) (omega arith) (omega arith)) (tail_sorted s ss sorted) in
    ground (arith, lo 0 (omega arith))

-- `lws_find_http_status` returns the first entry of the table that has the code, and NULL if no entry
-- has it: for 413 and 414, which stand in the table twice, the entry above the legacy one.
pub find_http_status-scan : (code : ℤ) → find_http_status code ≡ scan code http_status
unfolding find_http_status codes below http_status
find_http_status-scan code =
    let f = search-IsFirst (below code) 49 (below_sorted code) 49 (omega arith) in
    scan-at code http_status _ f.passed (λ i h k. f.failed i h (omega (arith, length-http_status)))
      codes_sorted
