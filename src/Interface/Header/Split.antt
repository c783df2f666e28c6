-- ===== src/Interface/Header/Split.antt =====
-- The name and the value that `lws_handle_header` (src/lws_interface.c, lines 166 to 177) has of a line.
use native.Mathlib.Nat.{zero-add, suc-add}
use lambda_lws.Prelude.{
  ℕ, zero, suc, ◌+◌, ◌*◌, ◌/◌, not, ◌&&◌, ◌<◌, ◌≡◌, refl, sym, ap, ◌∙◌, true, false, Option, none,
  some, List, [], ◌∷◌, ◌++◌, append_assoc, ltb, leb, ◌==◌, if_on, if_off, length, length-append,
  take, drop, drop-append, take-append, load, load_at, All, Run, ◌>>=◌, arith,
}
use lambda_lws.Codec.Base64.{size_max}
use lambda_lws.Interface.Header.{
  is_blank, is_trailing, find_colon, skip_blanks, trim, distance, bytes_at, value_at, split_header,
  Headers, Setting, add_header, handle_split, handle_header,
}

abbrev pub IsName : List ℕ → Type 0
IsName name = All (λ c. (c == b':') ≡ false) name

find_colon_lem :
    (name rest : List ℕ) (n i : ℕ)
    → IsName name
    → find_colon (name ++ b':' ∷ rest) (length name + suc n) i ≡ some (some (i + length name))
unfolding find_colon
find_colon_lem [] rest n i h = rw zero-add (ap (λ (k : ℕ). some (some k)) (omega arith))
find_colon_lem (c ∷ cs) rest n i (p, ps) =
    rw (suc-add, p)
      (find_colon_lem cs rest n (i + 1) ps ∙ ap (λ (k : ℕ). some (some k)) (omega arith))

skip_blanks_lem :
    (lead : List ℕ) (c : ℕ) (rest : List ℕ) (i : ℕ)
    → All (λ b. is_blank b ≡ true) lead
    → is_blank c ≡ false
    → skip_blanks (lead ++ c ∷ rest) i ≡ some (i + length lead)
unfolding skip_blanks
skip_blanks_lem [] c rest i h e = rw e (ap some (omega arith))
skip_blanks_lem (b ∷ bs) c rest i (p, ps) e =
    rw p (skip_blanks_lem bs c rest (i + 1) ps e ∙ ap some (omega arith))

trim_step :
    (mem : List ℕ) (val k c : ℕ)
    → load mem (val + k) ≡ some c
    → is_trailing c ≡ true
    → trim mem val (suc k) ≡ trim mem val k
unfolding trim
trim_step mem val k c e p = rw (e, ◌>>=◌, p) refl

trim_stop :
    (mem : List ℕ) (val k c : ℕ)
    → load mem (val + k) ≡ some c
    → is_trailing c ≡ false
    → trim mem val (suc k) ≡ some (suc k)
unfolding trim
trim_stop mem val k c e p = rw (e, ◌>>=◌, p) refl

load_in :
    (trail rest : List ℕ) (j : ℕ)
    → All (λ c. is_trailing c ≡ true) trail
    → j < length trail
    → (c : ℕ) × (load (trail ++ rest) j ≡ some c) × (is_trailing c ≡ true)
unfolding load
load_in [] rest j h l = absurd (omega (arith, l))
load_in (c ∷ cs) rest zero (p, ps) l = (c, refl, p)
load_in (c ∷ cs) rest (suc j) (p, ps) l = load_in cs rest j ps (omega (arith, l))

-- Trailing characters are taken off, from the last on.
trim_trailing :
    (mem : List ℕ) (val n k : ℕ)
    → ((j : ℕ) → j < k → (c : ℕ) × (load mem (val + (n + j)) ≡ some c) × (is_trailing c ≡ true))
    → trim mem val (n + k) ≡ trim mem val n
trim_trailing mem val n zero h = ap (trim mem val) (omega arith)
trim_trailing mem val n (suc k) h =
    let (c, e, p) = h k (omega arith) in
    ap (trim mem val) {x = n + suc k} {y = suc (n + k)} (omega arith)
    ∙ trim_step mem val (n + k) c e p
    ∙ trim_trailing mem val n k (λ j q. h j (omega (arith, q)))

load_first : (c : ℕ) (cs : List ℕ) → load (c ∷ cs) 0 ≡ some c
unfolding load
load_first c cs = refl

-- A value that does not end in a trailing character.
pub data IsTrimmed : List ℕ → Type 0 where
  empty : IsTrimmed []
  ends :
      (front : List ℕ) (c : ℕ) (value : List ℕ)
      → value ≡ front ++ c ∷ []
      → is_trailing c ≡ false
      → IsTrimmed value

trim_value :
    (before value rest : List ℕ)
    → IsTrimmed value
    → trim (before ++ (value ++ rest)) (length before) (length value) ≡ some (length value)
unfolding trim
trim_value before _ rest empty = refl
trim_value before _ rest (ends front c value e p) =
    let n : length value ≡ suc (length front) =
      ap length e ∙ length-append front (c ∷ []) ∙ omega arith in
    let at : load (value ++ rest) (length front) ≡ some c =
      ap (λ (v : List ℕ). load (v ++ rest) (length front)) e
      ∙ ap (λ (v : List ℕ). load v (length front)) (append_assoc front (c ∷ []) rest)
      ∙ load_at front (c ∷ rest) 0 (length front) (omega arith) (load_first c rest) in
    let here : load (before ++ (value ++ rest)) (length before + length front) ≡ some c =
      load_at before (value ++ rest) (length front) (length before + length front) refl at in
    ap (trim (before ++ (value ++ rest)) (length before)) n
    ∙ trim_stop (before ++ (value ++ rest)) (length before) (length front) c here p
    ∙ ap some (sym n)

trim_lem :
    (before value trail rest : List ℕ)
    → IsTrimmed value
    → All (λ c. is_trailing c ≡ true) trail
    → trim (before ++ (value ++ (trail ++ rest))) (length before) (length value + length trail)
      ≡ some (length value)
trim_lem before value trail rest v h =
    trim_trailing (before ++ (value ++ (trail ++ rest))) (length before) (length value)
      (length trail)
      (λ j l.
        let (c, e, p) = load_in trail rest j h l in
        (
          c,
          load_at before (value ++ (trail ++ rest)) (length value + j) _ refl
              (load_at value (trail ++ rest) j _ refl e),
          p,
        ))
    ∙ trim_value before value (trail ++ rest) v

-- A line: a name, a colon, blanks, a value, and at least the characters that end the line.
abbrev pub line : List ℕ → List ℕ → List ℕ → List ℕ → List ℕ
line name lead value trail = name ++ (b':' ∷ (lead ++ (value ++ trail)))

-- A value and what ends its line do not start with a blank.
pub data IsStart : List ℕ → Type 0 where
  starts : (c : ℕ) (cs s : List ℕ) → s ≡ c ∷ cs → is_blank c ≡ false → IsStart s

value_at_lem :
    (before lead value trail rest : List ℕ) (len : ℕ)
    → All (λ b. is_blank b ≡ true) lead
    → IsTrimmed value
    → All (λ c. is_trailing c ≡ true) trail
    → IsStart (value ++ (trail ++ rest))
    → len ≡ length before + 1 + length lead + (length value + length trail)
    → value_at (before ++ (b':' ∷ (lead ++ (value ++ (trail ++ rest))))) len (length before)
      ≡ some value
unfolding value_at distance bytes_at
value_at_lem before lead value trail rest len h v g (starts c cs s e p) n =
    let mem = before ++ (b':' ∷ (lead ++ (value ++ (trail ++ rest)))) in
    let front = before ++ (b':' ∷ lead) in
    let at = length before + 1 + length lead in
    let whole : mem ≡ front ++ (value ++ (trail ++ rest)) =
      sym (append_assoc before (b':' ∷ lead) (value ++ (trail ++ rest))) in
    let front_len : length front ≡ at = length-append before (b':' ∷ lead) ∙ omega arith in
    let behind : drop (length before + 1) mem ≡ lead ++ c ∷ cs =
      ap (drop (length before + 1))
        (sym (append_assoc before (b':' ∷ []) (lead ++ (value ++ (trail ++ rest)))))
      ∙ drop-append (length before + 1) (before ++ b':' ∷ []) (lead ++ (value ++ (trail ++ rest)))
          (length-append before (b':' ∷ []) ∙ omega arith)
      ∙ ap (λ (q : List ℕ). lead ++ q) e in
    let skips : skip_blanks (drop (length before + 1) mem) (length before + 1) ≡ some at =
      ap (λ (m : List ℕ). skip_blanks m (length before + 1)) behind
      ∙ skip_blanks_lem lead c cs (length before + 1) h p in
    let apart : distance len at ≡ length value + length trail = ground (arith, n) in
    let trims : trim mem at (distance len at) ≡ some (length value) =
      ap (trim mem at) apart
      ∙ ap (λ (m : List ℕ). trim m at (length value + length trail)) whole
      ∙ ap (λ (k : ℕ). trim (front ++ (value ++ (trail ++ rest))) k (length value + length trail))
          (sym front_len)
      ∙ trim_lem front value trail rest v g in
    let copies : bytes_at mem at (length value) ≡ some value =
      let fits : leb (at + length value) (length mem) ≡ true = ground (
        arith,
        ap length whole,
        length-append front (value ++ (trail ++ rest)),
        front_len,
        length-append value (trail ++ rest),
      ) in
      if_on (leb (at + length value) (length mem)) (some (take (length value) (drop at mem))) none
        fits
      ∙ ap (λ (m : List ℕ). some (take (length value) m))
          (ap (drop at) whole ∙ drop-append at front (value ++ (trail ++ rest)) front_len)
      ∙ ap some (take-append (length value) value (trail ++ rest) refl) in
    rw (skips, ◌>>=◌, trims, ◌>>=◌) copies

-- A line of a header is split at its first colon: the name stands before it, and the value is what
-- remains behind it without the blanks in front and the blanks and ends of line behind it.
pub split_header_lem :
    (name lead value trail rest : List ℕ)
    → IsName name
    → All (λ b. is_blank b ≡ true) lead
    → IsTrimmed value
    → All (λ c. is_trailing c ≡ true) trail
    → IsStart (value ++ (trail ++ rest))
    → split_header (line name lead value (trail ++ rest)) (length (line name lead value trail))
      ≡ some (some (name, value))
unfolding split_header
split_header_lem name lead value trail rest h l v g s =
    let mem = line name lead value (trail ++ rest) in
    let tail = lead ++ (value ++ trail) in
    let n : length (line name lead value trail) ≡ length name + suc (length tail) =
      length-append name (b':' ∷ tail) in
    let tail_len : length tail ≡ length lead + (length value + length trail) =
      length-append lead (value ++ trail)
      ∙ ap (λ (k : ℕ). length lead + k) (length-append value trail) in
    let finds : find_colon mem (length (line name lead value trail)) 0 ≡ some (some (length name)) =
      ap (λ (k : ℕ). find_colon mem k 0) n
      ∙ find_colon_lem name (lead ++ (value ++ (trail ++ rest))) (length tail) 0 h
      ∙ ap (λ (k : ℕ). some (some k)) (zero-add (length name)) in
    let values =
      value_at_lem name lead value trail rest (length (line name lead value trail)) l v g s
        (omega (arith, n, tail_len)) in
    let names : take (length name) mem ≡ name =
      take-append (length name) name (b':' ∷ (lead ++ (value ++ (trail ++ rest)))) refl in
    rw (finds, ◌>>=◌, values, ◌>>=◌, names) refl

pub handle_header-add_header :
    (w : Setting) (s : Headers) (size nitems : ℕ)
    → (c : ℕ) (name lead value trail rest : List ℕ) → IsName (c ∷ name)
    → All (λ b. is_blank b ≡ true) lead
    → IsTrimmed value
    → All (λ c. is_trailing c ≡ true) trail
    → IsStart (value ++ (trail ++ rest))
    → (not (nitems == 0) && ltb (size_max / nitems) size) ≡ false
    → size * nitems ≡ length (line (c ∷ name) lead value trail)
    → handle_header w (line (c ∷ name) lead value (trail ++ rest)) size nitems s
      ≡ add_header w s (c ∷ name) value (size * nitems)
unfolding handle_header handle_split
handle_header-add_header w s size nitems c name lead value trail rest h l v g start fits n =
    let splits : split_header (line (c ∷ name) lead value (trail ++ rest)) (size * nitems)
        ≡ some (some (c ∷ name, value)) =
      ap (split_header (line (c ∷ name) lead value (trail ++ rest))) n
      ∙ split_header_lem (c ∷ name) lead value trail rest h l v g start in
    if_off (not (nitems == 0) && ltb (size_max / nitems) size) (some (0, s))
      (split_header (line (c ∷ name) lead value (trail ++ rest)) (size * nitems)
        >>= handle_split w s (size * nitems))
      fits
    ∙ ap (λ (r : Run (Option (List ℕ × List ℕ))). r >>= handle_split w s (size * nitems)) splits
