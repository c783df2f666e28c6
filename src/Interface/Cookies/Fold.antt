-- ===== src/Interface/Cookies/Fold.antt =====
-- The folded cookies of a Set-Cookie value (src/lws_interface.c, lines 602 to 622 and 671 to 689) against
-- their description: the texts between commas, without the blanks around them, and without the empty ones.
use lambda_lws.Prelude.{
  ℕ, zero, suc, ◌+◌, ◌-◌, ◌<◌, ◌≡◌, refl, sym, ap, ◌∙◌, ◌&&◌, inl, inr, Bool, true, false,
  Bool-cases, some, List, [], ◌∷◌, ◌++◌, append_assoc, append-nil, ltb, leb, ◌==◌, if◌then◌else◌,
  if_on, if_off, length, length-append, take, drop-append, take-append, load, load_at, rc_ok, Run,
  ◌>>=◌, arith,
}
use lambda_lws.Interface.Header.{is_blank, bytes_at}
use lambda_lws.Interface.Cookies.{Writer, skip_start, trim_end, put_cookie, add_cookie}

-- A text without the blanks in front, and without those behind.
unfoldable pub strip_start : List ℕ → List ℕ
strip_start [] = []
strip_start (c ∷ cs) = let rest = strip_start cs in if is_blank c then rest else c ∷ cs

abbrev pub is_empty : List ℕ → Bool
is_empty [] = true
is_empty (c ∷ cs) = false

unfoldable pub strip_end : List ℕ → List ℕ
strip_end [] = []
strip_end (c ∷ cs) = let rest = strip_end cs in if is_blank c && is_empty rest then [] else c ∷ rest

unfoldable pub strip : List ℕ → List ℕ
strip cs = strip_end (strip_start cs)

-- A cookie, unless it is empty.
abbrev pub unless_empty : List ℕ → List (List ℕ)
unless_empty [] = []
unless_empty (c ∷ cs) = (c ∷ cs) ∷ []

-- The cookies of a text, behind what has been read of the first.
unfoldable pub cookies_from : List ℕ → List ℕ → List (List ℕ)
cookies_from cur [] = unless_empty (strip cur)
cookies_from cur (c ∷ cs) =
    if c == b','
    then unless_empty (strip cur) ++ cookies_from [] cs
    else cookies_from (cur ++ c ∷ []) cs

unfoldable pub cookies_of : List ℕ → List (List ℕ)
cookies_of text = cookies_from [] text

-- yyjson makes and adds what it is given.
pub record IsGranted (w : Writer) : Type 0 where
  pub makes : (arr : List (List ℕ)) (text : List ℕ) → w.makes arr text ≡ true
  pub adds : (arr : List (List ℕ)) (text : List ℕ) → w.adds arr text ≡ true

some_lem : {a b : ℕ} → some a ≡ some b → a ≡ b
some_lem h = cc

pub load_here :
    (pre : List ℕ) (c : ℕ) (rest : List ℕ) → load (pre ++ c ∷ rest) (length pre) ≡ some c
unfolding load
load_here pre c rest = load_at pre (c ∷ rest) 0 (length pre) (omega arith) refl

-- What the first loop skips.
pub record Skipped (sc_data : List ℕ) (start n : ℕ) (pre cur : List ℕ) : Type 0 where
  pub skipped : List ℕ
  pub at : skip_start sc_data start n ≡ some (length skipped)
  pub parts : pre ++ cur ≡ skipped ++ strip_start cur

skip_lem :
    (sc_data pre cur post : List ℕ)
    → sc_data ≡ pre ++ (cur ++ post)
    → Skipped sc_data (length pre) (length cur) pre cur
unfolding skip_start strip_start
skip_lem sc_data pre [] post e = record { skipped = pre; at = refl; parts = refl }
skip_lem sc_data pre (c ∷ cs) post e =
    let here : load sc_data (length pre) ≡ some c =
      ap (λ (d : List ℕ). load d (length pre)) e ∙ load_here pre c (cs ++ post) in
    elim (Bool-cases (is_blank c)) [
      | inl p ↦
          let ih =
            skip_lem sc_data (pre ++ c ∷ []) cs post
              (e ∙ sym (append_assoc pre (c ∷ []) (cs ++ post))) in
          let next : length (pre ++ c ∷ []) ≡ length pre + 1 = length-append pre (c ∷ []) in
          record {
            skipped = ih.skipped;
            at =
                rw (here, ◌>>=◌, p)
                  (ap (λ (k : ℕ). skip_start sc_data k (length cs)) (sym next) ∙ ih.at);
            parts = rw p (sym (append_assoc pre (c ∷ []) cs) ∙ ih.parts);
          }
      | inr p ↦ record { skipped = pre; at = rw (here, ◌>>=◌, p) refl; parts = rw p refl }
    ]

trim_round :
    (sc_data : List ℕ) (a n c : ℕ)
    → load sc_data (a + n) ≡ some c
    → trim_end sc_data a (suc n) ≡ (if is_blank c then trim_end sc_data a n else some (suc n))
unfolding trim_end
trim_round sc_data a n c h = rw (h, ◌>>=◌) refl

-- What the second loop leaves, with a character in front.
abbrev behind : Run ℕ → ℕ → Run ℕ
behind first zero = first
behind first (suc k) = some (suc (suc k))

trim_shift :
    (sc_data : List ℕ) (a n r : ℕ)
    → ((j : ℕ) → j < n → (c : ℕ) × (load sc_data (suc a + j) ≡ some c))
    → trim_end sc_data (suc a) n ≡ some r
    → trim_end sc_data a (suc n) ≡ behind (trim_end sc_data a 1) r
unfolding trim_end
trim_shift sc_data a zero zero all h = refl
trim_shift sc_data a zero (suc k) all h = cc
trim_shift sc_data a (suc n) r all h =
    let (c, e) = all n (omega arith) in
    let e' : load sc_data (a + suc n) ≡ some c =
      ap (load sc_data) {x = a + suc n} {y = suc a + n} (omega arith) ∙ e in
    let q = sym (trim_round sc_data (suc a) n c e) ∙ h in
    elim (Bool-cases (is_blank c)) [
      | inl p ↦
          trim_round sc_data a (suc n) c e'
          ∙ if_on (is_blank c) (trim_end sc_data a (suc n)) (some (suc (suc n))) p
          ∙ trim_shift sc_data a n r (λ j l. all j (omega (arith, l)))
              (sym (if_on (is_blank c) (trim_end sc_data (suc a) n) (some (suc n)) p) ∙ q)
      | inr p ↦
          let same : suc n ≡ r =
            some_lem
              (sym (if_off (is_blank c) (trim_end sc_data (suc a) n) (some (suc n)) p) ∙ q) in
          trim_round sc_data a (suc n) c e'
          ∙ if_off (is_blank c) (trim_end sc_data a (suc n)) (some (suc (suc n))) p
          ∙ ap (behind (trim_end sc_data a 1)) same
    ]

length-strip_end :
    (c : ℕ) (cs : List ℕ)
    → behind (if is_blank c then some 0 else some 1) (length (strip_end cs))
      ≡ some (length (strip_end (c ∷ cs)))
unfolding strip_end
length-strip_end c cs = by_rest (strip_end cs)
  where
    by_rest :
        (rest : List ℕ)
        → behind (if is_blank c then some 0 else some 1) (length rest)
          ≡ some (length (if is_blank c && is_empty rest then [] else c ∷ rest))
    by_rest [] = elim (Bool-cases (is_blank c)) [ inl p ↦ rw p refl | inr p ↦ rw p refl ]
    by_rest (d ∷ ds) = elim (Bool-cases (is_blank c)) [ inl p ↦ rw p refl | inr p ↦ rw p refl ]

load_range : (cs post : List ℕ) (j : ℕ) → j < length cs → (c : ℕ) × (load (cs ++ post) j ≡ some c)
unfolding load
load_range [] post j h = absurd (omega (arith, h))
load_range (c ∷ cs) post zero h = (c, refl)
load_range (c ∷ cs) post (suc j) h = load_range cs post j (omega (arith, h))

trim_first :
    (sc_data : List ℕ) (a c : ℕ)
    → load sc_data (a + 0) ≡ some c
    → trim_end sc_data a 1 ≡ (if is_blank c then some 0 else some 1)
unfolding trim_end
trim_first sc_data a c h = rw (h, ◌>>=◌) refl

-- The second loop leaves the text without the blanks behind it.
trim_lem :
    (sc_data pre cur post : List ℕ)
    → sc_data ≡ pre ++ (cur ++ post)
    → trim_end sc_data (length pre) (length cur) ≡ some (length (strip_end cur))
unfolding strip_end
trim_lem sc_data pre [] post e = unfold trim_end in refl
trim_lem sc_data pre (c ∷ cs) post e =
    let here : load sc_data (length pre + 0) ≡ some c =
      ap (load sc_data) {x = length pre + 0} {y = length pre} (omega arith)
      ∙ ap (λ (d : List ℕ). load d (length pre)) e
      ∙ load_here pre c (cs ++ post) in
    let first : trim_end sc_data (length pre) 1 ≡ (if is_blank c then some 0 else some 1) =
      trim_first sc_data (length pre) c here in
    let next : length (pre ++ c ∷ []) ≡ suc (length pre) =
      length-append pre (c ∷ []) ∙ omega arith in
    let shifted = e ∙ sym (append_assoc pre (c ∷ []) (cs ++ post)) in
    let readable : (j : ℕ)
        → j < length cs
        → (d : ℕ) × (load sc_data (suc (length pre) + j) ≡ some d) =
      λ j l.
        let (d, q) = load_range cs post j l in
        (
          d,
          ap (λ (m : List ℕ). load m (suc (length pre) + j)) shifted
              ∙ load_at (pre ++ c ∷ []) (cs ++ post) j (suc (length pre) + j)
                  (ap (λ (k : ℕ). k + j) (sym next)) q,
        ) in
    let ih : trim_end sc_data (suc (length pre)) (length cs) ≡ some (length (strip_end cs)) =
      ap (λ (k : ℕ). trim_end sc_data k (length cs)) (sym next)
      ∙ trim_lem sc_data (pre ++ c ∷ []) cs post shifted in
    trim_shift sc_data (length pre) (length cs) (length (strip_end cs)) readable ih
    ∙ ap (λ (o : Run ℕ). behind o (length (strip_end cs))) first
    ∙ length-strip_end c cs

-- What is taken off stands behind.
strip_end_parts : (cs : List ℕ) → (tail : List ℕ) × (cs ≡ strip_end cs ++ tail)
unfolding strip_end
strip_end_parts [] = ([], refl)
strip_end_parts (c ∷ cs) =
    let (tail, e) = strip_end_parts cs in
    elim (Bool-cases (is_blank c && is_empty (strip_end cs))) [
      | inl p ↦ (c ∷ cs, rw p refl)
      | inr p ↦ (tail, rw p (ap (λ (t : List ℕ). c ∷ t) e))
    ]

-- The length of a text that may be empty.
add_text :
    (w : Writer) (sc_data : List ℕ) (s : ℕ) (text : List ℕ) (arr : List (List ℕ))
    → IsGranted w
    → bytes_at sc_data s (length text) ≡ some text
    → (if ltb s (s + length text)
        then (bytes_at sc_data s (length text) >>= (λ t. some (put_cookie w t arr)))
        else some (rc_ok, arr))
      ≡ some (rc_ok, arr ++ unless_empty text)
unfolding put_cookie
add_text w sc_data s [] arr g h =
    let no : ltb s (s + 0) ≡ false = ground arith in
    rw no (ap (λ (a : List (List ℕ)). some (rc_ok, a)) (sym (append-nil arr)))
add_text w sc_data s (c ∷ cs) arr g h =
    let yes : ltb s (s + length (c ∷ cs)) ≡ true = ground arith in
    rw (yes, h, ◌>>=◌, g.makes arr (c ∷ cs), g.adds arr (c ∷ cs)) refl

bytes_lem :
    (pre text post : List ℕ)
    → bytes_at (pre ++ (text ++ post)) (length pre) (length text) ≡ some text
unfolding bytes_at
bytes_lem pre text post =
    let fits : leb (length pre + length text) (length (pre ++ (text ++ post))) ≡ true =
      ground (arith, length-append pre (text ++ post), length-append text post) in
    rw fits (
      ap (λ (m : List ℕ). some (take (length text) m))
        (drop-append (length pre) pre (text ++ post) refl)
      ∙ ap some (take-append (length text) text post refl))

-- lws_add_cookie adds the text without the blanks around it, unless it is empty.
pub add_cookie_lem :
    (w : Writer) (sc_data pre cur post : List ℕ) (start end' : ℕ) (arr : List (List ℕ))
    → IsGranted w
    → sc_data ≡ pre ++ (cur ++ post)
    → start ≡ length pre
    → end' ≡ length pre + length cur
    → add_cookie w sc_data start end' arr ≡ some (rc_ok, arr ++ unless_empty (strip cur))
unfolding add_cookie strip
add_cookie_lem w sc_data pre cur post start end' arr g e a b =
    let k = skip_lem sc_data pre cur post e in
    let rest = strip_start cur in
    let text = strip_end rest in
    let (tail, parts) = strip_end_parts rest in
    let whole : sc_data ≡ k.skipped ++ (rest ++ post) =
      e
      ∙ sym (append_assoc pre cur post)
      ∙ ap (λ (m : List ℕ). m ++ post) k.parts
      ∙ append_assoc k.skipped rest post in
    let whole' : sc_data ≡ k.skipped ++ (text ++ (tail ++ post)) =
      whole
      ∙ ap (λ (m : List ℕ). k.skipped ++ m)
          (ap (λ (m : List ℕ). m ++ post) parts ∙ append_assoc text tail post) in
    let lengths : length pre + length cur ≡ length k.skipped + length rest =
      sym (length-append pre cur) ∙ ap length k.parts ∙ length-append k.skipped rest in
    let skips : skip_start sc_data start (end' - start) ≡ some (length k.skipped) =
      ap (λ (i : ℕ). skip_start sc_data i (end' - i)) a
      ∙ ap (skip_start sc_data (length pre)) (omega (arith, b))
      ∙ k.at in
    let trims : trim_end sc_data (length k.skipped) (end' - length k.skipped) ≡ some (length text) =
      ap (trim_end sc_data (length k.skipped)) (omega (arith, b, lengths))
      ∙ trim_lem sc_data k.skipped rest post whole in
    let copies : bytes_at sc_data (length k.skipped) (length text) ≡ some text =
      ap (λ (m : List ℕ). bytes_at m (length k.skipped) (length text)) whole'
      ∙ bytes_lem k.skipped text (tail ++ post) in
    rw (skips, ◌>>=◌, trims, ◌>>=◌) (add_text w sc_data (length k.skipped) text arr g copies)
