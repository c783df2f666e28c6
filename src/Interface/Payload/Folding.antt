-- ===== src/Interface/Payload/Folding.antt =====
-- The Cookie header that `lws_get_next_invocation` makes (src/lws_interface.c, lines 521 to 562).
use lambda_lws.Prelude.{
  cut, ℕ, zero, suc, ◌+◌, ◌-◌, ◌≤◌, ◌<◌, ◌≡◌, refl, sym, ap, ◌∙◌, ◌⊎◌, ◌||◌, not, inl, inr, true,
  false, Option, some, List, [], ◌∷◌, ◌++◌, append_assoc, append-nil, ltb, leb, ◌==◌, if◌then◌else◌,
  map, length, length-append, take, drop, drop-append, take-append, All, Run, ◌>>=◌, arith,
}
use lambda_lws.Codec.Base64.{size_max}
use lambda_lws.Interface.Payload.{Yyjson, str_size, cookie_total, copy_to, separate, cookie_copy}
use lambda_lws.Interface.Cookies.Split.{fold}

-- The texts that are not empty.
unfoldable pub filled : List (List ℕ) → List (List ℕ)
filled [] = []
filled ([] ∷ ts) = filled ts
filled ((c ∷ cs) ∷ ts) = (c ∷ cs) ∷ filled ts

-- The texts of a list of values.
abbrev pub texts : (j : Yyjson) → List j.Val → List (List ℕ)
texts j vs = map (λ v. j.get_str v) vs

-- What cookies add behind others: each behind a separator.
abbrev rest_of : List (List ℕ) → List ℕ
rest_of [] = []
rest_of (t ∷ ts) = b',' ∷ b' ' ∷ (t ++ rest_of ts)

fold-rest_of : (t : List ℕ) (ts : List (List ℕ)) → fold (t ∷ ts) ≡ t ++ rest_of ts
fold-rest_of t [] = sym (append-nil t)
fold-rest_of t (u ∷ us) = ap (λ (m : List ℕ). t ++ (b',' ∷ b' ' ∷ m)) (fold-rest_of u us)

-- What the loops add, by whether there was a cookie before.
abbrev pub adds : ℕ → List (List ℕ) → List ℕ
adds zero ts = fold ts
adds (suc n) ts = rest_of ts

copy_lem :
    (done text old rest : List ℕ)
    → length old ≡ length text
    → copy_to (done ++ (old ++ rest)) (length done) text ≡ some ((done ++ text) ++ rest)
unfolding copy_to
copy_lem done text old rest n =
    let block = done ++ (old ++ rest) in
    let fits : leb (length done + length text) (length block) ≡ true =
      ground (arith, n, length-append done (old ++ rest), length-append old rest) in
    let front : take (length done) block ≡ done =
      take-append (length done) done (old ++ rest) refl in
    let back : drop (length done + length text) block ≡ rest =
      ap (drop (length done + length text)) (sym (append_assoc done old rest))
      ∙ drop-append (length done + length text) (done ++ old) rest
          (omega (arith, n, length-append done old)) in
    rw (fits, front, back) (ap some (sym (append_assoc done text rest)))

-- What stands in front of a cookie.
abbrev lead : ℕ → List ℕ
lead zero = []
lead (suc n) = b',' ∷ b' ' ∷ []

adds-lead :
    (count : ℕ) (t : List ℕ) (ts : List (List ℕ))
    → adds count (t ∷ ts) ≡ lead count ++ (t ++ rest_of ts)
adds-lead zero t ts = fold-rest_of t ts
adds-lead (suc n) t ts = refl

abbrev placed : List ℕ → ℕ → Run (List ℕ × ℕ)
placed block i = some (block, i)

separate_lem :
    (done old rest : List ℕ) (count : ℕ)
    → length old ≡ length (lead count)
    → separate (done ++ (old ++ rest)) (length done) count
      ≡ some ((done ++ lead count) ++ rest, length (done ++ lead count))
unfolding separate
separate_lem done [] rest zero n =
    ap (λ (d : List ℕ). placed (d ++ rest) (length d)) (sym (append-nil done))
separate_lem done (x ∷ xs) rest zero n = absurd (omega (arith, n))
separate_lem done old rest (suc k) n =
    rw (copy_lem done (b',' ∷ b' ' ∷ []) old rest n, ◌>>=◌)
      (ap (placed ((done ++ (b',' ∷ b' ' ∷ [])) ++ rest))
        (sym (length-append done (b',' ∷ b' ' ∷ []))))

-- A text is empty and left out, or it is not.
filled_cases :
    (t : List ℕ) (ts : List (List ℕ))
    → ((length t ≡ 0) × (filled (t ∷ ts) ≡ filled ts))
      ⊎ ((0 < length t) × (filled (t ∷ ts) ≡ t ∷ filled ts))
unfolding filled
filled_cases [] ts = inl (refl, refl)
filled_cases (c ∷ cs) ts = inr (omega arith, refl)

empty_lem : (room : List ℕ) → length room ≡ 0 → room ≡ []
empty_lem [] h = refl
empty_lem (x ∷ xs) h = absurd (omega (arith, h))

adds_none : (count : ℕ) → adds count (filled []) ≡ []
unfolding filled
adds_none zero = refl
adds_none (suc n) = refl

-- The second loop writes the cookies that are not empty behind what is there, and fills the block.
pub cookie_copy_lem :
    (j : Yyjson) (vs : List j.Val) (done room : List ℕ) (count : ℕ)
    → length room ≡ length (adds count (filled (texts j vs)))
    → cookie_copy j vs (done ++ room) (length done) count
      ≡ some (done ++ adds count (filled (texts j vs)))
unfolding cookie_copy
cookie_copy_lem j [] done room count n =
    let none_lem = adds_none count in
    ap (λ (r : List ℕ). some (done ++ r)) (empty_lem room (n ∙ ap length none_lem) ∙ sym none_lem)
cookie_copy_lem j (v ∷ vs) done room count n =
    let t = j.get_str v in
    let ts = filled (texts j vs) in
    elim (filled_cases t (texts j vs)) [
      | inl (z, e) ↦
          let zero_lem : (length t == 0) ≡ true = ground (arith, z) in
          rw zero_lem (
            cookie_copy_lem j vs done room count
              (n ∙ ap (λ (o : List (List ℕ)). length (adds count o)) e)
            ∙ ap (λ (o : List (List ℕ)). some (done ++ adds count o)) (sym e))
      | inr (p, e) ↦
          let some_lem : (length t == 0) ≡ false = ground (arith, p) in
          let whole : adds count (filled (t ∷ texts j vs)) ≡ lead count ++ (t ++ rest_of ts) =
            ap (adds count) e ∙ adds-lead count t ts in
          let size : length room ≡ length (lead count) + (length t + length (rest_of ts)) =
            n
            ∙ ap length whole
            ∙ length-append (lead count) (t ++ rest_of ts)
            ∙ ap (λ (k : ℕ). length (lead count) + k) (length-append t (rest_of ts)) in
          let (one, more, split, l, m) =
            cut (length (lead count)) (length t + length (rest_of ts)) room size in
          let (two, last, split', l', m') = cut (length t) (length (rest_of ts)) more m in
          let done' = done ++ lead count in
          let sep = separate_lem done one more count l in
          let sep' : separate (done ++ room) (length done) count
              ≡ placed (done' ++ more) (length done') =
            ap (λ (r : List ℕ). separate (done ++ r) (length done) count) split ∙ sep in
          let put : copy_to (done' ++ more) (length done') t ≡ some ((done' ++ t) ++ last) =
            ap (λ (r : List ℕ). copy_to (done' ++ r) (length done') t) split'
            ∙ copy_lem done' t two last l' in
          let end_lem : length done' + length t ≡ length (done' ++ t) =
            sym (length-append done' t) in
          rw (some_lem, sep', ◌>>=◌, put, ◌>>=◌)
            (ap (λ (k : ℕ). cookie_copy j vs ((done' ++ t) ++ last) k (count + 1)) end_lem
              ∙ ap (cookie_copy j vs ((done' ++ t) ++ last) (length (done' ++ t))) {x = count + 1}
                  {y = suc count} (omega arith)
              ∙ cookie_copy_lem j vs (done' ++ t) last (suc count) m'
              ∙ ap some (
                  append_assoc done' t (rest_of ts)
                  ∙ append_assoc done (lead count) (t ++ rest_of ts)
                  ∙ ap (λ (r : List ℕ). done ++ r) (sym whole)))
    ]

-- What the first loop adds for a cookie that is not empty.
gain : ℕ → ℕ → ℕ
gain len count = len + (if count == 0 then 0 else 2)

gain_least : (len count : ℕ) → len ≤ gain len count
unfolding gain
gain_least len count = omega arith

length-adds :
    (count : ℕ) (t : List ℕ) (ts : List (List ℕ))
    → length (adds count (t ∷ ts)) ≡ gain (length t) count + length (adds (count + 1) ts)
unfolding gain
length-adds zero t ts = ap length (fold-rest_of t ts) ∙ length-append t (rest_of ts) ∙ omega arith
length-adds (suc n) t ts =
    let next : length (adds (suc n + 1) ts) ≡ length (rest_of ts) =
      ap (λ (k : ℕ). length (adds k ts)) {x = suc n + 1} {y = suc (suc n)} (omega arith) in
    let two : (suc n == 0) ≡ false = ground arith in
    rw (two, next) (omega (arith, length-append t (rest_of ts)))

abbrev pub counted : ℕ → ℕ → Option (ℕ × ℕ)
counted total count = some (total, count)

-- The first loop gives the size of what the second writes, and the number of cookies.
pub cookie_total_lem :
    (j : Yyjson) (vs : List j.Val) (total count : ℕ)
    → All (λ v. j.is_str v ≡ true) vs
    → total + length (adds count (filled (texts j vs))) + str_size + 2 ≤ size_max
    → cookie_total j vs total count
      ≡ some
          (total + length (adds count (filled (texts j vs))), count + length (filled (texts j vs)))
unfolding cookie_total gain
cookie_total_lem j [] total count h small =
    let nothing : length (adds count (filled [])) ≡ 0 = ap length (adds_none count) in
    ap (λ (k : ℕ). counted k count) {x = total} {y = total + length (adds count (filled []))}
      (omega (arith, nothing))
    ∙ ap (counted (total + length (adds count (filled [])))) (unfold filled in omega arith)
cookie_total_lem j (v ∷ vs) total count (str, strs) small =
    let t = j.get_str v in
    let ts = filled (texts j vs) in
    elim (filled_cases t (texts j vs)) [
      | inl (z, e) ↦
          let zero_lem : (length t == 0) ≡ true = ground (arith, z) in
          let yes : not (j.is_str v) ≡ false = ap not str in
          rw (yes, zero_lem)
            (cookie_total_lem j vs total count strs
                (omega (arith, small, ap (λ (o : List (List ℕ)). length (adds count o)) e))
              ∙ ap
                  (λ (o : List (List ℕ)).
                    counted (total + length (adds count o)) (count + length o))
                  (sym e))
      | inr (p, e) ↦
          let some_lem : (length t == 0) ≡ false = ground (arith, p) in
          let yes : not (j.is_str v) ≡ false = ap not str in
          let size : length (adds count (filled (t ∷ texts j vs)))
              ≡ gain (length t) count + length (adds (count + 1) ts) =
            ap (λ (o : List (List ℕ)). length (adds count o)) e ∙ length-adds count t ts in
          let least : length t ≤ gain (length t) count = gain_least (length t) count in
          let fits : (ltb (size_max - str_size - 2) (length t)
                || ltb (size_max - str_size - 2 - length t) total)
              ≡ false =
            ground (arith, small, size, least) in
          rw (yes, some_lem, fits)
            (cookie_total_lem j vs (total + gain (length t) count) (count + 1) strs
                (omega (arith, small, size))
              ∙ ap (λ (a : ℕ). counted a (count + 1 + length ts)) (omega (arith, size))
              ∙ ap (counted (total + length (adds count (filled (t ∷ texts j vs)))))
                  (omega (arith, ap length e)))
    ]
