-- ===== src/Codec/Base64/Decode.antt =====
-- `lws_base64_decode`, in place from the start of the buffer, against the decoding of RFC 4648.
use lambda_lws.Prelude.{
  ℕ, zero, suc, ◌+◌, ◌-◌, ◌*◌, ◌/◌, ◌%◌, ◌^◌, ◌≤◌, ◌<◌, bit_or, ◌≡◌, true, false, Bool, ◌||◌, refl,
  ◌≢◌, sym, ap, subst, ◌∙◌, Option, none, some, List, [], ◌∷◌, ◌++◌, append_assoc, length,
  length-append, IsBytes, load_at, store_at, load, store, arith, ltb, ◌==◌, ==_iff, if◌then◌else◌,
  ◌>>=◌, Run, Returns, inl, inr, Option-cases, every_below, every_below-at, or_shifted, or_bit_7,
  and_128, and_3, rc_ok, rc_error,
}
use native.Mathlib.Decide.{ℕ_discrete}
use lambda_lws.Codec.Base64.Spec
use lambda_lws.Codec.Base64.Spec.{sextet, octets}
use lambda_lws.Codec.Base64.Blocks.{four_more}
use lambda_lws.Codec.Base64.{
  b64_dec_tbl, dec, is_bad, byte_0, byte_1, byte_2, Decoded, Leading, failed, decode_leading,
  decode_final, decode_rest, base64_decode,
}

abbrev table_entry : Option ℕ → ℕ
table_entry none = 0x80
table_entry (some v) = v

dec_table : every_below 256 (λ c. dec c == table_entry (sextet c)) ≡ true
unfolding every_below dec b64_dec_tbl sextet
dec_table = refl

-- The table holds the numbers of the RFC's letters, and 0x80 for any other byte.
pub dec_lem : (c : ℕ) → c < 256 → dec c ≡ table_entry (sextet c)
dec_lem c h =
    (==_iff _ _).0 (every_below-at 256 (λ c. dec c == table_entry (sextet c)) c dec_table h)

sextet-lt : (c : ℕ) {v : ℕ} → sextet c ≡ some v → v < 64
unfolding sextet
sextet-lt c h = ground arith

-- What the tests and shifts do to a byte whose letter is known, and to one that is no letter.
dec-some :
    (c : ℕ) {v : ℕ}
    → c < 256
    → sextet c ≡ some v
    → (dec c ≡ v) × (v < 64) × (is_bad (dec c) ≡ false)
unfolding is_bad
dec-some c h e = ground (arith, dec_lem c h, sextet-lt c e, and_128 (dec c))

dec-none : (c : ℕ) → c < 256 → sextet c ≡ none → (dec c ≡ 128) × (is_bad (dec c) ≡ true)
unfolding is_bad
dec-none c h e = ground (arith, dec_lem c h, and_128 (dec c))

bytes_0 : (a b : ℕ) → a < 64 → b < 64 → byte_0 a b ≡ a * 4 + b / 16
unfolding byte_0
bytes_0 a b ha hb = rw (or_shifted 2 a (b / 2 ^ 4) (omega arith)) (omega arith)

bytes_1 : (b c : ℕ) → b < 64 → c < 64 → byte_1 b c ≡ b % 16 * 16 + c / 4
unfolding byte_1
bytes_1 b c hb hc = rw (or_shifted 4 b (c / 2 ^ 2) (omega arith)) (omega arith)

bytes_2 : (c d : ℕ) → c < 64 → d < 64 → byte_2 c d ≡ c % 4 * 64 + d
unfolding byte_2
bytes_2 c d hc hd = rw (or_shifted 6 c d (omega arith)) (omega arith)

or_bad : (x y : ℕ) → is_bad (bit_or x y) ≡ is_bad x || is_bad y
unfolding is_bad
or_bad x y = ground (arith, and_128 x, and_128 y, and_128 (bit_or x y), or_bit_7 x y)

-- The test of a block that is not the last, and the bytes that it gives.
abbrev InnerBlock : ℕ → ℕ → ℕ → ℕ → Bool → Option (List ℕ) → Type 0
InnerBlock a b c d true r = r ≡ none
InnerBlock a b c d false r =
    r ≡ some (byte_0 (dec a) (dec b) ∷ byte_1 (dec b) (dec c) ∷ byte_2 (dec c) (dec d) ∷ [])

inner_block :
    (a b c d : ℕ)
    → a < 256
    → b < 256
    → c < 256
    → d < 256
    → InnerBlock a b c d
        (is_bad (bit_or (bit_or (bit_or (dec a) (dec b)) (dec c)) (dec d)))
        (Spec.decode_inner a b c d)
unfolding Spec.decode_inner octets
inner_block a b c d ha hb hc hd =
    rw
      (
        or_bad (bit_or (bit_or (dec a) (dec b)) (dec c)) (dec d),
        or_bad (bit_or (dec a) (dec b)) (dec c),
        or_bad (dec a) (dec b),
      )
      (elim (Option-cases (sextet a)) [
        | inl na ↦ rw (na, (dec-none a ha na).1)
        | inr (va, ea) ↦ elim (Option-cases (sextet b)) [
          | inl nb ↦ rw (ea, nb, (dec-some a ha ea).2, (dec-none b hb nb).1)
          | inr (vb, eb) ↦ elim (Option-cases (sextet c)) [
            | inl nc ↦
                rw (ea, eb, nc, (dec-some a ha ea).2, (dec-some b hb eb).2, (dec-none c hc nc).1)
            | inr (vc, ec) ↦ elim (Option-cases (sextet d)) [
              | inl nd ↦ rw (
                ea,
                eb,
                ec,
                nd,
                (dec-some a ha ea).2,
                (dec-some b hb eb).2,
                (dec-some c hc ec).2,
                (dec-none d hd nd).1,
              )
              | inr (vd, ed) ↦
                  rw
                    (
                      ea,
                      eb,
                      ec,
                      ed,
                      (dec-some a ha ea).2,
                      (dec-some b hb eb).2,
                      (dec-some c hc ec).2,
                      (dec-some d hd ed).2,
                    )
                    (ground (
                      arith,
                      dec-some a ha ea,
                      dec-some b hb eb,
                      dec-some c hc ec,
                      dec-some d hd ed,
                      bytes_0 va vb,
                      bytes_1 vb vc,
                      bytes_2 vc vd,
                    ))
            ]
          ]
        ]
      ])

-- Writes the bytes over the start of a buffer.
abbrev overwrite : List ℕ → List ℕ → List ℕ
overwrite [] zs = zs
overwrite (y ∷ ys) [] = []
overwrite (y ∷ ys) (z ∷ zs) = y ∷ overwrite ys zs

-- The end of a run that has written `ds` before and whose last block gives `r`.
abbrev ending : ℕ → List ℕ → List ℕ → Option (List ℕ) → Decoded
ending len ds zs none = record { rc = rc_error; in_out = ds ++ zs; in_out_len = len }
ending len ds zs (some ys) = record {
  rc = rc_ok;
  in_out = ds ++ overwrite ys zs;
  in_out_len = length ds + length ys;
}

-- The three writes at the end of `ds`.
module _ (o : ℕ) (ds zs : List ℕ) (ho : o ≡ length ds) where
  write_0 : (x y z v : ℕ) → store (ds ++ x ∷ y ∷ z ∷ zs) o v ≡ some (ds ++ v ∷ y ∷ z ∷ zs)
  unfolding store
  write_0 x y z v = store_at ds (x ∷ y ∷ z ∷ zs) 0 o v (omega arith) refl

  write_1 : (x y z v : ℕ) → store (ds ++ x ∷ y ∷ z ∷ zs) (o + 1) v ≡ some (ds ++ x ∷ v ∷ z ∷ zs)
  unfolding store
  write_1 x y z v = store_at ds (x ∷ y ∷ z ∷ zs) 1 (o + 1) v (omega arith) refl

  write_2 : (x y z v : ℕ) → store (ds ++ x ∷ y ∷ z ∷ zs) (o + 2) v ≡ some (ds ++ x ∷ y ∷ v ∷ zs)
  unfolding store
  write_2 x y z v = store_at ds (x ∷ y ∷ z ∷ zs) 2 (o + 2) v (omega arith) refl

module _ (len o i : ℕ) (ds gs rest zs : List ℕ) (a b c d x y z : ℕ) (ha : a < 256) (hb : b < 256)
    (hc : c < 256) (hd : d < 256) (ho : o ≡ length ds) (hi : i ≡ length gs)
    (same : gs ++ a ∷ b ∷ c ∷ d ∷ rest ≡ ds ++ x ∷ y ∷ z ∷ zs) where
  final_lem :
      i + 4 ≡ len
      → decode_final len (gs ++ a ∷ b ∷ c ∷ d ∷ rest) i o
        ≡ some (ending len ds (x ∷ y ∷ z ∷ zs) (Spec.decode_last a b c d))
  unfolding decode_final Spec.decode_last octets load
  final_lem hl =
      rw
        (
          load_at gs (a ∷ b ∷ c ∷ d ∷ rest) 0 i (omega arith) refl,
          load_at gs (a ∷ b ∷ c ∷ d ∷ rest) 1 (i + 1) (omega arith) refl,
          load_at gs (a ∷ b ∷ c ∷ d ∷ rest) 2 (i + 2) (omega arith) refl,
          load_at gs (a ∷ b ∷ c ∷ d ∷ rest) 3 (i + 3) (omega arith) refl,
          same,
        )
        (simp (write_0 o ds zs ho, write_1 o ds zs ho, write_2 o ds zs ho)
          (elim (Option-cases (sextet a)) [
            | inl na ↦ ground (arith, dec-none a ha na)
            | inr (va, ea) ↦ elim (Option-cases (sextet b)) [
              | inl nb ↦ ground (arith, dec-none b hb nb)
              | inr (vb, eb) ↦ elim (Option-cases (sextet c)) [
                | inl nc ↦
                    ground
                      (arith, dec-some a ha ea, dec-some b hb eb, dec-none c hc nc, bytes_0 va vb)
                | inr (vc, ec) ↦ elim (Option-cases (sextet d)) [
                  | inl nd ↦ ground (
                    arith,
                    dec-some a ha ea,
                    dec-some b hb eb,
                    dec-some c hc ec,
                    dec-none d hd nd,
                    bytes_0 va vb,
                    bytes_1 vb vc,
                  )
                  | inr (vd, ed) ↦ ground (
                    arith,
                    dec-some a ha ea,
                    dec-some b hb eb,
                    dec-some c hc ec,
                    dec-some d hd ed,
                    bytes_0 va vb,
                    bytes_1 vb vc,
                    bytes_2 vc vd,
                  )
                ]
              ]
            ]
          ]))

  abbrev block_test : Bool
  block_test = is_bad (bit_or (bit_or (bit_or (dec a) (dec b)) (dec c)) (dec d))

  abbrev block_bytes : List ℕ
  block_bytes = byte_0 (dec a) (dec b) ∷ byte_1 (dec b) (dec c) ∷ byte_2 (dec c) (dec d) ∷ []

  -- One round of the loop over the leading blocks.
  leading_step :
      (n : ℕ)
      → decode_leading (suc n) (gs ++ a ∷ b ∷ c ∷ d ∷ rest) i o ≡ (
          if block_test
          then some (failed (ds ++ x ∷ y ∷ z ∷ zs))
          else decode_leading n (ds ++ (block_bytes ++ zs)) (i + 4) (o + 3))
  unfolding decode_leading load
  leading_step n =
      rw
        (
          load_at gs (a ∷ b ∷ c ∷ d ∷ rest) 0 i (omega arith) refl,
          load_at gs (a ∷ b ∷ c ∷ d ∷ rest) 1 (i + 1) (omega arith) refl,
          load_at gs (a ∷ b ∷ c ∷ d ∷ rest) 2 (i + 2) (omega arith) refl,
          load_at gs (a ∷ b ∷ c ∷ d ∷ rest) 3 (i + 3) (omega arith) refl,
          same,
        )
        (simp (write_0 o ds zs ho, write_1 o ds zs ho, write_2 o ds zs ho))

-- The buffer behind `ds`, as the three cells that a block is written to and what follows.
cells :
    (ds gs rest : List ℕ) (a b c d : ℕ)
    → (x : ℕ) × (y : ℕ) × (z : ℕ) × (zs : List ℕ) × ((ds ++ gs) ++ a ∷ b ∷ c ∷ d ∷ rest
        ≡ ds ++ x ∷ y ∷ z ∷ (zs ++ rest))
      × (length zs ≡ suc (length gs))
cells ds gs rest a b c d =
    let block = a ∷ b ∷ c ∷ d ∷ [] in
    let (x, y, z, w, ts, e, l) =
      four_more (length gs) (gs ++ block) (length-append gs block ∙ omega arith) in
    (
      x,
      y,
      z,
      w ∷ ts,
      append_assoc ds gs (a ∷ b ∷ c ∷ d ∷ rest)
          ∙ ap (λ t. ds ++ t) (sym (append_assoc gs block rest) ∙ ap (λ t. t ++ rest) e),
      ap suc l,
    )

-- What the end of a run has done to a text of `k` letters in front of `room`, if `ds` are the bytes
-- written before: the buffer keeps its length, and `room` is untouched.
abbrev pub Outcome : ℕ → ℕ → List ℕ → List ℕ → Option (List ℕ) → Decoded → Type 0
Outcome len k ds room none r =
    (r.rc ≡ rc_error)
    × (r.in_out_len ≡ len)
    × ((q : List ℕ) × (r.in_out ≡ q ++ room) × (length q ≡ k))
Outcome len k ds room (some ys) r =
    (r.rc ≡ rc_ok)
    × (r.in_out_len ≡ length ds + length ys)
    × ((q : List ℕ) × (r.in_out ≡ ds ++ (ys ++ (q ++ room)))
        × (length ds + length ys + length q ≡ k))

decode_last-short : (a b c d : ℕ) (ys : List ℕ) → Spec.decode_last a b c d ≡ some ys → length ys ≤ 3
unfolding Spec.decode_last octets
decode_last-short a b c d ys h = ground arith

ending-Outcome :
    (len k : ℕ) (ds zs room : List ℕ) (x y z : ℕ) (r : Option (List ℕ))
    → length ds + 3 + length zs ≡ k
    → ((ys : List ℕ) → r ≡ some ys → length ys ≤ 3)
    → Outcome len k ds room r (ending len ds (x ∷ y ∷ z ∷ (zs ++ room)) r)
ending-Outcome len k ds zs room x y z none h short = (
  refl,
  refl,
  (
    ds ++ x ∷ y ∷ z ∷ zs,
    sym (append_assoc ds (x ∷ y ∷ z ∷ zs) room),
    length-append ds (x ∷ y ∷ z ∷ zs) ∙ omega arith,
  ),
)
ending-Outcome len k ds zs room x y z (some []) h short =
    (refl, refl, (x ∷ y ∷ z ∷ zs, refl, omega arith))
ending-Outcome len k ds zs room x y z (some (p ∷ [])) h short =
    (refl, refl, (y ∷ z ∷ zs, refl, omega arith))
ending-Outcome len k ds zs room x y z (some (p ∷ q ∷ [])) h short =
    (refl, refl, (z ∷ zs, refl, omega arith))
ending-Outcome len k ds zs room x y z (some (p ∷ q ∷ r ∷ [])) h short =
    (refl, refl, (zs, refl, omega arith))
ending-Outcome len k ds zs room x y z (some (p ∷ q ∷ r ∷ s ∷ ys)) h short =
    absurd (omega (arith, short (p ∷ q ∷ r ∷ s ∷ ys) refl))

-- What a run from `ds ++ three` gives is what the run from `ds` gives with `three` put in front.
prefix-Outcome :
    (len k : ℕ) (ds three room : List ℕ) (m : Option (List ℕ)) (r : Decoded)
    → Outcome len k (ds ++ three) room m r
    → Outcome len k ds room (m >>= λ ys. some (three ++ ys)) r
prefix-Outcome len k ds three room none r h = h
prefix-Outcome len k ds three room (some ys) r (h, l, (q, e, n)) = (
  h,
  l ∙ lengths,
  (
    q,
    e
        ∙ (append_assoc ds three (ys ++ (q ++ room))
            ∙ ap (λ t. ds ++ t) (sym (append_assoc three ys (q ++ room)))),
    omega (arith, lengths),
  ),
)
  where
    lengths : length (ds ++ three) + length ys ≡ length ds + length (three ++ ys)
    lengths = omega (arith, length-append ds three, length-append three ys)

-- The end of a run of which one round is made, whether that round fails or not.
round_Outcome :
    (len k : ℕ) (ds q room : List ℕ) (a b c d : ℕ) (t : Bool) (m spec : Option (List ℕ))
    (next : Run Leading)
    → length q ≡ k
    → InnerBlock a b c d t m
    → Returns (next >>= decode_rest len) (
        Outcome len k
          (ds ++ (byte_0 (dec a) (dec b) ∷ byte_1 (dec b) (dec c) ∷ byte_2 (dec c) (dec d) ∷ []))
          room
          spec)
    → Returns
        ((if t then some (failed (q ++ room)) else next) >>= decode_rest len)
        (Outcome len k ds room (m >>= λ xs. spec >>= λ ys. some (xs ++ ys)))
unfolding decode_rest
round_Outcome len k ds q room a b c d true m spec next hq block h = (
  _,
  refl,
  subst
      (λ u.
        Outcome len k ds room (u >>= λ xs. spec >>= λ ys. some (xs ++ ys))
          (record { rc = rc_error; in_out = q ++ room; in_out_len = len }))
      (sym block) (refl, refl, (q, refl, hq)),
)
round_Outcome len k ds q room a b c d false m spec next hq block (r, e, h) = (
  r,
  e,
  subst (λ u. Outcome len k ds room (u >>= λ xs. spec >>= λ ys. some (xs ++ ys)) r) (sym block)
      (prefix-Outcome len k ds _ room spec r h),
)

leading_lem :
    (n len k o i : ℕ) (ds gs xs room : List ℕ)
    → IsBytes xs
    → length xs ≡ 4 + 4 * n
    → o ≡ length ds
    → i ≡ length (ds ++ gs)
    → i + length xs ≡ len
    → k ≡ len
    → Returns
        (decode_leading n ((ds ++ gs) ++ (xs ++ room)) i o >>= decode_rest len)
        (Outcome len k ds room (Spec.decode xs))
unfolding decode_leading decode_rest Spec.decode
leading_lem n len k o i ds gs [] room v hx ho hi hl hk = absurd (omega arith)
leading_lem n len k o i ds gs (a ∷ []) room v hx ho hi hl hk = absurd (omega arith)
leading_lem n len k o i ds gs (a ∷ b ∷ []) room v hx ho hi hl hk = absurd (omega arith)
leading_lem n len k o i ds gs (a ∷ b ∷ c ∷ []) room v hx ho hi hl hk = absurd (omega arith)
leading_lem zero len k o i ds gs (a ∷ b ∷ c ∷ d ∷ e ∷ xs) room v hx ho hi hl hk =
    absurd (omega arith)
leading_lem (suc n) len k o i ds gs (a ∷ b ∷ c ∷ d ∷ []) room v hx ho hi hl hk =
    absurd (omega arith)
leading_lem zero len k o i ds gs (a ∷ b ∷ c ∷ d ∷ []) room v hx ho hi hl hk =
    let (x, y, z, zs, same, lz) = cells ds gs room a b c d in
    (
      _,
      final_lem len o i ds (ds ++ gs) room (zs ++ room) a b c d x y z v.0 v.1.0 v.1.1.0 v.1.1.1.0 ho
          hi same (omega arith),
      ending-Outcome len k ds zs room x y z (Spec.decode_last a b c d)
          (omega (arith, length-append ds gs)) (decode_last-short a b c d),
    )
leading_lem (suc n) len k o i ds gs (a ∷ b ∷ c ∷ d ∷ (e ∷ xs)) room v hx ho hi hl hk =
    let (x, y, z, zs, same, lz) = cells ds gs (e ∷ (xs ++ room)) a b c d in
    let tail = e ∷ (xs ++ room) in
    let step =
      leading_step len o i ds (ds ++ gs) tail (zs ++ tail) a b c d x y z v.0 v.1.0 v.1.1.0 v.1.1.1.0
        ho hi same n in
    let three = byte_0 (dec a) (dec b) ∷ byte_1 (dec b) (dec c) ∷ byte_2 (dec c) (dec d) ∷ [] in
    let next =
      leading_lem n len k (o + 3) (i + 4) (ds ++ three) zs (e ∷ xs) room v.1.1.1.1 (omega arith)
        (omega (arith, length-append ds three))
        (omega (arith, length-append (ds ++ three) zs, length-append ds three, length-append ds gs))
        (omega arith) hk in
    let split : ds ++ x ∷ y ∷ z ∷ (zs ++ tail) ≡ (ds ++ x ∷ y ∷ z ∷ (zs ++ e ∷ xs)) ++ room =
      ap (λ t. ds ++ x ∷ y ∷ z ∷ t) (sym (append_assoc zs (e ∷ xs) room))
      ∙ sym (append_assoc ds (x ∷ y ∷ z ∷ (zs ++ e ∷ xs)) room) in
    let moved : (ds ++ three) ++ zs ++ (e ∷ xs ++ room) ≡ ds ++ (three ++ (zs ++ tail)) =
      append_assoc (ds ++ three) zs tail ∙ append_assoc ds three (zs ++ tail) in
    let lq : length (ds ++ x ∷ y ∷ z ∷ (zs ++ e ∷ xs)) ≡ k =
      length-append ds (x ∷ y ∷ z ∷ (zs ++ e ∷ xs))
      ∙ omega (arith, length-append zs (e ∷ xs), length-append ds gs) in
    let q = ds ++ x ∷ y ∷ z ∷ (zs ++ e ∷ xs) in
    rw (step, split, ← moved)
      (round_Outcome len k ds q room a b c d _ _ (Spec.decode (e ∷ xs)) _ lq
        (inner_block a b c d v.0 v.1.0 v.1.1.0 v.1.1.1.0) next)

abbrev nothing : List ℕ → Option (List ℕ)
nothing xs = none

-- A text whose length is no multiple of 4 has no decoding.
decode_uneven : (xs : List ℕ) → length xs % 4 ≢ 0 → Spec.decode xs ≡ none
unfolding Spec.decode
decode_uneven [] h = absurd (h refl)
decode_uneven (a ∷ []) h = refl
decode_uneven (a ∷ b ∷ []) h = refl
decode_uneven (a ∷ b ∷ c ∷ []) h = refl
decode_uneven (a ∷ b ∷ c ∷ d ∷ []) h = absurd (h refl)
decode_uneven (a ∷ b ∷ c ∷ d ∷ (e ∷ xs)) h =
    rw (decode_uneven (e ∷ xs) (omega arith)) (lost (Spec.decode_inner a b c d))
  where
    lost : (m : Option (List ℕ)) → (m >>= nothing) ≡ none
    lost none = refl
    lost (some ys) = refl

rounds : (len n : ℕ) → len ≡ 4 + 4 * n → (if ltb 1 (len / 4) then len / 4 - 1 else 0) ≡ n
rounds len n h = ground arith

decode_even :
    (p : List ℕ) (len n : ℕ)
    → len ≡ 4 + 4 * n
    → base64_decode p len ≡ (decode_leading n p 0 0 >>= decode_rest len)
unfolding base64_decode
decode_even p len n h = rw (rounds len n h) (ground (arith, and_3 len))

decode_odd :
    (p : List ℕ) (len : ℕ)
    → len % 4 ≢ 0
    → base64_decode p len ≡ some (record { rc = rc_error; in_out = p; in_out_len = len })
unfolding base64_decode
decode_odd p len h = ground (arith, and_3 len)

-- `lws_base64_decode` on a buffer that holds the text `xs` ends with no access outside the buffer.
-- If RFC 4648 decodes the text, the code is 0, the decoded bytes stand at the start of the buffer
-- and the length is theirs; if not, the code is -1 and the length is unchanged. Either way the
-- buffer keeps its length and what stands behind the text.
pub base64_decode_lem :
    (xs room : List ℕ)
    → IsBytes xs
    → Returns
        (base64_decode (xs ++ room) (length xs))
        (Outcome (length xs) (length xs) [] room (Spec.decode xs))
base64_decode_lem [] room v = (
  record { rc = rc_ok; in_out = room; in_out_len = 0 },
  unfold base64_decode in refl,
  unfold Spec.decode in (refl, refl, ([], refl, refl)),
)
base64_decode_lem (a ∷ xs) room v = elim (ℕ_discrete (length (a ∷ xs) % 4) 0) [
  | yes e ↦
      let n = length (a ∷ xs) / 4 - 1 in
      rw (decode_even ((a ∷ xs) ++ room) (length (a ∷ xs)) n (omega arith)) (
        leading_lem n (length (a ∷ xs)) (length (a ∷ xs)) 0 0 [] [] (a ∷ xs) room v (omega arith)
          refl refl (omega arith) refl)
  | no ne ↦
      rw (decode_odd ((a ∷ xs) ++ room) (length (a ∷ xs)) ne, decode_uneven (a ∷ xs) ne)
        (_, refl, (refl, refl, (a ∷ xs, refl, refl)))
]
