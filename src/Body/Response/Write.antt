-- ===== src/Body/Response/Write.antt =====
-- What a write to the response body does: it appends or changes nothing of the body, whatever the
-- block's room was.
use lambda_lws.Prelude.{
  take-take, sym, ℕ, ◌+◌, ◌-◌, ◌≤◌, ◌<◌, ◌≡◌, refl, ap, ◌∙◌, ◌⊎◌, inl, inr, Bool-cases, Option,
  none, some, List, ◌++◌, ltb, ◌==◌, length, take, ℤ, pos, rc_error, ◌>>=◌, Returns, arith, rc_ok,
  negsuc,
}
use lambda_lws.Codec.Base64.{size_max, base64_encode_len}
use lambda_lws.Body.{Realloc, Block, reserve, Reallocates}
use lambda_lws.Body.Reserve.{IsBlock, Reserved, reserve_lem, copy_lem}
use lambda_lws.Body.Response.{
  Response, is_text, look, required_space, append_data, write_response_body, Whence, seek_set,
  seek_other, seek_response_body,
}

-- The capacity is that of the block, and the body lies within it.
pub record IsValid (s : Response) : Type 0 where
  pub block : IsBlock s.mem s.resp_body_cap
  pub within : s.len ≤ s.resp_body_cap

-- The bytes of the body.
unfoldable pub content : Response → List ℕ
content s = take s.len s.mem

-- How a write of `bytes` ends: with their number, the body longer by them; or with -1, the body as it
-- was, because it would be too long for a `size_t` or `realloc` has refused a block.
unfoldable pub Written : Realloc → Response → List ℕ → ℤ × Response → Type 0
Written realloc s bytes (r, t) =
    IsValid t
    × (t.streaming ≡ s.streaming)
    × (((r ≡ pos (length bytes))
          × (content t ≡ content s ++ bytes)
          × (t.len ≡ s.len + length bytes))
        ⊎ ((r ≡ rc_error)
            × (content t ≡ content s)
            × (t.len ≡ s.len)
            × ((size_max < s.len + length bytes)
                ⊎ ((mem : List ℕ) × ((n : ℕ) × (realloc mem n ≡ none))))))

required_space_range :
    (s : Response) (size : ℕ)
    → size ≤ size_max
    → (size ≤ required_space s size) × (required_space s size ≤ size_max)
unfolding required_space base64_encode_len
required_space_range s size h = ground arith

append_data_lem :
    (realloc : Realloc) (s : Response) (bytes : List ℕ) (required : ℕ) (block : Block)
    → IsValid s
    → s.len + length bytes ≤ required
    → Reserved realloc s.mem s.resp_body_cap required block
    → Returns (append_data s bytes block) (Written realloc s bytes)
unfolding append_data Reserved Written content
append_data_lem realloc s bytes required none v h r =
    ((rc_error, s), refl, (v, refl, inr (refl, refl, refl, inr (s.mem, (r.1.0, r.1.1)))))
append_data_lem realloc s bytes required (some (m, c)) v h (b, enough, larger, same) =
    let k = copy_lem m s.len bytes (omega (arith, b.holds, h, enough)) in
    let t : Response = record s { mem = k.0; len = s.len + length bytes; resp_body_cap = c } in
    (
      (pos (length bytes), t),
      rw k.1 refl,
      (
        record {
          block = record { holds = k.2.0 ∙ b.holds; in_range = b.in_range };
          within = omega (arith, h, enough);
        },
        refl,
        inl (
          refl,
          k.2.1 ∙ ap (λ q. q ++ bytes) (same s.len (omega (arith, v.within, v.block.holds))),
          refl,
        ),
      ),
    )

-- The call behind its two tests.
write_within :
    (realloc : Realloc) (t : Response) (bytes : List ℕ)
    → Reallocates realloc
    → IsValid t
    → t.len + length bytes ≤ size_max
    → Returns
        (reserve realloc t.mem t.resp_body_cap (required_space t (t.len + length bytes))
          >>= append_data t bytes)
        (Written realloc t bytes)
write_within realloc t bytes ok v h =
    let q = required_space_range t (t.len + length bytes) h in
    let r =
      reserve_lem realloc t.mem t.resp_body_cap (required_space t (t.len + length bytes)) ok v.block
        q.1 in
    let a =
      append_data_lem realloc t bytes (required_space t (t.len + length bytes)) r.0 v q.0 r.2 in
    (a.0, rw r.1 a.1, a.2)

-- A write of bytes to the response body, for any content type, in a valid state and with a `realloc`
-- that does what it documents: it makes no access outside the block and does not run out of rounds, it
-- leaves a valid state, and either returns the number of the bytes with the body longer by them, or -1
-- with the body as it was, and that only if the body would be too long for a `size_t` or `realloc`
-- has refused a block.
pub write_response_body_lem :
    (realloc : Realloc) (content_type : Option (List ℕ)) (s : Response) (bytes : List ℕ)
    → Reallocates realloc
    → IsValid s
    → Returns (write_response_body realloc content_type s bytes) (Written realloc s bytes)
unfolding write_response_body content look Written
write_response_body_lem realloc content_type s bytes ok v =
    elim (Bool-cases (ltb (size_max - s.len) (length bytes))) [
      | inl e ↦ (
        (rc_error, s),
        rw e refl,
        (v, refl, inr (refl, refl, refl, inl (ground (arith, v.within, v.block.in_range)))),
      )
      | inr e ↦
          let fits : s.len + length bytes ≤ size_max = ground (arith, v.within, v.block.in_range) in
          let first : Response = record s { likely_utf8 = is_text content_type } in
          elim (Bool-cases (s.len == 0)) [
            | inl z ↦
                rw (e, z)
                  (write_within realloc first bytes ok
                    (record { block = v.block; within = v.within }) fits)
            | inr z ↦ rw (e, z) (write_within realloc s bytes ok v fits)
          ]
    ]

-- How a seek to an offset ends: with 0 and the body cut to that many bytes; or with -1 and no change,
-- because the origin is not the start, or the offset is negative or behind the end of the body.
pub Sought : Response → ℤ → Whence → ℤ × Response → Type 0
Sought s offset whence (r, t) =
    IsValid t
    × (((r ≡ rc_ok) × ((n : ℕ) × (offset ≡ pos n) × (t.len ≡ n) × (content t ≡ take n (content s))))
        ⊎ ((r ≡ rc_error)
            × (t ≡ s)
            × ((whence ≡ seek_other)
                ⊎ (((n : ℕ) × (offset ≡ negsuc n)) ⊎ ((n : ℕ) × (offset ≡ pos n) × (s.len < n))))))

-- In a valid state `lws_seek_response_body` leaves a valid state: it cuts the body to the first
-- `offset` bytes and returns 0, or it returns -1 and changes nothing, and that only if the origin is
-- not the start of the file, or the offset is negative or behind the end of the body.
pub seek_response_body_lem :
    (s : Response) (offset : ℤ) (whence : Whence)
    → IsValid s
    → Sought s offset whence (seek_response_body s offset whence)
unfolding seek_response_body Sought content
seek_response_body_lem s offset seek_other v = (v, inr (refl, refl, inl refl))
seek_response_body_lem s (negsuc n) seek_set v = (v, inr (refl, refl, inr (inl (n, refl))))
seek_response_body_lem s (pos n) seek_set v = elim (Bool-cases (ltb s.len n)) [
  | inl e ↦ rw e (v, inr (refl, refl, inr (inr (n, refl, ground (arith, e)))))
  | inr e ↦
      let within : n ≤ s.len = ground (arith, e) in
      rw e (
        record { block = v.block; within = omega (arith, v.within, within) },
        inl (refl, (n, refl, refl, sym (take-take n s.len s.mem within))),
      )
]
