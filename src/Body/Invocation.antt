-- ===== src/Body/Invocation.antt =====
-- `lws_handle_write` of src/lws_interface.c (lines 213 to 272): the write callback for the invocation
-- that libcurl receives. The state is the fields of `lws_ctx_t` that it uses: `mem` is the memory
-- behind `body.data` and `len` is `body.len`. `padding` is YYJSON_PADDING_SIZE, a constant of yyjson.
use lambda_lws.Prelude.{
  ℕ, ◌+◌, ◌-◌, ◌*◌, ◌/◌, ◌%◌, ◌≤◌, ◌<◌, ◌≡◌, refl, ap, ◌∙◌, ◌⊎◌, inl, inr, true, Bool-cases, not,
  ◌&&◌, none, some, List, ◌++◌, ltb, leb, ◌==◌, if◌then◌else◌, length, length-take, take, take_eq,
  ℤ, pos, negsuc, Run, ◌>>=◌, Returns, arith,
}
use lambda_lws.Codec.Base64.{size_max, size_mod}
use lambda_lws.Interface.Stream.Reads.{overflow_test}
use lambda_lws.Body.{Realloc, Block, reserve, copy, Reallocates}
use lambda_lws.Body.Reserve.{IsBlock, Reserved, reserve_lem, copy_lem}

pub record Invocation : Type 0 where
  pub mem : List ℕ
  pub len : ℕ
  pub body_cap : ℕ
  pub content_length : ℤ

-- The required space for a body of `size` bytes in a block of capacity `capacity`: on the first bytes,
-- that of the content length if it is larger.
unfoldable pub required_space : ℕ → ℕ → ℕ → ℤ → ℕ
required_space padding capacity size (negsuc n) = size + padding
required_space padding capacity size (pos n) =
    if (capacity == 0) && ltb (size + padding) ((n + padding) % size_mod)
    then (n + padding) % size_mod
    else size + padding

-- The bytes that a memcpy of n bytes from `ptr` reads.
unfoldable pub fetch : List ℕ → ℕ → Run (List ℕ)
fetch ptr n = if leb n (length ptr) then some (take n ptr) else none

-- The end of the call: the copy, in the block that the allocation gave.
unfoldable pub append_data : Invocation → List ℕ → ℕ → Block → Run (ℕ × Invocation)
unfolding copy fetch
append_data s ptr n none = some (0, s)
append_data s ptr n (some (m, c)) = do
  bytes ← fetch ptr n
  m' ← copy m s.len bytes
  some (n, record s { mem = m'; len = s.len + n; body_cap = c })

-- lws_handle_write
unfoldable pub handle_write : Realloc → ℕ → List ℕ → ℕ → ℕ → Invocation → Run (ℕ × Invocation)
unfolding required_space append_data reserve
handle_write realloc padding ptr size nmemb s =
    if not (nmemb == 0) && ltb (size_max / nmemb) size
    then some (0, s)
    else if ltb ((size_mod + size_max - padding - s.len) % size_mod) (size * nmemb)
    then some (0, s)
    else reserve realloc s.mem s.body_cap
        (required_space padding s.body_cap (s.len + size * nmemb) s.content_length)
      >>= append_data s ptr (size * nmemb)

-- The capacity is that of the block, and the body lies within it with the padding behind; before the
-- first bytes there is no block.
pub record IsValid (padding : ℕ) (s : Invocation) : Type 0 where
  pub block : IsBlock s.mem s.body_cap
  pub padded : (s.len + padding ≤ s.body_cap) ⊎ ((s.len ≡ 0) × (s.body_cap ≡ 0))

-- The bytes of the body.
unfoldable pub content : Invocation → List ℕ
content s = take s.len s.mem

-- How a call with n bytes at `ptr` ends: with n, the body longer by them and the padding behind it; or
-- with 0 and no change, because the body would be too long or `realloc` has refused a block.
unfoldable pub Written : Realloc → ℕ → List ℕ → ℕ → Invocation → ℕ × Invocation → Type 0
Written realloc padding ptr n s (r, t) =
    IsValid padding t
    × (((r ≡ n)
          × (content t ≡ content s ++ take n ptr)
          × (t.len + padding ≤ t.body_cap)
          × (t.len ≡ s.len + n))
        ⊎ ((r ≡ 0)
            × (t ≡ s)
            × ((size_max < s.len + n + padding)
                ⊎ ((m : ℕ) × ((realloc s.mem m ≡ none) × (s.len + n + padding ≤ m))))))

required_space_range :
    (padding capacity size : ℕ) (content_length : ℤ)
    → size + padding ≤ size_max
    → (size + padding ≤ required_space padding capacity size content_length)
      × (required_space padding capacity size content_length ≤ size_max)
unfolding required_space
required_space_range padding capacity size (negsuc n) h = ground arith
required_space_range padding capacity size (pos n) h = ground arith

append_data_lem :
    (realloc : Realloc) (padding : ℕ) (ptr : List ℕ) (n required : ℕ) (s : Invocation)
    (block : Block)
    → IsValid padding s
    → n ≤ length ptr
    → s.len + n + padding ≤ required
    → Reserved realloc s.mem s.body_cap required block
    → Returns (append_data s ptr n block) (Written realloc padding ptr n s)
unfolding append_data Reserved Written content fetch
append_data_lem realloc padding ptr n required s none v l h r =
    ((0, s), refl, (v, inr (refl, refl, inr (r.1.0, (r.1.1, omega (arith, h, r.1.2))))))
append_data_lem realloc padding ptr n required s (some (m, c)) v l h (b, enough, larger, same) =
    let there : leb n (length ptr) ≡ true = ground arith in
    let ln : length (take n ptr) ≡ n = length-take n ptr ∙ omega arith in
    let k = copy_lem m s.len (take n ptr) (omega (arith, b.holds, h, enough, ln)) in
    let t : Invocation = record s { mem = k.0; len = s.len + n; body_cap = c } in
    (
      (n, t),
      rw (there, k.1) refl,
      (
        record {
          block = record { holds = k.2.0 ∙ b.holds; in_range = b.in_range };
          padded = inl (omega (arith, h, enough));
        },
        inl (
          refl,
          take_eq k.0 {m = s.len + n} {n = s.len + length (take n ptr)} (omega (arith, ln))
              ∙ (k.2.1 ∙ ap (λ q. q ++ take n ptr) (same s.len (within v.padded))),
          omega (arith, h, enough),
          refl,
        ),
      ),
    )
  where
    within :
        (s.len + padding ≤ s.body_cap) ⊎ ((s.len ≡ 0) × (s.body_cap ≡ 0)) → s.len ≤ length s.mem
    within (inl p) = omega (arith, p, v.block.holds)
    within (inr p) = omega (arith, p.0)

-- A call of `lws_handle_write` with `size * nmemb` bytes at `ptr`, in a valid state, with a `realloc`
-- that does what it documents: it makes no access outside the block and does not run out of rounds, it
-- leaves a valid state, and either returns the number of the bytes, with the body longer by them and
-- the padding of yyjson behind it, or 0 with nothing changed, and that only if body and padding would
-- be too long for a `size_t` or `realloc` has refused a block.
pub handle_write_lem :
    (realloc : Realloc) (padding : ℕ) (ptr : List ℕ) (size nmemb : ℕ) (s : Invocation)
    → Reallocates realloc
    → padding ≤ size_max
    → size * nmemb ≤ length ptr
    → IsValid padding s
    → Returns
        (handle_write realloc padding ptr size nmemb s)
        (Written realloc padding ptr (size * nmemb) s)
unfolding handle_write Written
handle_write_lem realloc padding ptr size nmemb s ok p l v =
    elim (Bool-cases (ltb size_max (size * nmemb))) [
      | inl e ↦
          ((0, s), rw (overflow_test size nmemb, e) refl, (v, inr (refl, refl, inl (ground arith))))
      | inr e ↦ elim (Bool-cases (ltb room (size * nmemb))) [
        | inl f ↦ (
          (0, s),
          rw (overflow_test size nmemb, e, f) refl,
          (v, inr (refl, refl, inl (ground (arith, room_lem v.padded)))),
        )
        | inr f ↦
            let q =
              required_space_range padding s.body_cap (s.len + size * nmemb) s.content_length
                (ground (arith, room_lem v.padded)) in
            let need : ℕ =
              required_space padding s.body_cap (s.len + size * nmemb) s.content_length in
            let r = reserve_lem realloc s.mem s.body_cap need ok v.block q.1 in
            let a = append_data_lem realloc padding ptr (size * nmemb) need s r.0 v l q.0 r.2 in
            (a.0, rw (overflow_test size nmemb, e, f, r.1) a.1, a.2)
      ]
    ]
  where
    room : ℕ
    room = (size_mod + size_max - padding - s.len) % size_mod

    room_lem :
        (s.len + padding ≤ s.body_cap) ⊎ ((s.len ≡ 0) × (s.body_cap ≡ 0))
        → room + s.len + padding ≡ size_max
    room_lem (inl w) = omega (arith, w, v.block.in_range)
    room_lem (inr w) = omega (arith, w.0, p)
