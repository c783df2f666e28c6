-- ===== src/Body/Reserve.antt =====
-- The allocation of src/lws_request.c, lines 90 to 117, and src/lws_interface.c, lines 238 to 265: it
-- gives room without losing what the block holds.
use lambda_lws.Prelude.{
  ℕ, ◌+◌, ◌≤◌, ◌<◌, min, ◌≡◌, refl, sym, ap, ◌∙◌, inl, inr, true, Bool-cases, Option, none, some,
  List, ◌++◌, append_assoc, ltb, leb, ◌==◌, if◌then◌else◌, length, length-append, length-take,
  length-drop, take, drop, take-append, Returns, arith,
}
use lambda_lws.Codec.Base64.{size_max}
use lambda_lws.Body.{Realloc, Block, resized, resize, reserve, copy, Reallocates}
use lambda_lws.Body.Growth.{Suffices, grow_lem}

-- A block of memory with its capacity, a `size_t`.
pub record IsBlock (mem : List ℕ) (size : ℕ) : Type 0 where
  pub holds : length mem ≡ size
  pub in_range : size ≤ size_max

-- What the allocation gives: a block with room that starts with all that the old one held; or nothing,
-- when `realloc` has refused a larger block.
unfoldable pub Reserved : Realloc → List ℕ → ℕ → ℕ → Block → Type 0
Reserved realloc mem size required none =
    (size < required) × ((n : ℕ) × (realloc mem n ≡ none) × (required ≤ n))
Reserved realloc mem size required (some (m, c)) =
    IsBlock m c × (required ≤ c) × (size ≤ c) × ((k : ℕ) → k ≤ length mem → take k m ≡ take k mem)

resized-Reserved :
    (realloc : Realloc) (mem : List ℕ) (size required capacity : ℕ)
    → Reallocates realloc
    → length mem ≡ size
    → size < required
    → Suffices required capacity
    → (answer : Option (List ℕ)) → realloc mem capacity ≡ answer
    → Reserved realloc mem size required (resized capacity answer)
unfolding Reserved resized Reallocates
resized-Reserved realloc mem size required capacity ok h l s none e = (l, (capacity, e, s.enough))
resized-Reserved realloc mem size required capacity ok h l s (some m) e =
    let r = ok mem m capacity e in
    (
      record { holds = r.0; in_range = s.in_range },
      s.enough,
      omega (arith, s.enough, l),
      λ k i. r.1 k i (omega (arith, i, h, l, s.enough)),
    )

-- The allocation on a block never runs out of rounds, for a required space that is a `size_t`.
pub reserve_lem :
    (realloc : Realloc) (mem : List ℕ) (size required : ℕ)
    → Reallocates realloc
    → IsBlock mem size
    → required ≤ size_max
    → Returns (reserve realloc mem size required) (Reserved realloc mem size required)
unfolding reserve resize Reserved
reserve_lem realloc mem size required ok b h = elim (Bool-cases (ltb size required)) [
  | inl e ↦
      let from : ℕ = if size == 0 then 4096 else size in
      let g = grow_lem from required (ground arith) (ground (arith, b.in_range)) h in
      (
        resized g.0 (realloc mem g.0),
        rw (e, g.1) refl,
        resized-Reserved realloc mem size required g.0 ok b.holds (ground arith) g.2
            (realloc mem g.0) refl,
      )
  | inr e ↦ (some (mem, size), rw e refl, (b, ground arith, omega arith, λ k i. refl))
]

-- A copy that fits is made, keeps the size of the block and what stands before it, and puts the bytes
-- behind that.
pub copy_lem :
    (mem : List ℕ) (n : ℕ) (bytes : List ℕ)
    → n + length bytes ≤ length mem
    → Returns
        (copy mem n bytes)
        (λ m. (length m ≡ length mem) × (take (n + length bytes) m ≡ take n mem ++ bytes))
unfolding copy
copy_lem mem n bytes h =
    let fits : leb (n + length bytes) (length mem) ≡ true = ground arith in
    let front : length (take n mem) ≡ n = length-take n mem ∙ min_left in
    let behind = drop (n + length bytes) mem in
    (
      take n mem ++ (bytes ++ behind),
      rw fits refl,
      (
        omega (
          arith,
          length-append (take n mem) (bytes ++ behind),
          length-append bytes behind,
          front,
          length-drop (n + length bytes) mem,
        ),
        ap (λ q. take (n + length bytes) q) (sym (append_assoc (take n mem) bytes behind))
            ∙ take-append (n + length bytes) (take n mem ++ bytes) behind
                (omega (arith, length-append (take n mem) bytes, front)),
      ),
    )
  where
    min_left : min n (length mem) ≡ n
    min_left = omega arith
