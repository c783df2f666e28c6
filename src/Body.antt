-- ===== src/Body.antt =====
-- The body buffers of src/lws_request.c (lines 59 to 133) and src/lws_interface.c (lines 213 to 272):
-- what `lws_write_response_body` and `lws_handle_write` have in common, the growth of a buffer by
-- `lws_realloc` and the copy behind what it holds. Memory is the list of all bytes behind the pointer.
pub mod Growth
pub mod Reserve
pub mod Response
pub mod Invocation
use lambda_lws.Prelude.{
  ℕ, zero, suc, ◌+◌, ◌-◌, ◌*◌, ◌/◌, ◌^◌, ◌≤◌, ◌≡◌, Bool, true, false, Option, none, some, List, [],
  ◌∷◌, ◌++◌, ltb, leb, ◌==◌, if◌then◌else◌, length, take, drop, Run,
}
use lambda_lws.Codec.Base64.{size_max}

-- A round of the loop that raises the capacity.
unfoldable pub grow_step : ℕ → ℕ → ℕ
grow_step capacity required =
    if ltb capacity (1024 * 1024)
    then (if leb capacity (size_max / 2) then capacity * 2 else required)
    else if leb capacity (size_max / 3 * 2)
    then capacity + capacity / 2
    else required

-- The loop `while (capacity < required)`, on fuel; `none` is a run out of fuel.
unfoldable pub grow : ℕ → ℕ → ℕ → Option ℕ
grow zero capacity required = if ltb capacity required then none else some capacity
grow (suc fuel) capacity required =
    let rest = grow fuel (grow_step capacity required) required in
    if ltb capacity required then rest else some capacity

-- Two rounds at least double the capacity, and a `size_t` has 64 bits.
abbrev pub rounds : ℕ
rounds = 128

-- `lws_realloc` of a block to a size: the new block, or `none` when memory is short.
abbrev pub Realloc : Type 0
Realloc = List ℕ → ℕ → Option (List ℕ)

-- A block with its capacity, or `none` where `lws_realloc` returned NULL.
abbrev pub Block : Type 0
Block = Option (List ℕ × ℕ)

-- What becomes of the answer of `lws_realloc` to a capacity, which is recorded with the new block.
unfoldable pub resized : ℕ → Option (List ℕ) → Block
resized capacity none = none
resized capacity (some m) = some (m, capacity)

-- The block after `lws_realloc` to the capacity that the loop has found.
unfoldable pub resize : Realloc → List ℕ → Option ℕ → Run Block
unfolding resized
resize realloc mem none = none
resize realloc mem (some capacity) = some (resized capacity (realloc mem capacity))

-- The allocation "as needed", for a block, its capacity and the required space.
unfoldable pub reserve : Realloc → List ℕ → ℕ → ℕ → Run Block
unfolding grow resize
reserve realloc mem size required =
    if ltb size required
    then resize realloc mem (grow rounds (if size == 0 then 4096 else size) required)
    else some (some (mem, size))

-- memcpy(mem + pos, data, length of data)
unfoldable pub copy : List ℕ → ℕ → List ℕ → Run (List ℕ)
copy mem pos bytes =
    if leb (pos + length bytes) (length mem)
    then some (take pos mem ++ (bytes ++ drop (pos + length bytes) mem))
    else none

-- What `realloc` does: a block that it returns has the new size, and starts with what the old one
-- held, up to the smaller of the two sizes.
unfoldable pub Reallocates : Realloc → Type 0
Reallocates realloc =
    (mem m : List ℕ) (n : ℕ)
    → realloc mem n ≡ some m
    → (length m ≡ n) × ((k : ℕ) → k ≤ length mem → k ≤ n → take k m ≡ take k mem)
