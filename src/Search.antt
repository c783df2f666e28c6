-- ===== src/Search.antt =====
-- The binary search loop that src/lws_http.c (`lws_find_http_status`, lines 278 to 287) and
-- src/lws_table.c (`lws_table_size`, lines 276 to 285) both write out: on `int` bounds `lower` and
-- `upper`, of which `upper` can fall to -1. The loop takes fuel; `Search.Bounds` shows that as many
-- rounds as there are entries, and one, are enough.
pub mod Bounds
use lambda_lws.Prelude.{ℕ, zero, suc, ◌+◌, ◌/◌, Bool, true, false, ltb, ℤ, pos, negsuc}

-- mid - 1
unfoldable pub before : ℕ → ℤ
before zero = negsuc 0
before (suc m) = pos m

-- The value of `lower` when the loop ends; `below` is the test on `mid`.
unfoldable pub search_loop : (ℕ → Bool) → ℕ → ℕ → ℤ → ℕ
search_loop below zero lower upper = lower
search_loop below (suc fuel) lower (negsuc u) = lower
search_loop below (suc fuel) lower (pos u) = elim (ltb u lower) [
  | true ↦ lower
  | false ↦ elim (below ((lower + u) / 2)) [
    | true ↦ search_loop below fuel ((lower + u) / 2 + 1) (pos u)
    | false ↦ search_loop below fuel lower (before ((lower + u) / 2))
  ]
]
