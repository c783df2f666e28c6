-- ===== src/Table/Insert.antt =====
-- `lws_table_insert` of src/lws_table.c (lines 356 to 419): a slot for a new hash. Where its first free
-- slot is far along its probes, an entry on the way is moved along its own probes if that is shorter.
pub mod Slots
pub mod Moves
pub mod Queue
pub mod Settle
use lambda_lws.Prelude.{
  ℕ, zero, suc, ◌+◌, ◌-◌, true, false, not, ◌&&◌, Option, none, some, ltb, leb, if◌then◌else◌,
  get_elem?, Run, ◌>>=◌,
}
use lambda_lws.Codec.Base64.{size_max}
use lambda_lws.Table.{Table, is_set, relink, put_entry}
use lambda_lws.Table.Find.{home, next_slot}

-- The worst case: the first slot of the probes that is not set, with the number of the probe, from 1.
unfoldable pub worst_loop : ℕ → Table → ℕ → ℕ → ℕ → Run (ℕ × ℕ)
worst_loop zero t hash h len = none
worst_loop (suc fuel) t hash h len = do
  e ← get_elem? t.entries h
  elim (is_set e) [
    | true ↦ worst_loop fuel t hash (next_slot t.alloc hash h) (len + 1)
    | false ↦ some (h, len)
  ]

-- The loop `while (1)`: a slot for the entry of a hash, from `h_move` on, with its length, if one is
-- found before it is of no use.
unfoldable pub move_loop : ℕ → Table → ℕ → ℕ → ℕ → ℕ → ℕ → Run (Option (ℕ × ℕ))
move_loop zero t hash h_move len_move len len_worst = none
move_loop (suc fuel) t hash h_move len_move len len_worst = do
  e ← get_elem? t.entries h_move
  elim (not (is_set e)) [
    | true ↦ some (some (h_move, len_move))
    | false ↦ elim (leb (len_worst - 1) (len + len_move)) [
      | true ↦ some none
      | false ↦ move_loop fuel t hash (next_slot t.alloc hash h_move) (len_move + 1) len len_worst
    ]
  ]

-- entry_move_old, entry_move_new and len_entry_move
pub record Better : Type 0 where
  pub move_old : ℕ
  pub move_new : ℕ
  pub len_entry_move : ℕ

-- len_entry_move, (size_t)-1 at first
unfoldable pub best_len : Option Better → ℕ
best_len none = size_max
best_len (some b) = b.len_entry_move

-- What a round of the do-while loop found.
unfoldable pub better_of : Option Better → ℕ → Option (ℕ × ℕ) → Option Better
better_of best h none = best
better_of best h (some (s, len_move)) =
    some (record { move_old = h; move_new = s; len_entry_move = len_move })

-- The do-while loop, with the slot `h` at its end.
unfoldable pub better_loop : ℕ → Table → ℕ → ℕ → ℕ → ℕ → Option Better → Run (Option Better × ℕ)
better_loop zero t hash h len len_worst best = none
better_loop (suc fuel) t hash h len len_worst best = do
  e ← get_elem? t.entries h
  found ← move_loop len_worst t e.hash (next_slot t.alloc e.hash h) 1 len len_worst
  let best' : Option Better = better_of best h found
  elim (ltb (len + 1) (len_worst - 1) && ltb (len + 1) (best_len best')) [
    | true ↦ better_loop fuel t hash (next_slot t.alloc hash h) (len + 1) len_worst best'
    | false ↦ some (best', next_slot t.alloc hash h)
  ]

-- The end of the call: the move, or the worst case.
unfoldable pub settle : Table → ℕ → Option Better × ℕ → Run (Table × ℕ)
unfolding relink put_entry
settle t hash (none, h) = some (t, next_slot t.alloc hash h)
settle t hash (some b, h) = do
  e ← get_elem? t.entries b.move_old
  t₁ ← put_entry t b.move_new e
  order' ← relink t₁.order b.move_old b.move_new
  some (record t₁ { order = order' }, b.move_old)

-- lws_table_insert: the table, and the slot to use.
unfoldable pub insert : Table → ℕ → Run (Table × ℕ)
unfolding worst_loop better_loop settle
insert t hash = do
  (h, len_worst) ← worst_loop t.alloc t hash (home t.alloc hash) 1
  if leb len_worst 2 then some (t, h) else (do
    found ← better_loop len_worst t hash (home t.alloc hash) 1 len_worst none
    settle t hash found)
