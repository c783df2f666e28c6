-- ===== src/Table/Find.antt =====
-- `lws_table_find` of src/lws_table.c (lines 333 to 354): the probes of a key, from its home slot by a
-- step that the hash gives, as far as an unused slot or back to the home slot.
pub mod Probes
use lambda_lws.Prelude.{
  ℕ, zero, suc, ◌+◌, ◌-◌, ◌%◌, Bool, true, false, not, ◌&&◌, Option, none, some, List, ◌==◌,
  if◌then◌else◌, length, get_elem?, Run, ◌>>=◌,
}
use lambda_lws.Table.Hash.{same_text}
use lambda_lws.Table.{Entry, Table, is_unused}

-- The comparison of an entry's key with a key of the same length.
unfoldable pub compare_key : Bool → Option (List ℕ) → List ℕ → Run Bool
compare_key ci (some d) key = some (same_text ci d key)
compare_key ci none key = if length key == 0 then some true else none

unfoldable pub entry_matches : Bool → List ℕ → ℕ → Entry → Run Bool
entry_matches ci key hash e =
    if (e.hash == hash) && (e.key_len == length key)
    then compare_key ci e.key_data key
    else some false

-- hash % t->alloc, hash % (t->alloc - 2) + 1, and (h + q) % t->alloc
unfoldable pub home : ℕ → ℕ → ℕ
home alloc hash = hash % alloc

unfoldable pub stride : ℕ → ℕ → ℕ
stride alloc hash = hash % (alloc - 2) + 1

unfoldable pub next_slot : ℕ → ℕ → ℕ → ℕ
next_slot alloc hash h = (h + stride alloc hash) % alloc

-- The loop, from a slot, on fuel: the slot of the entry found, or `none` inside the run.
unfoldable pub find_loop : ℕ → Table → List ℕ → ℕ → ℕ → Run (Option ℕ)
find_loop zero t key hash h = none
find_loop (suc fuel) t key hash h = do
  e ← get_elem? t.entries h
  elim (is_unused e) [
    | true ↦ some none
    | false ↦ do
      hit ← entry_matches t.ci key hash e
      elim hit [
        | true ↦ some (some h)
        | false ↦ elim (next_slot t.alloc hash h == home t.alloc hash) [
          | true ↦ some none
          | false ↦ find_loop fuel t key hash (next_slot t.alloc hash h)
        ]
      ]
  ]

-- lws_table_find; as many rounds as there are slots are enough.
unfoldable pub find : Table → List ℕ → ℕ → Run (Option ℕ)
find t key hash = find_loop t.alloc t key hash (home t.alloc hash)
