-- ===== src/Tests/Header.antt =====
-- A header line of src/lws_interface.c: `lws_handle_header` at it.
use lambda_lws.Prelude.{ℕ, ◌≡◌, refl, true, none, some, List, [], ◌∷◌, codes, Option, Run}
use lambda_lws.Table.{is_unused, is_set, put_entry}
use lambda_lws.Table.Methods.{
  get, get_found, touch, set_value, set_found, add_entry, add_grown, grow_table, stamp, evict,
  empty_table,
}
use lambda_lws.Table.Hash.{folded, hash_step, table_hash, same_text}
use lambda_lws.Table.Find.{compare_key, entry_matches, home, stride, next_slot, find_loop, find}
use lambda_lws.Table.Insert.{worst_loop, settle, insert}
use lambda_lws.Interface.Header.{Headers, Setting, header_text, add_header}
use lambda_lws.Interface.Header.Added.{Added}
use lambda_lws.Tests.Prepare.{cache, granted}

abbrev pub setting : Setting
setting = record { widen = λ c. c; now = 0; grants = granted; granted = true }

abbrev pub no_headers : Headers
no_headers = record { headers = cache; heap = [] }

-- The headers of a table of five slots, and its map.
abbrev fresh_headers : Headers
fresh_headers = record { headers = empty_table 5; heap = [] }

-- The texts and the length behind a line.
abbrev texts : Run (ℕ × Headers) → Option (ℕ × List (List ℕ))
texts none = none
texts (some (n, s)) = some (n, s.heap)

host_text :
    texts (add_header setting no_headers (codes "Host") (codes "a") 9) ≡ some (9, codes "a" ∷ [])
unfolding add_header header_text get get_found set_value set_found add_entry add_grown grow_table
    stamp evict touch put_entry table_hash hash_step folded find find_loop home stride next_slot
    is_unused is_set entry_matches compare_key same_text insert worst_loop settle
host_text = refl
