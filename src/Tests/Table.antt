-- ===== src/Tests/Table.antt =====
-- A small table: the theorems on src/lws_table.c at it, and runs of its functions.
use lambda_lws.Prelude.{
  ℕ, ◌≡◌, ◌≢◌, ◌<◌, refl, sym, ap, subst, ◌∙◌, true, false, Option, none, some, List, [], ◌∷◌,
  get_elem?, codes, ℤ, rc_ok, Returns, arith,
}
use lambda_lws.Table.{
  Entry, Table, blank, occupied, is_unused, is_set, dequeue, relink, put_entry, unlink,
}
use lambda_lws.Table.Size.{
  table_sizes, size_at, smaller, table_size, table_load, slots_for, Sized, table_size_lem,
}
use lambda_lws.Table.Hash.{to_lower, folded, hash_step, table_hash, same_text}
use lambda_lws.Table.Find.{compare_key, entry_matches, home, stride, next_slot, find_loop, find}
use lambda_lws.Table.Insert.{
  worst_loop, move_loop, best_len, better_of, better_loop, settle, insert,
}
use lambda_lws.Table.Methods.{
  create, create_sized, empty_table, remove, last_of, remove_all, empty_queue, clear, touch,
  get_found, get, stamp, update, evict, reinsert, reversed, rehash_sized, rehash, grow_table,
  add_entry, Grants, add_grown, set_found, unset_found, set_value, follower, next_at, head_of,
  next_found, next_entry,
}
use lambda_lws.Table.Methods.Lookup.{Holds, set_value-update, set_value-get}
use lambda_lws.Table.Methods.Clear.{Emptied, clear_lem}
use lambda_lws.Search.{before, search_loop}
use lambda_lws.Table.Find.Probes.{probe}
use lambda_lws.Table.Insert.Settle.{Inserted, insert_lem}
use lambda_lws.Table.Refine.Map.{Represents, assign}
use lambda_lws.Table.Refine.Setting.{HasSpace, empty_table-Represents, set_value-Represents}

-- A `char` that is not signed.
abbrev unsigned : ℕ → ℕ
unsigned c = c

abbrev pub all_granted : Grants
all_granted = record { entries_granted = true; key_granted = true }

-- The key "a" with the value 5.
abbrev entry_a : Entry
entry_a = record {
  key_len = 1;
  key_data = some (codes "a");
  value = 5;
  hash = 12638187200555641996;
  time = 0;
  state = occupied;
}

abbrev small : Table
small = record {
  alloc = 3;
  load = 1;
  count = 1;
  entries = blank ∷ entry_a ∷ blank ∷ [];
  order = 1 ∷ [];
  timeout = 0;
  cap = 0;
  dup = false;
  free = true;
  ci = false;
  timed = false;
  capped = false;
  freed = [];
}

program : List ℕ
unfolding is_unused is_set dequeue relink put_entry unlink table_sizes size_at smaller table_size
    table_load slots_for to_lower folded hash_step table_hash same_text compare_key entry_matches
    home stride next_slot find_loop find worst_loop move_loop best_len better_of better_loop settle
    insert create create_sized empty_table remove last_of remove_all empty_queue clear touch
    get_found get stamp update evict reinsert reversed rehash_sized rehash grow_table add_entry
    add_grown set_found unset_found set_value follower next_at head_of next_found next_entry before
    search_loop
program = []

-- The value that a get gives, and the number of entries.
abbrev looked_up : Option (ℕ × Table) → Option (ℕ × ℕ)
looked_up none = none
looked_up (some (v, t)) = some (v, t.count)

-- The slots and the count behind a set.
abbrev counted : Option (ℤ × Table) → Option (ℤ × ℕ × ℕ)
counted none = none
counted (some (rc, t)) = some (rc, t.alloc, t.count)

get_a : looked_up (get unsigned 0 small (codes "a")) ≡ some (5, 1)
unfolding program
get_a = refl

get_b : looked_up (get unsigned 0 small (codes "b")) ≡ some (0, 1)
unfolding program
get_b = refl

-- A second entry is above the load limit of three slots.
set_b : counted (set_value unsigned all_granted 0 small (codes "b") 6) ≡ some (rc_ok, 5, 2)
unfolding program
set_b = refl

create_32 : table_size (slots_for 32) ≡ some 41
unfolding program
create_32 = refl

table_size_lem_example : Sized 39 (table_size 39)
table_size_lem_example = table_size_lem 39

small-Holds : Holds unsigned small (codes "a") 1 entry_a
unfolding program
small-Holds = record { found = refl; entry = refl; untimed = refl; uncapped = refl }

set_value-update_example :
    Returns (set_value unsigned all_granted 0 small (codes "a") 8) (λ (rc, u).
      (rc ≡ rc_ok)
      × (get unsigned 9 u (codes "a") ≡ some (8, u))
      × ((k : List ℕ) (h : ℕ) → find u k h ≡ find small k h)
      × (u.freed ≡ 5 ∷ []))
set_value-update_example =
    set_value-update unsigned all_granted 0 9 small (codes "a") 8 1 entry_a small-Holds
      (omega arith)

set_value-get_example :
    Returns
      (set_value unsigned all_granted 0 small (codes "a") 0)
      (λ (rc, u). (rc ≡ rc_ok) × (get unsigned 9 u (codes "a") ≡ some (5, u)) × (u.freed ≡ 5 ∷ []))
unfolding dequeue
set_value-get_example =
    set_value-get unsigned all_granted 0 9 small (codes "a") 1 entry_a [] small-Holds refl refl refl

clear_lem_example :
    Returns
      (clear small)
      (λ u. Emptied small u × ((key : List ℕ) (hash : ℕ) → find u key hash ≡ some none))
clear_lem_example =
    clear_lem small (record { slots = omega arith; counted = refl; in_range = omega arith })
      (omega arith)

-- A table with the entry "a", made by lws_table_create and lws_table_set.
abbrev one : Table
one = record {
  alloc = 5;
  load = 3;
  count = 1;
  entries = blank ∷ entry_a ∷ blank ∷ blank ∷ blank ∷ [];
  order = 1 ∷ [];
  timeout = 0;
  cap = 0;
  dup = false;
  free = false;
  ci = false;
  timed = false;
  capped = false;
  freed = [];
}

abbrev changed : ℤ → Table → Option (ℤ × Table)
changed rc t = some (rc, t)

second_lem : (a b : ℤ) (t u : Table) → changed a t ≡ changed b u → t ≡ u
second_lem a b t u h = ap (λ (o : Option (ℤ × Table)). elim o [ none ↦ t | some (c, d) ↦ d ]) h

one_lem : set_value unsigned all_granted 0 (empty_table 5) (codes "a") 5 ≡ some (rc_ok, one)
unfolding program
one_lem = refl

-- The space for a key whose home slot is free.
pub home_space :
    (t : Table) (key : List ℕ)
    → t.count ≢ t.load
    → 0 < t.alloc
    → t.dup ≡ false
    → get_elem? t.entries (home t.alloc (table_hash unsigned t.ci key)) ≡ some blank
    → HasSpace unsigned all_granted t key
unfolding is_set probe
home_space t key below p d h = record {
  below_load = below;
  room = record {
    number = 0;
    in_range = p;
    room = record { entry = blank; at = h; free_lem = refl };
  };
  copied = ground (arith, d);
}

start_map : Represents unsigned (empty_table 5) (λ _. 0)
start_map = empty_table-Represents unsigned 5 (omega arith) (omega arith)

empty_space : HasSpace unsigned all_granted (empty_table 5) (codes "a")
unfolding program
empty_space = home_space (empty_table 5) (codes "a") (λ h. omega (arith, h)) (omega arith) refl refl

just_a : List ℕ → ℕ
just_a = assign false (codes "a") 5 (λ _. 0)

one-Represents : Represents unsigned one just_a
unfolding empty_table just_a
one-Represents =
    let ((rc, u), sets, (ok, m)) =
      set_value-Represents unsigned all_granted 0 (empty_table 5) (λ _. 0) (codes "a") 5 start_map
        (omega arith, tt) (omega arith) (λ h. empty_space) in
    subst (λ a. Represents unsigned a just_a) (sym (second_lem rc_ok rc one u (sym one_lem ∙ sets)))
      m

one_space : HasSpace unsigned all_granted one (codes "b")
unfolding program
one_space = home_space one (codes "b") (λ h. omega (arith, h)) (omega arith) refl refl

set_value-Represents_example :
    Returns
      (set_value unsigned all_granted 0 one (codes "b") 6)
      (λ (rc, u). (rc ≡ rc_ok) × Represents unsigned u (assign false (codes "b") 6 just_a))
set_value-Represents_example =
    set_value-Represents unsigned all_granted 0 one just_a (codes "b") 6 one-Represents
      (omega arith, tt) (omega arith) (λ h. one_space)

insert_lem_example : Returns (insert one 12638187200555641996) (Inserted one 12638187200555641996)
unfolding is_set probe home stride next_slot
insert_lem_example =
    insert_lem one 12638187200555641996 refl (omega arith) one-Represents.well.queued (record {
      number = 1;
      in_range = omega arith;
      room = record { entry = blank; at = refl; free_lem = refl };
    })
