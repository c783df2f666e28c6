-- ===== src/Table.antt =====
-- src/lws_table.c and src/lws_table.h: the hash table with Brent's variation of double hashing, in
-- which the program keeps headers and file states. An entry of the table is named by its slot. The
-- queue of lws_ngx.h is taken at its interface: `order` is the list of the slots in it, and removing or
-- replacing an entry that is not in it is a fault. A run is `none` if it faults, reads freed memory, or
-- is out of fuel. Values are handles, 0 for NULL; `freed` is the list of the values that were freed.
pub mod Size
pub mod Hash
pub mod Find
pub mod Insert
pub mod Methods
pub mod Refine
use lambda_lws.Prelude.{
  ℕ, zero, suc, ◌+◌, ◌*◌, ◌/◌, ◌%◌, ◌^◌, Bool, true, false, Option, none, some, List, [], ◌∷◌, ◌==◌,
  if◌then◌else◌, get_elem?, set, length, Run, ◌>>=◌,
}

-- lws_table_entry_state_e
pub data EntryState : Type 0 where
  unused : EntryState
  occupied : EntryState
  deleted : EntryState

-- lws_table_entry_t, without `order`. `key_data` is `none` where the pointer is NULL or its memory freed.
pub record Entry : Type 0 where
  pub key_len : ℕ
  pub key_data : Option (List ℕ)
  pub value : ℕ
  pub hash : ℕ
  pub time : ℕ
  pub state : EntryState

-- lws_table_t
pub record Table : Type 0 where
  pub alloc : ℕ
  pub load : ℕ
  pub count : ℕ
  pub entries : List Entry
  pub order : List ℕ
  pub timeout : ℕ
  pub cap : ℕ
  pub dup : Bool
  pub free : Bool
  pub ci : Bool
  pub timed : Bool
  pub capped : Bool
  pub freed : List ℕ

-- A zeroed entry.
abbrev pub blank : Entry
blank = record { key_len = 0; key_data = none; value = 0; hash = 0; time = 0; state = unused }

unfoldable pub is_unused : Entry → Bool
is_unused e = elim e.state [ unused ↦ true | occupied ↦ false | deleted ↦ false ]

unfoldable pub is_set : Entry → Bool
is_set e = elim e.state [ unused ↦ false | occupied ↦ true | deleted ↦ false ]

-- The first occurrence of a slot taken out of a queue.
unfoldable pub dequeue : List ℕ → ℕ → Run (List ℕ)
dequeue [] s = none
dequeue (x ∷ xs) s =
    let rest = dequeue xs s in if x == s then some xs else rest >>= λ ys. some (x ∷ ys)

-- A slot put in the place of another.
unfoldable pub relink : List ℕ → ℕ → ℕ → Run (List ℕ)
relink [] s r = none
relink (x ∷ xs) s r =
    let rest = relink xs s r in if x == s then some (r ∷ xs) else rest >>= λ ys. some (x ∷ ys)

-- t->entries[s] = e
unfoldable pub put_entry : Table → ℕ → Entry → Run Table
put_entry t s e = do old ← get_elem? t.entries s; some (record t { entries = set t.entries s e })

-- lws_queue_remove, and lws_queue_insert_tail behind it
unfoldable pub unlink : Table → ℕ → Run Table
unfolding dequeue
unlink t s = do order' ← dequeue t.order s; some (record t { order = order' })
