-- ===== src/Table/Methods.antt =====
-- The functions that src/lws_table.h declares, and those that they share (src/lws_table.c, lines 40 to
-- 245, 297 to 331 and 421 to 431). `widen` is the conversion of a `char` to lws_uint_t; `now` is what
-- time(NULL) returns; what `lws_calloc` and `lws_alloc` grant is a truth value.
pub mod Lookup
pub mod Clear
use lambda_lws.Prelude.{
  ℕ, zero, suc, ◌+◌, ◌-◌, ◌%◌, ◌^◌, Bool, true, false, not, ◌&&◌, ◌||◌, Option, none, some, List,
  [], ◌∷◌, ◌++◌, ltb, leb, ◌==◌, if◌then◌else◌, get_elem?, set, replicate, length, ℤ, pos, negsuc,
  rc_ok, rc_error, Run, ◌>>=◌,
}
use lambda_lws.Codec.Base64.{size_mod}
use lambda_lws.Table.{Entry, Table, EntryState, unused, occupied, deleted, blank, unlink, put_entry}
use lambda_lws.Table.Size.{table_size, table_load, slots_for}
use lambda_lws.Table.Hash.{table_hash}
use lambda_lws.Table.Find.{find}
use lambda_lws.Table.Insert.{insert}

-- A zeroed table with zeroed entries.
unfoldable pub empty_table : ℕ → Table
empty_table slots = record {
  alloc = slots;
  load = table_load slots;
  count = 0;
  entries = replicate slots blank;
  order = [];
  timeout = 0;
  cap = 0;
  dup = false;
  free = false;
  ci = false;
  timed = false;
  capped = false;
  freed = [];
}

-- With the answer of `lws_table_size`.
unfoldable pub create_sized : Bool → Option ℕ → Option Table
create_sized granted none = none
create_sized granted (some slots) = if granted then some (empty_table slots) else none

-- lws_table_create: `none` for NULL.
unfoldable pub create : Bool → Bool → ℕ → Option Table
create table_granted entries_granted expected =
    if table_granted then create_sized entries_granted (table_size (slots_for expected)) else none

-- lws_table_remove
unfoldable pub remove : Table → ℕ → Run Table
unfolding unlink put_entry
remove t s = do
  t₁ ← unlink t s
  e ← get_elem? t₁.entries s
  t₂ ←
      put_entry t₁ s (record e { key_data = (if t.dup then none else e.key_data); state = deleted })
  some (record t₂ {
    freed = (if t.free then e.value ∷ t.freed else t.freed);
    count = (t.count + size_mod - 1) % size_mod;
  })

-- The last element of a queue that is not empty.
unfoldable pub last_of : ℕ → List ℕ → ℕ
last_of s [] = s
last_of s (x ∷ xs) = last_of x xs

-- The loop `while (!lws_queue_empty(&t->order))`; each round takes an entry out of the queue.
unfoldable pub remove_all : ℕ → Table → Run Table
remove_all zero t = if length t.order == 0 then some t else none
remove_all (suc fuel) t = elim t.order [
  | [] ↦ some t
  | s ∷ ss ↦ remove t (last_of s ss) >>= remove_all fuel
]

-- The part that lws_table_free and lws_table_clear share: none is left in the queue.
unfoldable pub empty_queue : Table → Run Table
empty_queue t = if t.dup || t.free then remove_all (length t.order) t else some t

-- lws_table_free: the values that it freed.
unfoldable pub free_table : Table → Run (List ℕ)
free_table t = do t₁ ← empty_queue t; some t₁.freed

-- lws_table_clear
unfoldable pub clear : Table → Run Table
clear t = do
  t₁ ← empty_queue t
  let t₂ : Table = if t.dup || t.free then t₁ else record t₁ { order = []; count = 0 }
  some (record t₂ { entries = replicate t.alloc blank })

-- lws_table_set_dup, lws_table_set_free, lws_table_set_ci, lws_table_set_timeout, lws_table_set_cap
unfoldable pub set_dup : Table → Bool → ℤ × Table
set_dup t v = if not (t.count == 0) then (rc_error, t) else (rc_ok, record t { dup = v })

unfoldable pub set_free : Table → Bool → ℤ × Table
set_free t v = if not (t.count == 0) then (rc_error, t) else (rc_ok, record t { free = v })

unfoldable pub set_ci : Table → Bool → ℤ × Table
set_ci t v = if not (t.count == 0) then (rc_error, t) else (rc_ok, record t { ci = v })

unfoldable pub set_timeout : Table → ℕ → ℤ × Table
set_timeout t v =
    if not (t.count == 0) then (rc_error, t) else (rc_ok, record t { timeout = v; timed = true })

unfoldable pub set_cap : Table → ℕ → ℤ × Table
set_cap t v =
    if not (t.count == 0) || ltb v 1
    then (rc_error, t)
    else (rc_ok, record t { cap = v; capped = true })

-- lws_queue_remove and lws_queue_insert_tail, where the table is capped
unfoldable pub touch : Table → ℕ → Run Table
touch t s =
    if t.capped then unlink t s >>= (λ u. some (record u { order = u.order ++ s ∷ [] })) else some t

-- lws_table_get, for an entry that was found
unfoldable pub get_found : ℕ → Table → Option ℕ → Run (ℕ × Table)
get_found now t none = some (0, t)
get_found now t (some s) = do
  e ← get_elem? t.entries s
  if t.timed && leb (e.time + t.timeout) now
      then some (0, t)
      else touch t s >>= (λ u. some (e.value, u))

-- lws_table_get
unfoldable pub get : (ℕ → ℕ) → ℕ → Table → List ℕ → Run (ℕ × Table)
get widen now t key = find t key (table_hash widen t.ci key) >>= get_found now t

-- The time of an entry that is set.
unfoldable pub stamp : ℕ → Table → Entry → Entry
stamp now t e = if t.timed then record e { time = now } else e

-- "update existing"
unfoldable pub update : ℕ → Table → ℕ → ℕ → Run (ℤ × Table)
update now t s v = do
  u ← touch t s
  e ← get_elem? u.entries s
  w ← put_entry u s (stamp now u (record e { value = v }))
  some (
    rc_ok,
    record w { freed = (if u.free && not (v == e.value) then e.value ∷ u.freed else u.freed) },
  )

-- "evict as needed"
unfoldable pub evict : Table → Run Table
evict t =
    if t.capped && (t.count == t.cap)
    then elim t.order [ [] ↦ none | s ∷ ss ↦ remove t s ]
    else some t

-- The loop that reinserts the entries of `old`, for the queue from its last element to its first.
unfoldable pub reinsert : List Entry → List ℕ → Table → Run Table
reinsert old [] t = some t
reinsert old (s ∷ ss) t = do
  e ← get_elem? old s
  (t₁, r) ← insert t e.hash
  t₂ ← put_entry t₁ r e
  reinsert old ss (record t₂ { order = r ∷ t₂.order })

unfoldable pub reversed : List ℕ → List ℕ → List ℕ
reversed [] acc = acc
reversed (x ∷ xs) acc = reversed xs (x ∷ acc)

-- With the answer of `lws_table_size`.
unfoldable pub rehash_sized : Bool → Table → Option ℕ → Run (ℤ × Table)
rehash_sized granted t none = some (rc_error, t)
rehash_sized granted t (some slots) =
    if granted
    then reinsert t.entries (reversed t.order []) (record t {
      alloc = slots;
      load = table_load slots;
      entries = replicate slots blank;
      order = [];
    })
      >>= (λ u. some (rc_ok, u))
    else some (rc_error, t)

-- lws_table_rehash
unfoldable pub rehash : Bool → Table → ℕ → Run (ℤ × Table)
rehash granted t slots = rehash_sized granted t (table_size slots)

-- "rehash as needed"
unfoldable pub grow_table : Bool → Table → Run (ℤ × Table)
grow_table granted t = if t.count == t.load then rehash granted t (t.alloc + 1) else some (rc_ok, t)

-- "new entry"
unfoldable pub add_entry : Bool → ℕ → Table → List ℕ → ℕ → ℕ → Run (ℤ × Table)
add_entry granted now t key hash v = do
  (u, s) ← insert t hash
  e ← get_elem? u.entries s
  if u.dup && not granted
      then put_entry u s (record e { key_data = none }) >>= (λ w. some (rc_error, w))
      else (do
        w ← put_entry u s (
            stamp now u (record e {
              key_len = length key;
              key_data = some key;
              value = v;
              hash = hash;
              state = occupied;
            }))
        some (rc_ok, record w { order = w.order ++ s ∷ []; count = w.count + 1 }))

-- The grants of `lws_calloc` in the rehash and of `lws_alloc` for the key.
pub record Grants : Type 0 where
  pub entries_granted : Bool
  pub key_granted : Bool

-- What is done behind the rehash.
unfoldable pub add_grown : Grants → ℕ → List ℕ → ℕ → ℕ → ℤ × Table → Run (ℤ × Table)
add_grown g now key hash v (pos n, t) = add_entry g.key_granted now t key hash v
add_grown g now key hash v (negsuc n, t) = some (rc_error, t)

-- lws_table_set with a value, by whether an entry was found.
unfoldable pub set_found : Grants → ℕ → Table → List ℕ → ℕ → ℕ → Option ℕ → Run (ℤ × Table)
set_found g now t key hash v (some s) = update now t s v
set_found g now t key hash v none = do
  u ← evict t
  w ← grow_table g.entries_granted u
  add_grown g now key hash v w

-- lws_table_set without a value.
unfoldable pub unset_found : Table → Option ℕ → Run (ℤ × Table)
unset_found t none = some (rc_ok, t)
unset_found t (some s) = remove t s >>= (λ u. some (rc_ok, u))

-- lws_table_set
unfoldable pub set_value : (ℕ → ℕ) → Grants → ℕ → Table → List ℕ → ℕ → Run (ℤ × Table)
set_value widen g now t key v = do
  found ← find t key (table_hash widen t.ci key)
  if v == 0 then unset_found t found else set_found g now t key (table_hash widen t.ci key) v found

-- What follows an element in a queue, `none` inside the run at the end.
unfoldable pub follower : List ℕ → ℕ → Run (Option ℕ)
follower [] s = none
follower (x ∷ []) s = if x == s then some none else none
follower (x ∷ y ∷ xs) s = let rest = follower (y ∷ xs) s in if x == s then some (some y) else rest

-- lws_table_next at an element of the queue: `none` inside the run is -1, else the key and the value.
unfoldable pub next_at : Table → Option ℕ → Run (Option (Option (List ℕ) × ℕ))
next_at t none = some none
next_at t (some s) = do e ← get_elem? t.entries s; some (some (e.key_data, e.value))

-- The first element of a queue.
unfoldable pub head_of : List ℕ → Option ℕ
head_of [] = none
head_of (s ∷ ss) = some s

-- lws_table_next behind an entry that was found.
unfoldable pub next_found : Table → Option ℕ → Run (Option (Option (List ℕ) × ℕ))
next_found t none = some none
next_found t (some s) = follower t.order s >>= next_at t

-- lws_table_next
unfoldable pub next_entry : (ℕ → ℕ) → Table → Option (List ℕ) → Run (Option (Option (List ℕ) × ℕ))
next_entry widen t none = next_at t (head_of t.order)
next_entry widen t (some key) = find t key (table_hash widen t.ci key) >>= next_found t
