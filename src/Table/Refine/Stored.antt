-- ===== src/Table/Refine/Stored.antt =====
-- `lws_table_set` (src/lws_table.c, lines 191 to 211) with a key that the table does not have: the table
-- with the new entry.
use lambda_lws.Prelude.{
  ℕ, ◌≡◌, refl, sym, ◌∙◌, Bool, true, false, not, ◌&&◌, some, List, length, get_elem?, set, rc_ok,
  ◌>>=◌, Returns,
}
use lambda_lws.Table.{Entry, Table, occupied, is_set}
use lambda_lws.Table.Hash.{table_hash, IsText}
use lambda_lws.Table.Find.Probes.{probe}
use lambda_lws.Table.Insert.{insert}
use lambda_lws.Table.Insert.Slots.{HasRoom}
use lambda_lws.Table.Insert.Settle.{Inserted, direct, moved, IsQueued, insert_lem}
use lambda_lws.Table.Methods.{add_entry}
use lambda_lws.Table.Methods.Lookup.{stamp_off, put_entry_lem}
use lambda_lws.Table.Refine.{IsKeyed, IsWell}
use lambda_lws.Table.Refine.Placed.{Placed, added, elsewhere, direct-Placed, direct-IsQueued}
use lambda_lws.Table.Refine.Moved.{relocated, new_apart, moved-Placed, moved-IsQueued}

-- The entry that is written over another.
abbrev written : Entry → List ℕ → ℕ → ℕ → Entry
written e key v hash = record e {
  key_len = length key;
  key_data = some key;
  value = v;
  hash = hash;
  state = occupied;
}

written_set : (e : Entry) (key : List ℕ) (v hash : ℕ) → is_set (written e key v hash) ≡ true
unfolding is_set
written_set e key v hash = refl

add_entry_lem :
    (granted : Bool) (now : ℕ) (t u : Table) (key : List ℕ) (hash v s : ℕ) (e : Entry)
    → insert t hash ≡ some (u, s)
    → get_elem? u.entries s ≡ some e
    → u.timed ≡ false
    → (u.dup && not granted) ≡ false
    → add_entry granted now t key hash v ≡ some (rc_ok, added u s (written e key v hash))
unfolding add_entry
add_entry_lem granted now t u key hash v s e runs at untimed copied =
    rw
      (
        runs,
        ◌>>=◌,
        at,
        ◌>>=◌,
        copied,
        stamp_off now u (written e key v hash) untimed,
        put_entry_lem u s e (written e key v hash) at,
      )
      refl

-- A table with a new entry for a key.
pub record Stored (widen : ℕ → ℕ) (t : Table) (key : List ℕ) (v : ℕ) (u : Table) : Type 0 where
  pub slot : ℕ
  pub entry : Entry
  pub placed : Placed t u slot entry
  pub keyed : IsKeyed widen t.ci entry
  pub key_lem : keyed.key ≡ key
  pub value_lem : entry.value ≡ v
  pub queued : IsQueued u
  pub untimed : u.timed ≡ t.timed
  pub uncapped : u.capped ≡ t.capped

written-IsKeyed :
    (widen : ℕ → ℕ) (ci : Bool) (e : Entry) (key : List ℕ) (v : ℕ)
    → IsText key
    → IsKeyed widen ci (written e key v (table_hash widen ci key))
written-IsKeyed widen ci e key v h = record {
  key = key;
  data_lem = refl;
  len = refl;
  text = h;
  hash_lem = refl;
}

inserted_lem :
    (widen : ℕ → ℕ) (granted : Bool) (now : ℕ) (t : Table) (key : List ℕ) (v : ℕ) (p : Table × ℕ)
    → IsWell widen t
    → IsText key
    → t.timed ≡ false
    → (t.dup && not granted) ≡ false
    → insert t (table_hash widen t.ci key) ≡ some p
    → Inserted t (table_hash widen t.ci key) p
    → Returns
        (add_entry granted now t key (table_hash widen t.ci key) v)
        (λ (rc, u). (rc ≡ rc_ok) × Stored widen t key v u)
unfolding written-IsKeyed
inserted_lem widen granted now t key v p w h untimed copied runs (direct k f) =
    let hash = table_hash widen t.ci key in
    let x = written f.free_at.entry key v hash in
    let good = written_set f.free_at.entry key v hash in
    (
      (rc_ok, added t (probe t.alloc hash k) x),
      add_entry_lem granted now t t key hash v (probe t.alloc hash k) f.free_at.entry runs
          f.free_at.at untimed copied,
      (
        refl,
        record {
          slot = probe t.alloc hash k;
          entry = x;
          placed = direct-Placed widen t w hash k f x good refl;
          keyed = written-IsKeyed widen t.ci f.free_at.entry key v h;
          key_lem = refl;
          value_lem = refl;
          queued = direct-IsQueued widen t w hash k f x good refl;
          untimed = refl;
          uncapped = refl;
        },
      ),
    )
inserted_lem widen granted now t key v p w h untimed copied runs
      (moved k j e new order' f l at mv links) =
    let hash = table_hash widen t.ci key in
    let old = probe t.alloc hash j in
    let x = written e key v hash in
    let good = written_set e key v hash in
    let still : get_elem? (set t.entries new e) old ≡ some e =
      elsewhere t.entries new old e
        (λ q. new_apart widen t w hash k j e new order' f l at mv x good refl (sym q))
      ∙ at in
    (
      (rc_ok, added (relocated t new e order') old x),
      add_entry_lem granted now t (relocated t new e order') key hash v old e runs still untimed
          copied,
      (
        refl,
        record {
          slot = old;
          entry = x;
          placed = moved-Placed widen t w hash k j e new order' f l at mv x good refl;
          keyed = written-IsKeyed widen t.ci e key v h;
          key_lem = refl;
          value_lem = refl;
          queued = moved-IsQueued widen t w hash k j e new order' f l at mv x good refl links;
          untimed = refl;
          uncapped = refl;
        },
      ),
    )

-- If a table that is a map has room for a key, and memory for its copy where it copies keys, a new entry
-- for the key is added.
pub add_entry-Stored :
    (widen : ℕ → ℕ) (granted : Bool) (now : ℕ) (t : Table) (key : List ℕ) (v : ℕ)
    → IsWell widen t
    → IsText key
    → t.timed ≡ false
    → (t.dup && not granted) ≡ false
    → HasRoom t (table_hash widen t.ci key)
    → Returns
        (add_entry granted now t key (table_hash widen t.ci key) v)
        (λ (rc, u). (rc ≡ rc_ok) × Stored widen t key v u)
add_entry-Stored widen granted now t key v w h untimed copied room =
    let (p, runs, done) = insert_lem t (table_hash widen t.ci key) w.slots w.small w.queued room in
    inserted_lem widen granted now t key v p w h untimed copied runs done
