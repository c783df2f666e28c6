-- ===== src/Table/Refine.antt =====
-- The invariant under which the table of src/lws_table.c is a map: without entries that were deleted,
-- each entry that is set stands on the probes of its hash behind entries that are set, and no two have
-- keys that compare equal.
pub mod Search
pub mod Placed
pub mod Moved
pub mod Grown
pub mod Stored
pub mod Map
pub mod Updated
pub mod Setting
use lambda_lws.Prelude.{
  ℕ, ◌≤◌, ◌<◌, ◌≡◌, ◌≢◌, Bool, true, false, Option, some, List, length, get_elem?,
}
use lambda_lws.Codec.Base64.{size_max}
use lambda_lws.Table.{Entry, Table, is_set, is_unused}
use lambda_lws.Table.Hash.{table_hash, same_text, IsText}
use lambda_lws.Table.Find.Probes.{probe}
use lambda_lws.Table.Insert.Slots.{IsSetAt}
use lambda_lws.Table.Insert.Settle.{IsQueued}

-- A slot holds an entry that is set.
pub record HasEntry (t : Table) (s : ℕ) (e : Entry) : Type 0 where
  pub at : get_elem? t.entries s ≡ some e
  pub set_lem : is_set e ≡ true

-- A slot is on the probes of a hash, behind slots that are set.
pub record IsReached (t : Table) (hash s : ℕ) : Type 0 where
  pub number : ℕ
  pub here : s ≡ probe t.alloc hash number
  pub before : (j : ℕ) → j < number → IsSetAt t (probe t.alloc hash j)

-- An entry has a key of its own, with its hash.
pub record IsKeyed (widen : ℕ → ℕ) (ci : Bool) (e : Entry) : Type 0 where
  pub key : List ℕ
  pub data_lem : e.key_data ≡ some key
  pub len : e.key_len ≡ length key
  pub text : IsText key
  pub hash_lem : e.hash ≡ table_hash widen ci key

-- Keys that the table takes as one.
pub record IsSame (ci : Bool) (a b : List ℕ) : Type 0 where
  pub len : length a ≡ length b
  pub text : same_text ci a b ≡ true

-- The entry of a slot has a key that the table takes as the one given.
pub record HasKey (t : Table) (key : List ℕ) (s : ℕ) (e : Entry) : Type 0 where
  pub entry : HasEntry t s e
  pub own : List ℕ
  pub data_lem : e.key_data ≡ some own
  pub same : IsSame t.ci own key

pub record IsWell (widen : ℕ → ℕ) (t : Table) : Type 0 where
  pub slots : length t.entries ≡ t.alloc
  pub enough : 3 ≤ t.alloc
  pub small : t.alloc ≤ size_max
  pub states :
      (s : ℕ) (e : Entry) → get_elem? t.entries s ≡ some e → is_set e ≡ false → is_unused e ≡ true
  pub keyed : (s : ℕ) (e : Entry) → HasEntry t s e → IsKeyed widen t.ci e
  pub reached : (s : ℕ) (e : Entry) → HasEntry t s e → IsReached t e.hash s
  pub unique : (key : List ℕ) (s r : ℕ) (e x : Entry) → HasKey t key s e → HasKey t key r x → s ≡ r
  pub queued : IsQueued t
