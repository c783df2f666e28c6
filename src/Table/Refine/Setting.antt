-- ===== src/Table/Refine/Setting.antt =====
-- `lws_table_create` and `lws_table_set` with a value (src/lws_table.c, lines 40 to 81 and 152 to 219)
-- against the map that a table implements.
use lambda_lws.Prelude.{
  ℕ, zero, suc, ◌+◌, ◌≤◌, ◌<◌, ◌≡◌, ◌≢◌, refl, sym, ap, Bool, true, false, not, ◌&&◌, some, List,
  ◌∷◌, ◌==◌, if◌then◌else◌, if_off, get_elem?, length, ◌∙◌, replicate, length-replicate, rc_ok,
  ◌>>=◌, Returns, arith,
}
use lambda_lws.Codec.Base64.{size_max}
use lambda_lws.Table.{Entry, Table, blank, is_set, is_unused}
use lambda_lws.Table.Hash.{table_hash, IsText}
use lambda_lws.Table.Insert.Slots.{HasRoom}
use lambda_lws.Table.Methods.{
  Grants, empty_table, evict, grow_table, rehash, add_grown, set_found, set_value,
}
use lambda_lws.Table.Methods.Lookup.{update_lem}
use lambda_lws.Table.Refine.{HasEntry, IsWell}
use lambda_lws.Table.Refine.Search.{set_in_use, present, absent, find_cases}
use lambda_lws.Table.Refine.Stored.{add_entry-Stored}
use lambda_lws.Table.Refine.Map.{Represents, assign, read_absent, represents_lem, Stored-Represents}
use lambda_lws.Table.Refine.Updated.{updated, updated-Represents}

blank_lem : (n s : ℕ) (e : Entry) → get_elem? (replicate n blank) s ≡ some e → is_unused e ≡ true
unfolding is_unused
blank_lem zero s e h = absurd cc
blank_lem (suc n) zero e h = let same : blank ≡ e = cc in ap is_unused (sym same)
blank_lem (suc n) (suc s) e h = blank_lem n s e h

pub blank_unset :
    (n s : ℕ) (e : Entry) → get_elem? (replicate n blank) s ≡ some e → is_set e ≡ true → ⊥
blank_unset n s e h p = let u = blank_lem n s e h in let q = set_in_use e p in cc

-- A table without entries is a map.
pub vacant-IsWell :
    (widen : ℕ → ℕ) (t : Table)
    → t.entries ≡ replicate t.alloc blank
    → 3 ≤ t.alloc
    → t.alloc ≤ size_max
    → IsWell widen t
vacant-IsWell widen t e enough small =
    let at = λ (s : ℕ) (x : Entry) (h : get_elem? t.entries s ≡ some x).
      sym (ap (λ (l : List Entry). get_elem? l s) e) ∙ h in
    let empty =
      λ (s : ℕ) (x : Entry) (h : HasEntry t s x). blank_unset t.alloc s x (at s x h.at) h.set_lem in
    record {
      slots = ap length e ∙ length-replicate t.alloc blank;
      enough = enough;
      small = small;
      states = λ s x h p. blank_lem t.alloc s x (at s x h);
      keyed = λ s x h. absurd (empty s x h);
      reached = λ s x h. absurd (empty s x h);
      unique = λ key s r x y h k. absurd (empty s x h.entry);
      queued = λ s h. absurd (blank_unset t.alloc s h.entry (at s h.entry h.at) h.set_lem);
    }

-- A table without entries, with its flags, is the empty map.
pub vacant-Represents :
    (widen : ℕ → ℕ) (slots : ℕ) (d f c : Bool)
    → 3 ≤ slots
    → slots ≤ size_max
    → Represents widen (record (empty_table slots) { dup = d; free = f; ci = c }) (λ _. 0)
unfolding empty_table
vacant-Represents widen slots d f c enough small =
    let t : Table = record (empty_table slots) { dup = d; free = f; ci = c } in
    let empty = λ (s : ℕ) (e : Entry) (h : HasEntry t s e). blank_unset slots s e h.at h.set_lem in
    represents_lem widen t (λ _. 0) (vacant-IsWell widen t refl enough small) refl refl
      (λ key s e h. absurd (empty s e h.entry)) (λ key h. refl)

-- The table that lws_table_create makes is the empty map.
pub empty_table-Represents :
    (widen : ℕ → ℕ) (slots : ℕ)
    → 3 ≤ slots
    → slots ≤ size_max
    → Represents widen (empty_table slots) (λ _. 0)
unfolding empty_table
empty_table-Represents widen slots enough small =
    vacant-Represents widen slots false false false enough small

-- There is room for a new key without a rehash, and memory for its copy where keys are copied.
pub record HasSpace (widen : ℕ → ℕ) (g : Grants) (t : Table) (key : List ℕ) : Type 0 where
  pub below_load : t.count ≢ t.load
  pub room : HasRoom t (table_hash widen t.ci key)
  pub copied : (t.dup && not g.key_granted) ≡ false

pub grow_table_off :
    (granted : Bool) (t : Table) → t.count ≢ t.load → grow_table granted t ≡ some (rc_ok, t)
unfolding grow_table
grow_table_off granted t h =
    if_off (t.count == t.load) (rehash granted t (t.alloc + 1)) (some (rc_ok, t))
      (ground (arith, h))

evict_off : (t : Table) → t.capped ≡ false → evict t ≡ some t
unfolding evict
evict_off t h =
    let off : (t.capped && (t.count == t.cap)) ≡ false = ground (arith, h) in rw off refl

-- Where a table implements a map, lws_table_set of a key without zero bytes to a value that is not NULL
-- ends, makes no access outside the table, returns 0, and leaves a table that implements the map with the
-- value assigned to the key and to those that compare equal: with space for the key (no rehash is due, a
-- slot is free on its probes, and memory for its copy is granted where keys are copied), if the map does
-- not have the key.
pub set_value-Represents :
    (widen : ℕ → ℕ) (g : Grants) (now : ℕ) (t : Table) (f : List ℕ → ℕ) (key : List ℕ) (v : ℕ)
    → Represents widen t f
    → IsText key
    → 0 < v
    → (f key ≡ 0 → HasSpace widen g t key)
    → Returns
        (set_value widen g now t key v)
        (λ (rc, u). (rc ≡ rc_ok) × Represents widen u (assign t.ci key v f))
unfolding set_value set_found add_grown
set_value-Represents widen g now t f key v m h p space =
    let nonzero : (v == 0) ≡ false = ground (arith, p) in
    elim (find_cases widen t key m.well) [
      | present s e k runs ↦
          let freed' = if t.free && not (v == e.value) then e.value ∷ t.freed else t.freed in
          (
            (rc_ok, updated t s e v freed'),
            rw (runs, ◌>>=◌, nonzero) (update_lem now t s v e k.entry.at m.untimed m.uncapped),
            (refl, updated-Represents widen t m.well key s e k v freed' f m),
          )
      | absent fresh runs ↦
          let q = space (read_absent widen t f key m fresh) in
          let ((rc, u), adds, (ok, stored)) =
            add_entry-Stored widen g.key_granted now t key v m.well h m.untimed q.copied q.room in
          (
            (rc, u),
            rw
                (
                  runs,
                  ◌>>=◌,
                  nonzero,
                  evict_off t m.uncapped,
                  ◌>>=◌,
                  grow_table_off g.entries_granted t q.below_load,
                  ◌>>=◌,
                )
                adds,
            (ok, Stored-Represents widen t u f key v m fresh stored),
          )
    ]
