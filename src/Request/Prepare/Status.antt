-- ===== src/Request/Prepare/Status.antt =====
-- What `lws_get_file_status` (src/lws_request.c, lines 43 to 57) answers for the name of a file, by what the
-- stat cache has for it and, where it has nothing, by the file system.
use lambda_lws.Prelude.{
  ℕ, ◌+◌, ◌≡◌, ◌≢◌, refl, sym, ap, ◌∙◌, ◌⊎◌, inl, inr, true, false, Bool-cases, ◌&&◌, leb, some,
  none, List, [], ◌∷◌, ◌++◌, ◌==◌, if_on, if_off, length, length-append, take, take-append, Run,
  ◌>>=◌, Returns, arith,
}
use lambda_lws.Table.{Entry, Table, dequeue, unlink}
use lambda_lws.Table.Hash.{table_hash, IsText}
use lambda_lws.Table.Find.{find}
use lambda_lws.Table.Insert.Queue.{In}
use lambda_lws.Table.Methods.{touch, get_found, get, evict, add_grown, set_found, set_value}
use lambda_lws.Table.Refine.{HasEntry, HasKey, IsWell}
use lambda_lws.Table.Refine.Search.{present, absent, find_cases}
use lambda_lws.Table.Refine.Stored.{Stored, add_entry-Stored}
use lambda_lws.Table.Refine.Setting.{HasSpace, grow_table_off}
use lambda_lws.Request.Prepare.{
  Library, fs_found, fs_not_found, stat_status, cached_status, get_file_status,
}
use lambda_lws.Request.Prepare.Filename.{filename_text}

-- A cache that a lookup and a new entry do not fault in: from which no entry was deleted, with statuses that
-- are known, and with room below its cap.
pub record IsCache (widen : ℕ → ℕ) (t : Table) : Type 0 where
  pub well : IsWell widen t
  pub untimed : t.timed ≡ false
  pub known : (s : ℕ) (e : Entry) → HasEntry t s e → e.value ≢ 0
  pub below_cap : t.count ≢ t.cap

-- The cache has nothing for a name.
abbrev pub HasNone : Table → List ℕ → Type 0
HasNone t name = (s : ℕ) (e : Entry) → HasKey t name s e → ⊥

-- The file of a name is found: by the cache, which keeps its entries, or by `stat`, and the cache has it
-- then.
pub data IsFound (w : Library) (t : Table) (name block : List ℕ) (u : Table) : Type 0 where
  cached :
      (s : ℕ) (e : Entry)
      → HasKey t name s e
      → e.value ≡ fs_found
      → u.entries ≡ t.entries
      → IsFound w t name block u
  regular :
      HasNone t name
      → w.is_regular block ≡ true
      → Stored w.widen t name fs_found u
      → IsFound w t name block u

-- The file of a name is not found.
pub data IsMissing (w : Library) (t : Table) (name block : List ℕ) (u : Table) : Type 0 where
  cached_missing :
      (s : ℕ) (e : Entry)
      → HasKey t name s e
      → e.value ≢ fs_found
      → u.entries ≡ t.entries
      → IsMissing w t name block u
  not_regular :
      HasNone t name
      → w.is_regular block ≡ false
      → Stored w.widen t name fs_not_found u
      → IsMissing w t name block u

dequeue_lem :
    (order : List ℕ) (s : ℕ) → In s order → (rest : List ℕ) × (dequeue order s ≡ some rest)
unfolding dequeue
dequeue_lem [] s h = absurd h
dequeue_lem (x ∷ xs) s h = elim (Bool-cases (x == s)) [
  | inl e ↦ (xs, rw e refl)
  | inr e ↦
      let (rest, runs) =
        dequeue_lem xs s (elim h [ inl q ↦ absurd (ground (arith, e, q)) | inr q ↦ q ]) in
      (x ∷ rest, rw (e, runs) refl)
]

touch_lem :
    (widen : ℕ → ℕ) (t : Table) (s : ℕ) (e : Entry)
    → IsWell widen t
    → HasEntry t s e
    → Returns (touch t s) (λ u. u.entries ≡ t.entries)
unfolding touch unlink
touch_lem widen t s e w h = elim (Bool-cases t.capped) [
  | inr c ↦ (t, if_off t.capped _ (some t) c, refl)
  | inl c ↦
      let (rest, runs) =
        dequeue_lem t.order s (w.queued s (record { entry = e; at = h.at; set_lem = h.set_lem })) in
      (
        record t { order = rest ++ s ∷ [] },
        if_on t.capped (unlink t s >>= (λ u. some (record u { order = u.order ++ s ∷ [] })))
              (some t) c
            ∙ ap
                (λ (r : Run (List ℕ)).
                  r
                  >>= (λ (o : List ℕ). some (record t { order = o }))
                  >>= (λ u. some (record u { order = u.order ++ s ∷ [] })))
                runs,
        refl,
      )
]

get_cached :
    (w : Library) (t : Table) (name : List ℕ) (s : ℕ) (e : Entry)
    → IsCache w.widen t
    → HasKey t name s e
    → find t name (table_hash w.widen t.ci name) ≡ some (some s)
    → Returns (get w.widen w.now t name) (λ (v, u). (v ≡ e.value) × (u.entries ≡ t.entries))
unfolding get get_found
get_cached w t name s e c h runs =
    let (u, touches, same) = touch_lem w.widen t s e c.well h.entry in
    let late : (t.timed && leb (e.time + t.timeout) w.now) ≡ false = ground (arith, c.untimed) in
    ((e.value, u), rw (runs, ◌>>=◌, h.entry.at, ◌>>=◌, late, touches) refl, (refl, same))

get_missing :
    (w : Library) (t : Table) (name : List ℕ)
    → find t name (table_hash w.widen t.ci name) ≡ some none
    → get w.widen w.now t name ≡ some (0, t)
unfolding get get_found
get_missing w t name runs = rw (runs, ◌>>=◌) refl

evict_below : (t : Table) → t.count ≢ t.cap → evict t ≡ some t
unfolding evict
evict_below t h =
    let off : (t.capped && (t.count == t.cap)) ≡ false = ground (arith, h) in rw off refl

-- A status that the cache does not have is added to it.
add_status :
    (w : Library) (t : Table) (name : List ℕ) (v : ℕ)
    → IsCache w.widen t
    → IsText name
    → HasSpace w.widen w.grants t name
    → v ≢ 0
    → find t name (table_hash w.widen t.ci name) ≡ some none
    → Returns (set_value w.widen w.grants w.now t name v) (λ (rc, u). Stored w.widen t name v u)
unfolding set_value set_found add_grown
add_status w t name v c h q p runs =
    let nonzero : (v == 0) ≡ false = ground (arith, p) in
    let ((rc, u), adds, (ok, stored)) =
      add_entry-Stored w.widen w.grants.key_granted w.now t name v c.well h c.untimed q.copied
        q.room in
    (
      (rc, u),
      rw
          (
            runs,
            ◌>>=◌,
            nonzero,
            evict_below t c.below_cap,
            ◌>>=◌,
            grow_table_off w.grants.entries_granted t q.below_load,
            ◌>>=◌,
          )
          adds,
      stored,
    )

-- What lws_get_file_status answers, and what it leaves of the cache.
unfoldable pub Looked : Library → Table → List ℕ → List ℕ → ℕ × Table → Type 0
Looked w t name block (fs, u) =
    ((fs ≡ fs_found) × IsFound w t name block u) ⊎ ((fs ≢ fs_found) × IsMissing w t name block u)

known_lem :
    (w : Library) (t : Table) (name block : List ℕ) (len s : ℕ) (e : Entry) (v : ℕ) (u : Table)
    → IsCache w.widen t
    → HasKey t name s e
    → v ≡ e.value
    → u.entries ≡ t.entries
    → Returns (cached_status w block len (v, u)) (Looked w t name block)
unfolding cached_status Looked
known_lem w t name block len s e v u c h p same =
    let n : v ≢ 0 = λ q. c.known s e h.entry (sym p ∙ q) in
    let nonzero : (v == 0) ≡ false = ground (arith, n) in
    (
      (v, u),
      rw nonzero refl,
      elim (Bool-cases (v == 1)) [
        | inl q ↦
            let one : v ≡ fs_found = ground (arith, q) in inl (one, cached s e h (sym p ∙ one) same)
        | inr q ↦
            let other : v ≢ fs_found = ground (arith, q) in
            inr (other, cached_missing s e h (λ k. other (p ∙ k)) same)
      ],
    )

checked_lem :
    (w : Library) (t : Table) (name block : List ℕ) (len : ℕ)
    → IsCache w.widen t
    → IsText name
    → HasSpace w.widen w.grants t name
    → HasNone t name
    → take len block ≡ name
    → find t name (table_hash w.widen t.ci name) ≡ some none
    → Returns (cached_status w block len (0, t)) (Looked w t name block)
unfolding cached_status Looked stat_status
checked_lem w t name block len c h q fresh e runs = elim (Bool-cases (w.is_regular block)) [
  | inl r ↦
      let ((rc, u), sets, stored) = add_status w t name fs_found c h q (λ k. cc) runs in
      ((fs_found, u), rw (e, r, sets, ◌>>=◌) refl, inl (refl, regular fresh r stored))
  | inr r ↦
      let ((rc, u), sets, stored) = add_status w t name fs_not_found c h q (λ k. cc) runs in
      ((fs_not_found, u), rw (e, r, sets, ◌>>=◌) refl, inr (λ k. cc, not_regular fresh r stored))
]

-- For a name without zero bytes that a block starts with, and a stat cache that is usable (no entry was
-- deleted from it, its statuses are known, it is below its cap, and it has space for the name if that is
-- new), lws_get_file_status returns and makes no access outside of the cache. The answer is 1 exactly if
-- the cache has the status 1 for the name, or has none and stat says that the file is regular. Where the
-- cache has the name its entries stay; where not, a new entry has the answer of stat, 1 if the file is
-- regular and else 2.
pub get_file_status_lem :
    (w : Library) (t : Table) (name block : List ℕ) (len : ℕ)
    → IsCache w.widen t
    → IsText name
    → (HasNone t name → HasSpace w.widen w.grants t name)
    → take len block ≡ name
    → Returns (get_file_status w t block len) (Looked w t name block)
unfolding get_file_status
get_file_status_lem w t name block len c h space e = elim (find_cases w.widen t name c.well) [
  | present s x k runs ↦
      let ((v, u), gets, (p, same)) = get_cached w t name s x c k runs in
      rw (e, gets, ◌>>=◌) (known_lem w t name block len s x v u c k p same)
  | absent fresh runs ↦
      rw (e, get_missing w t name runs, ◌>>=◌)
        (checked_lem w t name block len c h (space fresh) fresh e runs)
]

-- The name of a file, without its zero byte.
abbrev pub file_name : List ℕ → List ℕ → List ℕ
file_name root main = root ++ b'/' ∷ [] ++ main

pub take-filename_text :
    (root main : List ℕ)
    → take (length root + 1 + length main) (filename_text root main) ≡ file_name root main
take-filename_text root main =
    take-append (length root + 1 + length main) (file_name root main) (0 ∷ []) (
      length-append (root ++ b'/' ∷ []) main
      ∙ ap (λ (n : ℕ). n + length main) (length-append root (b'/' ∷ [])))
