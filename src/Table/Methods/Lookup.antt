-- ===== src/Table/Methods/Lookup.antt =====
-- What `lws_table_get` finds after `lws_table_set` (src/lws_table.c, lines 137 to 219) on a key that is
-- in the table.
use lambda_lws.Prelude.{
  ℕ, zero, suc, ◌+◌, ◌-◌, ◌%◌, ◌<◌, ◌≡◌, refl, sym, ap, subst, ◌∙◌, Bool, true, false, not, ◌&&◌,
  Option, none, some, List, [], ◌∷◌, ◌++◌, if_off, leb, ◌==◌, if◌then◌else◌, get_elem?, set, length,
  rc_ok, Run, ◌>>=◌, Returns, get_elem?-set_self, arith,
}
use lambda_lws.Table.{
  Entry, Table, unused, occupied, deleted, is_unused, dequeue, unlink, put_entry,
}
use lambda_lws.Codec.Base64.{size_mod}
use lambda_lws.Table.Hash.{table_hash}
use lambda_lws.Table.Find.{entry_matches, home, next_slot, find_loop, find}
use lambda_lws.Table.Methods.{
  remove, touch, get_found, get, stamp, update, Grants, set_found, unset_found, set_value,
}

-- Two entries between which a search sees no difference.
pub record IsAlike (e e' : Entry) : Type 0 where
  pub in_use : is_unused e' ≡ is_unused e
  pub same_hash : e'.hash ≡ e.hash
  pub same_len : e'.key_len ≡ e.key_len
  pub same_data : e'.key_data ≡ e.key_data

-- Two answers for a slot between which a search sees no difference.
pub data IsAlikeAt : Option Entry → Option Entry → Type 0 where
  nowhere : IsAlikeAt none none
  both : (e e' : Entry) → IsAlike e e' → IsAlikeAt (some e) (some e')

matches_alike :
    (ci : Bool) (key : List ℕ) (hash : ℕ) (e e' : Entry)
    → IsAlike e e'
    → entry_matches ci key hash e' ≡ entry_matches ci key hash e
unfolding entry_matches
matches_alike ci key hash e e' a = rw (a.same_hash, a.same_len, a.same_data) refl

-- A round at an entry, by whether it is unused and whether it matches.
abbrev verdict : ℕ → Bool → Run (Option ℕ) → Bool → Run Bool → Run (Option ℕ)
verdict h back rest free match = elim free [
  | true ↦ some none
  | false ↦ match >>= λ hit. elim hit [
    | true ↦ some (some h)
    | false ↦ elim back [ true ↦ some none | false ↦ rest ]
  ]
]

-- A round of a search, with the answer for its slot, whether the next probe is the home slot, and the
-- rounds behind it.
abbrev round : Bool → List ℕ → ℕ → ℕ → Bool → Run (Option ℕ) → Option Entry → Run (Option ℕ)
round ci key hash h back rest o =
    o >>= λ e. verdict h back rest (is_unused e) (entry_matches ci key hash e)

round_alike :
    (ci : Bool) (key : List ℕ) (hash h : ℕ) (back : Bool) (rest : Run (Option ℕ))
    {o o' : Option Entry}
    → IsAlikeAt o o'
    → round ci key hash h back rest o' ≡ round ci key hash h back rest o
round_alike ci key hash h back rest nowhere = refl
round_alike ci key hash h back rest (both e e' a) =
    λ i. verdict h back rest (a.in_use i) (matches_alike ci key hash e e' a i)

-- A search finds the same in tables whose entries are alike at every slot.
find_loop_alike :
    (fuel : ℕ) (t t' : Table) (key : List ℕ) (hash h : ℕ)
    → t'.alloc ≡ t.alloc
    → t'.ci ≡ t.ci
    → ((s : ℕ) → IsAlikeAt (get_elem? t.entries s) (get_elem? t'.entries s))
    → find_loop fuel t' key hash h ≡ find_loop fuel t key hash h
unfolding find_loop
find_loop_alike zero t t' key hash h a c alike = refl
find_loop_alike (suc fuel) t t' key hash h a c alike =
    let ih = find_loop_alike fuel t t' key hash (next_slot t.alloc hash h) a c alike in
    (λ i.
      round (c i) key hash h (next_slot (a i) hash h == home (a i) hash)
        (find_loop fuel t' key hash (next_slot (a i) hash h)) (get_elem? t'.entries h))
    ∙ ((λ i.
          round t.ci key hash h (next_slot t.alloc hash h == home t.alloc hash) (ih i)
            (get_elem? t'.entries h))
        ∙ round_alike t.ci key hash h (next_slot t.alloc hash h == home t.alloc hash)
            (find_loop fuel t key hash (next_slot t.alloc hash h)) (alike h))

pub find_alike :
    (t t' : Table) (key : List ℕ) (hash : ℕ)
    → t'.alloc ≡ t.alloc
    → t'.ci ≡ t.ci
    → ((s : ℕ) → IsAlikeAt (get_elem? t.entries s) (get_elem? t'.entries s))
    → find t' key hash ≡ find t key hash
unfolding find
find_alike t t' key hash a c alike =
    (λ i. find_loop (a i) t' key hash (home (a i) hash))
    ∙ find_loop_alike t.alloc t t' key hash (home t.alloc hash) a c alike

IsAlikeAt-refl : (o : Option Entry) → IsAlikeAt o o
IsAlikeAt-refl none = nowhere
IsAlikeAt-refl (some e) =
    both e e (record { in_use = refl; same_hash = refl; same_len = refl; same_data = refl })

-- An entry put in the place of one that is alike.
set_alike :
    (entries : List Entry) (s : ℕ) (e e' : Entry)
    → get_elem? entries s ≡ some e
    → IsAlike e e'
    → (r : ℕ) → IsAlikeAt (get_elem? entries r) (get_elem? (set entries s e') r)
set_alike [] s e e' h a r = absurd cc
set_alike (x ∷ xs) zero e e' h a zero =
    let same : x ≡ e = cc in subst (λ q. IsAlikeAt (some q) (some e')) (sym same) (both e e' a)
set_alike (x ∷ xs) zero e e' h a (suc r) = IsAlikeAt-refl (get_elem? xs r)
set_alike (x ∷ xs) (suc s) e e' h a zero = IsAlikeAt-refl (some x)
set_alike (x ∷ xs) (suc s) e e' h a (suc r) = set_alike xs s e e' h a r

pub touch_off : (t : Table) (s : ℕ) → t.capped ≡ false → touch t s ≡ some t
unfolding touch
touch_off t s e =
    if_off t.capped (unlink t s >>= (λ u. some (record u { order = u.order ++ s ∷ [] }))) (some t) e

pub stamp_off : (now : ℕ) (t : Table) (e : Entry) → t.timed ≡ false → stamp now t e ≡ e
unfolding stamp
stamp_off now t e h = if_off t.timed (record e { time = now }) e h

pub put_entry_lem :
    (t : Table) (s : ℕ) (e x : Entry)
    → get_elem? t.entries s ≡ some e
    → put_entry t s x ≡ some (record t { entries = set t.entries s x })
unfolding put_entry
put_entry_lem t s e x h = λ i. h i >>= λ _. some (record t { entries = set t.entries s x })

pub get_entry_range :
    (entries : List Entry) (s : ℕ) (e : Entry) → get_elem? entries s ≡ some e → s < length entries
get_entry_range [] s e h = absurd cc
get_entry_range (x ∷ xs) zero e h = omega arith
get_entry_range (x ∷ xs) (suc s) e h = omega (arith, get_entry_range xs s e h)

pub get_found_lem :
    (now : ℕ) (t : Table) (s : ℕ) (e : Entry)
    → get_elem? t.entries s ≡ some e
    → t.timed ≡ false
    → t.capped ≡ false
    → get_found now t (some s) ≡ some (e.value, t)
unfolding get_found
get_found_lem now t s e h timed capped =
    let late : (t.timed && leb (e.time + t.timeout) now) ≡ false = ground (arith, timed) in
    rw (h, late, touch_off t s capped) refl

-- A key is found in a slot of the table, which is neither timed nor capped.
pub record Holds (widen : ℕ → ℕ) (t : Table) (key : List ℕ) (s : ℕ) (e : Entry) : Type 0 where
  pub found : find t key (table_hash widen t.ci key) ≡ some (some s)
  pub entry : get_elem? t.entries s ≡ some e
  pub untimed : t.timed ≡ false
  pub uncapped : t.capped ≡ false

pub update_lem :
    (now : ℕ) (t : Table) (s v : ℕ) (e : Entry)
    → get_elem? t.entries s ≡ some e
    → t.timed ≡ false
    → t.capped ≡ false
    → update now t s v
      ≡ some (
        rc_ok,
        record t {
          entries = set t.entries s (record e { value = v });
          freed = (if t.free && not (v == e.value) then e.value ∷ t.freed else t.freed);
        },
      )
unfolding update
update_lem now t s v e h timed capped =
    let e' : Entry = record e { value = v } in
    rw (touch_off t s capped, ◌>>=◌, h, ◌>>=◌, stamp_off now t e' timed, put_entry_lem t s e e' h)
      refl

-- In a table that is neither timed nor capped, setting a key that is found to a value that is not NULL
-- succeeds, and a get gives the value. Any other
-- search finds what it found before. The old value is freed where the table frees values, unless it is
-- set again.
pub set_value-update :
    (widen : ℕ → ℕ) (g : Grants) (now later : ℕ) (t : Table) (key : List ℕ) (v s : ℕ) (e : Entry)
    → Holds widen t key s e
    → 0 < v
    → Returns (set_value widen g now t key v) (λ (rc, u).
      (rc ≡ rc_ok)
      × (get widen later u key ≡ some (v, u))
      × ((k : List ℕ) (h : ℕ) → find u k h ≡ find t k h)
      × (u.freed ≡ (if t.free && not (v == e.value) then e.value ∷ t.freed else t.freed)))
unfolding set_value set_found get
set_value-update widen g now later t key v s e h p =
    let nonzero : (v == 0) ≡ false = ground (arith, p) in
    let e' : Entry = record e { value = v } in
    let u : Table = record t {
      entries = set t.entries s e';
      freed = (if t.free && not (v == e.value) then e.value ∷ t.freed else t.freed);
    } in
    let same = λ (k : List ℕ) (q : ℕ). find_alike t u k q refl refl (
      set_alike t.entries s e e' h.entry (record {
        in_use = unfold is_unused in refl;
        same_hash = refl;
        same_len = refl;
        same_data = refl;
      })) in
    (
      (rc_ok, u),
      rw (h.found, ◌>>=◌, nonzero) (update_lem now t s v e h.entry h.untimed h.uncapped),
      (
        refl,
        rw (same key (table_hash widen t.ci key), h.found)
            (get_found_lem later u s e'
              (get_elem?-set_self t.entries s e' (get_entry_range t.entries s e h.entry)) h.untimed
              h.uncapped),
        same,
        refl,
      ),
    )

-- A removed entry, and the table without it.
abbrev pub removed_entry : Table → Entry → Entry
removed_entry t e = record e { key_data = (if t.dup then none else e.key_data); state = deleted }

abbrev pub removed : Table → ℕ → Entry → List ℕ → Table
removed t s e order' = record t {
  order = order';
  entries = set t.entries s (removed_entry t e);
  freed = (if t.free then e.value ∷ t.freed else t.freed);
  count = (t.count + size_mod - 1) % size_mod;
}

pub remove_lem :
    (t : Table) (s : ℕ) (e : Entry) (order' : List ℕ)
    → get_elem? t.entries s ≡ some e
    → dequeue t.order s ≡ some order'
    → remove t s ≡ some (removed t s e order')
unfolding remove unlink put_entry
remove_lem t s e order' h q = rw (q, ◌>>=◌, h) refl

occupied_in_use : (e : Entry) → e.state ≡ occupied → is_unused e ≡ false
unfolding is_unused
occupied_in_use e h = ap (λ q. elim q [ unused ↦ true | occupied ↦ false | deleted ↦ false ]) h

-- In a table that neither copies keys nor is timed or capped, a key that is found and in use, whose
-- entry stands in the queue,
-- is still found after it has been set to NULL: the removal succeeds, yet a get gives the old value,
-- which has been freed where the table frees values.
pub set_value-get :
    (widen : ℕ → ℕ) (g : Grants) (now later : ℕ) (t : Table) (key : List ℕ) (s : ℕ) (e : Entry)
    (order' : List ℕ)
    → Holds widen t key s e
    → e.state ≡ occupied
    → t.dup ≡ false
    → dequeue t.order s ≡ some order'
    → Returns (set_value widen g now t key 0) (λ (rc, u).
      (rc ≡ rc_ok)
      × (get widen later u key ≡ some (e.value, u))
      × (u.freed ≡ (if t.free then e.value ∷ t.freed else t.freed)))
unfolding set_value unset_found get
set_value-get widen g now later t key s e order' h used d q =
    let e' : Entry = removed_entry t e in
    let u : Table = removed t s e order' in
    let alike : IsAlike e e' = record {
      in_use = unfold is_unused in sym (occupied_in_use e used);
      same_hash = refl;
      same_len = refl;
      same_data = if_off t.dup none e.key_data d;
    } in
    let same =
      find_alike t u key (table_hash widen t.ci key) refl refl
        (set_alike t.entries s e e' h.entry alike) in
    (
      (rc_ok, u),
      rw (h.found, remove_lem t s e order' h.entry q) refl,
      (
        refl,
        rw (same, h.found)
            (get_found_lem later u s e'
              (get_elem?-set_self t.entries s e' (get_entry_range t.entries s e h.entry)) h.untimed
              h.uncapped),
        refl,
      ),
    )
