-- ===== src/Table/Refine/Search.antt =====
-- `lws_table_find` (src/lws_table.c, lines 333 to 354) in a table that is a map.
use lambda_lws.Prelude.{
  ℕ, zero, suc, ◌+◌, ◌-◌, ◌≤◌, ◌<◌, ◌≡◌, refl, sym, ap, subst, ◌∙◌, inl, inr, Bool, true, false,
  Bool-cases, ◌&&◌, Option, none, some, List, [], ◌∷◌, ltb, ◌==◌, if_on, if_off, length, get_elem?,
  arith,
}
use lambda_lws.Table.{EntryState, Entry, Table, unused, occupied, deleted, is_set, is_unused}
use lambda_lws.Table.Hash.{table_hash, same_text, IsText, table_hash-same_text}
use lambda_lws.Table.Find.{compare_key, entry_matches, home, next_slot, find}
use lambda_lws.Table.Find.Probes.{probe, IsReadable, Probed, Found, find_lem}
use lambda_lws.Table.Refine.{HasEntry, IsReached, IsSame, HasKey, IsWell}

-- What is set is in use.
pub set_in_use : (e : Entry) → is_set e ≡ true → is_unused e ≡ false
unfolding is_set is_unused
set_in_use e h = by_state e.state h
  where
    by_state :
        (q : EntryState)
        → (elim q [ unused ↦ false | occupied ↦ true | deleted ↦ false ]) ≡ true
        → (elim q [ unused ↦ true | occupied ↦ false | deleted ↦ false ]) ≡ false
    by_state unused h = cc
    by_state occupied h = refl
    by_state deleted h = refl

pub unset_lem : (e : Entry) → is_unused e ≡ true → is_set e ≡ false
unset_lem e h = elim (Bool-cases (is_set e)) [ inl p ↦ let q = set_in_use e p in cc | inr p ↦ p ]

some_lem {ℓ} : {A : Type ℓ} {a b : A} → some a ≡ some b → a ≡ b
some_lem h = cc

-- Two keys that compare equal with a third compare equal.
same_text_join :
    (ci : Bool) (a b c : List ℕ)
    → same_text ci a c ≡ true
    → same_text ci b c ≡ true
    → same_text ci a b ≡ true
unfolding same_text
same_text_join ci [] [] c p q = refl
same_text_join ci [] (y ∷ ys) [] p q = cc
same_text_join ci [] (y ∷ ys) (z ∷ zs) p q = cc
same_text_join ci (x ∷ xs) [] [] p q = cc
same_text_join ci (x ∷ xs) [] (z ∷ zs) p q = cc
same_text_join ci (x ∷ xs) (y ∷ ys) [] p q = cc
same_text_join ci (x ∷ xs) (y ∷ ys) (z ∷ zs) p q = ground (arith, p, q, same_text_join ci xs ys zs)

pub IsSame-join : (ci : Bool) (a b c : List ℕ) → IsSame ci a c → IsSame ci b c → IsSame ci a b
IsSame-join ci a b c p q = record {
  len = omega (arith, p.len, q.len);
  text = same_text_join ci a b c p.text q.text;
}

pub IsWell-IsReadable : (widen : ℕ → ℕ) (t : Table) → IsWell widen t → IsReadable t
IsWell-IsReadable widen t w = record {
  slots = w.slots;
  enough = w.enough;
  keys = λ s e at used. elim (Bool-cases (is_set e)) [
    | inl p ↦ let k = w.keyed s e (record { at = at; set_lem = p }) in (k.key, k.data_lem)
    | inr p ↦ let q = w.states s e at p in cc
  ];
}

-- The entry of a key matches it.
matches_key :
    (widen : ℕ → ℕ) (t : Table) (key : List ℕ) (s : ℕ) (e : Entry)
    → IsWell widen t
    → HasKey t key s e
    → entry_matches t.ci key (table_hash widen t.ci key) e ≡ some true
unfolding entry_matches compare_key
matches_key widen t key s e w h =
    let k = w.keyed s e h.entry in
    let own : k.key ≡ h.own = some_lem (sym k.data_lem ∙ h.data_lem) in
    let hashes : e.hash ≡ table_hash widen t.ci key =
      k.hash_lem
      ∙ ap (table_hash widen t.ci) own
      ∙ table_hash-same_text widen t.ci h.own key (subst IsText own k.text) h.same.text in
    let lengths : e.key_len ≡ length key = k.len ∙ ap length own ∙ h.same.len in
    if_on ((e.hash == table_hash widen t.ci key) && (e.key_len == length key))
      (compare_key t.ci e.key_data key) (some false) (ground (arith, hashes, lengths))
    ∙ ap (λ (d : Option (List ℕ)). compare_key t.ci d key) h.data_lem
    ∙ ap (λ (b : Bool). some b) h.same.text

-- An entry that matches is the entry of the key.
matches-HasKey :
    (widen : ℕ → ℕ) (t : Table) (key : List ℕ) (hash s : ℕ) (e : Entry)
    → IsWell widen t
    → HasEntry t s e
    → entry_matches t.ci key hash e ≡ some true
    → HasKey t key s e
unfolding entry_matches compare_key
matches-HasKey widen t key hash s e w h m =
    let k = w.keyed s e h in
    elim (Bool-cases ((e.hash == hash) && (e.key_len == length key))) [
      | inr p ↦
          let q : some false ≡ some true =
            sym (
              if_off ((e.hash == hash) && (e.key_len == length key))
                (compare_key t.ci e.key_data key) (some false) p)
            ∙ m in
          cc
      | inl p ↦
          let q : some (same_text t.ci k.key key) ≡ some true =
            sym (ap (λ (d : Option (List ℕ)). compare_key t.ci d key) k.data_lem)
            ∙ sym (
                if_on ((e.hash == hash) && (e.key_len == length key))
                  (compare_key t.ci e.key_data key) (some false) p)
            ∙ m in
          record {
            entry = h;
            own = k.key;
            data_lem = k.data_lem;
            same = record { len = sym k.len ∙ ground (arith, p); text = cc };
          }
    ]

-- A slot that a search passes is set, and has another key.
passed_lem :
    (widen : ℕ → ℕ) (t : Table) (key : List ℕ) (s : ℕ) (e : Entry)
    → IsWell widen t
    → HasKey t key s e
    → Probed t key (table_hash widen t.ci key) false s
    → ⊥
unfolding Probed
passed_lem widen t key s e w h (x, at, used, other) =
    let same : x ≡ e = some_lem (sym at ∙ h.entry.at) in
    let m = matches_key widen t key s e w h in
    let q : some true ≡ some false =
      sym m ∙ ap (entry_matches t.ci key (table_hash widen t.ci key)) (sym same) ∙ other in
    cc

-- Probes come again after a whole round.
again :
    (alloc hash k n : ℕ)
    → probe alloc hash k ≡ home alloc hash
    → probe alloc hash (k + n) ≡ probe alloc hash n
unfolding probe
again alloc hash k zero e = ap (probe alloc hash) {x = k + 0} {y = k} (omega arith) ∙ e
again alloc hash k (suc n) e =
    ap (probe alloc hash) {x = k + suc n} {y = suc (k + n)} (omega arith)
    ∙ ap (next_slot alloc hash) (again alloc hash k n e)

all_rounds :
    (P : ℕ → Type 0) (alloc hash k fuel n : ℕ)
    → probe alloc hash k ≡ home alloc hash
    → 0 < k
    → ((j : ℕ) → j < k → P (probe alloc hash j))
    → n < fuel
    → P (probe alloc hash n)
all_rounds P alloc hash k zero n e p h l = absurd (omega (arith, l))
all_rounds P alloc hash k (suc fuel) n e p h l = elim (Bool-cases (ltb n k)) [
  | inl q ↦ h n (ground (arith, q))
  | inr q ↦
      let less : k ≤ n = ground (arith, q) in
      let split : k + (n - k) ≡ n = omega (arith, less) in
      subst P (sym (again alloc hash k (n - k) e) ∙ ap (probe alloc hash) split)
        (all_rounds P alloc hash k fuel (n - k) e p h (omega (arith, l, p, less)))
]

-- An entry that is set is not found to be missing.
not_missing :
    (widen : ℕ → ℕ) (t : Table) (key : List ℕ) (s : ℕ) (e : Entry)
    → IsWell widen t
    → HasKey t key s e
    → Found t key (table_hash widen t.ci key) none
    → ⊥
unfolding Found
not_missing widen t key s e w h (k, l, before, end) =
    let hash = table_hash widen t.ci key in
    let at_key = w.keyed s e h.entry in
    let own : at_key.key ≡ h.own = some_lem (sym at_key.data_lem ∙ h.data_lem) in
    let hashes : e.hash ≡ hash =
      at_key.hash_lem
      ∙ ap (table_hash widen t.ci) own
      ∙ table_hash-same_text widen t.ci h.own key (subst IsText own at_key.text) h.same.text in
    let r = subst (λ q. IsReached t q s) hashes (w.reached s e h.entry) in
    let passes : (n : ℕ)
        → s ≡ probe t.alloc hash n
        → Probed t key hash false (probe t.alloc hash n)
        → ⊥ =
      λ n q p. passed_lem widen t key s e w h (subst (Probed t key hash false) (sym q) p) in
    elim end [
      | inr (p, back) ↦ passes r.number r.here (
          all_rounds (Probed t key hash false) t.alloc hash k (suc r.number) r.number back p before
            (omega arith))
      | inl (x, at, free) ↦ elim (Bool-cases (ltb r.number k)) [
        | inl q ↦ passes r.number r.here (before r.number (ground (arith, q)))
        | inr q ↦ elim (Bool-cases (r.number == k)) [
          | inl same ↦
              let eq : r.number ≡ k = ground (arith, same) in
              let hit : some e ≡ some x =
                sym h.entry.at
                ∙ ap (get_elem? t.entries) (r.here ∙ ap (probe t.alloc hash) eq)
                ∙ at in
              let clash : true ≡ false =
                sym h.entry.set_lem ∙ ap is_set (some_lem hit) ∙ unset_lem x free in
              cc
          | inr other ↦
              let b = r.before k (ground (arith, q, other)) in
              let hit : some b.entry ≡ some x = sym b.at ∙ at in
              let clash : true ≡ false =
                sym b.set_lem ∙ ap is_set (some_lem hit) ∙ unset_lem x free in
              cc
        ]
      ]
    ]

-- A search finds the entry of the key, or there is none and it finds nothing.
pub data Finds (widen : ℕ → ℕ) (t : Table) (key : List ℕ) : Type 0 where
  present :
      (s : ℕ) (e : Entry)
      → HasKey t key s e
      → find t key (table_hash widen t.ci key) ≡ some (some s)
      → Finds widen t key
  absent :
      ((s : ℕ) (e : Entry) → HasKey t key s e → ⊥)
      → find t key (table_hash widen t.ci key) ≡ some none
      → Finds widen t key

Found-cases :
    (widen : ℕ → ℕ) (t : Table) (key : List ℕ) (o : Option ℕ)
    → IsWell widen t
    → find t key (table_hash widen t.ci key) ≡ some o
    → Found t key (table_hash widen t.ci key) o
    → Finds widen t key
unfolding Found Probed
Found-cases widen t key none w runs f = absent (λ s e h. not_missing widen t key s e w h f) runs
Found-cases widen t key (some s) w runs (k, l, here, (e, at, used, hit), before) =
    elim (Bool-cases (is_set e)) [
      | inl p ↦
          present s e
            (matches-HasKey widen t key (table_hash widen t.ci key) s e w
              (record { at = at; set_lem = p }) hit)
            runs
      | inr p ↦ let q : true ≡ false = sym (w.states s e at p) ∙ used in cc
    ]

pub find_cases : (widen : ℕ → ℕ) (t : Table) (key : List ℕ) → IsWell widen t → Finds widen t key
find_cases widen t key w =
    let (o, runs, f) = find_lem t key (table_hash widen t.ci key) (IsWell-IsReadable widen t w) in
    Found-cases widen t key o w runs f

pub find-HasKey :
    (widen : ℕ → ℕ) (t : Table) (key : List ℕ) (s : ℕ) (e : Entry)
    → IsWell widen t
    → HasKey t key s e
    → find t key (table_hash widen t.ci key) ≡ some (some s)
find-HasKey widen t key s e w h = elim (find_cases widen t key w) [
  | present r x k runs ↦ runs ∙ ap (λ (q : ℕ). some (some q)) (w.unique key r s x e k h)
  | absent none_lem runs ↦ absurd (none_lem s e h)
]
