-- ===== src/Table/Refine/Moved.antt =====
-- A new entry in the table where `lws_table_insert` (src/lws_table.c, lines 403 to 412) has moved an entry
-- to make room: what the slots hold then.
use lambda_lws.Prelude.{
  ℕ, zero, suc, ◌+◌, ◌-◌, ◌<◌, ◌≡◌, ◌≢◌, refl, sym, ap, subst, ◌∙◌, inl, inr, true, false,
  Bool-cases, some, List, [], ◌∷◌, ◌++◌, ltb, ◌==◌, if◌then◌else◌, if_on, if_off, length-set,
  get_elem?, set, get_elem?-set_self, arith,
}
use lambda_lws.Table.{Entry, Table, is_set}
use lambda_lws.Table.Find.{next_slot}
use lambda_lws.Table.Find.Probes.{probe}
use lambda_lws.Table.Methods.Lookup.{get_entry_range}
use lambda_lws.Table.Insert.Slots.{IsSetAt, FirstFree}
use lambda_lws.Table.Insert.Moves.{steps, IsMove}
use lambda_lws.Table.Insert.Settle.{IsQueued}
use lambda_lws.Table.Insert.Queue.{In, Relinked, In-append_left, In-append_last}
use lambda_lws.Table.Refine.{HasEntry, IsReached, IsWell}
use lambda_lws.Table.Refine.Placed.{Placed, added, elsewhere, same_or, some_eq, apart}

-- Steps from a probe on are probes.
steps-probe :
    (alloc hash n m : ℕ) → steps alloc hash (probe alloc hash n) m ≡ probe alloc hash (n + m)
unfolding steps probe
steps-probe alloc hash n zero = ap (probe alloc hash) {x = n} {y = n + 0} (omega arith)
steps-probe alloc hash n (suc m) =
    ap (next_slot alloc hash) (steps-probe alloc hash n m)
    ∙ ap (probe alloc hash) {x = suc (n + m)} {y = n + suc m} (omega arith)

-- The table with an entry put into a second slot.
abbrev pub relocated : Table → ℕ → Entry → List ℕ → Table
relocated t new e order' = record t { entries = set t.entries new e; order = order' }

module _ (widen : ℕ → ℕ) (t : Table) (w : IsWell widen t) (hash k j : ℕ) (e : Entry) (new : ℕ)
    (order' : List ℕ) (f : FirstFree t hash k) (l : j < k)
    (at : get_elem? t.entries (probe t.alloc hash j) ≡ some e)
    (mv : IsMove t e (probe t.alloc hash j) new) (x : Entry) (p : is_set x ≡ true)
    (q : x.hash ≡ hash) where
  abbrev old : ℕ
  old = probe t.alloc hash j

  abbrev u : Table
  u = added (relocated t new e order') old x

  old_entry : HasEntry t old e
  old_entry =
      let b = f.before j l in
      let same : b.entry ≡ e = some_eq (sym b.at ∙ at) in
      record { at = at; set_lem = ap is_set (sym same) ∙ b.set_lem }

  pub new_apart : new ≢ old
  new_apart h = apart t old new e old_entry mv.free_at (sym h)

  put_old : HasEntry u old x
  put_old = record {
    at = get_elem?-set_self (set t.entries new e) old x (
        subst (λ n. old < n) (sym (length-set t.entries new e))
          (get_entry_range t.entries old e at));
    set_lem = p;
  }

  put_new : HasEntry u new e
  put_new = record {
    at =
        elsewhere (set t.entries new e) old new x new_apart
        ∙ get_elem?-set_self t.entries new e
            (get_entry_range t.entries new mv.free_at.entry mv.free_at.at);
    set_lem = old_entry.set_lem;
  }

  rest : (r : ℕ) → r ≢ old → r ≢ new → get_elem? u.entries r ≡ get_elem? t.entries r
  rest r n m = elsewhere (set t.entries new e) old r x n ∙ elsewhere t.entries new r e m

  moved_grows : (r : ℕ) → IsSetAt t r → IsSetAt u r
  moved_grows r h = elim (same_or r old) [
    | inl s ↦ record { entry = x; at = ap (get_elem? u.entries) s ∙ put_old.at; set_lem = p }
    | inr n ↦ elim (same_or r new) [
      | inl s ↦ record {
        entry = e;
        at = ap (get_elem? u.entries) s ∙ put_new.at;
        set_lem = old_entry.set_lem;
      }
      | inr m ↦ record { entry = h.entry; at = rest r n m ∙ h.at; set_lem = h.set_lem }
    ]
  ]

  moved_unset :
      (r : ℕ) (d : Entry)
      → get_elem? u.entries r ≡ some d
      → is_set d ≡ false
      → get_elem? t.entries r ≡ some d
  moved_unset r d h free = elim (same_or r old) [
    | inl s ↦
        let eq : x ≡ d = some_eq (sym put_old.at ∙ ap (get_elem? u.entries) (sym s) ∙ h) in
        let clash : true ≡ false = sym p ∙ ap is_set eq ∙ free in cc
    | inr n ↦ elim (same_or r new) [
      | inl s ↦
          let eq : e ≡ d = some_eq (sym put_new.at ∙ ap (get_elem? u.entries) (sym s) ∙ h) in
          let clash : true ≡ false = sym old_entry.set_lem ∙ ap is_set eq ∙ free in cc
      | inr m ↦ sym (rest r n m) ∙ h
    ]
  ]

  at_new : (r : ℕ) (d : Entry) → r ≡ new → HasEntry u r d → e ≡ d
  at_new r d s h = some_eq (sym put_new.at ∙ ap (get_elem? u.entries) (sym s) ∙ h.at)

  moved_origin : ℕ → ℕ
  moved_origin r = if r == new then old else r

  moved_source : (r : ℕ) (d : Entry) → r ≢ old → HasEntry u r d → HasEntry t (moved_origin r) d
  unfolding moved_origin
  moved_source r d n h = elim (Bool-cases (r == new)) [
    | inl s ↦
        subst (λ i. HasEntry t i d) (sym (if_on (r == new) old r s))
          (subst (HasEntry t old) (at_new r d (ground (arith, s)) h) old_entry)
    | inr s ↦
        subst (λ i. HasEntry t i d) (sym (if_off (r == new) old r s))
          (record { at = sym (rest r n (λ i. ground (arith, s, i))) ∙ h.at; set_lem = h.set_lem })
  ]

  moved_injective : (r i : ℕ) → r ≢ old → i ≢ old → moved_origin r ≡ moved_origin i → r ≡ i
  unfolding moved_origin
  moved_injective r i n m same = elim (Bool-cases (r == new)) [
    | inl s ↦ elim (Bool-cases (i == new)) [
      | inl z ↦ ground (arith, s, z)
      | inr z ↦ absurd (m (sym (sym (if_on (r == new) old r s) ∙ same ∙ if_off (i == new) old i z)))
    ]
    | inr s ↦ elim (Bool-cases (i == new)) [
      | inl z ↦ absurd (n (sym (if_off (r == new) old r s) ∙ same ∙ if_on (i == new) old i z))
      | inr z ↦ sym (if_off (r == new) old r s) ∙ same ∙ if_off (i == new) old i z
    ]
  ]

  moved_target : (r : ℕ) (d : Entry) → HasEntry t r d → (i : ℕ) × (i ≢ old) × HasEntry u i d
  moved_target r d h = elim (same_or r old) [
    | inl s ↦ (
      new,
      new_apart,
      subst (HasEntry u new) (some_eq (sym at ∙ ap (get_elem? t.entries) (sym s) ∙ h.at)) put_new,
    )
    | inr n ↦
        (r, n, record { at = rest r n (apart t r new d h mv.free_at) ∙ h.at; set_lem = h.set_lem })
  ]

  -- The slots before the new slot of the entry that was moved.
  new_before :
      (n i : ℕ)
      → old ≡ probe t.alloc e.hash n
      → ((i : ℕ) → i < n → IsSetAt t (probe t.alloc e.hash i))
      → i < n + suc mv.rounds
      → IsSetAt t (probe t.alloc e.hash i)
  new_before n i start before h = elim (Bool-cases (ltb i n)) [
    | inl s ↦ before i (ground (arith, s))
    | inr s ↦ elim (Bool-cases (i == n)) [
      | inl z ↦
          subst (IsSetAt t) (start ∙ ap (probe t.alloc e.hash) {x = n} {y = i} (ground (arith, z)))
            (f.before j l)
      | inr z ↦
          let m = i - n - 1 in
          let sum : n + suc m ≡ i = ground (arith, s, z) in
          subst (IsSetAt t)
            (ap (λ (o : ℕ). steps t.alloc e.hash o (suc m)) start
              ∙ steps-probe t.alloc e.hash n (suc m)
              ∙ ap (probe t.alloc e.hash) sum)
            (mv.passed m (omega (arith, sum, h)))
    ]
  ]

  new-IsReached : IsReached u e.hash new
  new-IsReached =
      let b = w.reached old e old_entry in
      record {
        number = b.number + suc mv.rounds;
        here =
            mv.ends
            ∙ ap (λ (o : ℕ). steps t.alloc e.hash o (suc mv.rounds)) b.here
            ∙ steps-probe t.alloc e.hash b.number (suc mv.rounds);
        before =
            λ i h. moved_grows (probe t.alloc e.hash i) (new_before b.number i b.here b.before h);
      }

  moved-IsReached : (r : ℕ) (d : Entry) → r ≢ old → HasEntry u r d → IsReached u d.hash r
  moved-IsReached r d n h = elim (same_or r new) [
    | inl s ↦
        subst (λ i. IsReached u d.hash i) (sym s)
          (subst (λ (a : Entry). IsReached u a.hash new) (at_new r d s h) new-IsReached)
    | inr m ↦
        let b = w.reached r d (record { at = sym (rest r n m) ∙ h.at; set_lem = h.set_lem }) in
        record {
          number = b.number;
          here = b.here;
          before = λ i z. moved_grows (probe t.alloc d.hash i) (b.before i z);
        }
  ]

  pub moved-Placed : Placed t u old x
  moved-Placed = record {
    alloc_lem = refl;
    ci_lem = refl;
    slots = length-set (set t.entries new e) old x ∙ length-set t.entries new e;
    here = put_old;
    grows = moved_grows;
    unset = moved_unset;
    origin = moved_origin;
    source = moved_source;
    injective = λ r i d c n m h g same. moved_injective r i n m same;
    target = moved_target;
    reached_new = record {
      number = j;
      here = ap (λ (g : ℕ). probe t.alloc g j) (sym q);
      before = λ i z. moved_grows (probe t.alloc x.hash i) (
          subst (λ (g : ℕ). IsSetAt t (probe t.alloc g i)) (sym q)
            (f.before i (omega (arith, z, l))));
    };
    reached = moved-IsReached;
  }

  pub moved-IsQueued : Relinked t.order old new order' → IsQueued u
  moved-IsQueued links r h = elim (same_or r old) [
    | inl s ↦ subst (λ i. In i (order' ++ old ∷ [])) (sym s) (In-append_last old order')
    | inr n ↦ In-append_left r order' (old ∷ []) (elim (same_or r new) [
      | inl s ↦ subst (λ i. In i order') (sym s) links.here
      | inr m ↦
          links.others r
            (w.queued r
              (record { entry = h.entry; at = sym (rest r n m) ∙ h.at; set_lem = h.set_lem }))
            n
    ])
  ]
