-- ===== src/Table/Refine/Placed.antt =====
-- A new entry in the table, as `lws_table_set` (src/lws_table.c, lines 191 to 208) puts it into the slot of
-- `lws_table_insert`: what the slots hold then. Here the case that no entry was moved.
use lambda_lws.Prelude.{
  ℕ, ◌+◌, ◌≡◌, ◌≢◌, refl, sym, ap, subst, ◌∙◌, ◌⊎◌, inl, inr, true, false, Bool-cases, some, List,
  [], ◌∷◌, ◌++◌, ◌==◌, length, length-set, get_elem?, set, get_elem?-set_self, get_elem?-set_ne,
  arith,
}
use lambda_lws.Table.{Entry, Table, is_set}
use lambda_lws.Table.Find.Probes.{probe}
use lambda_lws.Table.Methods.Lookup.{get_entry_range}
use lambda_lws.Table.Insert.Slots.{IsSetAt, IsFreeAt, FirstFree}
use lambda_lws.Table.Insert.Settle.{IsQueued}
use lambda_lws.Table.Insert.Queue.{In, In-append_left, In-append_last}
use lambda_lws.Table.Refine.{HasEntry, IsReached, IsWell}

-- What is where: the new entry in its slot, every other entry in a slot of its own on its probes.
pub record Placed (t u : Table) (s : ℕ) (x : Entry) : Type 0 where
  pub alloc_lem : u.alloc ≡ t.alloc
  pub ci_lem : u.ci ≡ t.ci
  pub slots : length u.entries ≡ length t.entries
  pub here : HasEntry u s x
  pub grows : (r : ℕ) → IsSetAt t r → IsSetAt u r
  pub unset :
      (r : ℕ) (e : Entry)
      → get_elem? u.entries r ≡ some e
      → is_set e ≡ false
      → get_elem? t.entries r ≡ some e
  pub origin : ℕ → ℕ
  pub source : (r : ℕ) (e : Entry) → r ≢ s → HasEntry u r e → HasEntry t (origin r) e
  pub injective :
      (r q : ℕ) (e d : Entry)
      → r ≢ s
      → q ≢ s
      → HasEntry u r e
      → HasEntry u q d
      → origin r ≡ origin q
      → r ≡ q
  pub target : (r : ℕ) (e : Entry) → HasEntry t r e → (q : ℕ) × (q ≢ s) × HasEntry u q e
  pub reached_new : IsReached u x.hash s
  pub reached : (r : ℕ) (e : Entry) → r ≢ s → HasEntry u r e → IsReached u e.hash r

-- The table with an entry in a slot, at the end of the queue.
abbrev pub added : Table → ℕ → Entry → Table
added t s x = record t {
  entries = set t.entries s x;
  order = t.order ++ s ∷ [];
  count = t.count + 1;
}

pub elsewhere :
    (xs : List Entry) (s r : ℕ) (x : Entry) → r ≢ s → get_elem? (set xs s x) r ≡ get_elem? xs r
elsewhere xs s r x ne = get_elem?-set_ne xs {i = s} {j = r} x (λ e. ne (sym e))

pub same_or : (r s : ℕ) → (r ≡ s) ⊎ (r ≢ s)
same_or r s = elim (Bool-cases (r == s)) [
  | inl e ↦ inl (ground (arith, e))
  | inr e ↦ inr (λ q. ground (arith, e, q))
]

pub some_eq {ℓ} : {A : Type ℓ} {a b : A} → some a ≡ some b → a ≡ b
some_eq h = cc

-- A slot that is free in a table does not hold an entry that is set.
pub apart : (t : Table) (r s : ℕ) (e : Entry) → HasEntry t r e → IsFreeAt t s → r ≢ s
apart t r s e h f q =
    let same : e ≡ f.entry = some_eq (sym h.at ∙ ap (get_elem? t.entries) q ∙ f.at) in
    let clash : true ≡ false = sym h.set_lem ∙ ap is_set same ∙ f.free_lem in cc

module _ (widen : ℕ → ℕ) (t : Table) (w : IsWell widen t) (hash k : ℕ) (f : FirstFree t hash k)
    (x : Entry) (p : is_set x ≡ true) (q : x.hash ≡ hash) where
  abbrev s : ℕ
  s = probe t.alloc hash k

  put_lem : HasEntry (added t s x) s x
  put_lem = record {
    at =
        get_elem?-set_self t.entries s x (get_entry_range t.entries s f.free_at.entry f.free_at.at);
    set_lem = p;
  }

  grows_lem : (r : ℕ) → IsSetAt t r → IsSetAt (added t s x) r
  grows_lem r h = elim (same_or r s) [
    | inl e ↦ record {
      entry = x;
      at = ap (get_elem? (set t.entries s x)) e ∙ put_lem.at;
      set_lem = p;
    }
    | inr ne ↦ record {
      entry = h.entry;
      at = elsewhere t.entries s r x ne ∙ h.at;
      set_lem = h.set_lem;
    }
  ]

  unset_lem :
      (r : ℕ) (e : Entry)
      → get_elem? (set t.entries s x) r ≡ some e
      → is_set e ≡ false
      → get_elem? t.entries r ≡ some e
  unset_lem r e h free = elim (same_or r s) [
    | inl same ↦
        let eq : x ≡ e =
          some_eq (sym put_lem.at ∙ ap (get_elem? (set t.entries s x)) (sym same) ∙ h) in
        let clash : true ≡ false = sym p ∙ ap is_set eq ∙ free in cc
    | inr ne ↦ sym (elsewhere t.entries s r x ne) ∙ h
  ]

  source_lem : (r : ℕ) (e : Entry) → r ≢ s → HasEntry (added t s x) r e → HasEntry t r e
  source_lem r e ne h = record {
    at = sym (elsewhere t.entries s r x ne) ∙ h.at;
    set_lem = h.set_lem;
  }

  reached_lem :
      (r : ℕ) (e : Entry) → r ≢ s → HasEntry (added t s x) r e → IsReached (added t s x) e.hash r
  reached_lem r e ne h =
      let b = w.reached r e (source_lem r e ne h) in
      record {
        number = b.number;
        here = b.here;
        before = λ j l. grows_lem (probe t.alloc e.hash j) (b.before j l);
      }

  pub direct-Placed : Placed t (added t s x) s x
  direct-Placed = record {
    alloc_lem = refl;
    ci_lem = refl;
    slots = length-set t.entries s x;
    here = put_lem;
    grows = grows_lem;
    unset = unset_lem;
    origin = λ r. r;
    source = source_lem;
    injective = λ r j e d n m h g same. same;
    target = λ r e h. (
      r,
      apart t r s e h f.free_at,
      record {
        at = elsewhere t.entries s r x (apart t r s e h f.free_at) ∙ h.at;
        set_lem = h.set_lem;
      },
    );
    reached_new = record {
      number = k;
      here = ap (λ (g : ℕ). probe t.alloc g k) (sym q);
      before = λ j l.
          grows_lem (probe t.alloc x.hash j)
            (subst (λ (g : ℕ). IsSetAt t (probe t.alloc g j)) (sym q) (f.before j l));
    };
    reached = reached_lem;
  }

  pub direct-IsQueued : IsQueued (added t s x)
  direct-IsQueued r h = elim (same_or r s) [
    | inl e ↦ subst (λ i. In i (t.order ++ s ∷ [])) (sym e) (In-append_last s t.order)
    | inr ne ↦
        let old = source_lem r h.entry ne (record { at = h.at; set_lem = h.set_lem }) in
        In-append_left r t.order (s ∷ [])
          (w.queued r (record { entry = h.entry; at = old.at; set_lem = old.set_lem }))
  ]
