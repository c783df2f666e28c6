-- ===== src/Table/Refine/Updated.antt =====
-- `lws_table_set` (src/lws_table.c, lines 165 to 178) with a key that the table has: the table with another
-- value in the entry.
use lambda_lws.Prelude.{
  ℕ, ◌≡◌, ◌≢◌, refl, sym, ap, subst, ◌∙◌, ◌⊎◌, inl, inr, Bool, true, false, some, List, [], ◌∷◌,
  length-set, get_elem?, set, get_elem?-set_self, arith,
}
use lambda_lws.Table.{Entry, Table, is_set, is_unused}
use lambda_lws.Table.Hash.{same_text}
use lambda_lws.Table.Find.Probes.{probe}
use lambda_lws.Table.Methods.Lookup.{get_entry_range}
use lambda_lws.Table.Insert.Slots.{IsSetAt}
use lambda_lws.Table.Refine.{IsReached, IsKeyed, IsSame, HasKey, IsWell}
use lambda_lws.Table.Refine.Search.{IsSame-join}
use lambda_lws.Table.Refine.Placed.{elsewhere, same_or, some_eq}
use lambda_lws.Table.Refine.Map.{
  Represents, assign, assign_on, assign_off, read-HasKey, read_absent, represents_lem,
}

same_text_sym : (ci : Bool) (a b : List ℕ) → same_text ci a b ≡ true → same_text ci b a ≡ true
unfolding same_text
same_text_sym ci [] [] p = refl
same_text_sym ci [] (y ∷ ys) p = cc
same_text_sym ci (x ∷ xs) [] p = cc
same_text_sym ci (x ∷ xs) (y ∷ ys) p = ground (arith, p, same_text_sym ci xs ys)

IsSame-sym : (ci : Bool) (a b : List ℕ) → IsSame ci a b → IsSame ci b a
IsSame-sym ci a b h = record { len = sym h.len; text = same_text_sym ci a b h.text }

-- The table with another value in a slot.
abbrev pub updated : Table → ℕ → Entry → ℕ → List ℕ → Table
updated t s e v freed' = record t {
  entries = set t.entries s (record e { value = v });
  freed = freed';
}

module _ (widen : ℕ → ℕ) (t : Table) (w : IsWell widen t) (key : List ℕ) (s : ℕ) (e : Entry)
    (h : HasKey t key s e) (v : ℕ) (freed' : List ℕ) where
  abbrev u : Table
  u = updated t s e v freed'

  abbrev e' : Entry
  e' = record e { value = v }

  put_value : get_elem? u.entries s ≡ some e'
  put_value = get_elem?-set_self t.entries s e' (get_entry_range t.entries s e h.entry.at)

  value_set : is_set e' ≡ is_set e
  unfolding is_set
  value_set = refl

  value_unused : is_unused e' ≡ is_unused e
  unfolding is_unused
  value_unused = refl

  value_keyed : IsKeyed widen t.ci e → IsKeyed widen t.ci e'
  value_keyed k = record {
    key = k.key;
    data_lem = k.data_lem;
    len = k.len;
    text = k.text;
    hash_lem = k.hash_lem;
  }

  -- A slot has what it had, or it is the one with the new value.
  stays :
      (r : ℕ) (d : Entry)
      → get_elem? u.entries r ≡ some d
      → ((r ≡ s) × (e' ≡ d)) ⊎ ((r ≢ s) × (get_elem? t.entries r ≡ some d))
  stays r d at = elim (same_or r s) [
    | inl q ↦ inl (q, some_eq (sym put_value ∙ ap (get_elem? u.entries) (sym q) ∙ at))
    | inr n ↦ inr (n, sym (elsewhere t.entries s r e' n) ∙ at)
  ]

  set_grows : (r : ℕ) → IsSetAt t r → IsSetAt u r
  set_grows r b = elim (same_or r s) [
    | inl q ↦ record {
      entry = e';
      at = ap (get_elem? u.entries) q ∙ put_value;
      set_lem = value_set ∙ h.entry.set_lem;
    }
    | inr n ↦ record {
      entry = b.entry;
      at = elsewhere t.entries s r e' n ∙ b.at;
      set_lem = b.set_lem;
    }
  ]

  set_shrinks : (r : ℕ) → IsSetAt u r → IsSetAt t r
  set_shrinks r b = elim (stays r b.entry b.at) [
    | inl (q, same) ↦ record {
      entry = e;
      at = ap (get_elem? t.entries) q ∙ h.entry.at;
      set_lem = h.entry.set_lem;
    }
    | inr (n, at) ↦ record { entry = b.entry; at = at; set_lem = b.set_lem }
  ]

  reaches : (hash r : ℕ) → IsReached t hash r → IsReached u hash r
  reaches hash r b = record {
    number = b.number;
    here = b.here;
    before = λ j l. set_grows (probe t.alloc hash j) (b.before j l);
  }

  HasKey-back : (k : List ℕ) (r : ℕ) (d : Entry) → HasKey u k r d → (c : Entry) × HasKey t k r c
  HasKey-back k r d b = elim (stays r d b.entry.at) [
    | inl (q, same) ↦ (
      e,
      record {
        entry = record { at = ap (get_elem? t.entries) q ∙ h.entry.at; set_lem = h.entry.set_lem };
        own = b.own;
        data_lem = ap (λ (a : Entry). a.key_data) same ∙ b.data_lem;
        same = b.same;
      },
    )
    | inr (n, at) ↦ (
      d,
      record {
        entry = record { at = at; set_lem = b.entry.set_lem };
        own = b.own;
        data_lem = b.data_lem;
        same = b.same;
      },
    )
  ]

  pub updated-IsWell : IsWell widen u
  updated-IsWell = record {
    slots = length-set t.entries s e' ∙ w.slots;
    enough = w.enough;
    small = w.small;
    states = λ r d at free. elim (stays r d at) [
      | inl (q, same) ↦
          let clash : true ≡ false = sym h.entry.set_lem ∙ sym value_set ∙ ap is_set same ∙ free in
          cc
      | inr (n, before) ↦ w.states r d before free
    ];
    keyed = λ r d b. elim (stays r d b.at) [
      | inl (q, same) ↦ subst (IsKeyed widen t.ci) same (value_keyed (w.keyed s e h.entry))
      | inr (n, at) ↦ w.keyed r d (record { at = at; set_lem = b.set_lem })
    ];
    reached = λ r d b. elim (stays r d b.at) [
      | inl (q, same) ↦
          subst (λ i. IsReached u d.hash i) (sym q)
            (subst (λ (a : Entry). IsReached u a.hash s) same
              (reaches e.hash s (w.reached s e h.entry)))
      | inr (n, at) ↦ reaches d.hash r (w.reached r d (record { at = at; set_lem = b.set_lem }))
    ];
    unique = λ k r q d c b g.
        let (d', b') = HasKey-back k r d b in
        let (c', g') = HasKey-back k q c g in w.unique k r q d' c' b' g';
    queued = λ r b. w.queued r (set_shrinks r b);
  }

  key_of : (k : List ℕ) → IsSame t.ci h.own k → HasKey u k s e'
  key_of k same = record {
    entry = record { at = put_value; set_lem = value_set ∙ h.entry.set_lem };
    own = h.own;
    data_lem = h.data_lem;
    same = same;
  }

  has_value :
      (f : List ℕ → ℕ)
      → Represents widen t f
      → (k : List ℕ) (r : ℕ) (d : Entry) → HasKey u k r d
      → assign t.ci key v f k ≡ d.value
  has_value f m k r d b = elim (stays r d b.entry.at) [
    | inl (q, same) ↦
        let own : h.own ≡ b.own =
          some_eq (sym h.data_lem ∙ ap (λ (a : Entry). a.key_data) same ∙ b.data_lem) in
        let mine : IsSame t.ci h.own k = subst (λ a. IsSame t.ci a k) (sym own) b.same in
        assign_on t.ci key v f k (
          IsSame-join t.ci key k h.own (IsSame-sym t.ci h.own key h.same)
            (IsSame-sym t.ci h.own k mine))
        ∙ ap (λ (a : Entry). a.value) same
    | inr (n, at) ↦
        let old : HasKey t k r d = record {
          entry = record { at = at; set_lem = b.entry.set_lem };
          own = b.own;
          data_lem = b.data_lem;
          same = b.same;
        } in
        assign_off t.ci key v f k (λ i. n (
          w.unique key r s d e
            (record {
              entry = old.entry;
              own = b.own;
              data_lem = b.data_lem;
              same = IsSame-join t.ci b.own key k b.same i;
            })
            h))
        ∙ read-HasKey widen t f k r d m old
  ]

  has_none :
      (f : List ℕ → ℕ)
      → Represents widen t f
      → (k : List ℕ) → ((r : ℕ) (d : Entry) → HasKey u k r d → ⊥)
      → assign t.ci key v f k ≡ 0
  has_none f m k none_lem =
      assign_off t.ci key v f k (λ i.
        none_lem s e' (key_of k (IsSame-join t.ci h.own k key h.same (IsSame-sym t.ci key k i))))
      ∙ read_absent widen t f k m (λ r d b. elim (same_or r s) [
        | inl q ↦
            let eq : d ≡ e = some_eq (sym b.entry.at ∙ ap (get_elem? t.entries) q ∙ h.entry.at) in
            let own : b.own ≡ h.own =
              some_eq (sym b.data_lem ∙ ap (λ (a : Entry). a.key_data) eq ∙ h.data_lem) in
            none_lem s e' (key_of k (subst (λ a. IsSame t.ci a k) own b.same))
        | inr n ↦ none_lem r d (record {
          entry = record {
            at = elsewhere t.entries s r e' n ∙ b.entry.at;
            set_lem = b.entry.set_lem;
          };
          own = b.own;
          data_lem = b.data_lem;
          same = b.same;
        })
      ])

  pub updated-Represents :
      (f : List ℕ → ℕ) → Represents widen t f → Represents widen u (assign t.ci key v f)
  updated-Represents f m =
      represents_lem widen u (assign t.ci key v f) updated-IsWell m.untimed m.uncapped
        (has_value f m) (has_none f m)
