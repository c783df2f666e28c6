-- ===== src/Table/Refine/Grown.antt =====
-- A table that is a map, with an entry for a key that it did not have (src/lws_table.c, lines 191 to 208):
-- its invariant, and which entries have which keys.
use lambda_lws.Prelude.{ℕ, ◌≡◌, ◌≢◌, sym, ap, subst, ◌∙◌, inl, inr, List, arith}
use lambda_lws.Table.{Entry, Table}
use lambda_lws.Table.Insert.Settle.{IsQueued}
use lambda_lws.Table.Refine.{HasEntry, IsReached, IsKeyed, IsSame, HasKey, IsWell}
use lambda_lws.Table.Refine.Search.{IsSame-join}
use lambda_lws.Table.Refine.Placed.{Placed, same_or, some_eq}

module _ (widen : ℕ → ℕ) (t : Table) (w : IsWell widen t) (u : Table) (s : ℕ) (x : Entry)
    (p : Placed t u s x) (c : IsKeyed widen t.ci x)
    (fresh : (r : ℕ) (e : Entry) → HasKey t c.key r e → ⊥) where
  pub here_only : (e : Entry) → HasEntry u s e → x ≡ e
  here_only e h = some_eq (sym p.here.at ∙ h.at)

  -- What a slot behind has, its origin had.
  pub HasKey-source :
      (key : List ℕ) (r : ℕ) (e : Entry) → r ≢ s → HasKey u key r e → HasKey t key (p.origin r) e
  HasKey-source key r e n h = record {
    entry = p.source r e n h.entry;
    own = h.own;
    data_lem = h.data_lem;
    same = subst (λ b. IsSame b h.own key) p.ci_lem h.same;
  }

  -- What a slot before had, another slot than that of the new entry has.
  pub HasKey-target :
      (key : List ℕ) (r : ℕ) (e : Entry) → HasKey t key r e → (q : ℕ) × (q ≢ s) × HasKey u key q e
  HasKey-target key r e h =
      let (q, n, at) = p.target r e h.entry in
      (
        q,
        n,
        record {
          entry = at;
          own = h.own;
          data_lem = h.data_lem;
          same = subst (λ b. IsSame b h.own key) (sym p.ci_lem) h.same;
        },
      )

  -- The new entry has the keys that are the same as its own.
  pub HasKey-here : (key : List ℕ) → IsSame t.ci c.key key → HasKey u key s x
  HasKey-here key h = record {
    entry = p.here;
    own = c.key;
    data_lem = c.data_lem;
    same = subst (λ b. IsSame b c.key key) (sym p.ci_lem) h;
  }

  pub IsSame-here : (key : List ℕ) (e : Entry) → HasKey u key s e → IsSame t.ci c.key key
  IsSame-here key e h =
      let eq = here_only e h.entry in
      let own : c.key ≡ h.own =
        some_eq (sym c.data_lem ∙ ap (λ (a : Entry). a.key_data) eq ∙ h.data_lem) in
      subst (λ b. IsSame b c.key key) p.ci_lem (subst (λ k. IsSame u.ci k key) (sym own) h.same)

  -- No entry from before has a key that the new entry has.
  pub not_both : (key : List ℕ) (r : ℕ) (e : Entry) → IsSame t.ci c.key key → HasKey t key r e → ⊥
  not_both key r e h k = fresh r e (record {
    entry = k.entry;
    own = k.own;
    data_lem = k.data_lem;
    same = IsSame-join t.ci k.own c.key key k.same h;
  })

  keyed_grown : (r : ℕ) (e : Entry) → HasEntry u r e → IsKeyed widen u.ci e
  keyed_grown r e h =
      subst (λ b. IsKeyed widen b e) (sym p.ci_lem)
        (elim (same_or r s) [
          | inl q ↦ subst (IsKeyed widen t.ci) (here_only e (subst (λ i. HasEntry u i e) q h)) c
          | inr n ↦ w.keyed (p.origin r) e (p.source r e n h)
        ])

  IsReached-grown : (r : ℕ) (e : Entry) → HasEntry u r e → IsReached u e.hash r
  IsReached-grown r e h = elim (same_or r s) [
    | inl q ↦ subst (IsReached u e.hash) (sym q) (
        subst (λ (a : Entry). IsReached u a.hash s) (here_only e (subst (λ i. HasEntry u i e) q h))
          p.reached_new)
    | inr n ↦ p.reached r e n h
  ]

  unique_grown :
      (key : List ℕ) (r q : ℕ) (e d : Entry) → HasKey u key r e → HasKey u key q d → r ≡ q
  unique_grown key r q e d h k = elim (same_or r s) [
    | inl i ↦ elim (same_or q s) [
      | inl j ↦ i ∙ sym j
      | inr m ↦ absurd (
          not_both key (p.origin q) d (IsSame-here key e (subst (λ a. HasKey u key a e) i h))
            (HasKey-source key q d m k))
    ]
    | inr n ↦ elim (same_or q s) [
      | inl j ↦ absurd (
          not_both key (p.origin r) e (IsSame-here key d (subst (λ a. HasKey u key a d) j k))
            (HasKey-source key r e n h))
      | inr m ↦ p.injective r q e d n m h.entry k.entry (
          w.unique key (p.origin r) (p.origin q) e d (HasKey-source key r e n h)
            (HasKey-source key q d m k))
    ]
  ]

  pub Placed-IsWell : IsQueued u → IsWell widen u
  Placed-IsWell queued = record {
    slots = p.slots ∙ w.slots ∙ sym p.alloc_lem;
    enough = omega (arith, w.enough, p.alloc_lem);
    small = omega (arith, w.small, p.alloc_lem);
    states = λ r e at free. w.states r e (p.unset r e at free) free;
    keyed = keyed_grown;
    reached = IsReached-grown;
    unique = unique_grown;
    queued = queued;
  }
