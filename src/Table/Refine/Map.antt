-- ===== src/Table/Refine/Map.antt =====
-- The map that a table of src/lws_table.c implements, by `lws_table_get` (lines 137 to 150), with
-- and without a new entry.
use lambda_lws.Prelude.{
  ℕ, ◌≡◌, sym, ap, subst, ◌∙◌, inl, inr, Bool, false, Bool-cases, ◌&&◌, Option, none, some, List,
  ◌==◌, if◌then◌else◌, if_on, if_off, length, Run, ◌>>=◌, arith,
}
use lambda_lws.Table.{Entry, Table}
use lambda_lws.Table.Hash.{table_hash, same_text}
use lambda_lws.Table.Find.{find}
use lambda_lws.Table.Methods.{get, get_found}
use lambda_lws.Table.Methods.Lookup.{get_found_lem}
use lambda_lws.Table.Refine.{IsSame, HasKey, IsWell}
use lambda_lws.Table.Refine.Search.{present, absent, find_cases, find-HasKey}
use lambda_lws.Table.Refine.Placed.{same_or}
use lambda_lws.Table.Refine.Grown.{
  HasKey-source, HasKey-target, HasKey-here, IsSame-here, not_both, here_only, Placed-IsWell,
}
use lambda_lws.Table.Refine.Stored.{Stored}

-- A table, neither timed nor capped, is a map: a get of any key at any time gives the value of the map, and
-- leaves the table as it is. No value is 0.
pub record Represents (widen : ℕ → ℕ) (t : Table) (f : List ℕ → ℕ) : Type 0 where
  pub well : IsWell widen t
  pub untimed : t.timed ≡ false
  pub uncapped : t.capped ≡ false
  pub reads : (now : ℕ) (key : List ℕ) → get widen now t key ≡ some (f key, t)

-- The test that two keys are the same.
abbrev pub same_key : Bool → List ℕ → List ℕ → Bool
same_key ci a b = (length a == length b) && same_text ci a b

-- A map with a value for a key.
unfoldable pub assign : Bool → List ℕ → ℕ → (List ℕ → ℕ) → List ℕ → ℕ
assign ci key v f k = if same_key ci key k then v else f k

pub assign_on :
    (ci : Bool) (key : List ℕ) (v : ℕ) (f : List ℕ → ℕ) (k : List ℕ)
    → IsSame ci key k
    → assign ci key v f k ≡ v
unfolding assign
assign_on ci key v f k h = if_on (same_key ci key k) v (f k) (ground (arith, h.len, h.text))

pub assign_off :
    (ci : Bool) (key : List ℕ) (v : ℕ) (f : List ℕ → ℕ) (k : List ℕ)
    → (IsSame ci key k → ⊥)
    → assign ci key v f k ≡ f k
unfolding assign
assign_off ci key v f k h = elim (Bool-cases (same_key ci key k)) [
  | inl e ↦ absurd (h (record { len = ground (arith, e); text = ground (arith, e) }))
  | inr e ↦ if_off (same_key ci key k) v (f k) e
]

get-HasKey :
    (widen : ℕ → ℕ) (now : ℕ) (t : Table) (key : List ℕ) (s : ℕ) (e : Entry)
    → IsWell widen t
    → t.timed ≡ false
    → t.capped ≡ false
    → HasKey t key s e
    → get widen now t key ≡ some (e.value, t)
unfolding get
get-HasKey widen now t key s e w untimed uncapped h =
    ap (λ (r : Run (Option ℕ)). r >>= get_found now t) (find-HasKey widen t key s e w h)
    ∙ get_found_lem now t s e h.entry.at untimed uncapped

get_absent :
    (widen : ℕ → ℕ) (now : ℕ) (t : Table) (key : List ℕ)
    → find t key (table_hash widen t.ci key) ≡ some none
    → get widen now t key ≡ some (0, t)
unfolding get get_found
get_absent widen now t key h = ap (λ (r : Run (Option ℕ)). r >>= get_found now t) h

abbrev answer : ℕ → Table → Option (ℕ × Table)
answer v t = some (v, t)

first_lem : (t : Table) (a b : ℕ) → answer a t ≡ answer b t → a ≡ b
first_lem t a b h = ap (λ (o : Option (ℕ × Table)). elim o [ none ↦ a | some (c, u) ↦ c ]) h

-- The map has the value of the entry of a key, and 0 without one.
pub read-HasKey :
    (widen : ℕ → ℕ) (t : Table) (f : List ℕ → ℕ) (key : List ℕ) (s : ℕ) (e : Entry)
    → Represents widen t f
    → HasKey t key s e
    → f key ≡ e.value
read-HasKey widen t f key s e m h =
    first_lem t (f key) e.value
      (sym (m.reads 0 key) ∙ get-HasKey widen 0 t key s e m.well m.untimed m.uncapped h)

pub read_absent :
    (widen : ℕ → ℕ) (t : Table) (f : List ℕ → ℕ) (key : List ℕ)
    → Represents widen t f
    → ((s : ℕ) (e : Entry) → HasKey t key s e → ⊥)
    → f key ≡ 0
read_absent widen t f key m h = elim (find_cases widen t key m.well) [
  | present s e k runs ↦ absurd (h s e k)
  | absent h runs ↦ first_lem t (f key) 0 (sym (m.reads 0 key) ∙ get_absent widen 0 t key runs)
]

-- A table whose entries have the values of a map, and have a key where the map is not 0, is that map.
pub represents_lem :
    (widen : ℕ → ℕ) (t : Table) (f : List ℕ → ℕ)
    → IsWell widen t
    → t.timed ≡ false
    → t.capped ≡ false
    → ((key : List ℕ) (s : ℕ) (e : Entry) → HasKey t key s e → f key ≡ e.value)
    → ((key : List ℕ) → ((s : ℕ) (e : Entry) → HasKey t key s e → ⊥) → f key ≡ 0)
    → Represents widen t f
represents_lem widen t f w untimed uncapped has not = record {
  well = w;
  untimed = untimed;
  uncapped = uncapped;
  reads = λ now key. elim (find_cases widen t key w) [
    | present s e h runs ↦
        get-HasKey widen now t key s e w untimed uncapped h
        ∙ ap (λ (v : ℕ). some (v, t)) (sym (has key s e h))
    | absent h runs ↦
        get_absent widen now t key runs ∙ ap (λ (v : ℕ). some (v, t)) (sym (not key h))
  ];
}

-- A new entry for a key that a map does not have assigns its value.
pub Stored-Represents :
    (widen : ℕ → ℕ) (t u : Table) (f : List ℕ → ℕ) (key : List ℕ) (v : ℕ)
    → Represents widen t f
    → ((s : ℕ) (e : Entry) → HasKey t key s e → ⊥)
    → Stored widen t key v u
    → Represents widen u (assign t.ci key v f)
Stored-Represents widen t u f key v m fresh h =
    represents_lem widen u (assign t.ci key v f)
      (Placed-IsWell widen t m.well u h.slot h.entry h.placed h.keyed new h.queued)
      (h.untimed ∙ m.untimed) (h.uncapped ∙ m.uncapped) has not
  where
    new : (r : ℕ) (e : Entry) → HasKey t h.keyed.key r e → ⊥
    new r e k = fresh r e (subst (λ i. HasKey t i r e) h.key_lem k)

    has : (k : List ℕ) (r : ℕ) (e : Entry) → HasKey u k r e → assign t.ci key v f k ≡ e.value
    has k r e at = elim (same_or r h.slot) [
      | inl q ↦
          let here = subst (λ i. HasKey u k i e) q at in
          assign_on t.ci key v f k (
            subst (λ i. IsSame t.ci i k) h.key_lem
              (IsSame-here widen t m.well u h.slot h.entry h.placed h.keyed new k e here))
          ∙ sym h.value_lem
          ∙ ap (λ (a : Entry). a.value)
              (here_only widen t m.well u h.slot h.entry h.placed h.keyed new e here.entry)
      | inr n ↦
          let old = HasKey-source widen t m.well u h.slot h.entry h.placed h.keyed new k r e n at in
          assign_off t.ci key v f k (λ i.
            not_both widen t m.well u h.slot h.entry h.placed h.keyed new k (h.placed.origin r) e
              (subst (λ a. IsSame t.ci a k) (sym h.key_lem) i) old)
          ∙ read-HasKey widen t f k (h.placed.origin r) e m old
    ]

    not : (k : List ℕ) → ((r : ℕ) (e : Entry) → HasKey u k r e → ⊥) → assign t.ci key v f k ≡ 0
    not k none_lem =
        assign_off t.ci key v f k (λ i. none_lem h.slot h.entry (
          HasKey-here widen t m.well u h.slot h.entry h.placed h.keyed new k
            (subst (λ a. IsSame t.ci a k) (sym h.key_lem) i)))
        ∙ read_absent widen t f k m (λ r e at.
          let (q, n, moved) =
            HasKey-target widen t m.well u h.slot h.entry h.placed h.keyed new k r e at in
          none_lem q e moved)
