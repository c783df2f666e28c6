-- ===== src/Table/Insert/Slots.antt =====
-- The first loop of `lws_table_insert` (src/lws_table.c, lines 360 to 374), against the
-- first probe of the hash that is not set.
use lambda_lws.Prelude.{
  ℕ, zero, suc, ◌+◌, ◌≤◌, ◌<◌, ◌≡◌, ap, subst, ◌∙◌, ◌⊎◌, inl, inr, true, false, Bool-cases, some,
  ◌==◌, length, get_elem?, ◌>>=◌, arith,
}
use lambda_lws.Table.{Entry, Table, is_set}
use lambda_lws.Table.Find.{home}
use lambda_lws.Table.Find.Probes.{probe, probe_range, entry_at}
use lambda_lws.Table.Insert.{worst_loop}

-- A slot with an entry that is set, and one with an entry that is not.
pub record IsSetAt (t : Table) (s : ℕ) : Type 0 where
  pub entry : Entry
  pub at : get_elem? t.entries s ≡ some entry
  pub set_lem : is_set entry ≡ true

pub record IsFreeAt (t : Table) (s : ℕ) : Type 0 where
  pub entry : Entry
  pub at : get_elem? t.entries s ≡ some entry
  pub free_lem : is_set entry ≡ false

-- The first free slot on the probes of a hash.
pub record FirstFree (t : Table) (hash k : ℕ) : Type 0 where
  pub free_at : IsFreeAt t (probe t.alloc hash k)
  pub before : (j : ℕ) → j < k → IsSetAt t (probe t.alloc hash j)

-- Some probe of the hash is free.
pub record HasRoom (t : Table) (hash : ℕ) : Type 0 where
  pub number : ℕ
  pub in_range : number < t.alloc
  pub room : IsFreeAt t (probe t.alloc hash number)

pub one_more : (P : ℕ → Type 0) (k : ℕ) → ((j : ℕ) → j < k → P j) → P k → (j : ℕ) → j < suc k → P j
one_more P k h p j l = elim (Bool-cases (j == k)) [
  | inl e ↦ subst P (ground (arith, e)) p
  | inr e ↦ h j (ground (arith, e))
]

slot_lem : (t : Table) (s : ℕ) → s < length t.entries → IsSetAt t s ⊎ IsFreeAt t s
slot_lem t s h =
    let (e, at) = entry_at t.entries s h in
    elim (Bool-cases (is_set e)) [
      | inl p ↦ inl (record { entry = e; at = at; set_lem = p })
      | inr p ↦ inr (record { entry = e; at = at; free_lem = p })
    ]

-- Among the first probes, either all are set or there is a first that is not.
scan_lem :
    (t : Table) (hash k : ℕ)
    → length t.entries ≡ t.alloc
    → 0 < t.alloc
    → ((j : ℕ) → j < k → IsSetAt t (probe t.alloc hash j))
      ⊎ ((j : ℕ) × (j < k) × FirstFree t hash j)
scan_lem t hash zero n p = inl (λ j h. absurd (omega (arith, h)))
scan_lem t hash (suc k) n p = elim (scan_lem t hash k n p) [
  | inr (j, h, f) ↦ inr (j, omega (arith, h), f)
  | inl all ↦
      elim (slot_lem t (probe t.alloc hash k) (omega (arith, n, probe_range t.alloc hash k p))) [
        | inl s ↦ inl (one_more (λ j. IsSetAt t (probe t.alloc hash j)) k all s)
        | inr f ↦ inr (k, omega arith, record { free_at = f; before = all })
      ]
]

pub HasRoom-FirstFree :
    (t : Table) (hash : ℕ)
    → length t.entries ≡ t.alloc
    → HasRoom t hash
    → (k : ℕ) × (k < t.alloc) × FirstFree t hash k
HasRoom-FirstFree t hash n r = elim (scan_lem t hash r.number n (omega (arith, r.in_range))) [
  | inr (j, h, f) ↦ (j, omega (arith, h, r.in_range), f)
  | inl all ↦ (r.number, r.in_range, record { free_at = r.room; before = all })
]

-- The loop from a probe on ends at the first free one, with its number from 1.
worst_from :
    (fuel : ℕ) (t : Table) (hash j k : ℕ)
    → FirstFree t hash k
    → j ≤ k
    → k < j + fuel
    → worst_loop fuel t hash (probe t.alloc hash j) (j + 1) ≡ some (probe t.alloc hash k, k + 1)
unfolding worst_loop probe
worst_from zero t hash j k f l h = absurd (omega (arith, l, h))
worst_from (suc fuel) t hash j k f l h = elim (Bool-cases (j == k)) [
  | inl e ↦
      let same : j ≡ k = ground (arith, e) in
      let at = ap (λ (i : ℕ). get_elem? t.entries (probe t.alloc hash i)) same ∙ f.free_at.at in
      rw (at, ◌>>=◌, f.free_at.free_lem) (ap (λ (i : ℕ). some (probe t.alloc hash i, i + 1)) same)
  | inr e ↦
      let s = f.before j (ground (arith, e, l)) in
      rw (s.at, ◌>>=◌, s.set_lem)
        (ap (worst_loop fuel t hash (probe t.alloc hash (suc j))) {x = j + 1 + 1} {y = suc j + 1}
            (omega arith)
          ∙ worst_from fuel t hash (suc j) k f (ground (arith, e, l)) (omega (arith, h)))
]

pub worst_loop_lem :
    (t : Table) (hash k : ℕ)
    → FirstFree t hash k
    → k < t.alloc
    → worst_loop t.alloc t hash (home t.alloc hash) 1 ≡ some (probe t.alloc hash k, k + 1)
unfolding probe
worst_loop_lem t hash k f h = worst_from t.alloc t hash 0 k f (omega arith) (omega (arith, h))
