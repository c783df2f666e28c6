-- ===== src/Table/Find/Probes.antt =====
-- `lws_table_find` (src/lws_table.c, lines 333 to 354) ends within as many rounds as there are slots,
-- and finds the first probe that matches.
use lambda_lws.Prelude.{
  ℕ, zero, suc, ◌+◌, ◌-◌, ◌*◌, ◌%◌, ◌≤◌, ◌<◌, ◌≡◌, refl, sym, ap, subst, ◌∙◌, ◌⊎◌, inl, inr, Bool,
  true, false, Bool-cases, ◌&&◌, Option, none, some, List, [], ◌∷◌, ◌==◌, length, get_elem?, ◌>>=◌,
  Returns, arith,
}
use native.Mathlib.Nat.{mod-add-mod, add-mul-mod_self_left, mod-lt, suc-mul}
use lambda_lws.Table.{Entry, Table, is_unused}
use lambda_lws.Table.Hash.{same_text}
use lambda_lws.Table.Find.{compare_key, entry_matches, home, stride, next_slot, find_loop, find}

-- The slot of a probe by its number.
unfoldable pub probe : ℕ → ℕ → ℕ → ℕ
probe alloc hash zero = home alloc hash
probe alloc hash (suc k) = next_slot alloc hash (probe alloc hash k)

probe_closed : (alloc hash k : ℕ) → probe alloc hash k ≡ (hash + k * stride alloc hash) % alloc
unfolding probe home next_slot
probe_closed alloc hash zero = ap (λ t. t % alloc) (omega arith)
probe_closed alloc hash (suc k) =
    ap (λ t. (t + stride alloc hash) % alloc) (probe_closed alloc hash k)
    ∙ (mod-add-mod (hash + k * stride alloc hash) alloc (stride alloc hash)
        ∙ ap (λ t. t % alloc) (omega (arith, suc-mul k (stride alloc hash))))

-- After as many probes as there are slots the home slot comes again.
pub probe_round : (alloc hash : ℕ) → probe alloc hash alloc ≡ home alloc hash
unfolding home
probe_round alloc hash =
    probe_closed alloc hash alloc ∙ add-mul-mod_self_left hash alloc (stride alloc hash)

pub probe_range : (alloc hash k : ℕ) → 0 < alloc → probe alloc hash k < alloc
probe_range alloc hash k h =
    subst (λ t. t < alloc) (sym (probe_closed alloc hash k))
      (mod-lt (hash + k * stride alloc hash) h)

-- As many entries as slots, and every entry that is in use, or was, has its key's memory.
pub record IsReadable (t : Table) : Type 0 where
  pub slots : length t.entries ≡ t.alloc
  pub enough : 3 ≤ t.alloc
  pub keys :
      (s : ℕ) (e : Entry)
      → get_elem? t.entries s ≡ some e
      → is_unused e ≡ false
      → (d : List ℕ) × (e.key_data ≡ some d)

-- A slot that the search passes, and one where it stops with a match.
unfoldable pub Probed : Table → List ℕ → ℕ → Bool → ℕ → Type 0
Probed t key hash hit s =
    (e : Entry) × (get_elem? t.entries s ≡ some e)
    × (is_unused e ≡ false)
    × (entry_matches t.ci key hash e ≡ some hit)

-- What the search finds: the first probe that matches, all before it being in use without a match; or
-- nothing, when that holds of all probes as far as an unused slot, or of a whole round.
unfoldable pub Found : Table → List ℕ → ℕ → Option ℕ → Type 0
Found t key hash (some s) =
    (k : ℕ) × (k < t.alloc)
    × (s ≡ probe t.alloc hash k)
    × Probed t key hash true s
    × ((j : ℕ) → j < k → Probed t key hash false (probe t.alloc hash j))
Found t key hash none =
    (k : ℕ) × (k ≤ t.alloc)
    × ((j : ℕ) → j < k → Probed t key hash false (probe t.alloc hash j))
    × (((e : Entry) × (get_elem? t.entries (probe t.alloc hash k) ≡ some e) × (is_unused e ≡ true))
        ⊎ ((0 < k) × (probe t.alloc hash k ≡ home t.alloc hash)))

-- Entries have readable keys, so a comparison ends.
matches_lem :
    (t : Table) (key : List ℕ) (hash s : ℕ) (e : Entry)
    → IsReadable t
    → get_elem? t.entries s ≡ some e
    → is_unused e ≡ false
    → Returns (entry_matches t.ci key hash e) (λ hit. Unit {0})
unfolding entry_matches compare_key
matches_lem t key hash s e ok at used =
    let (d, ed) = ok.keys s e at used in
    elim (Bool-cases ((e.hash == hash) && (e.key_len == length key))) [
      | inl m ↦ rw (m, ed) (same_text t.ci d key, refl, tt)
      | inr m ↦ rw m (false, refl, tt)
    ]

one_more : (P : ℕ → Type 0) (k : ℕ) → ((j : ℕ) → j < k → P j) → P k → (j : ℕ) → j < suc k → P j
one_more P k h p j l = elim (Bool-cases (j == k)) [
  | inl e ↦ subst P (ground (arith, e)) p
  | inr e ↦ h j (ground (arith, e))
]

pub entry_at :
    (entries : List Entry) (s : ℕ)
    → s < length entries
    → (e : Entry) × (get_elem? entries s ≡ some e)
entry_at [] s h = absurd (omega arith)
entry_at (e ∷ es) zero h = (e, refl)
entry_at (e ∷ es) (suc s) h = entry_at es s (omega arith)

-- A round at probe k, before the rounds from the next probe.
find_round :
    (fuel k : ℕ) (t : Table) (key : List ℕ) (hash : ℕ) (e : Entry)
    → IsReadable t
    → get_elem? t.entries (probe t.alloc hash k) ≡ some e
    → k < t.alloc
    → ((j : ℕ) → j < k → Probed t key hash false (probe t.alloc hash j))
    → ((probe t.alloc hash (suc k) == home t.alloc hash) ≡ false
        → ((j : ℕ) → j < suc k → Probed t key hash false (probe t.alloc hash j))
        → Returns (find_loop fuel t key hash (probe t.alloc hash (suc k))) (Found t key hash))
    → Returns (find_loop (suc fuel) t key hash (probe t.alloc hash k)) (Found t key hash)
unfolding find_loop Found Probed next_slot probe
find_round fuel k t key hash e ok at h before rest =
    let s : ℕ = probe t.alloc hash k in
    elim (Bool-cases (is_unused e)) [
      | inl u ↦ (none, rw (at, ◌>>=◌, u) refl, (k, omega arith, before, inl (e, at, u)))
      | inr u ↦
          let (hit, runs, _) = matches_lem t key hash s e ok at u in
          elim (Bool-cases hit) [
            | inl same ↦
                let found = runs ∙ ap (λ q. some q) same in
                (some s, rw (at, ◌>>=◌, u, found) refl, (k, h, refl, (e, at, u, found), before))
            | inr other ↦
                let passed = runs ∙ ap (λ q. some q) other in
                let all =
                  one_more (λ j. Probed t key hash false (probe t.alloc hash j)) k before
                    (e, at, u, passed) in
                elim (Bool-cases (probe t.alloc hash (suc k) == home t.alloc hash)) [
                  | inl back ↦ (
                    none,
                    rw (at, ◌>>=◌, u, passed, back) refl,
                    (suc k, omega arith, all, inr (omega arith, ground (arith, back))),
                  )
                  | inr on ↦ let r = rest on all in (r.0, rw (at, ◌>>=◌, u, passed, on) r.1, r.2)
                ]
          ]
    ]

find_loop_lem :
    (fuel k : ℕ) (t : Table) (key : List ℕ) (hash : ℕ)
    → IsReadable t
    → suc k + fuel ≡ t.alloc
    → ((j : ℕ) → j < k → Probed t key hash false (probe t.alloc hash j))
    → Returns (find_loop (suc fuel) t key hash (probe t.alloc hash k)) (Found t key hash)
find_loop_lem zero k t key hash ok f before =
    let (e, at) =
      entry_at t.entries (probe t.alloc hash k)
        (omega (arith, ok.slots, ok.enough, probe_range t.alloc hash k (omega (arith, f)))) in
    find_round zero k t key hash e ok at (omega (arith, f)) before (λ on all. absurd (clash on))
  where
    last : suc k ≡ t.alloc
    last = omega (arith, f)

    clash : (probe t.alloc hash (suc k) == home t.alloc hash) ≡ false → ⊥
    clash on = ground (arith, on, ap (probe t.alloc hash) last, probe_round t.alloc hash)
find_loop_lem (suc fuel) k t key hash ok f before =
    let (e, at) =
      entry_at t.entries (probe t.alloc hash k)
        (omega (arith, ok.slots, ok.enough, probe_range t.alloc hash k (omega (arith, f)))) in
    find_round (suc fuel) k t key hash e ok at (omega (arith, f)) before
      (λ on all. find_loop_lem fuel (suc k) t key hash ok (omega (arith, f)) all)

pub find_lem :
    (t : Table) (key : List ℕ) (hash : ℕ)
    → IsReadable t
    → Returns (find t key hash) (Found t key hash)
unfolding find probe
find_lem t key hash ok =
    let fuel : suc (t.alloc - 1) ≡ t.alloc = omega (arith, ok.enough) in
    subst (λ q. Returns (find_loop q t key hash (home t.alloc hash)) (Found t key hash)) fuel
      (find_loop_lem (t.alloc - 1) 0 t key hash ok (omega (arith, ok.enough))
        (λ j h. absurd (omega arith)))
