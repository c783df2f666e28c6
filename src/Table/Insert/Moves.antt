-- ===== src/Table/Insert/Moves.antt =====
-- The second loop of `lws_table_insert` (src/lws_table.c, lines 375 to 418): the entries on the
-- probes of the hash, and where each could go along its own probes.
use native.Mathlib.Nat.{mod-lt}
use lambda_lws.Prelude.{
  ℕ, zero, suc, ◌+◌, ◌-◌, ◌%◌, ◌≤◌, ◌<◌, ◌≡◌, refl, ap, ◌∙◌, inl, inr, false, ◌&&◌, Bool-cases,
  Option, none, some, ltb, leb, length, get_elem?, ◌>>=◌, Returns, arith,
}
use lambda_lws.Codec.Base64.{size_max}
use lambda_lws.Table.{Entry, Table, is_set}
use lambda_lws.Table.Find.{home, stride, next_slot}
use lambda_lws.Table.Find.Probes.{probe, entry_at}
use lambda_lws.Table.Insert.{move_loop, Better, best_len, better_of, better_loop}
use lambda_lws.Table.Insert.Slots.{IsSetAt, IsFreeAt, FirstFree, one_more}

-- The slot some steps behind another, on the probes of a hash.
unfoldable pub steps : ℕ → ℕ → ℕ → ℕ → ℕ
steps alloc hash h zero = h
steps alloc hash h (suc n) = next_slot alloc hash (steps alloc hash h n)

-- A move of an entry from a slot to one that is not set, all slots between being set.
pub record IsMove (t : Table) (e : Entry) (old new : ℕ) : Type 0 where
  pub rounds : ℕ
  pub ends : new ≡ steps t.alloc e.hash old (suc rounds)
  pub free_at : IsFreeAt t new
  pub passed : (i : ℕ) → i < rounds → IsSetAt t (steps t.alloc e.hash old (suc i))

abbrev Moved : Table → Entry → ℕ → Option (ℕ × ℕ) → Type 0
Moved t e old none = Unit
Moved t e old (some (new, len)) = IsMove t e old new

next_entry :
    (t : Table) (hash h : ℕ)
    → length t.entries ≡ t.alloc
    → 0 < t.alloc
    → (x : Entry) × (get_elem? t.entries (next_slot t.alloc hash h) ≡ some x)
unfolding next_slot
next_entry t hash h n p =
    entry_at t.entries ((h + stride t.alloc hash) % t.alloc)
      (omega (arith, n, mod-lt (h + stride t.alloc hash) p))

move_from :
    (fuel : ℕ) (t : Table) (e : Entry) (old m len len_worst : ℕ)
    → length t.entries ≡ t.alloc
    → 0 < t.alloc
    → ((i : ℕ) → i < m → IsSetAt t (steps t.alloc e.hash old (suc i)))
    → len + m < len_worst
    → len_worst < len + m + fuel
    → Returns
        (move_loop fuel t e.hash (steps t.alloc e.hash old (suc m)) (m + 1) len len_worst)
        (Moved t e old)
unfolding move_loop steps
move_from zero t e old m len len_worst n p before a b = absurd (omega (arith, a, b))
move_from (suc fuel) t e old m len len_worst n p before a b =
    let (x, at) = next_entry t e.hash (steps t.alloc e.hash old m) n p in
    elim (Bool-cases (is_set x)) [
      | inr f ↦ (
        some (steps t.alloc e.hash old (suc m), m + 1),
        rw (at, ◌>>=◌, f) refl,
        record {
          rounds = m;
          ends = refl;
          free_at = record { entry = x; at = at; free_lem = f };
          passed = before;
        },
      )
      | inl s ↦ elim (Bool-cases (leb (len_worst - 1) (len + (m + 1)))) [
        | inl stop ↦ (none, rw (at, ◌>>=◌, s, stop) refl, tt)
        | inr on ↦
            let all =
              one_more (λ i. IsSetAt t (steps t.alloc e.hash old (suc i))) m before
                (record { entry = x; at = at; set_lem = s }) in
            let (o, runs, found) =
              move_from fuel t e old (suc m) len len_worst n p all (ground (arith, on))
                (omega (arith, b)) in
            (
              o,
              rw (at, ◌>>=◌, s, on)
                  (ap
                      (λ (k : ℕ).
                        move_loop fuel t e.hash (steps t.alloc e.hash old (suc (suc m))) k len
                          len_worst)
                      {x = m + 1 + 1} {y = suc m + 1} (omega arith)
                    ∙ runs),
              found,
            )
      ]
    ]

-- What the loop has found: an entry that is set, and its move.
pub record IsBetter (t : Table) (hash k : ℕ) (b : Better) : Type 0 where
  pub number : ℕ
  pub in_range : number < k
  pub start : b.move_old ≡ probe t.alloc hash number
  pub entry : Entry
  pub at : get_elem? t.entries (probe t.alloc hash number) ≡ some entry
  pub move : IsMove t entry (probe t.alloc hash number) b.move_new

abbrev pub Best : Table → ℕ → ℕ → Option Better → Type 0
Best t hash k none = Unit
Best t hash k (some b) = IsBetter t hash k b

-- The best after a round.
better_of_lem :
    (t : Table) (hash k j : ℕ) (best : Option Better) (e : Entry) (o : Option (ℕ × ℕ))
    → j < k
    → get_elem? t.entries (probe t.alloc hash j) ≡ some e
    → Best t hash k best
    → Moved t e (probe t.alloc hash j) o
    → Best t hash k (better_of best (probe t.alloc hash j) o)
unfolding better_of
better_of_lem t hash k j best e none l at old found = old
better_of_lem t hash k j best e (some (s, len)) l at old found = record {
  number = j;
  in_range = l;
  start = refl;
  entry = e;
  at = at;
  move = found;
}

-- Where the loop ends without a move, its slot is the last before the free one.
last_lem :
    (t : Table) (hash j i : ℕ) (best : Option Better)
    → i + 2 ≤ size_max
    → j + 1 ≤ i
    → (ltb (j + 1 + 1) (i + 2 - 1) && ltb (j + 1 + 1) (best_len best)) ≡ false
    → best ≡ none
    → next_slot t.alloc hash (probe t.alloc hash j) ≡ probe t.alloc hash i
unfolding best_len probe
last_lem t hash j i best small l stop e =
    let most : best_len best ≡ size_max = ap best_len e in
    let same : suc j ≡ i = ground (arith, most, stop, small, l) in ap (probe t.alloc hash) same

-- The do-while loop from a probe on, for a first free probe of number i + 1: it ends with the best move
-- that it found, or with the last slot before the free one.
better_from :
    (fuel : ℕ) (t : Table) (hash j i : ℕ) (best : Option Better)
    → length t.entries ≡ t.alloc
    → 0 < t.alloc
    → FirstFree t hash (suc i)
    → i + 2 ≤ size_max
    → j + 1 ≤ i
    → i < j + fuel
    → Best t hash (suc i) best
    → Returns
        (better_loop fuel t hash (probe t.alloc hash j) (j + 1) (i + 2) best)
        (λ (b, h). Best t hash (suc i) b × (b ≡ none → h ≡ probe t.alloc hash i))
unfolding better_loop probe steps
better_from zero t hash j i best n p f small l h old = absurd (omega (arith, l, h))
better_from (suc fuel) t hash j i best n p f small l h old =
    let s = f.before j (omega (arith, l)) in
    let (o, runs, found) =
      move_from (i + 2) t s.entry (probe t.alloc hash j) 0 (j + 1) (i + 2) n p
        (λ q r. absurd (omega (arith, r))) (omega (arith, l)) (omega arith) in
    let moves : move_loop (i + 2) t s.entry.hash
          (next_slot t.alloc s.entry.hash (probe t.alloc hash j)) 1 (j + 1) (i + 2)
        ≡ some o =
      runs in
    let best' : Option Better = better_of best (probe t.alloc hash j) o in
    let good = better_of_lem t hash (suc i) j best s.entry o (omega (arith, l)) s.at old found in
    elim (Bool-cases (ltb (j + 1 + 1) (i + 2 - 1) && ltb (j + 1 + 1) (best_len best'))) [
      | inl on ↦
          let (r, goes, best_end) =
            better_from fuel t hash (suc j) i best' n p f small (ground (arith, on))
              (omega (arith, h)) good in
          (
            r,
            rw (s.at, ◌>>=◌, moves, ◌>>=◌, on)
                (ap
                    (λ (k : ℕ).
                      better_loop fuel t hash (probe t.alloc hash (suc j)) k (i + 2) best')
                    {x = j + 1 + 1} {y = suc j + 1} (omega arith)
                  ∙ goes),
            best_end,
          )
      | inr stop ↦ (
        (best', next_slot t.alloc hash (probe t.alloc hash j)),
        rw (s.at, ◌>>=◌, moves, ◌>>=◌, stop) refl,
        (good, λ e. last_lem t hash j i best' small l stop e),
      )
    ]

pub better_loop_lem :
    (t : Table) (hash i : ℕ)
    → length t.entries ≡ t.alloc
    → 0 < t.alloc
    → FirstFree t hash (suc i)
    → i + 2 ≤ size_max
    → 1 ≤ i
    → Returns
        (better_loop (i + 2) t hash (home t.alloc hash) 1 (i + 2) none)
        (λ (b, h). Best t hash (suc i) b × (b ≡ none → h ≡ probe t.alloc hash i))
unfolding probe
better_loop_lem t hash i n p f small l =
    better_from (i + 2) t hash 0 i none n p f small l (omega arith) tt
