-- ===== src/Table/Insert/Queue.antt =====
-- The queue of a table when `lws_table_insert` moves an entry (src/lws_table.c, lines 410 and 411).
use lambda_lws.Prelude.{
  ℕ, suc, ◌≡◌, ◌≢◌, refl, ap, ◌⊎◌, inl, inr, Bool-cases, some, List, [], ◌∷◌, ◌++◌, ◌==◌, length,
  arith,
}
use lambda_lws.Table.{relink}

-- A slot is in a queue.
abbrev pub In : ℕ → List ℕ → Type 0
In s [] = ⊥
In s (x ∷ xs) = (s ≡ x) ⊎ In s xs

pub In-append_left : (s : ℕ) (xs ys : List ℕ) → In s xs → In s (xs ++ ys)
In-append_left s [] ys h = absurd h
In-append_left s (x ∷ xs) ys (inl e) = inl e
In-append_left s (x ∷ xs) ys (inr h) = inr (In-append_left s xs ys h)

pub In-append_last : (s : ℕ) (xs : List ℕ) → In s (xs ++ s ∷ [])
In-append_last s [] = inl refl
In-append_last s (x ∷ xs) = inr (In-append_last s xs)

-- A slot of the queue is replaced by another, and the rest stays.
pub record Relinked (xs : List ℕ) (s r : ℕ) (ys : List ℕ) : Type 0 where
  pub here : In r ys
  pub others : (x : ℕ) → In x xs → x ≢ s → In x ys
  pub count : length ys ≡ length xs

pub relink_lem :
    (xs : List ℕ) (s r : ℕ)
    → In s xs
    → (ys : List ℕ) × (relink xs s r ≡ some ys) × Relinked xs s r ys
unfolding relink
relink_lem [] s r h = absurd h
relink_lem (x ∷ xs) s r h = elim (Bool-cases (x == s)) [
  | inl e ↦ (
    r ∷ xs,
    rw e refl,
    record {
      here = inl refl;
      others = λ y p ne. elim p [ inl q ↦ absurd (ne (ground (arith, e, q))) | inr q ↦ inr q ];
      count = refl;
    },
  )
  | inr e ↦
      let deeper : In s xs = elim h [ inl q ↦ absurd (ground (arith, e, q)) | inr q ↦ q ] in
      let (ys, runs, l) = relink_lem xs s r deeper in
      (
        x ∷ ys,
        rw (e, runs) refl,
        record {
          here = inr l.here;
          others = λ y p ne. elim p [ inl q ↦ inl q | inr q ↦ inr (l.others y q ne) ];
          count = ap suc l.count;
        },
      )
]
