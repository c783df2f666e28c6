-- ===== src/Table/Methods/Clear.antt =====
-- `lws_table_clear` (src/lws_table.c, lines 78 to 93) empties a table and frees what it holds.
use lambda_lws.Prelude.{
  ℕ, zero, suc, ◌+◌, ◌-◌, ◌%◌, ◌≤◌, ◌<◌, ◌≡◌, refl, sym, ap, subst, ◌∙◌, inl, inr, Bool, true,
  false, Bool-cases, ◌||◌, none, some, List, [], ◌∷◌, ◌==◌, if◌then◌else◌, if_on, if_off, get_elem?,
  replicate, length, length-set, All, Run, ◌>>=◌, Returns, arith,
}
use lambda_lws.Codec.Base64.{size_max}
use lambda_lws.Table.{Table, blank, is_unused, dequeue}
use native.Mathlib.Nat.{mod-lt}
use lambda_lws.Table.Find.{home, find_loop, find}
use lambda_lws.Table.Find.Probes.{entry_at}
use lambda_lws.Table.Methods.{remove, last_of, remove_all, empty_queue, clear}
use lambda_lws.Table.Methods.Lookup.{removed_entry, removed, remove_lem}

-- The last element of a queue is in it, and leaves a queue that is shorter by one.
dequeue-last_of :
    (s : ℕ) (ss : List ℕ) (P : ℕ → Type 0)
    → All P (s ∷ ss)
    → (order' : List ℕ) × (dequeue (s ∷ ss) (last_of s ss) ≡ some order')
      × (length order' ≡ length ss)
      × All P order'
      × P (last_of s ss)
unfolding dequeue last_of
dequeue-last_of s [] P (p, _) = ([], if_on (s == s) (some []) none (ground arith), refl, tt, p)
dequeue-last_of s (y ∷ ys) P (p, ps) =
    let r = dequeue-last_of y ys P ps in
    elim (Bool-cases (s == last_of y ys)) [
      | inl e ↦ (y ∷ ys, rw e refl, refl, ps, r.4)
      | inr e ↦ (s ∷ r.0, rw (e, r.1) refl, ap suc r.2, (p, r.3), r.4)
    ]

-- What is left when all entries have been removed.
pub record Emptied (t u : Table) : Type 0 where
  pub order : u.order ≡ []
  pub count : u.count ≡ 0
  pub alloc : u.alloc ≡ t.alloc
  pub ci : u.ci ≡ t.ci
  pub freed : length u.freed ≡ length t.freed + (if t.free then length t.order else 0)

-- The queue holds slots of the table, as many as are counted.
pub record IsCounted (t : Table) : Type 0 where
  pub slots : All (λ s. s < length t.entries) t.order
  pub counted : t.count ≡ length t.order
  pub in_range : t.count ≤ size_max

first_of : (n : ℕ) (xs : List ℕ) → length xs ≡ suc n → (s : ℕ) × ((ss : List ℕ) × (xs ≡ s ∷ ss))
first_of n [] h = absurd (omega (arith, h))
first_of n (x ∷ xs) h = (x, (xs, refl))

empty_of : (xs : List ℕ) → length xs ≡ 0 → xs ≡ []
empty_of [] h = refl
empty_of (x ∷ xs) h = absurd (omega (arith, h))

-- The rounds of the loop, by the queue.
abbrev rounds_by : ℕ → Table → List ℕ → Run Table
rounds_by n t order = elim order [ [] ↦ some t | s ∷ ss ↦ remove t (last_of s ss) >>= remove_all n ]

-- One entry more counts as one value more that is freed.
freed_one :
    (free : Bool) (v n m k : ℕ) (vs ws : List ℕ)
    → length ws ≡ length (if free then v ∷ vs else vs) + (if free then m else 0)
    → n ≡ suc m
    → length ws ≡ length vs + (if free then n else 0)
freed_one true v n m k vs ws h e = omega (arith, h, e)
freed_one false v n m k vs ws h e = h

remove_all_lem :
    (n : ℕ) (t : Table) → IsCounted t → length t.order ≡ n → Returns (remove_all n t) (Emptied t)
unfolding remove_all
remove_all_lem zero t v h = (
  t,
  if_on (length t.order == 0) (some t) none (ground (arith, h)),
  record {
    order = empty_of t.order h;
    count = v.counted ∙ h;
    alloc = refl;
    ci = refl;
    freed = omega (arith, zero_if t.free (length t.order) h);
  },
)
  where
    zero_if : (b : Bool) (m : ℕ) → m ≡ 0 → (if b then m else 0) ≡ 0
    zero_if b m e = ground (arith, e)
remove_all_lem (suc n) t v h =
    let (s, (ss, eo)) = first_of n t.order h in
    let r : ℕ = last_of s ss in
    let d =
      dequeue-last_of s ss (λ q. q < length t.entries)
        (subst (All (λ q. q < length t.entries)) eo v.slots) in
    let (e, at) = entry_at t.entries r d.4 in
    let u : Table = removed t r e d.0 in
    let runs = remove_lem t r e d.0 at (ap (λ q. dequeue q r) eo ∙ d.1) in
    let shorter : length d.0 ≡ n = omega (arith, d.2, ap length eo, h) in
    let w =
      remove_all_lem n u
        (record {
          slots =
              subst (λ q. All (λ x. x < q) d.0) (sym (length-set t.entries r (removed_entry t e)))
                d.3;
          counted = omega (arith, v.counted, v.in_range, h, shorter);
          in_range = omega (arith, v.counted, v.in_range, h);
        })
        shorter in
    (
      w.0,
      (λ i. rounds_by n t (eo i)) ∙ ((λ i. runs i >>= remove_all n) ∙ w.1),
      record {
        order = w.2.order;
        count = w.2.count;
        alloc = w.2.alloc;
        ci = w.2.ci;
        freed =
            freed_one t.free e.value (length t.order) (length d.0) n t.freed w.0.freed w.2.freed
              (omega (arith, h, shorter));
      },
    )

blank_at : (n s : ℕ) → s < n → get_elem? (replicate n blank) s ≡ some blank
blank_at zero s h = absurd (omega arith)
blank_at (suc n) zero h = refl
blank_at (suc n) (suc s) h = blank_at n s (omega arith)

find_loop-blank :
    (n : ℕ) (u : Table) (key : List ℕ) (hash h : ℕ)
    → get_elem? u.entries h ≡ some blank
    → find_loop (suc n) u key hash h ≡ some none
unfolding find_loop is_unused
find_loop-blank n u key hash h e = rw (e, ◌>>=◌) refl

find-blank :
    (u : Table) (key : List ℕ) (hash n : ℕ)
    → u.entries ≡ replicate n blank
    → u.alloc ≡ n
    → 1 ≤ n
    → find u key hash ≡ some none
unfolding find
find-blank u key hash n e a h =
    let one_more : suc (u.alloc - 1) ≡ u.alloc = omega (arith, a, h) in
    let s : ℕ = home u.alloc hash in
    let range : s < n =
      unfold home in subst (λ q. hash % u.alloc < q) a (mod-lt hash (omega (arith, a, h))) in
    subst (λ q. find_loop q u key hash s ≡ some none) one_more
      (find_loop-blank (u.alloc - 1) u key hash s (ap (λ q. get_elem? q s) e ∙ blank_at n s range))

-- The queue emptied.
empty_queue_lem :
    (t : Table) → IsCounted t → (t.dup || t.free) ≡ true → Returns (empty_queue t) (Emptied t)
unfolding empty_queue
empty_queue_lem t v h =
    let r = remove_all_lem (length t.order) t v refl in
    (r.0, if_on (t.dup || t.free) (remove_all (length t.order) t) (some t) h ∙ r.1, r.2)

empty_queue_off : (t : Table) → (t.dup || t.free) ≡ false → empty_queue t ≡ some t
unfolding empty_queue
empty_queue_off t h = if_off (t.dup || t.free) (remove_all (length t.order) t) (some t) h

no_free : (d f : Bool) (m k : ℕ) → (d || f) ≡ false → m ≡ m + (if f then k else 0)
no_free d f m k h = ground (arith, h)

-- Clearing a table with as many entries in its queue as it counts, all of them slots of the table,
-- succeeds. Afterwards nothing is counted or queued and no search finds anything; where the table frees
-- values, as many have been freed as there were entries, and else none.
pub clear_lem :
    (t : Table)
    → IsCounted t
    → 1 ≤ t.alloc
    → Returns
        (clear t)
        (λ u. Emptied t u × ((key : List ℕ) (hash : ℕ) → find u key hash ≡ some none))
unfolding clear
clear_lem t v h = elim (Bool-cases (t.dup || t.free)) [
  | inl b ↦
      let q = empty_queue_lem t v b in
      let w : Table = record (q.0) { entries = replicate t.alloc blank } in
      (
        w,
        rw (q.1, ◌>>=◌, b) refl,
        (
          record {
            order = q.2.order;
            count = q.2.count;
            alloc = q.2.alloc;
            ci = q.2.ci;
            freed = q.2.freed;
          },
          λ key hash. find-blank w key hash t.alloc refl q.2.alloc h,
        ),
      )
  | inr b ↦
      let w : Table = record t { order = []; count = 0; entries = replicate t.alloc blank } in
      (
        w,
        rw (empty_queue_off t b, ◌>>=◌, b) refl,
        (
          record {
            order = refl;
            count = refl;
            alloc = refl;
            ci = refl;
            freed = no_free t.dup t.free (length t.freed) (length t.order) b;
          },
          λ key hash. find-blank w key hash t.alloc refl refl h,
        ),
      )
]
