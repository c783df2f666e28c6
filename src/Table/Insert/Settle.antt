-- ===== src/Table/Insert/Settle.antt =====
-- What `lws_table_insert` (src/lws_table.c, lines 356 to 419) returns.
use lambda_lws.Prelude.{
  ℕ, suc, ◌+◌, ◌-◌, ◌≤◌, ◌<◌, ◌≡◌, refl, ap, subst, ◌∙◌, inl, inr, Bool-cases, Option, none, some,
  List, leb, length, get_elem?, set, ◌>>=◌, Returns, arith,
}
use lambda_lws.Codec.Base64.{size_max}
use lambda_lws.Table.{Entry, Table, relink, put_entry}
use lambda_lws.Table.Find.{home, next_slot}
use lambda_lws.Table.Find.Probes.{probe}
use lambda_lws.Table.Insert.{Better, better_loop, settle, insert}
use lambda_lws.Table.Insert.Slots.{IsSetAt, FirstFree, HasRoom, HasRoom-FirstFree, worst_loop_lem}
use lambda_lws.Table.Insert.Moves.{IsMove, Best, better_loop_lem}
use lambda_lws.Table.Insert.Queue.{In, Relinked, relink_lem}

-- The table and the slot for a hash: the first free slot on its probes, the table being as it was; or the
-- slot of an entry on its probes before that, which has been moved.
pub data Inserted (t : Table) (hash : ℕ) : Table × ℕ → Type 0 where
  direct : (k : ℕ) → FirstFree t hash k → Inserted t hash (t, probe t.alloc hash k)
  moved :
      (k j : ℕ) (e : Entry) (new : ℕ) (order' : List ℕ)
      → FirstFree t hash k
      → j < k
      → get_elem? t.entries (probe t.alloc hash j) ≡ some e
      → IsMove t e (probe t.alloc hash j) new
      → Relinked t.order (probe t.alloc hash j) new order'
      → Inserted t hash
          (record t { entries = set t.entries new e; order = order' }, probe t.alloc hash j)

-- Every entry that is set is in the queue.
abbrev pub IsQueued : Table → Type 0
IsQueued t = (s : ℕ) → IsSetAt t s → In s t.order

settle_move :
    (t : Table) (hash h : ℕ) (b : Better) (e x : Entry) (order' : List ℕ)
    → get_elem? t.entries b.move_old ≡ some e
    → get_elem? t.entries b.move_new ≡ some x
    → relink t.order b.move_old b.move_new ≡ some order'
    → settle t hash (some b, h)
      ≡ some (record t { entries = set t.entries b.move_new e; order = order' }, b.move_old)
unfolding settle put_entry
settle_move t hash h b e x order' p q r = rw (p, ◌>>=◌, q, ◌>>=◌, r) refl

settle_lem :
    (t : Table) (hash i : ℕ) (b : Option Better) (h : ℕ)
    → FirstFree t hash (suc i)
    → IsQueued t
    → Best t hash (suc i) b
    → (b ≡ none → h ≡ probe t.alloc hash i)
    → Returns (settle t hash (b, h)) (Inserted t hash)
unfolding settle probe
settle_lem t hash i none h f queued best last =
    let e = last refl in
    (
      (t, next_slot t.alloc hash (probe t.alloc hash i)),
      ap (λ (s : ℕ). some (t, next_slot t.alloc hash s)) e,
      direct (suc i) f,
    )
settle_lem t hash i (some b) h f queued best last =
    let old = probe t.alloc hash best.number in
    let (order', relinks, l) =
      relink_lem t.order old b.move_new (queued old (f.before best.number best.in_range)) in
    let u : Table = record t { entries = set t.entries b.move_new best.entry; order = order' } in
    (
      (u, old),
      settle_move t hash h b best.entry best.move.free_at.entry order'
            (ap (get_elem? t.entries) best.start ∙ best.at) best.move.free_at.at
            (ap (λ (s : ℕ). relink t.order s b.move_new) best.start ∙ relinks)
          ∙ ap (λ (s : ℕ). some (u, s)) best.start,
      moved (suc i) best.number best.entry b.move_new order' f best.in_range best.at best.move l,
    )

-- In a table whose entries that are set are in its queue, and where some probe of the hash is free,
-- lws_table_insert ends and makes no access outside the table: it gives the first free slot on the probes
-- of the hash and leaves the table as it is; or it gives the slot of an entry before that, which it has
-- moved along its own probes, all of them set until then, to a free slot, with the queue naming the new
-- slot in place of the old one.
pub insert_lem :
    (t : Table) (hash : ℕ)
    → length t.entries ≡ t.alloc
    → t.alloc ≤ size_max
    → IsQueued t
    → HasRoom t hash
    → Returns (insert t hash) (Inserted t hash)
unfolding insert
insert_lem t hash n small queued room =
    let (k, l, f) = HasRoom-FirstFree t hash n room in
    let worst = worst_loop_lem t hash k f l in
    elim (Bool-cases (leb (k + 1) 2)) [
      | inl e ↦ ((t, probe t.alloc hash k), rw (worst, ◌>>=◌, e) refl, direct k f)
      | inr e ↦
          let i = k - 1 in
          let pred : k ≡ suc i = ground (arith, e) in
          let f' : FirstFree t hash (suc i) = subst (FirstFree t hash) pred f in
          let ((b, h), loops, (best, last)) =
            better_loop_lem t hash i n (omega (arith, l)) f' (omega (arith, pred, l, small))
              (ground (arith, e)) in
          let ((u, s), settles, done) = settle_lem t hash i b h f' queued best last in
          let same : k + 1 ≡ i + 2 = omega (arith, pred) in
          let loops' : better_loop (k + 1) t hash (home t.alloc hash) 1 (k + 1) none ≡ some (b, h) =
            ap (λ (q : ℕ). better_loop q t hash (home t.alloc hash) 1 q none) same ∙ loops in
          ((u, s), rw (worst, ◌>>=◌, e, loops', ◌>>=◌) settles, done)
    ]
