-- ===== src/Table/Size.antt =====
-- The sizes of src/lws_table.c: `lws_table_sizes` (lines 22 to 38), `lws_table_size` (lines 273 to 291)
-- and `lws_table_load` (lines 293 to 295).
use lambda_lws.Prelude.{
  ℕ, suc, ◌+◌, ◌*◌, ◌/◌, ◌%◌, ◌^◌, subst, ◌≤◌, ◌<◌, ◌≡◌, refl, inl, inr, Bool, true, false,
  Bool-cases, Option, none, some, List, [], ◌∷◌, ltb, leb, if◌then◌else◌, length, get_or, arith,
}
use lambda_lws.Codec.Base64.{size_mod}
use lambda_lws.Search.{before, search_loop}
use lambda_lws.Search.Bounds.{search-IsFirst, is_sorted, get_or_mono}

unfoldable pub table_sizes : List ℕ
table_sizes =
    3 ∷ 5 ∷ 7 ∷ 11 ∷ 13 ∷ 17 ∷ 23 ∷ 29 ∷ 41 ∷ 53 ∷ 67 ∷ 89 ∷ 127 ∷ 157 ∷ 211 ∷ 277 ∷ 373 ∷ 499 ∷ 659
    ∷ 877 ∷ 1171 ∷ 1553 ∷ 2081 ∷ 2767 ∷ 3691 ∷ 4909 ∷ 6547 ∷ 8731 ∷ 11633 ∷ 15511 ∷ 20681 ∷ 27581
    ∷ 36749 ∷ 49003 ∷ 65353 ∷ 87107 ∷ 116141 ∷ 154871 ∷ 206477 ∷ 275299 ∷ 367069 ∷ 489427 ∷ 652559
    ∷ 870083 ∷ 1160111 ∷ 1546799 ∷ 2062391 ∷ 2749847 ∷ 3666461 ∷ 4888619 ∷ 6518173 ∷ 8690917
    ∷ 11587841 ∷ 15450437 ∷ 20600597 ∷ 27467443 ∷ 36623261 ∷ 48831017 ∷ 65107997 ∷ 86810681
    ∷ 115747549 ∷ 154330079 ∷ 205773427 ∷ 274364561 ∷ 365819417 ∷ 487759219 ∷ 650345651 ∷ 867127501
    ∷ 1156170011 ∷ 1541560037 ∷ 2055413317 ∷ 2740551103 ∷ 3654068141 ∷ 4872090871 ∷ 6496121063
    ∷ 8661494753 ∷ 11548659701 ∷ 15398212901 ∷ 20530950533 ∷ 27374600677 ∷ 36499467569 ∷ 48665956771
    ∷ 64887942367 ∷ 86517256433 ∷ 115356341911 ∷ 153808455923 ∷ 205077941191 ∷ 273437254897
    ∷ 364583006561 ∷ 486110675443 ∷ 648147567293 ∷ 864196756231 ∷ 1152262341641 ∷ 1536349788871
    ∷ 2048466385123 ∷ 2731288513529 ∷ 3641718017983 ∷ 4855624023953 ∷ 6474165365293 ∷ 8632220487029
    ∷ 11509627316059 ∷ 15346169754719 ∷ 20461559672951 ∷ 27282079563967 ∷ 36376106085223
    ∷ 48501474780299 ∷ 64668633040457 ∷ 86224844053847 ∷ 114966458738489 ∷ 153288611651291
    ∷ 204384815535079 ∷ 272513087380099 ∷ []

-- lws_table_sizes_n
abbrev pub table_sizes_n : ℕ
table_sizes_n = 112

-- lws_table_sizes[i]
unfoldable pub size_at : ℕ → ℕ
size_at i = get_or table_sizes i 0

-- lws_table_sizes[mid] < size
unfoldable pub smaller : ℕ → ℕ → Bool
smaller size mid = ltb (size_at mid) size

-- lws_table_size: `none` is the result (size_t)-1.
unfoldable pub table_size : ℕ → Option ℕ
table_size size =
    let lower = search_loop (smaller size) (suc table_sizes_n) 0 (before table_sizes_n) in
    if leb table_sizes_n lower then none else some (size_at lower)

-- lws_table_load
unfoldable pub table_load : ℕ → ℕ
table_load alloc = alloc / 2 ^ 1 + alloc / 2 ^ 2 + alloc / 2 ^ 3

table_sizes_sorted : is_sorted table_sizes ≡ true
unfolding is_sorted table_sizes
table_sizes_sorted = refl

length-table_sizes : length table_sizes ≡ 112
unfolding table_sizes
length-table_sizes = refl

-- A larger number gives a size at least as large.
pub size_at_mono : (i j : ℕ) → i ≤ j → j < 112 → size_at i ≤ size_at j
unfolding size_at
size_at_mono i j h k =
    get_or_mono table_sizes i j table_sizes_sorted h (omega (arith, length-table_sizes))

smaller_sorted : (c i j : ℕ) → i ≤ j → j < 112 → smaller c j ≡ true → smaller c i ≡ true
unfolding smaller
smaller_sorted c i j h k e = ground (arith, size_at_mono i j h k)

-- What `lws_table_size` answers for a size: the first size of the table that is large enough, every
-- one before it being too small; or none, when all are.
unfoldable pub Sized : ℕ → Option ℕ → Type 0
Sized size none = (i : ℕ) → i < table_sizes_n → size_at i < size
Sized size (some a) =
    (i : ℕ) × (i < table_sizes_n)
    × (a ≡ size_at i)
    × (size ≤ a)
    × ((j : ℕ) → j < i → size_at j < size)

-- For every size `lws_table_size` returns the smallest size of the table that is large enough, and -1
-- exactly when all of them are too small.
pub table_size_lem : (size : ℕ) → Sized size (table_size size)
unfolding table_size Sized
table_size_lem size =
    let f = search-IsFirst (smaller size) 112 (smaller_sorted size) 112 (omega arith) in
    let r = search_loop (smaller size) 113 0 (before 112) in
    elim (Bool-cases (leb 112 r)) [
      | inl e ↦ rw e (λ i h. below i (f.passed i (ground (arith, e))))
      | inr e ↦ rw e (
        r,
        ground (arith, e),
        refl,
        above r (f.failed r (omega arith) (ground (arith, e))),
        λ j h. below j (f.passed j h),
      )
    ]
  where
    below : (i : ℕ) → smaller size i ≡ true → size_at i < size
    below i e = unfold smaller in ground (arith)

    above : (i : ℕ) → smaller size i ≡ false → size ≤ size_at i
    above i e = unfold smaller in ground (arith)

-- The load limit leaves a slot free, and is not above seven eighths of the slots.
pub table_load-lt :
    (alloc : ℕ) → 1 ≤ alloc → (table_load alloc < alloc) × (table_load alloc * 8 ≤ alloc * 7)
unfolding table_load
table_load-lt alloc h = (omega arith, omega arith)

-- The slots that `lws_table_create` asks for, for an expected load.
unfoldable pub slots_for : ℕ → ℕ
slots_for load = (load + (if ltb load (size_at 111) then load / 7 + 3 else 0)) % size_mod

-- For an expected load below the largest size, and a size that the table of sizes gives for it, the
-- load limit is at least the expected load.
pub table_load-slots_for :
    (load alloc : ℕ)
    → load < 272513087380099
    → table_size (slots_for load) ≡ some alloc
    → load ≤ table_load alloc
unfolding Sized
table_load-slots_for load alloc h e =
    let large : size_at 111 ≡ 272513087380099 = unfold size_at table_sizes in refl in
    let enough : slots_for load ≤ alloc =
      (subst (Sized (slots_for load)) e (table_size_lem (slots_for load))).3 in
    let slots : slots_for load ≡ load + load / 7 + 3 =
      unfold slots_for in ground (arith, large, h) in
    unfold table_load in omega (arith, enough, slots)
