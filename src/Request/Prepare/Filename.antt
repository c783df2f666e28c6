-- ===== src/Request/Prepare/Filename.antt =====
-- The file name that `lws_prepare_request` (src/lws_request.c, lines 214 to 228) puts together.
use lambda_lws.Prelude.{
  ℕ, ◌+◌, ◌-◌, ◌≤◌, ◌≡◌, refl, sym, ap, ◌∙◌, ◌⊎◌, inl, inr, Bool-cases, ◌||◌, Option, none, some,
  Option-cases, List, [], ◌∷◌, ◌++◌, ltb, leb, length, take, take_eq, take_past, Run, ◌>>=◌,
  Returns, arith,
}
use native.Mathlib.Nat.{zero-add}
use lambda_lws.Codec.Base64.{size_max}
use lambda_lws.Body.{copy}
use lambda_lws.Body.Reserve.{copy_lem}
use lambda_lws.Request.Substitute.{Alloc}
use lambda_lws.Request.Substitute.Loops.{Allocates}
use lambda_lws.Request.Prepare.{fill_filename, filename_in, filename}

-- The text of a file name and its zero byte.
abbrev pub filename_text : List ℕ → List ℕ → List ℕ
filename_text root main = root ++ b'/' ∷ [] ++ main ++ 0 ∷ []

fill_filename_lem :
    (root main block : List ℕ)
    → length block ≡ length root + 1 + length main + 1
    → fill_filename root main block ≡ some (filename_text root main)
unfolding fill_filename
fill_filename_lem root main block h =
    let n = length root in
    let (b, b_runs, (b_len, b_text)) = copy_lem block 0 root (omega arith) in
    let (c, c_runs, (c_len, c_text)) = copy_lem b n (b'/' ∷ []) (omega arith) in
    let (d, d_runs, (d_len, d_text)) = copy_lem c (n + 1) main (omega arith) in
    let (e, e_runs, (e_len, e_text)) = copy_lem d (n + 1 + length main) (0 ∷ []) (omega arith) in
    let root_in : take n b ≡ root = take_eq b (sym (zero-add n)) ∙ b_text in
    let slash_in : take (n + 1) c ≡ root ++ b'/' ∷ [] =
      c_text ∙ ap (λ (q : List ℕ). q ++ b'/' ∷ []) root_in in
    let main_in : take (n + 1 + length main) d ≡ root ++ b'/' ∷ [] ++ main =
      d_text ∙ ap (λ (q : List ℕ). q ++ main) slash_in in
    let whole : e ≡ filename_text root main =
      sym (take_past (n + 1 + length main + 1) e (omega arith))
      ∙ e_text
      ∙ ap (λ (q : List ℕ). q ++ 0 ∷ []) main_in in
    ap
      (λ (q : Run (List ℕ)).
        q
        >>= (λ (b : List ℕ). copy b n (b'/' ∷ []))
        >>= (λ (c : List ℕ). copy c (n + 1) main)
        >>= (λ (d : List ℕ). copy d (n + 1 + length main) (0 ∷ [])))
      b_runs
    ∙ ap
        (λ (q : Run (List ℕ)).
          q
          >>= (λ (c : List ℕ). copy c (n + 1) main)
          >>= (λ (d : List ℕ). copy d (n + 1 + length main) (0 ∷ [])))
        c_runs
    ∙ ap (λ (q : Run (List ℕ)). q >>= (λ (d : List ℕ). copy d (n + 1 + length main) (0 ∷ [])))
        d_runs
    ∙ e_runs
    ∙ ap some whole

-- A file name is the task root, a slash, the main path and a zero byte; there is none if the name would
-- not fit a `size_t`, or `lws_alloc` has refused a block for it.
unfoldable pub Named : Alloc → List ℕ → List ℕ → Option (List ℕ) → Type 0
Named alloc root main (some block) =
    (block ≡ filename_text root main) × (length root + 1 + length main + 1 ≤ size_max)
Named alloc root main none =
    (size_max ≤ length root + 1 + length main) ⊎ (alloc (length root + 1 + length main + 1) ≡ none)

pub filename_lem :
    (alloc : Alloc) (root main : List ℕ)
    → Allocates alloc
    → Returns (filename alloc root main) (Named alloc root main)
unfolding filename filename_in Allocates Named
filename_lem alloc root main gives =
    let room = ltb (size_max - 1) (length root) || leb (size_max - 1 - length root) (length main) in
    elim (Bool-cases room) [
      | inl e ↦ (none, rw e refl, inl (ground arith))
      | inr e ↦ elim (Option-cases (alloc (length root + 1 + length main + 1))) [
        | inl refused ↦ (none, rw (e, refused) refl, inr refused)
        | inr (block, given) ↦ (
          some (filename_text root main),
          rw (e, given, fill_filename_lem root main block (gives _ block given)) refl,
          (refl, ground arith),
        )
      ]
    ]
