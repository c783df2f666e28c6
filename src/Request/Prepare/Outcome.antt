-- ===== src/Request/Prepare/Outcome.antt =====
-- How `lws_prepare_request` (src/lws_request.c, lines 189 to 252) ends.
use lambda_lws.Prelude.{
  ℕ, ◌+◌, ◌≡◌, refl, sym, subst, ap, ap₂, ◌∙◌, inl, inr, Bool, true, false, Bool-cases, Option,
  none, some, Option-cases, List, ◌==◌, if_on, length, ℤ, pos, rc_ok, rc_error, Run, arith,
}
use lambda_lws.Table.{Table}
use lambda_lws.Request.Substitute.{Match}
use lambda_lws.Request.Substitute.Expand.{pieces, expand, IsMatches}
use lambda_lws.Request.Substitute.Loops.{Allocates, Substituted, string_sub_lem}
use lambda_lws.Request.Prepare.{
  Request, Library, fs_found, get_file_status, path_match, Prepared, open_body, with_info,
  prepare_info, with_status, with_filename, with_main, with_match, prepare_request,
}
use lambda_lws.Table.Hash.{IsText}
use lambda_lws.Table.Refine.Setting.{HasSpace}
use lambda_lws.Request.Prepare.Status.{
  IsCache, HasNone, IsFound, IsMissing, Looked, get_file_status_lem, file_name, take-filename_text,
}
use lambda_lws.Request.Prepare.Groups.{path_match_lem}
use lambda_lws.Request.Prepare.Filename.{filename_text, Named, filename_lem}

-- Why a request cannot be prepared: the main path or the path info cannot be substituted, there is no
-- file name, or the body cannot be opened.
pub data Failure (w : Library) (r : Request) (m : List Match) : Type 0 where
  no_main : Substituted w.alloc_main r.main r.req_path m none → Failure w r m
  no_filename :
      (main : List ℕ)
      → expand m r.req_path (pieces r.main) ≡ some main
      → Named w.alloc_filename r.task_root main none
      → Failure w r m
  no_info : Substituted w.alloc_path_info r.path_info r.req_path m none → Failure w r m
  no_body : w.opens_body ≡ false → Failure w r m

-- The path info: none without a template, else the text of the template.
pub data IsInfo (r : Request) (m : List Match) (q : Prepared) : Type 0 where
  no_template : length r.path_info ≡ 0 → IsInfo r m q
  substituted :
      (info : List ℕ)
      → expand m r.req_path (pieces r.path_info) ≡ some info
      → q.req_path_info ≡ some info
      → IsInfo r m q

-- Whether the file of a main path is found, and the cache then.
abbrev pub FileFound : Library → Request → Table → List ℕ → Table → Type 0
FileFound w r t main u = IsFound w t (file_name r.task_root main) (filename_text r.task_root main) u

abbrev pub FileMissing : Library → Request → Table → List ℕ → Table → Type 0
FileMissing w r t main u =
    IsMissing w t (file_name r.task_root main) (filename_text r.task_root main) u

-- 0 for a path that matches, with its file found, the file name and the path info set and the body
-- open; 404 for a path that does not match or whose file is not found; and -1 for a failure.
pub data Outcome (w : Library) (r : Request) (t : Table) : ℤ → Prepared → Type 0 where
  not_matched : (q : Prepared) → path_match w r ≡ none → Outcome w r t (pos 404) q
  not_found :
      (q : Prepared) (m : List Match) (main : List ℕ)
      → path_match w r ≡ some m
      → expand m r.req_path (pieces r.main) ≡ some main
      → FileMissing w r t main q.stat_cache
      → Outcome w r t (pos 404) q
  ready :
      (q : Prepared) (m : List Match) (main : List ℕ)
      → path_match w r ≡ some m
      → expand m r.req_path (pieces r.main) ≡ some main
      → FileFound w r t main q.stat_cache
      → q.req_main ≡ some (filename_text r.task_root main, length r.task_root + 1 + length main)
      → IsInfo r m q
      → q.body_open ≡ true
      → Outcome w r t rc_ok q
  failed :
      (q : Prepared) (m : List Match)
      → path_match w r ≡ some m
      → Failure w r m
      → Outcome w r t rc_error q

abbrev pub Ends : Run (ℤ × Prepared) → (ℤ → Prepared → Type 0) → Type 0
Ends run P = (rc : ℤ) × ((q : Prepared) × (run ≡ some (rc, q)) × P rc q)

module _ (w : Library) (r : Request) (m : List Match) where
  -- The end behind a file that is found.
  data Rest (q : Prepared) : ℤ → Prepared → Type 0 where
    done :
        (p : Prepared)
        → p.stat_cache ≡ q.stat_cache
        → p.req_main ≡ q.req_main
        → IsInfo r m p
        → p.body_open ≡ true
        → Rest q rc_ok p
    undone : (p : Prepared) → Failure w r m → Rest q rc_error p

  open_body_lem :
      (q p : Prepared)
      → p.stat_cache ≡ q.stat_cache
      → p.req_main ≡ q.req_main
      → ((b : Bool) → IsInfo r m (record p { body_open = b }))
      → Ends (some (open_body w p)) (Rest q)
  unfolding open_body
  open_body_lem q p c n info = elim (Bool-cases w.opens_body) [
    | inl e ↦ (rc_ok, (record p { body_open = true }, rw e refl, done _ c n (info true) refl))
    | inr e ↦ (rc_error, (p, rw e refl, undone p (no_body e)))
  ]

  info_end :
      (q : Prepared) (o : Option (List ℕ))
      → Substituted w.alloc_path_info r.path_info r.req_path m o
      → Ends (some (with_info w q o)) (Rest q)
  unfolding with_info Substituted
  info_end q none h = (rc_error, (q, refl, undone q (no_info h)))
  info_end q (some info) h =
      open_body_lem q (record q { req_path_info = some info }) refl refl
        (λ b. substituted info h refl)

  prepare_info_lem :
      (q : Prepared)
      → Allocates w.alloc_path_info
      → IsMatches r.req_path m
      → Ends (prepare_info w r m q) (Rest q)
  unfolding prepare_info
  prepare_info_lem q gives ok = elim (Bool-cases (length r.path_info == 0)) [
    | inl e ↦ rw e (open_body_lem q q refl refl (λ b. no_template (ground arith)))
    | inr e ↦
        let (o, runs, text) = string_sub_lem w.alloc_path_info r.path_info r.req_path m gives ok in
        rw (e, runs) (info_end q o text)
  ]

module _ (w : Library) (r : Request) (t : Table) where
  Rest-Outcome :
      (m : List Match) (main : List ℕ) (q : Prepared) (u : Table)
      → path_match w r ≡ some m
      → expand m r.req_path (pieces r.main) ≡ some main
      → FileFound w r t main u
      → q.req_main ≡ some (filename_text r.task_root main, length r.task_root + 1 + length main)
      → (rc : ℤ) (z : Prepared) → Rest w r m (record q { stat_cache = u }) rc z
      → Outcome w r t rc z
  Rest-Outcome m main q u p x s n _ _ (done z c k info is_open) =
      ready z m main p x (subst (FileFound w r t main) (sym c) s) (k ∙ n) info is_open
  Rest-Outcome m main q u p x s n _ _ (undone z bad) = failed z m p bad

  status_end :
      (m : List Match) (main : List ℕ) (q : Prepared) (fs : ℕ) (u : Table)
      → Allocates w.alloc_path_info
      → IsMatches r.req_path m
      → path_match w r ≡ some m
      → expand m r.req_path (pieces r.main) ≡ some main
      → Looked w t (file_name r.task_root main) (filename_text r.task_root main) (fs, u)
      → q.req_main ≡ some (filename_text r.task_root main, length r.task_root + 1 + length main)
      → Ends (with_status w r m q (fs, u)) (Outcome w r t)
  unfolding with_status Looked
  status_end m main q fs u gives ok p x s n = elim s [
    | inr (f, missing) ↦
        let e : (fs == fs_found) ≡ false = ground (arith, f) in
        (pos 404, (_, rw e refl, not_found (record q { stat_cache = u }) m main p x missing))
    | inl (f, found) ↦
        let v : Prepared = record q { stat_cache = u } in
        let e : (fs == fs_found) ≡ true = ground (arith, f) in
        let (rc, (z, runs, rest)) = prepare_info_lem w r m v gives ok in
        (
          rc,
          (
            z,
            if_on (fs == fs_found) (prepare_info w r m v) (some (pos 404, v)) e ∙ runs,
            Rest-Outcome m main q u p x found n rc z rest,
          ),
        )
  ]

  -- The cache is usable, and for the name of the request's file, which has no zero byte: there is space for
  -- the name where the cache does not have it.
  pub record IsLookable : Type 0 where
    pub cache : IsCache w.widen t
    pub named :
        (m : List Match) (main : List ℕ)
        → path_match w r ≡ some m
        → expand m r.req_path (pieces r.main) ≡ some main
        → IsText (file_name r.task_root main)
    pub space :
        (m : List Match) (main : List ℕ)
        → path_match w r ≡ some m
        → expand m r.req_path (pieces r.main) ≡ some main
        → HasNone t (file_name r.task_root main)
        → HasSpace w.widen w.grants t (file_name r.task_root main)

  filename_end :
      (m : List Match) (main : List ℕ) (q : Prepared) (o : Option (List ℕ))
      → Allocates w.alloc_path_info
      → IsMatches r.req_path m
      → IsLookable
      → path_match w r ≡ some m
      → expand m r.req_path (pieces r.main) ≡ some main
      → q.stat_cache ≡ t
      → Named w.alloc_filename r.task_root main o
      → Ends (with_filename w r m q (length r.task_root + 1 + length main) o) (Outcome w r t)
  unfolding with_filename Named
  filename_end m main q none gives ok looks p x c h =
      (rc_error, (q, refl, failed q m p (no_filename main x h)))
  filename_end m main q (some block) gives ok looks p x c h =
      let len = length r.task_root + 1 + length main in
      let ((fs, u), runs, looked) =
        get_file_status_lem w t (file_name r.task_root main) (filename_text r.task_root main) len
          looks.cache (looks.named m main p x) (looks.space m main p x)
          (take-filename_text r.task_root main) in
      let e : get_file_status w q.stat_cache block (length r.task_root + 1 + length main)
          ≡ some (fs, u) =
        ap₂
          (λ (d : Table) (b : List ℕ). get_file_status w d b (length r.task_root + 1 + length main))
          c h.0
        ∙ runs in
      rw e (
        status_end m main
          (record q { req_main = some (block, length r.task_root + 1 + length main) }) fs u gives ok
          p x looked (ap (λ (b : List ℕ). some (b, length r.task_root + 1 + length main)) h.0))

  main_end :
      (m : List Match) (q : Prepared) (o : Option (List ℕ))
      → Allocates w.alloc_filename
      → Allocates w.alloc_path_info
      → IsMatches r.req_path m
      → IsLookable
      → path_match w r ≡ some m
      → q.stat_cache ≡ t
      → Substituted w.alloc_main r.main r.req_path m o
      → Ends (with_main w r m q o) (Outcome w r t)
  unfolding with_main Substituted
  main_end m q none gives gives_info ok looks p c h =
      (rc_error, (q, refl, failed q m p (no_main h)))
  main_end m q (some main) gives gives_info ok looks p c h =
      let (o, runs, named) = filename_lem w.alloc_filename r.task_root main gives in
      rw runs (filename_end m main q o gives_info ok looks p h c named)

pub prepare_request_lem :
    (w : Library) (r : Request) (t : Table)
    → Allocates w.alloc_main
    → Allocates w.alloc_filename
    → Allocates w.alloc_path_info
    → ((m : List Match) → w.regexec r.req_path ≡ some m → IsMatches r.req_path m)
    → IsLookable w r t
    → Ends (prepare_request w r t) (Outcome w r t)
unfolding prepare_request with_match
prepare_request_lem w r t gives_main gives gives_info matches looks =
    let q : Prepared = record {
      stat_cache = t;
      req_main = none;
      req_path_info = none;
      body_open = false;
    } in
    elim (Option-cases (path_match w r)) [
      | inl e ↦ (pos 404, (q, rw e refl, not_matched q e))
      | inr (m, e) ↦
          let ok = path_match_lem w r m matches e in
          let (o, runs, text) = string_sub_lem w.alloc_main r.main r.req_path m gives_main ok in
          let (rc, (z, ends, outcome)) =
            main_end w r t m q o gives gives_info ok looks e refl text in
          (rc, (z, rw (e, runs) ends, outcome))
    ]
