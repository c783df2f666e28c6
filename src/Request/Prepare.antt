-- ===== src/Request/Prepare.antt =====
-- `lws_get_file_status` (lines 43 to 57) and `lws_prepare_request` (lines 189 to 252) of
-- src/lws_request.c: the path of a request becomes the name of the main chunk's file. The C library's
-- answers are a parameter; a run is `none` if it accesses memory outside of a block or the cache.
pub mod Filename
pub mod Groups
pub mod Status
pub mod Outcome
use lambda_lws.Prelude.{
  ℕ, ◌+◌, ◌-◌, ◌*◌, ◌≤◌, Bool, true, false, ◌||◌, Option, none, some, List, [], ◌∷◌, ltb, leb, ◌==◌,
  if◌then◌else◌, length, take, replicate, ℤ, pos, negsuc, rc_ok, rc_error, Run, ◌>>=◌,
}
use lambda_lws.Codec.Base64.{size_max}
use lambda_lws.Body.{copy}
use lambda_lws.Table.{Table}
use lambda_lws.Table.Methods.{Grants, get, set_value}
use lambda_lws.Request.Substitute.{Match, Alloc, string_sub}

-- The configuration and the request, as far as they matter here.
pub record Request : Type 0 where
  pub task_root : List ℕ
  pub main : List ℕ
  pub path_info : List ℕ
  pub re_nsub : ℕ
  pub req_path : List ℕ

-- What the C library answers: regexec for a path, stat and S_ISREG for the block that holds a file
-- name, lws_alloc for each of the three texts, fmemopen for the body; and what the cache needs, the
-- conversion of a `char`, the time, and what it is granted.
pub record Library : Type 0 where
  pub regexec : List ℕ → Option (List Match)
  pub is_regular : List ℕ → Bool
  pub alloc_main : Alloc
  pub alloc_filename : Alloc
  pub alloc_path_info : Alloc
  pub opens_body : Bool
  pub widen : ℕ → ℕ
  pub now : ℕ
  pub grants : Grants

-- LWS_FS_UNKNOWN, LWS_FS_FOUND and LWS_FS_NOT_FOUND
abbrev pub fs_unknown : ℕ
fs_unknown = 0

abbrev pub fs_found : ℕ
fs_found = 1

abbrev pub fs_not_found : ℕ
fs_not_found = 2

-- The status by `stat`.
unfoldable pub stat_status : Library → List ℕ → ℕ
stat_status w block = if w.is_regular block then fs_found else fs_not_found

-- With the status in the cache.
unfoldable pub cached_status : Library → List ℕ → ℕ → ℕ × Table → Run (ℕ × Table)
cached_status w block len (fs, t) =
    if fs == fs_unknown
    then (set_value w.widen w.grants w.now t (take len block) (stat_status w block) >>= λ (rc, u).
        some (stat_status w block, u))
    else some (fs, t)

-- lws_get_file_status, for the name of `len` bytes that a block holds, with the stat cache
unfoldable pub get_file_status : Library → Table → List ℕ → ℕ → Run (ℕ × Table)
get_file_status w t block len = get w.widen w.now t (take len block) >>= cached_status w block len

-- A group that has not matched.
abbrev pub unmatched_group : Match
unmatched_group = record { rm_so = negsuc 0; rm_eo = negsuc 0 }

-- The groups of the path, `none` if it does not match.
unfoldable pub path_match : Library → Request → Option (List Match)
path_match w r =
    if ltb 0 r.re_nsub
    then w.regexec r.req_path
    else some
        (record { rm_so = pos 0; rm_eo = pos (length r.req_path) } ∷ replicate 9 unmatched_group)

-- The block of the file name: the task root, a slash, the main path, and a zero byte.
unfoldable pub fill_filename : List ℕ → List ℕ → List ℕ → Run (List ℕ)
fill_filename root main block =
    copy block 0 root
    >>= (λ b. copy b (length root) (b'/' ∷ []))
    >>= (λ c. copy c (length root + 1) main)
    >>= (λ d. copy d (length root + 1 + length main) (0 ∷ []))

-- With the block that `lws_alloc` gave.
unfoldable pub filename_in : List ℕ → List ℕ → Option (List ℕ) → Run (Option (List ℕ))
filename_in root main none = some none
filename_in root main (some block) = fill_filename root main block >>= λ q. some (some q)

-- The file name of the main chunk; `none` inside a run is the return code -1.
unfoldable pub filename : Alloc → List ℕ → List ℕ → Run (Option (List ℕ))
filename alloc root main =
    if ltb (size_max - 1) (length root) || leb (size_max - 1 - length root) (length main)
    then some none
    else filename_in root main (alloc (length root + 1 + length main + 1))

-- What the request has afterwards: the cache, and where they are set, the block of the file name with
-- the name's length, and the path info; and whether the body is open.
pub record Prepared : Type 0 where
  pub stat_cache : Table
  pub req_main : Option (List ℕ × ℕ)
  pub req_path_info : Option (List ℕ)
  pub body_open : Bool

-- "body"
unfoldable pub open_body : Library → Prepared → ℤ × Prepared
open_body w q = if w.opens_body then (rc_ok, record q { body_open = true }) else (rc_error, q)

-- "path info", with the text
unfoldable pub with_info : Library → Prepared → Option (List ℕ) → ℤ × Prepared
with_info w q none = (rc_error, q)
with_info w q (some info) = open_body w (record q { req_path_info = some info })

-- "path info", where there is a template
unfoldable pub prepare_info : Library → Request → List Match → Prepared → Run (ℤ × Prepared)
prepare_info w r m q =
    if length r.path_info == 0
    then some (open_body w q)
    else string_sub w.alloc_path_info r.path_info r.req_path m >>= λ info. some (with_info w q info)

-- With the status of the file.
unfoldable pub with_status :
    Library → Request → List Match → Prepared → ℕ × Table → Run (ℤ × Prepared)
with_status w r m q (fs, t) =
    if fs == fs_found
    then prepare_info w r m (record q { stat_cache = t })
    else some (pos 404, record q { stat_cache = t })

-- With the block of the file name, which is `len` long.
unfoldable pub with_filename :
    Library → Request → List Match → Prepared → ℕ → Option (List ℕ) → Run (ℤ × Prepared)
with_filename w r m q len none = some (rc_error, q)
with_filename w r m q len (some block) =
    get_file_status w q.stat_cache block len
    >>= with_status w r m (record q { req_main = some (block, len) })

-- With the main path.
unfoldable pub with_main :
    Library → Request → List Match → Prepared → Option (List ℕ) → Run (ℤ × Prepared)
with_main w r m q none = some (rc_error, q)
with_main w r m q (some main) =
    filename w.alloc_filename r.task_root main
    >>= with_filename w r m q (length r.task_root + 1 + length main)

-- With the groups of the path.
unfoldable pub with_match : Library → Request → Prepared → Option (List Match) → Run (ℤ × Prepared)
with_match w r q none = some (pos 404, q)
with_match w r q (some m) = string_sub w.alloc_main r.main r.req_path m >>= with_main w r m q

-- lws_prepare_request, with the request's own fields still unset
unfoldable pub prepare_request : Library → Request → Table → Run (ℤ × Prepared)
prepare_request w r t =
    with_match w r
      (record { stat_cache = t; req_main = none; req_path_info = none; body_open = false })
      (path_match w r)
