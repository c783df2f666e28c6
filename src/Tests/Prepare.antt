-- ===== src/Tests/Prepare.antt =====
-- The preparation of a request for the path "/x" with a main chunk "a.lua" in "/t": `lws_prepare_request`
-- (src/lws_request.c).
use lambda_lws.Prelude.{
  ℕ, ◌≡◌, refl, sym, ap, ◌∙◌, subst, true, false, none, some, List, [], codes, replicate, length,
  length-replicate, arith, ◌∷◌, ◌++◌, Returns, ℤ, negsuc, rc_ok, Run,
}
use lambda_lws.Body.{copy}
use lambda_lws.Table.{Entry, Table, blank, is_unused, is_set, put_entry}
use lambda_lws.Table.Methods.{
  Grants, get, get_found, touch, set_value, set_found, add_entry, add_grown, grow_table, stamp,
  evict,
}
use lambda_lws.Table.Hash.{folded, hash_step, table_hash, same_text, IsText}
use lambda_lws.Table.Find.{compare_key, entry_matches, home, stride, next_slot, find_loop, find}
use lambda_lws.Table.Insert.{worst_loop, settle, insert}
use lambda_lws.Request.Substitute.{
  Match, is_group, group_len, char_len, measure, fill, Alloc, substitute, string_sub,
}
use lambda_lws.Request.Substitute.Expand.{pieces, expand, piece_text, join}
use lambda_lws.Request.Substitute.Loops.{Allocates}
use lambda_lws.Request.Prepare.{
  Request, Library, Prepared, stat_status, cached_status, get_file_status, path_match,
  fill_filename, filename_in, filename, open_body, with_info, prepare_info, with_status,
  with_filename, with_main, with_match, prepare_request,
}
use lambda_lws.State.Life.Release.{IsIdle}
use lambda_lws.Request.Handle.{Response, Handled, handle_request}
use lambda_lws.Request.Handle.Code.{Handling, handle_request_lem}
use lambda_lws.Tests.State.{first_ctx, fails, every_chunk, world, first_ctx-IsIdle}
use lambda_lws.Request.Prepare.Outcome.{Outcome, IsLookable}
use lambda_lws.Request.Prepare.Status.{IsCache, Looked, get_file_status_lem, file_name}
use lambda_lws.Table.Refine.{HasEntry}
use lambda_lws.Table.Refine.Setting.{HasSpace, vacant-IsWell, blank_unset}
use lambda_lws.Table.Find.Probes.{probe}

unfoldable pub ones : Alloc
ones n = some (replicate n 1)

ones-Allocates : Allocates ones
unfolding ones Allocates
ones-Allocates n block e =
    let same : replicate n 1 ≡ block = cc in sym (ap length same) ∙ length-replicate {A = ℕ} n 1

abbrev pub granted : Grants
granted = record { entries_granted = true; key_granted = true }

abbrev pub library : Library
library = record {
  regexec = λ path. none;
  is_regular = λ block. true;
  alloc_main = ones;
  alloc_filename = ones;
  alloc_path_info = ones;
  opens_body = true;
  widen = λ c. c;
  now = 0;
  grants = granted;
}

abbrev pub request : Request
request = record {
  task_root = codes "/t";
  main = codes "a.lua";
  path_info = [];
  re_nsub = 0;
  req_path = codes "/x";
}

-- A cache of five slots.
abbrev pub cache : Table
cache = record {
  alloc = 5;
  load = 3;
  count = 0;
  entries = replicate 5 blank;
  order = [];
  timeout = 0;
  cap = 2;
  dup = true;
  free = false;
  ci = false;
  timed = false;
  capped = true;
  freed = [];
}

program : List ℕ
unfolding get_file_status cached_status stat_status get get_found set_value set_found add_entry
    add_grown grow_table stamp evict touch put_entry table_hash hash_step folded find find_loop home
    stride next_slot is_unused is_set entry_matches compare_key same_text insert worst_loop settle
    is_group group_len char_len measure fill copy ones substitute string_sub path_match
    fill_filename filename_in filename open_body with_info prepare_info with_status with_filename
    with_main with_match prepare_request
program = []

main_text :
    (m : List Match) (main : List ℕ)
    → expand m (codes "/x") (pieces (codes "a.lua")) ≡ some main
    → codes "a.lua" ≡ main
unfolding expand pieces piece_text join is_group
main_text m main e = let p : some (codes "a.lua") ≡ some main = e in cc

cache-IsCache : IsCache library.widen cache
cache-IsCache = record {
  well = vacant-IsWell library.widen cache refl (omega arith) (omega arith);
  untimed = refl;
  known = λ s e h. absurd (vacant s e h);
  below_cap = λ e. cc;
}
  where
    vacant : (s : ℕ) (e : Entry) → HasEntry cache s e → ⊥
    vacant s e h = blank_unset 5 s e h.at h.set_lem

file_space : HasSpace library.widen granted cache (codes "/t/a.lua")
unfolding program is_set probe
file_space = record {
  below_load = λ e. cc;
  room = record {
    number = 0;
    in_range = omega arith;
    room = record { entry = blank; at = refl; free_lem = refl };
  };
  copied = refl;
}

request-IsLookable : IsLookable library request cache
request-IsLookable = record {
  cache = cache-IsCache;
  named = λ m main p x.
      subst (λ (n : List ℕ). IsText (file_name (codes "/t") n)) (main_text m main x) (omega arith);
  space = λ m main p x h.
      subst (λ (n : List ℕ). HasSpace library.widen granted cache (file_name (codes "/t") n))
        (main_text m main x) file_space;
}

get_file_status_lem_example :
    Returns
      (get_file_status library cache (codes "/t/a.lua" ++ 0 ∷ []) 8)
      (Looked library cache (codes "/t/a.lua") (codes "/t/a.lua" ++ 0 ∷ []))
get_file_status_lem_example =
    get_file_status_lem library cache (codes "/t/a.lua") (codes "/t/a.lua" ++ 0 ∷ []) 8
      cache-IsCache (omega arith) (λ h. file_space) refl

-- The return code.
abbrev code_of : Run (ℤ × Prepared) → ℤ
code_of none = negsuc 1
code_of (some (rc, q)) = rc

prepare_found : code_of (prepare_request library request cache) ≡ rc_ok
unfolding program
prepare_found = refl

abbrev pub response : Response
response = record { opens_body = true; unbuffered = true; streaming = false; finishes = true }

-- Before the first request.
abbrev pub before_first : Handled
before_first = record {
  lua_ctx = first_ctx;
  stat_cache = cache;
  resp_status = 0;
  streaming_eof = false;
}

handle_request_lem_example :
    (rc : ℤ) × ((g : Handled) × (handle_request library request response
          (world fails)
          every_chunk
          before_first
        ≡ some (rc, g))
      × IsIdle g.lua_ctx
      × Handling library request response (world fails) every_chunk before_first rc g)
handle_request_lem_example =
    handle_request_lem library request response (world fails) every_chunk before_first
      ones-Allocates ones-Allocates ones-Allocates (λ m e. cc) request-IsLookable first_ctx-IsIdle
