-- ===== src/Tests/Http.antt =====
-- Look-ups in the table of HTTP statuses.
use lambda_lws.Prelude.{◌≡◌, refl, none, some, pos}
use lambda_lws.Search.{before, search_loop}
use lambda_lws.Http.{find_http_status, http_status, codes, below}
use lambda_lws.Http.Find.{scan, find_http_status-scan}

find_413 :
    find_http_status (pos 413)
    ≡ some (record { code = 413; key = "CONTENT_TOO_LARGE"; message = "Content Too Large" })
unfolding find_http_status search_loop before http_status codes below
find_413 = refl

find_418 : find_http_status (pos 418) ≡ none
unfolding find_http_status search_loop before http_status codes below
find_418 = refl

find_http_status-scan_example : find_http_status (pos 404) ≡ scan (pos 404) http_status
find_http_status-scan_example = find_http_status-scan (pos 404)
