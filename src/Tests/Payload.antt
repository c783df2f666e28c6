-- ===== src/Tests/Payload.antt =====
-- Cookies and payloads of src/lws_interface.c at concrete inputs, with documents that are texts, arrays of
-- texts and Booleans.
use lambda_lws.Prelude.{
  ℕ, ◌≡◌, refl, ◌++◌, true, false, Bool, none, some, List, [], ◌∷◌, map, codes, replicate,
  length-replicate, load, rc_ok, arith,
}
use lambda_lws.Codec.Base64.Spec
use lambda_lws.Interface.Header.{is_blank, bytes_at}
use lambda_lws.Interface.Cookies.{
  Writer, skip_start, trim_end, put_cookie, add_cookie, next_cookie, cookie_loop, add_cookies,
}
use lambda_lws.Interface.Cookies.Fold.{IsGranted, strip_start, strip_end, strip, cookies_of}
use lambda_lws.Interface.Cookies.Split.{IsCookie, add_cookies_lem, add_cookies-fold}
use lambda_lws.Interface.Payload.{Yyjson, Payload, read_cookies, read_body}
use lambda_lws.Interface.Payload.Folding.{filled}
use lambda_lws.Interface.Payload.CookieHeader.{folded_header, read_cookies_lem}
use lambda_lws.Interface.Payload.Body.{body_of, with_body, read_body_lem}
use lambda_lws.Tests.Header.{setting, no_headers}

abbrev all_added : Writer
all_added = record { makes = λ arr text. true; adds = λ arr text. true }

all_added-IsGranted : IsGranted all_added
all_added-IsGranted = record { makes = λ arr text. refl; adds = λ arr text. refl }

-- A comma in an attribute ends a cookie.
expires :
    add_cookies all_added (codes "a=b; Expires=Wed, 21 Oct") 24
    ≡ some (rc_ok, codes "a=b; Expires=Wed" ∷ codes "21 Oct" ∷ [])
unfolding add_cookies cookie_loop next_cookie add_cookie put_cookie trim_end skip_start is_blank
    bytes_at load
expires = refl

add_cookies_lem_example :
    add_cookies all_added (codes "a=b,, c" ++ codes "x") 7
    ≡ some (rc_ok, cookies_of (codes "a=b,, c"))
add_cookies_lem_example =
    add_cookies_lem all_added (codes "a=b,, c") (codes "x") all_added-IsGranted

a-IsCookie : IsCookie (codes "a=1")
unfolding strip strip_start strip_end is_blank
a-IsCookie = record { no_comma = (refl, (refl, (refl, tt))); stripped = refl; some_text = refl }

b-IsCookie : IsCookie (codes "b=2")
unfolding strip strip_start strip_end is_blank
b-IsCookie = record { no_comma = (refl, (refl, (refl, tt))); stripped = refl; some_text = refl }

add_cookies-fold_example :
    add_cookies all_added (codes "a=1, b=2" ++ []) 8 ≡ some (rc_ok, codes "a=1" ∷ codes "b=2" ∷ [])
add_cookies-fold_example =
    add_cookies-fold all_added (codes "a=1") (codes "b=2" ∷ []) [] all_added-IsGranted
      (a-IsCookie, (b-IsCookie, tt))

data Json : Type 0 where
  json_text : List ℕ → Json
  json_texts : List (List ℕ) → Json
  json_flag : Bool → Json

abbrev document : Yyjson
document = record {
  Val = Json;
  obj_get = λ v key. none;
  is_str = λ v. elim v [ json_text t ↦ true | json_texts ts ↦ false | json_flag b ↦ false ];
  get_str = λ v. elim v [ json_text t ↦ t | json_texts ts ↦ [] | json_flag b ↦ [] ];
  is_obj = λ v. false;
  members = λ v. [];
  is_arr = λ v. elim v [ json_text t ↦ false | json_texts ts ↦ true | json_flag b ↦ false ];
  elements = λ v. elim v [ json_text t ↦ [] | json_texts ts ↦ map json_text ts | json_flag b ↦ [] ];
  is_bool = λ v. elim v [ json_text t ↦ false | json_texts ts ↦ false | json_flag b ↦ true ];
  is_true = λ v. elim v [ json_text t ↦ false | json_texts ts ↦ false | json_flag b ↦ b ];
}

abbrev no_payload : Payload
no_payload = record {
  req_path = [];
  req_method = [];
  req_args = [];
  req_ip = [];
  req_headers = no_headers;
  req_body = [];
}

read_cookies_lem_example :
    read_cookies setting
      (λ n. some (replicate n 1))
      document
      (some (json_texts (codes "a=1" ∷ [] ∷ codes "b" ∷ [])))
      no_payload
    ≡ folded_header setting no_payload (codes "a=1" ∷ codes "b" ∷ [])
unfolding filled
read_cookies_lem_example =
    read_cookies_lem setting (λ n. some (replicate n 1)) document
      (json_texts (codes "a=1" ∷ [] ∷ codes "b" ∷ [])) no_payload
      (λ n. (replicate n 1, refl, length-replicate n 1)) refl (refl, (refl, (refl, tt)))
      (omega arith)

read_body_lem_example :
    read_body document (some (json_text (codes "YWI="))) (some (json_flag true)) no_payload
    ≡ some (with_body no_payload (some (codes "ab")))
unfolding body_of Spec.decode Spec.decode_inner Spec.decode_last Spec.sextet Spec.octets
read_body_lem_example =
    read_body_lem document (json_text (codes "YWI=")) (json_flag true) no_payload refl
      (omega arith, (omega arith, (omega arith, (omega arith, tt)))) refl
