-- ===== src/Request/Prepare/Groups.antt =====
-- The groups that `lws_prepare_request` (src/lws_request.c, lines 194 to 207) has of the path.
use lambda_lws.Prelude.{
  ℕ, zero, suc, ◌<◌, ◌≡◌, refl, sym, ◌∙◌, subst, inl, inr, Bool-cases, some, List, ◌∷◌, ltb, if_on,
  if_off, length, get_elem?, replicate, pos, negsuc, arith,
}
use lambda_lws.Request.Substitute.{Match}
use lambda_lws.Request.Substitute.Expand.{matched, unmatched, IsMatches}
use lambda_lws.Request.Prepare.{Request, Library, path_match, unmatched_group}

get_elem?-replicate : (n d : ℕ) (a : Match) → d < n → get_elem? (replicate n a) d ≡ some a
get_elem?-replicate zero d a h = absurd (omega (arith, h))
get_elem?-replicate (suc n) zero a h = refl
get_elem?-replicate (suc n) (suc d) a h = get_elem?-replicate n d a (omega (arith, h))

-- Without groups in the expression, the path is the group 0, and no other has matched.
whole_lem :
    (src : List ℕ)
    → IsMatches src
        (record { rm_so = pos 0; rm_eo = pos (length src) } ∷ replicate 9 unmatched_group)
unfolding IsMatches
whole_lem src zero h = (_, refl, matched 0 (length src) (omega arith) (omega arith))
whole_lem src (suc d) h = (
  unmatched_group,
  get_elem?-replicate 9 d unmatched_group (omega (arith, h)),
  unmatched 0 (negsuc 0),
)

pub path_match_lem :
    (w : Library) (r : Request) (m : List Match)
    → ((n : List Match) → w.regexec r.req_path ≡ some n → IsMatches r.req_path n)
    → path_match w r ≡ some m
    → IsMatches r.req_path m
unfolding path_match
path_match_lem w r m h e = elim (Bool-cases (ltb 0 r.re_nsub)) [
  | inl p ↦ h m (sym (if_on (ltb 0 r.re_nsub) (w.regexec r.req_path) _ p) ∙ e)
  | inr p ↦
      let q : some (
            record { rm_so = pos 0; rm_eo = pos (length r.req_path) } ∷ replicate 9 unmatched_group)
          ≡ some m =
        sym (if_off (ltb 0 r.re_nsub) (w.regexec r.req_path) _ p) ∙ e in
      subst (IsMatches r.req_path) (cc) (whole_lem r.req_path)
]
