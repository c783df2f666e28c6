-- ===== src/Tests/Body.antt =====
-- Writes to small bodies, with a `realloc` that always gives a block, and the theorems on them.
use lambda_lws.Prelude.{
  ℕ, ◌-◌, ◌≤◌, ◌≡◌, refl, sym, ap, ◌∙◌, inl, false, Option, none, some, List, [], ◌∷◌, ◌++◌, length,
  length-take, length-append, length-replicate, take, take_eq, take-take, take-append_split,
  append-nil, replicate, pos, negsuc, Returns, arith,
}
use lambda_lws.Codec.Base64.{base64_encode_len}
use lambda_lws.Body.{grow_step, grow, rounds, Realloc, resized, resize, reserve, copy, Reallocates}
use lambda_lws.Body.Growth.{Suffices, grow_lem}
use lambda_lws.Body.Response.{Response, write_response_body, look, required_space, append_data}
use lambda_lws.Body.Response.Write
use lambda_lws.Body.Response.Write.{write_response_body_lem, seek_response_body_lem}
use lambda_lws.Body.Invocation
use lambda_lws.Body.Invocation.{Invocation, handle_write, handle_write_lem}

-- The old bytes and then zeros.
unfoldable pub fresh : Realloc
fresh mem n = some (take n (mem ++ replicate n 0))

pub fresh-Reallocates : Reallocates fresh
unfolding fresh Reallocates
fresh-Reallocates mem m n e =
    let whole : List ℕ = mem ++ replicate n 0 in
    let same : take n whole ≡ m = ap (λ o. or_nil o) e in
    (
      ap length (sym same)
          ∙ (length-take n whole
              ∙ omega (arith, length-append mem (replicate n 0), length-replicate {A = ℕ} n 0)),
      λ k short within.
          ap (take k) (sym same)
          ∙ (take-take k n whole within
              ∙ (take-append_split k mem (replicate n 0)
                  ∙ (ap (λ q. take k mem ++ q)
                        (take_eq (replicate n 0) {m = k - length mem} {n = 0}
                          (omega (arith, short)))
                      ∙ append-nil (take k mem)))),
    )
  where
    or_nil : Option (List ℕ) → List ℕ
    or_nil none = []
    or_nil (some q) = q

-- Two bytes in a block of four.
abbrev pub small : Response
small = record {
  mem = 0xC3 ∷ 2 ∷ 0 ∷ 0 ∷ [];
  len = 2;
  resp_body_cap = 4;
  likely_utf8 = false;
  streaming = false;
}

write_two :
    write_response_body fresh none small (3 ∷ 4 ∷ [])
    ≡ some (
      pos 2,
      record {
        mem = 0xC3 ∷ 2 ∷ 3 ∷ 4 ∷ 0 ∷ 0 ∷ 0 ∷ 0 ∷ [];
        len = 4;
        resp_body_cap = 8;
        likely_utf8 = false;
        streaming = false;
      },
    )
unfolding write_response_body look required_space append_data grow_step grow resized resize reserve
    copy base64_encode_len fresh
write_two = refl

pub small-IsValid : Write.IsValid small
small-IsValid = record {
  block = record { holds = refl; in_range = omega arith };
  within = omega arith;
}

grow_lem_example : (out : ℕ) × (grow rounds 4096 5000 ≡ some out) × Suffices 5000 out × (4096 ≤ out)
grow_lem_example = grow_lem 4096 5000 (omega arith) (omega arith) (omega arith)

write_response_body_lem_example :
    Returns
      (write_response_body fresh none small (3 ∷ 4 ∷ []))
      (Write.Written fresh small (3 ∷ 4 ∷ []))
write_response_body_lem_example =
    write_response_body_lem fresh none small (3 ∷ 4 ∷ []) fresh-Reallocates small-IsValid

-- One byte in a block of five, with a padding of four.
abbrev received : Invocation
received = record { mem = 1 ∷ 0 ∷ 0 ∷ 0 ∷ 0 ∷ []; len = 1; body_cap = 5; content_length = negsuc 0 }

received-IsValid : Invocation.IsValid 4 received
received-IsValid = record {
  block = record { holds = refl; in_range = omega arith };
  padded = inl (omega arith);
}

handle_write_lem_example :
    Returns
      (handle_write fresh 4 (7 ∷ 8 ∷ []) 1 2 received)
      (Invocation.Written fresh 4 (7 ∷ 8 ∷ []) 2 received)
handle_write_lem_example =
    handle_write_lem fresh 4 (7 ∷ 8 ∷ []) 1 2 received fresh-Reallocates (omega arith) (omega arith)
      received-IsValid
