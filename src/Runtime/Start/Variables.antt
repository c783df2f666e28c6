-- ===== src/Runtime/Start/Variables.antt =====
-- The texts and the flags that `main` (src/lws_runtime.c, lines 148 to 295) reads from the environment.
use lambda_lws.Prelude.{
  ℕ, ◌≡◌, refl, sym, ap, ap₂, ◌∙◌, inl, inr, Bool-cases, ◌&&◌, Option, none, some, List, [], ◌∷◌,
  ◌==◌, if_on, if_off, codes, arith,
}
use lambda_lws.Runtime.Env.{is_unset, text_of, getenv_str, flag_of, getenv_flag}
use lambda_lws.Runtime.Start.{World, value_or, str_of}

-- The text of a variable of the environment, which is empty where the variable is not set.
pub data IsEnvText (v : Option (List ℕ)) (text : List ℕ) : Type 0 where
  set : v ≡ some text → IsEnvText v text
  unset : v ≡ none → text ≡ [] → IsEnvText v text

-- The value of a flag, by its variable: 1 for "on", and 0 for "off" or where it is not set.
pub data IsFlag (v : Option (List ℕ)) (n : ℕ) : Type 0 where
  is_on : v ≡ some (codes "on") → n ≡ 1 → IsFlag v n
  is_off : v ≡ some (codes "off") → n ≡ 0 → IsFlag v n
  is_empty : IsEnvText v [] → n ≡ 0 → IsFlag v n

env_text : (v : Option (List ℕ)) → IsEnvText v (value_or [] (getenv_str v))
unfolding getenv_str is_unset text_of value_or
env_text none = unset refl refl
env_text (some []) = set refl
env_text (some (c ∷ cs)) = set refl

pub str_of-IsEnvText : (w : World) (name : List ℕ) → IsEnvText (w.getenv name) (str_of w name)
unfolding str_of
str_of-IsEnvText w name = env_text (w.getenv name)

same_some : {m n : ℕ} → some n ≡ some m → n ≡ m
same_some h = cc

not_some : {n : ℕ} → none ≡ some n → ⊥
not_some h = cc

flag_of-IsFlag : (s : List ℕ) (n : ℕ) → flag_of s ≡ some n → IsFlag (some s) n
unfolding flag_of
flag_of-IsFlag [] n h = cc
flag_of-IsFlag (a ∷ []) n h = cc
flag_of-IsFlag (a ∷ b ∷ []) n h = elim (Bool-cases (a == b'o' && b == b'n')) [
  | inr e ↦ absurd (not_some (sym (if_off (a == b'o' && b == b'n') (some 1) none e) ∙ h))
  | inl e ↦
      let p : a ≡ b'o' = ground (arith, e) in
      let q : b ≡ b'n' = ground (arith, e) in
      is_on (ap₂ (λ (x y : ℕ). some (x ∷ y ∷ [])) p q)
        (same_some (sym h ∙ if_on (a == b'o' && b == b'n') (some 1) none e))
]
flag_of-IsFlag (a ∷ b ∷ c ∷ []) n h = elim (Bool-cases (a == b'o' && (b == b'f' && c == b'f'))) [
  | inr e ↦
      absurd (not_some (sym (if_off (a == b'o' && (b == b'f' && c == b'f')) (some 0) none e) ∙ h))
  | inl e ↦
      let p : a ≡ b'o' = ground (arith, e) in
      let q : b ≡ b'f' = ground (arith, e) in
      let r : c ≡ b'f' = ground (arith, e) in
      is_off
        (ap (λ (x : ℕ). some (x ∷ b ∷ c ∷ [])) p ∙ ap₂ (λ (x y : ℕ). some (b'o' ∷ x ∷ y ∷ [])) q r)
        (same_some (sym h ∙ if_on (a == b'o' && (b == b'f' && c == b'f')) (some 0) none e))
]
flag_of-IsFlag (a ∷ b ∷ c ∷ d ∷ s) n h = cc

pub flag_lem : (v : Option (List ℕ)) (n : ℕ) → getenv_flag v ≡ some n → IsFlag v n
unfolding getenv_flag is_unset text_of
flag_lem none n h = is_empty (unset refl refl) cc
flag_lem (some []) n h = is_empty (set refl) cc
flag_lem (some (c ∷ cs)) n h = flag_of-IsFlag (c ∷ cs) n h
