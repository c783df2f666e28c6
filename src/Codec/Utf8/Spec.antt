-- ===== src/Codec/Utf8/Spec.antt =====
-- UTF-8 as Unicode defines it: the bytes of a scalar value, and of a text.
use lambda_lws.Prelude.{ℕ, ◌+◌, ◌/◌, ◌%◌, ◌≤◌, ◌<◌, ◌⊎◌, List, [], ◌∷◌, ◌++◌, ltb, if◌then◌else◌}

-- A code point that is no surrogate.
abbrev pub IsScalar : ℕ → Type 0
IsScalar c = (c < 0xD800) ⊎ ((0xE000 ≤ c) × (c < 0x110000))

unfoldable pub utf8 : ℕ → List ℕ
utf8 c =
    if ltb c 0x80
    then c ∷ []
    else if ltb c 0x800
    then (0xC0 + c / 64) ∷ (0x80 + c % 64) ∷ []
    else if ltb c 0x10000
    then (0xE0 + c / 4096) ∷ (0x80 + c / 64 % 64) ∷ (0x80 + c % 64) ∷ []
    else (0xF0 + c / 262144) ∷ (0x80 + c / 4096 % 64) ∷ (0x80 + c / 64 % 64) ∷ (0x80 + c % 64) ∷ []

unfoldable pub utf8_text : List ℕ → List ℕ
utf8_text [] = []
utf8_text (c ∷ cs) = utf8 c ++ utf8_text cs
