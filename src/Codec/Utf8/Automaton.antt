-- ===== src/Codec/Utf8/Automaton.antt =====
-- The table by ranges of bytes: where each state of the automaton goes.
use lambda_lws.Prelude.{
  ℕ, ◌<◌, ◌≡◌, refl, true, ◌&&◌, ltb, leb, ◌==◌, ==_iff, if◌then◌else◌, every_below, every_below-at,
}
use lambda_lws.Codec.Utf8.{utf8d, next}

-- A state from which only the bytes of one range go on.
abbrev pub within : ℕ → ℕ → ℕ → ℕ → ℕ
within lo hi t b = if leb lo b && leb b hi then t else 12

abbrev pub Goes : ℕ → ℕ → ℕ → ℕ → Type 0
Goes s lo hi t = (b : ℕ) → b < 256 → next s b ≡ within lo hi t b

-- The start of a sequence.
abbrev pub lead : ℕ → ℕ
lead b =
    if ltb b 0x80
    then 0
    else if ltb b 0xC2
    then 12
    else if ltb b 0xE0
    then 24
    else if b == 0xE0
    then 48
    else if b == 0xED
    then 60
    else if ltb b 0xF0
    then 36
    else if b == 0xF0
    then 72
    else if ltb b 0xF4
    then 84
    else if b == 0xF4
    then 96
    else 12

lead_table : every_below 256 (λ b. next 0 b == lead b) ≡ true
unfolding every_below next utf8d
lead_table = refl

pub next-lead : (b : ℕ) → b < 256 → next 0 b ≡ lead b
next-lead b h = (==_iff _ _).0 (every_below-at 256 (λ c. next 0 c == lead c) b lead_table h)

Goes-table :
    (s lo hi t : ℕ) → every_below 256 (λ b. next s b == within lo hi t b) ≡ true → Goes s lo hi t
Goes-table s lo hi t table b h =
    (==_iff _ _).0 (every_below-at 256 (λ c. next s c == within lo hi t c) b table h)

-- One more byte of a sequence; two more; the second bytes of a sequence that starts with E0, ED,
-- F0, F1 to F3 and F4.
pub Goes-24 : Goes 24 0x80 0xBF 0
unfolding every_below next utf8d
Goes-24 = Goes-table 24 0x80 0xBF 0 refl

pub Goes-36 : Goes 36 0x80 0xBF 24
unfolding every_below next utf8d
Goes-36 = Goes-table 36 0x80 0xBF 24 refl

pub Goes-48 : Goes 48 0xA0 0xBF 24
unfolding every_below next utf8d
Goes-48 = Goes-table 48 0xA0 0xBF 24 refl

pub Goes-60 : Goes 60 0x80 0x9F 24
unfolding every_below next utf8d
Goes-60 = Goes-table 60 0x80 0x9F 24 refl

pub Goes-72 : Goes 72 0x90 0xBF 36
unfolding every_below next utf8d
Goes-72 = Goes-table 72 0x90 0xBF 36 refl

pub Goes-84 : Goes 84 0x80 0xBF 36
unfolding every_below next utf8d
Goes-84 = Goes-table 84 0x80 0xBF 36 refl

pub Goes-96 : Goes 96 0x80 0x8F 36
unfolding every_below next utf8d
Goes-96 = Goes-table 96 0x80 0x8F 36 refl
