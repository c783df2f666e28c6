-- ===== src/Interface/Header/Added.antt =====
-- What `lws_handle_header` (src/lws_interface.c, lines 152 to 211) leaves of the headers.
use lambda_lws.Prelude.{
  ℕ, suc, ◌+◌, ◌≡◌, ◌⊎◌, true, false, some, List, [], ◌∷◌, ◌++◌, codes, length, get_elem?,
}
use lambda_lws.Table.Refine.Map.{Represents, assign}
use lambda_lws.Interface.Header.{Headers, Setting}

-- The text for a name, by what the map has for it: the value, or behind the text that is there.
pub data IsJoined (heap : List (List ℕ)) (value : List ℕ) (v : ℕ) (text : List ℕ) : Type 0 where
  alone : v ≡ 0 → text ≡ value → IsJoined heap value v text
  behind :
      (i : ℕ) (old : List ℕ)
      → v ≡ suc i
      → get_elem? heap i ≡ some old
      → text ≡ old ++ (codes ", " ++ value)
      → IsJoined heap value v text

-- The headers where memory for the text is granted, and where it is not.
unfoldable pub Added : Setting → Headers → (List ℕ → ℕ) → List ℕ → List ℕ → ℕ → ℕ × Headers → Type 0
Added w s f key value len (n, u) =
    ((w.granted ≡ true)
      × (n ≡ len)
      × (Represents w.widen u.headers (assign s.headers.ci key (length s.heap + 1) f))
      × ((text : List ℕ) × IsJoined s.heap value (f key) text × (u.heap ≡ s.heap ++ text ∷ [])))
    ⊎ ((w.granted ≡ false) × (n ≡ 0) × (u ≡ s))
