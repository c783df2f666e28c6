-- ===== src/Prelude.antt =====
-- The names that the modules share: the libraries', passed on, and those of the children (Boolean
-- tests, lists over the native numbers, bit operations as arithmetic, signed return codes,
-- checks by evaluation, and runs that can fault).
mod Tests
mod Lists
mod Int
mod Bits
mod Fault
pub use Tests.*
pub use Lists.*
pub use Int.*
pub use Bits.*
unfoldable pub use Bits.{every_below}
unfoldable pub use Fault.{load, store, load_back, store_back}
pub use Fault.{Run, ◌>>=◌, Returns, load_at, store_at, load_back_at, store_back_at}
pub use Prim.Native.Nat.{
  ℕ, zero, suc, ◌+◌, ◌-◌, ◌*◌, ◌/◌, ◌%◌, ◌^◌, ◌≤◌, ◌<◌, min, max, bit_and, bit_or, bit_xor,
}
pub use mathlib.Core.Path.{◌≡◌, refl, sym, ap, ap₂, subst, ◌∙◌, ◌≡⟨◌⟩◌, ◌∎}
pub use mathlib.Core.Logic.{◌≢◌, ◌↔◌, ◌⊎◌, inl, inr}
pub use mathlib.Core.Bool.{Bool, true, false, not, ◌&&◌, ◌||◌}
pub use mathlib.Core.Option.{Option, none, some}
pub use mathlib.Core.List.{List, [], ◌∷◌, ◌++◌, map, append_assoc, append-nil}
pub use native.Mathlib.Omega.{arith}
