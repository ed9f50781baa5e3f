-- ===== src/Base.antt =====
-- The names that the other modules share: those of the libraries, passed on, tests on numbers,
-- lists and byte strings, and the `Option` monad.
mod Tests
mod Lists
mod Maybe
mod Utf8
pub use Tests.*
unfoldable pub use Lists.*
pub use Maybe.*
unfoldable pub use Utf8.{is_utf8}
pub use Prim.Native.Nat.{ℕ, zero, suc, ◌+◌, ◌-◌, ◌*◌, ◌/◌, ◌%◌, ◌^◌, ◌≤◌, ◌<◌}
pub use mathlib.Core.Path.{◌≡◌, refl, sym, ap, ◌∙◌}
pub use mathlib.Core.Logic.{◌≢◌, ◌↔◌, ◌⊎◌, inl, inr}
pub use mathlib.Core.Bool.{Bool, true, false, not, ◌&&◌, ◌||◌}
pub use mathlib.Core.Option.{Option, none, some}
pub use mathlib.Core.List.{List, [], ◌∷◌, ◌++◌, map, append_assoc, append-nil}
pub use native.Mathlib.Omega.{arith}
