-- ===== src/Prelude.antt =====
-- Names that the modules share: the libraries', passed on, and those of the children.
pub mod Tests
pub mod Lists
pub mod Memory
pub mod Int
pub use Prim.Native.Nat.{ℕ, zero, suc, ◌+◌, ◌-◌, ◌*◌, ◌/◌, ◌%◌, ◌^◌, ◌≤◌, ◌<◌, min}
pub use mathlib.Core.Path.{◌≡◌, refl, sym, ap, ◌∙◌}
pub use mathlib.Core.Logic.{◌≢◌, ◌↔◌, ◌⊎◌, inl, inr}
pub use mathlib.Core.Bool.{Bool, true, false, not, ◌&&◌, ◌||◌}
pub use mathlib.Core.Option.{Option, none, some}
pub use mathlib.Core.List.{List, [], ◌∷◌, ◌++◌, append-nil, append_assoc}
pub use native.Mathlib.Omega.{arith}
pub use Tests.*
unfoldable pub use Memory.{load, store}
pub use Memory.{overwrite, load-in, load-out, store-in, store-out, length-overwrite, take-overwrite}
pub use Lists.*
