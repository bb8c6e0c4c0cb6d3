-- ===== src/Base.antt =====
-- Names that every other module shares: the libraries', passed on, the Boolean tests, native
-- list lengths, the Result of fallible Rust code, and wrap-around arithmetic on u64.
mod Tests
mod Lists
mod Words
mod Outcome
pub mod Decimal
pub mod Parse
pub mod Map
pub use Tests.*
pub use Lists.*
unfoldable pub use Words.*
pub use Outcome.*
pub use Prim.Native.Nat.{ℕ, zero, suc, ◌+◌, ◌-◌, ◌*◌, ◌/◌, ◌%◌, ◌^◌, ◌≤◌, ◌<◌}
pub use Prim.Native.String.{String}
pub use mathlib.Core.Path.{◌≡◌, refl, sym, ap, subst, subst₂, ◌∙◌}
pub use mathlib.Core.Logic.{◌≢◌, ◌↔◌, ◌⊎◌, inl, inr}
pub use mathlib.Core.Bool.{Bool, true, false, ◌&&◌, ◌||◌, not}
pub use mathlib.Core.Option.{Option, none, some}
pub use mathlib.Core.List.{List, [], ◌∷◌, ◌++◌, map}
pub use native.Mathlib.Omega.{arith}
