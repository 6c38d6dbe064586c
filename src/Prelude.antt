-- ===== src/Prelude.antt =====
-- The names that every module shares: the libraries', passed on, and those of the children.
pub mod Tests
pub mod Keys
pub mod Assoc
pub mod Text
pub mod Lists
pub mod Numerals
pub mod Int
pub use Tests.*
pub use Keys.*
unfoldable pub use Assoc.{lookup, insert, remove, values}
pub use Assoc.{Dict, lookup-insert, lookup-insert_self}
unfoldable pub use Text.{strip}
pub use Text.{truthy, truthy?, or_else, or_else?}
pub use Lists.*
unfoldable pub use Numerals.{decimal, uuid_text}
pub use Prim.Native.Nat.{ℕ, zero, suc, ◌+◌, ◌-◌, ◌*◌, ◌≤◌, ◌<◌}
pub use Prim.Native.String.{String}
pub use mathlib.Core.Path.{◌≡◌, refl, sym, ap, ◌∙◌, subst}
pub use mathlib.Core.Logic.{◌≢◌, ◌↔◌, ◌⊎◌, inl, inr}
pub use mathlib.Core.Bool.{Bool, true, false, not, ◌&&◌, ◌||◌}
pub use mathlib.Core.Option.{Option, none, some}
pub use mathlib.Core.List.{List, [], ◌∷◌, ◌++◌, map}
pub use native.Mathlib.Omega.{arith}
