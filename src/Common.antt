-- ===== src/Common.antt =====
-- The names that the modules of the library share.
mod Tests
mod Lists
mod Keyed
mod Outcome
mod Int
mod Nodup
mod Ordered
mod Maps
mod Texts
mod Indexed
unfoldable pub use Tests.*
unfoldable pub use Lists.*
unfoldable pub use Keyed.*
unfoldable pub use Outcome.*
unfoldable pub use Int.*
unfoldable pub use Nodup.*
unfoldable pub use Ordered.*
unfoldable pub use Maps.*
unfoldable pub use Texts.*
unfoldable pub use Indexed.*
pub use Prim.Native.Nat.{ℕ, zero, suc, ◌+◌, ◌-◌, ◌*◌, ◌/◌, ◌%◌, ◌^◌, ◌≤◌, ◌<◌, min, max}
pub use Prim.Native.String.{String}
pub use mathlib.Core.Path.{◌≡◌, refl, sym, ap, ◌∙◌, subst}
pub use mathlib.Core.Logic.{◌≢◌, ◌↔◌, ◌⊎◌, inl, inr}
pub use mathlib.Core.Bool.{Bool, true, false, not, ◌&&◌, ◌||◌}
pub use mathlib.Core.Option.{Option, none, some}
pub use mathlib.Core.List.{List, [], ◌∷◌, ◌++◌, map, append-nil, append_assoc, map-append}
pub use native.Mathlib.Omega.{arith}
