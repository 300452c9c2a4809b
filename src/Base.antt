-- ===== src/Base.antt =====
-- The names that the other modules share: those of the libraries, passed on, and those of the
-- children (tests on numbers, lists, texts, dictionaries, sorting).
mod Tests
mod Lists
mod Pred
mod Keys
mod Texts
mod Dicts
mod Sort
mod Clock
mod Strip
mod Decimal
mod Int
mod Ascii
mod Subs
pub use Tests.*
pub use Lists.*
pub use Pred.*
pub use Keys.*
pub use Texts.*
pub use Dicts.*
pub use Sort.*
pub use Clock.*
unfoldable pub use Strip.*
unfoldable pub use Decimal.*
pub use Int.*
unfoldable pub use Ascii.*
pub use Subs.*
pub use Prim.Native.Nat.{ℕ, zero, suc, ◌+◌, ◌-◌, ◌*◌, ◌/◌, ◌%◌, ◌^◌, ◌≤◌, ◌<◌, min, max}
pub use mathlib.Core.Path.{◌≡◌, refl, sym, ap, ◌∙◌, subst}
pub use mathlib.Core.Logic.{◌≢◌, ◌↔◌, ◌⊎◌, inl, inr}
pub use mathlib.Core.Bool.{Bool, true, false, not, ◌&&◌, ◌||◌}
pub use mathlib.Core.Option.{Option, none, some}
pub use mathlib.Core.List.{List, [], ◌∷◌, ◌++◌, map}
pub use native.Mathlib.Omega.{arith}
