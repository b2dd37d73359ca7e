-- ===== src/Prelude.antt =====
-- The names that the other modules share: the libraries', passed on, and those of the children.
mod Tests
mod Lists
mod Int
mod Clock
mod Keys
mod Maps
mod Order
pub mod Float
pub mod Text
pub use Tests.*
unfoldable pub use Lists.*
pub use Int.*
pub use Clock.*
pub use Order.*
pub use Keys.*
unfoldable pub use Maps.*
pub use Text.{
  String, str_eq, str_eq_iff, str_eq_refl, trim_space_again, concat, codes, is_digit, is_letter,
  is_hex_lower,
}
unfoldable pub use Text.{after_prefix, all_codes, byte_length, trim_space}
pub use Prim.Native.Nat.{ℕ, zero, suc, ◌+◌, ◌-◌, ◌*◌, ◌/◌, ◌%◌, ◌^◌, ◌≤◌, ◌<◌}
pub use mathlib.Core.Path.{◌≡◌, refl, sym, ap, subst, ◌∙◌}
pub use mathlib.Core.Logic.{◌≢◌, ◌↔◌, ◌⊎◌, inl, inr}
pub use mathlib.Core.Bool.{Bool, true, false, not, ◌&&◌, ◌||◌}
pub use mathlib.Core.Option.{Option, none, some}
pub use mathlib.Core.List.{List, [], ◌∷◌, ◌++◌, map}
pub use native.Mathlib.Omega.{arith}
