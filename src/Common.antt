-- ===== src/Common.antt =====
-- The names that the other modules share: the libraries', passed on, and those of the children.
mod Tests
mod Lists
pub mod Text
pub mod Dict
pub mod Sort
pub use Tests.{
  if◌then◌else◌, ltb, leb, nat_eq, Bool-cases, Option-cases, ltb→lt, lt→ltb, leb→le, le→leb, Eq,
  ◌==◌, eq_of_==, ne_of_==, ==_refl, ==-false_of_ne, ==-true_of_eq, or_else, is_some, ℤ, pos,
  negsuc, sub_ℕ,
}
unfoldable pub use Tests.{string_discrete, option_discrete}
pub use Tests.{string_eq, option_eq, tests}
pub use Lists.{
  length, length-append, All, All-append, All-mono, take, length-take-le, map-append_lem, find, any,
  keep, keep-append, get_or, fold_left, fold_left-append,
}
pub use Prim.Native.Nat.{ℕ, zero, suc, ◌+◌, ◌-◌, ◌*◌, ◌≤◌, ◌<◌}
pub use Prim.Native.String.{String}
pub use mathlib.Core.Path.{◌≡◌, refl, sym, ap, ◌∙◌, subst}
pub use mathlib.Core.Logic.{◌≢◌, ◌↔◌, ◌⊎◌, inl, inr}
pub use mathlib.Core.Bool.{Bool, true, false, not, ◌&&◌, ◌||◌}
pub use mathlib.Core.Option.{Option, none, some}
pub use mathlib.Core.List.{List, [], ◌∷◌, ◌++◌, map, append-nil, append_assoc}
pub use native.Mathlib.Omega.{arith}
