-- ===== src/Prelude.antt =====
-- The names that the other modules share: the libraries', passed on, and those of the children.
mod Tests
mod Lists
mod Signed
mod Text
pub use Tests.*
pub use Lists.*
pub use Signed.{ℤ, pos, negsuc, eq_of_parts, zero_of_is_zero}
unfoldable pub use Signed.{
  pos_part, neg_part, sub_ℕ, ◌+ℤ◌, ◌-ℤ◌, ◌*ℤ◌, neg_ℤ, is_zero, ltb_ℤ, to_id, max_ℤ, ◌≤ℤ◌,
}
unfoldable pub use Text.{
  Str, codes, str_eq, strcmp, to_lower, strcasecmp, case_eq, strip_prefix, split_at, show_nat,
  show_int, show_loop,
}
pub use Text.{str_eq_iff, str_eq_refl, strcmp-eq_zero, strcmp_self}
pub use Prim.Native.Nat.{ℕ, zero, suc, ◌+◌, ◌-◌, ◌*◌, ◌/◌, ◌%◌, ◌^◌, ◌≤◌, ◌<◌, min}
pub use Prim.Native.String.{String}
pub use mathlib.Core.Path.{◌≡◌, refl, sym, ap, ◌∙◌}
pub use mathlib.Core.Logic.{◌≢◌, ◌↔◌, ◌⊎◌, inl, inr}
pub use mathlib.Core.Bool.{Bool, true, false, not, ◌&&◌, ◌||◌}
pub use mathlib.Core.Option.{Option, none, some}
pub use mathlib.Core.List.{List, [], ◌∷◌, ◌++◌, map}
pub use native.Mathlib.Omega.{arith}
