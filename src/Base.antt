-- ===== src/Base.antt =====
-- Names shared by every module: the libraries', passed on, the Boolean tests and JavaScript's
-- truthiness of texts (Base/Tests), and plain objects used as dictionaries (Base/Objects),
-- the browser's storage (Base/Browser), and texts (Base/Text).
mod Tests
mod Objects
mod Browser
mod Text
pub use Tests.*
pub use Objects.*
pub use Browser.*
unfoldable pub use Text.{trim, split, digit_text, digit, digits, decimal, is_space}
pub use Prim.Native.Nat.{ℕ, zero, suc, ◌+◌, ◌-◌, ◌%◌, ◌≤◌, ◌<◌}
pub use Prim.Native.String.{String}
pub use mathlib.Core.Path.{◌≡◌, refl, sym, ap, subst, ◌∙◌}
pub use mathlib.Core.Logic.{◌≢◌, ◌⊎◌, inl, inr}
pub use mathlib.Core.Bool.{Bool, true, false, not, ◌&&◌, ◌||◌}
pub use mathlib.Core.Option.{Option, none, some}
pub use mathlib.Core.List.{List, [], ◌∷◌, ◌++◌, map}
pub use native.Mathlib.Omega.{arith}
