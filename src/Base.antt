-- ===== src/Base.antt =====
-- The names that the other modules share: the libraries', passed on, and those of its children.
mod Tests
mod Lists
mod Maps
mod Int
mod Text
mod Numbered
pub use Tests.*
pub use Lists.*
pub use Maps.*
pub use Int.*
pub use Numbered.*
unfoldable pub use Text.{decimal}
pub use Text.{concat}
unfoldable pub use Text.Decimal.{digits_from, number}
pub use Text.Decimal.{number-decimal, decimal_inj, index_of_key, index_of_key-dashed}
unfoldable pub use Text.HostPort.{host_and_port, strip_brackets}
pub use Text.HostPort.{host_and_port-decimal}
pub use Prim.Native.Nat.{ℕ, zero, suc, ◌+◌, ◌-◌, ◌*◌, ◌/◌, ◌%◌, ◌^◌, ◌≤◌, ◌<◌}
pub use Prim.Native.String.{String}
pub use mathlib.Core.Path.{◌≡◌, refl, sym, ap, ◌∙◌, subst, ◌≡⟨◌⟩◌, ◌∎}
pub use mathlib.Core.Logic.{◌≢◌, ◌↔◌, ◌⊎◌, inl, inr}
pub use mathlib.Core.Bool.{Bool, true, false, not, ◌&&◌, ◌||◌}
pub use mathlib.Core.Option.{Option, none, some}
pub use mathlib.Core.List.{List, [], ◌∷◌, ◌++◌, map, foldl, flat_map, append-nil, append_assoc}
pub use native.Mathlib.Omega.{arith}
pub use text.Mathlib.Text.{◌==◌ as str_eq}
pub use text.Mathlib.TextEquality.{eq_iff}
