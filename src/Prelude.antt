-- ===== src/Prelude.antt =====
-- The names that the other modules share: the libraries', passed on, and those of the children.
mod Tests
mod Lists
mod Int
mod Strings
mod Maps
mod Sort
pub use Tests.*
pub use Lists.{
  keep-append, length, All, Any, length-append, All-append, All-mono, map-congr, any_iff, all_iff,
}
unfoldable pub use Lists.{any, all, keep}
pub use Int.*
pub use Strings.{Text, codes, lacks, split-part, split-whole, eq_iff, eq_refl, is_slash, is_space}
unfoldable pub use Strings.{
  ◌==◌, text_leb, split, join, trim_left, trim_right, trim, replace_all, digits_value, atoi, itoa,
}
pub use Maps.{
  Map, IsMap, insert-IsMap, erase-IsMap, has, keys, lookup-insert, lookup-erase, map_laws, any-keep,
  any-keys,
}
pub use Sort.{text_leb_refl, sort_texts-least, sorted_keys, sorted_keys-same}
unfoldable pub use Sort.{insert_text, sort_texts}
unfoldable pub use Maps.{lookup, insert, erase}
pub use Prim.Native.Nat.{ℕ, zero, suc, ◌+◌, ◌-◌, ◌*◌, ◌/◌, ◌%◌, ◌^◌, ◌≤◌, ◌<◌}
pub use mathlib.Core.Path.{◌≡◌, refl, sym, ap, ◌∙◌, subst}
pub use mathlib.Core.Logic.{◌≢◌, ◌↔◌, ◌⊎◌, inl, inr}
pub use mathlib.Core.Bool.{Bool, true, false, not, ◌&&◌, ◌||◌}
pub use mathlib.Core.Option.{Option, none, some}
pub use mathlib.Core.List.{List, [], ◌∷◌, ◌++◌, map}
pub use native.Mathlib.Omega.{arith}
