-- ===== src/Text.antt =====
-- The `str` methods and regular expressions that the program uses.
pub mod Strip
pub mod Search
use Prim.Native.String.{[], ◌∷◌}
use service_order_os_service.Prelude.{
  Bool, ◌&&◌, ◌||◌, String, Char, code, ◌==◌, leb, eqb, if◌then◌else◌,
}

-- `str.isspace` of one character, by its code point.
unfoldable pub is_space : Char → Bool
is_space c =
    let n = code c in
    leb 9 n && leb n 13
    || leb 28 n && leb n 32
    || eqb n 0x85
    || eqb n 0xa0
    || eqb n 0x1680
    || leb 0x2000 n && leb n 0x200a
    || eqb n 0x2028
    || eqb n 0x2029
    || eqb n 0x202f
    || eqb n 0x205f
    || eqb n 0x3000

unfoldable pub lstrip : String → String
unfolding is_space
lstrip [] = ""
lstrip (c ∷ s) = let rest = lstrip s in if is_space c then rest else c ∷ s

unfoldable pub rstrip : String → String
unfolding is_space
rstrip [] = ""
rstrip (c ∷ s) = let rest = rstrip s in if rest == "" && is_space c then "" else c ∷ rest

-- `value.strip()`
unfoldable pub strip : String → String
unfolding lstrip rstrip
strip s = rstrip (lstrip s)

-- `not value.strip()`
abbrev pub is_blank : String → Bool
is_blank s = strip s == ""
