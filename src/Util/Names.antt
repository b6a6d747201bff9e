-- ===== src/Util/Names.antt =====
-- pkg/util/string.go: EscapeName.
use Prim.Native.Char.{Char, code}
use aptomi.Base.{String, ◌||◌, ◌≡◌, refl, nat_eq, if◌then◌else◌}

abbrev escaped : Char → Char
escaped c = if nat_eq (code c) b'#' || nat_eq (code c) b'_' then "-" else c

unfoldable pub escape_name : String → String
escape_name String.[] = ""
escape_name (String.◌∷◌ c s) = String.◌∷◌ (escaped c) (escape_name s)

escape_test : escape_name "a#b_c" ≡ "a-b-c"
unfolding escape_name
escape_test = refl
