-- ===== src/Base/Text.antt =====
-- The functions of Go's package strings that the program uses. A text is a list of characters.
pub mod Separators
pub mod Cancel
use Prim.Native.Nat.{ℕ}
use Prim.Native.Char.{Char, code}
use Prim.Native.String.{String, ◌++◌}
use mathlib.Core.Path.{◌≡◌, refl}
use mathlib.Core.Bool.{Bool, true, false, ◌&&◌, ◌||◌}
use mathlib.Core.List.{List, [], ◌∷◌}
use native.Mathlib.Omega.{arith}
use text.Mathlib.TextLemmas.{nil-append, cons-append}
use aptomi.Base.Tests.{if◌then◌else◌, leb, nat_eq}

-- strings.Join
abbrev pub join : List String → String → String
join [] sep = ""
join (s ∷ []) sep = s
join (s ∷ t ∷ rest) sep = s ++ (sep ++ join (t ∷ rest) sep)

abbrev prepend : Char → List String → List String
prepend c [] = String.◌∷◌ c "" ∷ []
prepend c (s ∷ rest) = String.◌∷◌ c s ∷ rest

-- strings.Split at a separator of one character, which is given by its code.
unfoldable pub split : String → ℕ → List String
split String.[] sep = "" ∷ []
split (String.◌∷◌ c s) sep =
    let rest = split s sep in if nat_eq (code c) sep then "" ∷ rest else prepend c rest

-- strings.SplitN with n = 2: what stands before the first separator, and what after.
unfoldable pub split_two : String → ℕ → List String
split_two String.[] sep = "" ∷ []
split_two (String.◌∷◌ c s) sep =
    let rest = split_two s sep in if nat_eq (code c) sep then "" ∷ s ∷ [] else prepend c rest

-- unicode.IsSpace
is_space : ℕ → Bool
is_space c =
    (leb 9 c && leb c 13)
    || (nat_eq c 32
        || (nat_eq c 0x85
            || (nat_eq c 0xa0
                || (nat_eq c 0x1680
                    || ((leb 0x2000 c && leb c 0x200a)
                        || (nat_eq c 0x2028
                            || (nat_eq c 0x2029
                                || (nat_eq c 0x202f || (nat_eq c 0x205f || nat_eq c 0x3000)))))))))

trim_left : String → String
unfolding is_space
trim_left String.[] = ""
trim_left (String.◌∷◌ c s) =
    let rest = trim_left s in if is_space (code c) then rest else String.◌∷◌ c s

is_blank : String → Bool
is_blank String.[] = true
is_blank (String.◌∷◌ c s) = is_space (code c) && is_blank s

trim_right : String → String
unfolding is_blank
trim_right String.[] = ""
trim_right (String.◌∷◌ c s) =
    let rest = trim_right s in if is_space (code c) && is_blank s then "" else String.◌∷◌ c rest

-- strings.TrimSpace
unfoldable pub trim_space : String → String
unfolding trim_left trim_right
trim_space s = trim_right (trim_left s)

-- strings.HasPrefix
unfoldable pub has_prefix : String → String → Bool
has_prefix s String.[] = true
has_prefix String.[] (String.◌∷◌ c p) = false
has_prefix (String.◌∷◌ d s) (String.◌∷◌ c p) = nat_eq (code d) (code c) && has_prefix s p

-- No character of the text has the code.
unfoldable pub lacks : ℕ → String → Bool
lacks sep String.[] = true
lacks sep (String.◌∷◌ c s) = if nat_eq (code c) sep then false else lacks sep s

-- A text that lacks the separator is not split.
pub split-lacks : (sep : ℕ) (s : String) → lacks sep s ≡ true → split s sep ≡ s ∷ []
unfolding split lacks
split-lacks sep String.[] h = refl
split-lacks sep (String.◌∷◌ c s) h = ground (arith, split-lacks sep s)

pub split_two-lacks : (sep : ℕ) (s : String) → lacks sep s ≡ true → split_two s sep ≡ s ∷ []
unfolding split_two lacks
split_two-lacks sep String.[] h = refl
split_two-lacks sep (String.◌∷◌ c s) h = ground (arith, split_two-lacks sep s)

pub lacks-concat :
    (sep : ℕ) (s t : String) → lacks sep s ≡ true → lacks sep t ≡ true → lacks sep (s ++ t) ≡ true
unfolding lacks
lacks-concat sep String.[] t hs ht = ground (arith, nil-append t)
lacks-concat sep (String.◌∷◌ c s) t hs ht = ground (arith, cons-append c s t, lacks-concat sep s t)

trim_test : trim_space " a b " ≡ "a b"
unfolding trim_space is_space
trim_test = refl

split_test : split "a,,b" b',' ≡ "a" ∷ "" ∷ "b" ∷ []
unfolding split
split_test = refl
