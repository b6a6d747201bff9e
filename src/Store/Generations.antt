-- ===== src/Store/Generations.antt =====
-- pkg/runtime/generation.go and genStr of pkg/runtime/store/generic/bolt/bolt.go: generations are
-- uint64, and a key in the bucket ends in the generation, padded to 20 characters.
pub mod Order
use Prim.Native.Char.{Char, char, code}
use Prim.Native.String.{◌++◌}
use aptomi.Base.{
  ℕ, zero, suc, ◌+◌, ◌%◌, ◌^◌, String, Bool, true, false, ◌||◌, ◌&&◌, ◌≡◌, refl, ltb, nat_eq,
  if◌then◌else◌,
}
use Prim.Native.Nat.{◌/◌}

abbrev pub first_gen : ℕ
first_gen = 1

-- LastGen, which stands for the last generation there is.
abbrev pub last_gen : ℕ
last_gen = 0

abbrev pub gen_mod : ℕ
gen_mod = 2 ^ 64

-- Next
unfoldable pub next : ℕ → ℕ
next gen = (gen + 1) % gen_mod

unfoldable pub digit_char : ℕ → Char
digit_char zero = char 48 tt
digit_char (suc zero) = char 49 tt
digit_char (suc (suc zero)) = char 50 tt
digit_char (suc (suc (suc zero))) = char 51 tt
digit_char (suc (suc (suc (suc zero)))) = char 52 tt
digit_char (suc (suc (suc (suc (suc zero))))) = char 53 tt
digit_char (suc (suc (suc (suc (suc (suc zero)))))) = char 54 tt
digit_char (suc (suc (suc (suc (suc (suc (suc zero))))))) = char 55 tt
digit_char (suc (suc (suc (suc (suc (suc (suc (suc zero)))))))) = char 56 tt
digit_char (suc (suc (suc (suc (suc (suc (suc (suc (suc _))))))))) = char 57 tt

abbrev pub digit : ℕ → String
digit n = String.◌∷◌ (digit_char n) ""

-- The digits of a number before its last one, without leading zeros.
unfoldable pub digits : ℕ → ℕ → String
digits zero n = ""
digits (suc width) n = if nat_eq n 0 then "" else digits width (n / 10) ++ digit (n % 10)

-- strconv.FormatUint of a number with at most 20 digits.
unfoldable pub format_uint : ℕ → String
format_uint n = digits 19 (n / 10) ++ digit (n % 10)

-- The same in a fixed width, with spaces for leading zeros.
unfoldable pub padded : ℕ → ℕ → String
padded zero n = ""
padded (suc width) n = padded width (n / 10) ++ (if nat_eq n 0 then " " else digit (n % 10))

-- genStr: "%20d" of a number with at most 20 digits.
unfoldable pub gen_str : ℕ → String
gen_str gen = padded 19 (gen / 10) ++ digit (gen % 10)

-- The order of keys in a bucket. The order of bytes in UTF-8 is that of the characters' codes.
unfoldable pub text_lt : String → String → Bool
text_lt s String.[] = false
text_lt String.[] (String.◌∷◌ d t) = true
text_lt (String.◌∷◌ c s) (String.◌∷◌ d t) =
    ltb (code c) (code d) || (nat_eq (code c) (code d) && text_lt s t)

gen_str_test : gen_str 1203 ≡ "                1203"
unfolding gen_str padded digit_char
gen_str_test = refl
