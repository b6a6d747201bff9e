-- ===== src/Lang/Validation/Identifiers.antt =====
-- pkg/lang/validation.go: which characters an identifier can have.
use aptomi.Base.{ℕ, String, true, false, ◌≡◌, refl, arith}
use aptomi.Base.Text.{lacks}
use aptomi.Lang.Validation.{is_name_char, all_name_chars, is_identifier}

name_chars-lacks :
    (s : String) (sep : ℕ) → all_name_chars s ≡ true → is_name_char sep ≡ false → lacks sep s ≡ true
unfolding lacks all_name_chars
name_chars-lacks String.[] sep h other = refl
name_chars-lacks (String.◌∷◌ c s) sep h other = ground (arith, h, other, name_chars-lacks s sep)

-- An identifier has only letters, digits, "_" and "-".
pub is_identifier-lacks :
    (s : String) (sep : ℕ) → is_identifier s ≡ true → is_name_char sep ≡ false → lacks sep s ≡ true
unfolding lacks is_identifier is_name_char
is_identifier-lacks String.[] sep h other = refl
is_identifier-lacks (String.◌∷◌ c s) sep h other = ground (arith, h, other, name_chars-lacks s sep)
