-- ===== src/Store/Generations/Order.antt =====
-- pkg/runtime/store/generic/bolt/bolt.go: the order of the padded generations in the bucket is that
-- of their numbers.
use Prim.Native.Char.{Char, char, code}
use Prim.Native.Nat.{◌/◌}
use native.Mathlib.Decide.{dec_lt}
use Prim.Native.String.{◌++◌}
use text.Mathlib.TextLemmas.{nil-append, cons-append}
use aptomi.Base.{
  ℕ, zero, suc, ◌+◌, ◌%◌, ◌^◌, ◌<◌, ◌*◌, ◌≡◌, refl, ap, sym, ◌∙◌, String, true, false, ltb, nat_eq,
  arith, if◌then◌else◌, inl, inr, Bool-cases, ◌⊎◌,
}
use aptomi.Store.Generations.{digit_char, digit, padded, gen_str, text_lt}

code-digit_char : (n : ℕ) → n < 10 → code (digit_char n) ≡ 48 + n
unfolding digit_char
code-digit_char zero h = refl
code-digit_char (suc zero) h = refl
code-digit_char (suc (suc zero)) h = refl
code-digit_char (suc (suc (suc zero))) h = refl
code-digit_char (suc (suc (suc (suc zero)))) h = refl
code-digit_char (suc (suc (suc (suc (suc zero))))) h = refl
code-digit_char (suc (suc (suc (suc (suc (suc zero)))))) h = refl
code-digit_char (suc (suc (suc (suc (suc (suc (suc zero))))))) h = refl
code-digit_char (suc (suc (suc (suc (suc (suc (suc (suc zero)))))))) h = refl
code-digit_char (suc (suc (suc (suc (suc (suc (suc (suc (suc zero))))))))) h = refl
code-digit_char (suc (suc (suc (suc (suc (suc (suc (suc (suc (suc n)))))))))) h =
    absurd (omega (arith, h))

size : String → ℕ
size String.[] = 0
size (String.◌∷◌ c s) = suc (size s)

size-append : (s : String) (c : Char) → size (s ++ String.◌∷◌ c "") ≡ suc (size s)
unfolding size
size-append String.[] c = ground (arith, nil-append (String.◌∷◌ c ""))
size-append (String.◌∷◌ d s) c = ground (arith, cons-append d s (String.◌∷◌ c ""), size-append s c)

pub text_lt_irrefl : (s : String) → text_lt s s ≡ false
unfolding text_lt
text_lt_irrefl String.[] = refl
text_lt_irrefl (String.◌∷◌ c s) = ground (arith, text_lt_irrefl s)

-- A common start does not count.
pub text_lt-append : (s t u : String) → text_lt (s ++ t) (s ++ u) ≡ text_lt t u
unfolding text_lt
text_lt-append String.[] t u = ground (arith, nil-append t, nil-append u)
text_lt-append (String.◌∷◌ c s) t u =
    ground (arith, cons-append c s t, cons-append c s u, text_lt-append s t u)

-- A difference before the ends decides.
lt-append :
    (s t u v : String) → size s ≡ size t → text_lt s t ≡ true → text_lt (s ++ u) (t ++ v) ≡ true
unfolding text_lt size
lt-append String.[] String.[] u v same h = cc
lt-append String.[] (String.◌∷◌ d t) u v same h = ground (arith, same)
lt-append (String.◌∷◌ c s) String.[] u v same h = ground (arith, same)
lt-append (String.◌∷◌ c s) (String.◌∷◌ d t) u v same h =
    ground (arith, cons-append c s u, cons-append d t v, lt-append s t u v)

abbrev last_char : ℕ → Char
last_char n = if nat_eq n 0 then (char 32 tt) else digit_char (n % 10)

padded-suc : (w n : ℕ) → padded (suc w) n ≡ padded w (n / 10) ++ String.◌∷◌ (last_char n) ""
unfolding padded
padded-suc w n = elim (Bool-cases (nat_eq n 0)) [
  | inl e ↦ rw (e, padded) refl
  | inr e ↦ rw (e, padded) refl
]

size-padded : (w n : ℕ) → size (padded w n) ≡ w
unfolding padded size
size-padded zero n = refl
size-padded (suc w) n =
    ground
      (arith, padded-suc w n, size-append (padded w (n / 10)) (last_char n), size-padded w (n / 10))

code-last_char : (n : ℕ) → code (last_char n) ≡ (if nat_eq n 0 then 32 else 48 + n % 10)
code-last_char n = elim (Bool-cases (nat_eq n 0)) [
  | inl e ↦ rw (e) refl
  | inr e ↦ rw (e) (code-digit_char (n % 10) (omega arith))
]

last_char-lt :
    (a b : ℕ) → a / 10 ≡ b / 10 → a < b → ltb (code (last_char a)) (code (last_char b)) ≡ true
last_char-lt a b same h = ground (arith, code-last_char a, code-last_char b, same, h)

last_char-text_lt :
    (a b : ℕ) (s : String)
    → a / 10 ≡ b / 10
    → a < b
    → text_lt (s ++ String.◌∷◌ (last_char a) "") (s ++ String.◌∷◌ (last_char b) "") ≡ true
unfolding text_lt
last_char-text_lt a b s same h = ground (
  arith,
  text_lt-append s (String.◌∷◌ (last_char a) "") (String.◌∷◌ (last_char b) ""),
  last_char-lt a b same h,
)

-- The number of numbers of a width.
abbrev limit : ℕ → ℕ
limit zero = 1
limit (suc w) = 10 * limit w

div_cases : (a b : ℕ) → a < b → (a / 10 < b / 10) ⊎ (a / 10 ≡ b / 10)
div_cases a b h = elim (dec_lt (a / 10) (b / 10)) [
  | yes p ↦ inl p
  | no p ↦ inr (omega (arith, h, p))
]

padded-lt : (w a b : ℕ) → a < b → b < limit w → text_lt (padded w a) (padded w b) ≡ true
padded-lt zero a b h small = absurd (omega (arith, h, small))
padded-lt (suc w) a b h small = elim (div_cases a b h) [
  | inl lt ↦
      rw (padded-suc w a, padded-suc w b)
        (lt-append (padded w (a / 10)) (padded w (b / 10)) (String.◌∷◌ (last_char a) "")
          (String.◌∷◌ (last_char b) "") (size-padded w (a / 10) ∙ sym (size-padded w (b / 10)))
          (padded-lt w (a / 10) (b / 10) lt (omega (arith, small))))
  | inr same ↦
      rw (padded-suc w a, padded-suc w b, same) (last_char-text_lt a b (padded w (b / 10)) same h)
]

-- Of two generations below 2 ^ 64, the lower one is written as a text that comes first in the order
-- of keys.
pub gen_str-lt : (g h : ℕ) → g < h → h < 2 ^ 64 → text_lt (gen_str g) (gen_str h) ≡ true
unfolding gen_str text_lt
gen_str-lt g h lt small = elim (div_cases g h lt) [
  | inl less ↦
      lt-append (padded 19 (g / 10)) (padded 19 (h / 10)) (digit (g % 10)) (digit (h % 10))
        (size-padded 19 (g / 10) ∙ sym (size-padded 19 (h / 10)))
        (padded-lt 19 (g / 10) (h / 10) less (omega (arith, small)))
  | inr same ↦ ground (
    arith,
    same,
    text_lt-append (padded 19 (h / 10)) (digit (g % 10)) (digit (h % 10)),
    code-digit_char (g % 10) (omega arith),
    code-digit_char (h % 10) (omega arith),
    lt,
  )
]

-- Different generations are written differently.
pub gen_str-injective : (g h : ℕ) → g < 2 ^ 64 → h < 2 ^ 64 → gen_str g ≡ gen_str h → g ≡ h
gen_str-injective g h small_g small_h same = elim (dec_lt g h) [
  | yes less ↦ absurd (
      ground (
        arith,
        gen_str-lt g h less small_h,
        text_lt_irrefl (gen_str h),
        ap (λ s. text_lt s (gen_str h)) same,
      ))
  | no not_less ↦ elim (dec_lt h g) [
    | yes less ↦ absurd (
        ground (
          arith,
          gen_str-lt h g less small_g,
          text_lt_irrefl (gen_str h),
          ap (λ s. text_lt (gen_str h) s) same,
        ))
    | no not_more ↦ omega (arith, not_less, not_more)
  ]
]
