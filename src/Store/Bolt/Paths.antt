-- ===== src/Store/Bolt/Paths.antt =====
-- pkg/runtime/store/generic/bolt/bolt.go: the paths of the objects in the bucket and their order.
use Prim.Native.Char.{Char, char, code}
use Prim.Native.String.{◌++◌}
use text.Mathlib.TextEquality.{Char-path}
use text.Mathlib.TextLemmas.{nil-append, cons-append, append_assoc}
use aptomi.Base.{
  ℕ, ◌≤◌, ◌<◌, ◌^◌, String, true, false, ◌≡◌, refl, sym, ap, ◌⊎◌, inl, inr, arith, Bool-cases, ltb,
}
use aptomi.Base.Text.{has_prefix, lacks}
use aptomi.Store.Generations.{gen_str, text_lt}
use aptomi.Store.Generations.Order.{gen_str-lt, text_lt-append, text_lt_irrefl}
use aptomi.Store.Bolt.{path, prefix_of}

abbrev pub at_sign : Char
at_sign = char 64 tt

-- No "@" in the text.
abbrev pub Plain : String → Type 0
Plain key = lacks (code at_sign) key ≡ true

text_lt-asym : (s t : String) → text_lt s t ≡ true → text_lt t s ≡ false
unfolding text_lt
text_lt-asym s String.[] h = cc
text_lt-asym String.[] (String.◌∷◌ d t) h = refl
text_lt-asym (String.◌∷◌ c s) (String.◌∷◌ d t) h = ground (arith, text_lt-asym s t)

-- Only the entries of a key start with it and the separator.
pub same_prefix :
    (k key rest : String)
    → Plain k
    → Plain key
    → has_prefix (k ++ ("@" ++ rest)) (key ++ "@") ≡ true
    → k ≡ key
unfolding has_prefix lacks
same_prefix String.[] String.[] rest p q h = refl
same_prefix String.[] (String.◌∷◌ d key) rest p q h =
    ground
      (arith, p, q, h, nil-append ("@" ++ rest), cons-append at_sign "" rest, cons-append d key "@")
same_prefix (String.◌∷◌ c k) String.[] rest p q h =
    ground (arith, p, q, h, nil-append "@", cons-append c k ("@" ++ rest))
same_prefix (String.◌∷◌ c k) (String.◌∷◌ d key) rest p q h =
    let same =
      same_prefix k key rest (ground (arith, p)) (ground (arith, q))
        (ground (arith, h, cons-append c k ("@" ++ rest), cons-append d key "@")) in
    let first =
      Char-path c d (ground (arith, h, cons-append c k ("@" ++ rest), cons-append d key "@")) in
    ground (arith, same, first)

has_prefix-append : (s t : String) → has_prefix (s ++ t) s ≡ true
unfolding has_prefix
has_prefix-append String.[] t = refl
has_prefix-append (String.◌∷◌ c s) t = ground (arith, cons-append c s t, has_prefix-append s t)

pub path-has_prefix : (key : String) (g : ℕ) → has_prefix (path key g) (prefix_of key) ≡ true
path-has_prefix key g =
    rw (sym (append_assoc key "@" (gen_str g))) (has_prefix-append (key ++ "@") (gen_str g))

-- The paths of one key rise with the generation.
path-lt : (key : String) (g h : ℕ) → g < h → h < 2 ^ 64 → text_lt (path key g) (path key h) ≡ true
path-lt key g h lt small = ground (
  arith,
  text_lt-append key ("@" ++ gen_str g) ("@" ++ gen_str h),
  text_lt-append "@" (gen_str g) (gen_str h),
  gen_str-lt g h lt small,
)

-- A path that is not after another has no greater generation.
pub path-le :
    (key : String) (g h : ℕ)
    → g < 2 ^ 64
    → (path key g ≡ path key h) ⊎ (text_lt (path key g) (path key h) ≡ true)
    → g ≤ h
path-le key g h small order = elim (Bool-cases (ltb h g)) [
  | inr e ↦ ground (arith, e)
  | inl e ↦ absurd (elim order [
    | inl same ↦ ground (
      arith,
      path-lt key h g (ground (arith, e)) small,
      text_lt_irrefl (path key h),
      ap (λ s. text_lt (path key h) s) same,
    )
    | inr before ↦ ground (
      arith,
      path-lt key h g (ground (arith, e)) small,
      text_lt-asym (path key g) (path key h) before,
    )
  ])
]
