-- ===== src/Base/Text/Cancel.antt =====
-- Texts with a common start or end.
use Prim.Native.Nat.{ℕ, suc, ◌+◌}
use Prim.Native.Char.{Char}
use Prim.Native.String.{String, ◌++◌}
use mathlib.Core.Path.{◌≡◌, refl, sym, ap, ◌∙◌}
use native.Mathlib.Omega.{arith}
use text.Mathlib.TextEquality.{Char-path}
use text.Mathlib.TextLemmas.{nil-append, cons-append}

size : String → ℕ
size String.[] = 0
size (String.◌∷◌ c s) = suc (size s)

size-concat : (s t : String) → size (s ++ t) ≡ size s + size t
unfolding size
size-concat String.[] t = ground (arith, nil-append t)
size-concat (String.◌∷◌ c s) t = ground (arith, cons-append c s t, size-concat s t)

-- What comes before a common end.
pub same_start : (s t u : String) → s ++ u ≡ t ++ u → s ≡ t
unfolding size
same_start String.[] String.[] u h = refl
same_start String.[] (String.◌∷◌ d t) u h =
    absurd (omega (arith, ap size h, size-concat "" u, size-concat (String.◌∷◌ d t) u))
same_start (String.◌∷◌ c s) String.[] u h =
    absurd (omega (arith, ap size h, size-concat "" u, size-concat (String.◌∷◌ c s) u))
same_start (String.◌∷◌ c s) (String.◌∷◌ d t) u h =
    let cons = sym (cons-append c s u) ∙ h ∙ cons-append d t u in
    let first = Char-path c d (ground (arith, cons)) in
    let rest = same_start s t u (ground (arith, cons)) in ground (arith, first, rest)

-- What comes after a common start.
pub same_end : (s t u : String) → s ++ t ≡ s ++ u → t ≡ u
same_end String.[] t u h = sym (nil-append t) ∙ h ∙ nil-append u
same_end (String.◌∷◌ c s) t u h =
    let cons = sym (cons-append c s t) ∙ h ∙ cons-append c s u in
    same_end s t u (ground (arith, cons))

-- A text is not itself with something after it.
pub not_longer : (s t : String) (c : Char) → s ≡ s ++ String.◌∷◌ c t → ⊥
unfolding size
not_longer s t c h = omega (arith, ap size h, size-concat s (String.◌∷◌ c t))
