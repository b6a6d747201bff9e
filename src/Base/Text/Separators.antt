-- ===== src/Base/Text/Separators.antt =====
-- A separator that a part lacks cuts a joined text in one way.
use Prim.Native.Char.{Char, code}
use Prim.Native.String.{String, ◌++◌}
use mathlib.Core.Path.{◌≡◌, refl, ap}
use mathlib.Core.Bool.{true, false}
use mathlib.Core.List.{[], ◌∷◌}
use native.Mathlib.Omega.{arith}
use text.Mathlib.TextLemmas.{nil-append, cons-append}
use aptomi.Base.Text.{lacks, split_two}

-- The separator is the text of one character, `c`.
module _ (c : Char) where
  abbrev pub sep : String
  sep = String.◌∷◌ c ""

  sep-append : (s : String) → sep ++ s ≡ String.◌∷◌ c s
  sep-append s = rw cons-append (rw nil-append)

  -- A separator that the first parts lack: the first of them is where the text is cut.
  pub cut_first :
      (s t u v : String)
      → lacks (code c) s ≡ true
      → lacks (code c) t ≡ true
      → s ++ (sep ++ u) ≡ t ++ (sep ++ v)
      → (s ≡ t) × (u ≡ v)
  unfolding lacks
  cut_first String.[] String.[] u v hs ht e = (
    refl,
    ground (arith, nil-append (sep ++ u), nil-append (sep ++ v), sep-append u, sep-append v),
  )
  cut_first String.[] (String.◌∷◌ d t) u v hs ht e = ground (
    arith,
    nil-append (sep ++ u),
    cons-append d t (sep ++ v),
    sep-append u,
    ap code {x = c} {y = d},
  )
  cut_first (String.◌∷◌ d s) String.[] u v hs ht e = ground (
    arith,
    nil-append (sep ++ v),
    cons-append d s (sep ++ u),
    sep-append v,
    ap code {x = c} {y = d},
  )
  cut_first (String.◌∷◌ d s) (String.◌∷◌ d' t) u v hs ht e =
      ground (arith, cons-append d s (sep ++ u), cons-append d' t (sep ++ v), cut_first s t u v)

  lacks-append : (s t : String) → lacks (code c) (s ++ (sep ++ t)) ≡ false
  unfolding lacks
  lacks-append String.[] t = ground (arith, nil-append (sep ++ t), sep-append t)
  lacks-append (String.◌∷◌ d s) t = ground (arith, cons-append d s (sep ++ t), lacks-append s t)

  -- A separator that the last parts lack: the last of them is where the text is cut.
  pub cut_last :
      (s t u v : String)
      → lacks (code c) u ≡ true
      → lacks (code c) v ≡ true
      → s ++ (sep ++ u) ≡ t ++ (sep ++ v)
      → (s ≡ t) × (u ≡ v)
  unfolding lacks
  cut_last String.[] String.[] u v hs ht e = (
    refl,
    ground (arith, nil-append (sep ++ u), nil-append (sep ++ v), sep-append u, sep-append v),
  )
  cut_last String.[] (String.◌∷◌ d t) u v hs ht e =
      ground
        (arith, nil-append (sep ++ u), cons-append d t (sep ++ v), sep-append u, lacks-append t v)
  cut_last (String.◌∷◌ d s) String.[] u v hs ht e =
      ground
        (arith, nil-append (sep ++ v), cons-append d s (sep ++ u), sep-append v, lacks-append s u)
  cut_last (String.◌∷◌ d s) (String.◌∷◌ d' t) u v hs ht e =
      ground (arith, cons-append d s (sep ++ u), cons-append d' t (sep ++ v), cut_last s t u v)

  -- SplitN cuts where the first separator stands.
  pub split_two-separator :
      (s t : String) → lacks (code c) s ≡ true → split_two (s ++ (sep ++ t)) (code c) ≡ s ∷ t ∷ []
  unfolding lacks split_two
  split_two-separator String.[] t h = ground (arith, nil-append (sep ++ t), sep-append t)
  split_two-separator (String.◌∷◌ d s) t h =
      ground (arith, cons-append d s (sep ++ t), split_two-separator s t)
