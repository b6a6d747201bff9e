-- ===== src/Tests/Bucket.antt =====
-- A bucket in memory, for the store over BoltDB: a list of entries in the order of their keys.
use text.Mathlib.TextEquality.{Char-path}
use Prim.Native.Char.{Char, code}
use aptomi.Base.{
  String, true, false, ◌≡◌, refl, sym, ap, subst, ◌⊎◌, inl, inr, some, [], ◌∷◌, ◌==◌, arith,
  Bool-cases, if◌then◌else◌, eq_of_test, ltb,
}
use aptomi.Base.Dict.{Dict, lookup}
use aptomi.Base.Entries.{Each}
use aptomi.Base.Lists.{In}
use aptomi.Base.Result.{ok, ok_injective}
use aptomi.Store.Generations.{text_lt}
use aptomi.Store.Generations.Order.{text_lt_irrefl}
use aptomi.Store.Bucket.{Bolt, IsOrdered, Ascending}

text_lt_trans : (s t u : String) → text_lt s t ≡ true → text_lt t u ≡ true → text_lt s u ≡ true
unfolding text_lt
text_lt_trans s t String.[] p q = cc
text_lt_trans String.[] String.[] (String.◌∷◌ e u) p q = cc
text_lt_trans String.[] (String.◌∷◌ d t) (String.◌∷◌ e u) p q = refl
text_lt_trans (String.◌∷◌ c s) String.[] (String.◌∷◌ e u) p q = cc
text_lt_trans (String.◌∷◌ c s) (String.◌∷◌ d t) (String.◌∷◌ e u) p q =
    ground (arith, text_lt_trans s t u)

same_text : (c d : Char) (s t : String) → code c ≡ code d → s ≡ t → String.◌∷◌ c s ≡ String.◌∷◌ d t
same_text c d s t p q = let first = Char-path c d p in ground (arith, first, q)

pub text_lt-cases : (s t : String) → text_lt s t ≡ false → (s ≡ t) ⊎ (text_lt t s ≡ true)
unfolding text_lt
text_lt-cases String.[] String.[] h = inl refl
text_lt-cases (String.◌∷◌ c s) String.[] h = inr refl
text_lt-cases String.[] (String.◌∷◌ d t) h = cc
text_lt-cases (String.◌∷◌ c s) (String.◌∷◌ d t) h = elim (Bool-cases (text_lt s t)) [
  | inl less ↦ inr (ground (arith, less, h))
  | inr not_less ↦ elim (text_lt-cases s t not_less) [
    | inr more ↦ inr (ground (arith, more, h))
    | inl same ↦ elim (Bool-cases (ltb (code d) (code c))) [
      | inl more ↦ inr (ground (arith, more))
      | inr not_more ↦ inl (same_text c d s t (ground (arith, h, not_more)) same)
    ]
  ]
]

unfoldable pub set : {D : Type 0} → String → D → Dict D → Dict D
set k d [] = (k, d) ∷ []
set k d ((j, e) ∷ rest) =
    let others = set k d rest in
    if k == j
    then (k, d) ∷ rest
    else if text_lt k j
    then (k, d) ∷ (j, e) ∷ rest
    else (j, e) ∷ others

unfoldable pub from : {D : Type 0} → String → Dict D → Dict D
from p [] = []
from p ((k, d) ∷ rest) = let later = from p rest in if text_lt k p then later else (k, d) ∷ rest

lookup-set :
    {D : Type 0} (j k : String) (d : D) (b : Dict D)
    → lookup j (set k d b) ≡ (if j == k then some d else lookup j b)
unfolding lookup set
lookup-set j k d [] = refl
lookup-set j k d ((i, e) ∷ rest) = elim (Bool-cases (k == i)) [
  | inl same ↦ let path = eq_of_test k i same in ground (arith, same, path)
  | inr other ↦ elim (Bool-cases (text_lt k i)) [
    | inl less ↦ ground (arith, other, less)
    | inr more ↦ elim (Bool-cases (j == i)) [
      | inl here ↦ let path = eq_of_test j i here in ground (arith, other, more, here, path)
      | inr there ↦ ground (arith, other, more, there, lookup-set j k d rest)
    ]
  ]
]

Each-set :
    {D : Type 0} (P : String → D → Type 0) (k : String) (d : D) (b : Dict D)
    → P k d
    → Each P b
    → Each P (set k d b)
unfolding set
Each-set P k d [] here h = (here, tt)
Each-set P k d ((i, e) ∷ rest) here h = elim (Bool-cases (k == i)) [
  | inl same ↦ rw (same, set) (here, h.1)
  | inr other ↦ elim (Bool-cases (text_lt k i)) [
    | inl less ↦ rw (other, less, set) (here, h)
    | inr more ↦ rw (other, more, set) (h.0, Each-set P k d rest here h.1)
  ]
]

Each-map :
    {D : Type 0} (P Q : String → D → Type 0) (b : Dict D)
    → ((k : String) (d : D) → P k d → Q k d)
    → Each P b
    → Each Q b
Each-map P Q [] f h = tt
Each-map P Q ((k, d) ∷ rest) f h = (f k d h.0, Each-map P Q rest f h.1)

Each-In :
    {D : Type 0} (P : String → D → Type 0) (k : String) (d : D) (b : Dict D)
    → In (k, d) b
    → Each P b
    → P k d
Each-In P k d [] inside h = absurd inside
Each-In P k d ((i, e) ∷ rest) (inl same) h = subst (λ x. P x.0 x.1) (sym same) h.0
Each-In P k d ((i, e) ∷ rest) (inr later) h = Each-In P k d rest later h.1

pub set-Ascending :
    {D : Type 0} (k : String) (d : D) (b : Dict D) → Ascending b → Ascending (set k d b)
unfolding set
set-Ascending k d [] h = (tt, tt)
set-Ascending k d ((i, e) ∷ rest) h = elim (Bool-cases (k == i)) [
  | inl same ↦
      rw (same, set)
        (subst (λ x. Each (λ j _. text_lt x j ≡ true) rest) (sym (eq_of_test k i same)) h.0, h.1)
  | inr other ↦ elim (Bool-cases (text_lt k i)) [
    | inl less ↦
        rw (other, less, set)
          ((less, Each-map _ _ rest (λ j _ more. text_lt_trans k i j less more) h.0), h)
    | inr not_less ↦
        rw (other, not_less, set)
          (
            elim (text_lt-cases k i not_less) [
              | inl same ↦ absurd (ground (arith, other, same))
              | inr more ↦ Each-set _ k d rest more h.0
            ],
            set-Ascending k d rest h.1,
          )
  ]
]

In-lookup : {D : Type 0} (k : String) (d : D) (b : Dict D) → lookup k b ≡ some d → In (k, d) b
unfolding lookup
In-lookup k d [] h = absurd (ground (arith, h))
In-lookup k d ((i, e) ∷ rest) h = elim (Bool-cases (k == i)) [
  | inl same ↦
      let path = eq_of_test k i same in
      let value : e ≡ d = ground (arith, same, h) in inl (ground (arith, path, value))
  | inr other ↦ inr (In-lookup k d rest (ground (arith, other, h)))
]

from_complete :
    {D : Type 0} (p k : String) (d : D) (b : Dict D)
    → lookup k b ≡ some d
    → text_lt k p ≡ false
    → In (k, d) (from p b)
unfolding from lookup
from_complete p k d [] h not_less = absurd (ground (arith, h))
from_complete p k d ((i, e) ∷ rest) h not_less = elim (Bool-cases (k == i)) [
  | inl same ↦
      let path = eq_of_test k i same in
      let value : e ≡ d = ground (arith, same, h) in
      rw (sym path, not_less, from) (inl (ground (arith, path, value)))
  | inr other ↦
      let later = from_complete p k d rest (ground (arith, other, h)) not_less in
      elim (Bool-cases (text_lt i p)) [
        | inl before ↦ rw (before, from) later
        | inr here ↦ rw (here, from) (inr (In-lookup k d rest (ground (arith, other, h))))
      ]
]

-- An entry of a list in order is the one that is looked up.
lookup-In :
    {D : Type 0} (k : String) (d : D) (b : Dict D) → Ascending b → In (k, d) b → lookup k b ≡ some d
unfolding lookup
lookup-In k d [] h inside = absurd inside
lookup-In k d ((i, e) ∷ rest) h (inl same) =
    let name : k ≡ i = ap (λ x. x.0) same in
    let value : d ≡ e = ap (λ x. x.1) same in ground (arith, name, value)
lookup-In k d ((i, e) ∷ rest) h (inr later) =
    let more = Each-In _ k d rest later h.0 in
    elim (Bool-cases (k == i)) [
      | inl same ↦
          let path = eq_of_test k i same in
          absurd (ground (arith, text_lt_irrefl i, subst (λ x. text_lt i x ≡ true) path more))
      | inr other ↦ ground (arith, other, lookup-In k d rest h.1 later)
    ]

from_sound : {D : Type 0} (p k : String) (d : D) (b : Dict D) → In (k, d) (from p b) → In (k, d) b
unfolding from
from_sound p k d [] inside = inside
from_sound p k d ((i, e) ∷ rest) inside = elim (Bool-cases (text_lt i p)) [
  | inl before ↦ inr (from_sound p k d rest (rw (before, from) at inside))
  | inr here ↦ rw (here, from) at inside
]

from-Ascending : {D : Type 0} (p : String) (b : Dict D) → Ascending b → Ascending (from p b)
unfolding from
from-Ascending p [] h = h
from-Ascending p ((i, e) ∷ rest) h = elim (Bool-cases (text_lt i p)) [
  | inl before ↦ rw (before, from) (from-Ascending p rest h.1)
  | inr here ↦ rw (here, from) h
]

not_less : (p i j : String) → text_lt i p ≡ false → text_lt i j ≡ true → text_lt j p ≡ false
not_less p i j here more = elim (Bool-cases (text_lt j p)) [
  | inr fine ↦ fine
  | inl less ↦ absurd (ground (arith, here, text_lt_trans i j p more less))
]

from-start :
    {D : Type 0} (p : String) (b : Dict D)
    → Ascending b
    → Each (λ k _. text_lt k p ≡ false) (from p b)
unfolding from
from-start p [] h = tt
from-start p ((i, e) ∷ rest) h = elim (Bool-cases (text_lt i p)) [
  | inl before ↦ rw (before, from) (from-start p rest h.1)
  | inr here ↦ rw (here, from) (here, Each-map _ _ rest (λ j _ more. not_less p i j here more) h.0)
]

pub record Bucket : Type 0 where
  pub entries : Dict String
  pub ordered : Ascending entries

abbrev pub empty : Bucket
empty = record { entries = []; ordered = tt }

unfoldable pub put : String → String → Bucket → Bucket
put k d b = record { entries = set k d b.entries; ordered = set-Ascending k d b.entries b.ordered }

unfoldable pub in_memory : Bolt Bucket String String
in_memory = record {
  get = λ k b. lookup k b.entries;
  put = λ k d b. ok (put k d b);
  seek = λ p b. from p b.entries;
}

pub in_memory-IsOrdered : IsOrdered in_memory
unfolding in_memory put
in_memory-IsOrdered = record {
  get-put = λ j k d b b' h.
      subst (λ x. lookup j x.entries ≡ (if j == k then some d else lookup j b.entries))
        (ok_injective (put k d b) b' h) (lookup-set j k d b.entries);
  seek_complete = λ p k d b. from_complete p k d b.entries;
  seek_sound =
      λ p k d b inside. lookup-In k d b.entries b.ordered (from_sound p k d b.entries inside);
  seek_from = λ p b. from-start p b.entries b.ordered;
  seek-Ascending = λ p b. from-Ascending p b.entries b.ordered;
}
