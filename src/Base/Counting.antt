-- ===== src/Base/Counting.antt =====
-- Sums over the keys of a map, and occurrences in a list of keys.
use aptomi.Base.{
  ℕ, zero, suc, ◌+◌, ◌≤◌, ◌<◌, String, ◌≡◌, refl, true, false, List, [], ◌∷◌, arith, ◌==◌,
  if◌then◌else◌,
}
use aptomi.Base.Lists.{contains}

-- How often the text stands in the list.
abbrev pub count : String → List String → ℕ
count p [] = 0
count p (x ∷ xs) = if p == x then suc (count p xs) else count p xs

abbrev pub total : (String → ℕ) → List String → ℕ
total f [] = 0
total f (x ∷ xs) = f x + total f xs

abbrev pub NodupList : List String → Type 0
NodupList [] = Unit
NodupList (x ∷ xs) = (contains xs x ≡ false) × NodupList xs

-- Two functions that agree on all keys of the list but `b`.
abbrev pub Agree : String → (String → ℕ) → (String → ℕ) → Type 0
Agree b f g = (x : String) → (x == b) ≡ false → f x ≡ g x

total-Agree :
    (b : String) (f g : String → ℕ) (xs : List String)
    → contains xs b ≡ false
    → Agree b f g
    → total f xs ≡ total g xs
total-Agree b f g [] h same = refl
total-Agree b f g (x ∷ xs) h same = ground (arith, total-Agree b f g xs, same x)

-- A change at one key changes the sum by as much.
pub total-change :
    (b : String) (f g : String → ℕ) (xs : List String)
    → NodupList xs
    → contains xs b ≡ true
    → Agree b f g
    → total f xs + g b ≡ total g xs + f b
total-change b f g [] u h same = cc
total-change b f g (x ∷ xs) u h same =
    ground (arith, total-change b f g xs u.1, total-Agree b f g xs, same x)

pub total-le :
    (b : String) (f : String → ℕ) (xs : List String) → contains xs b ≡ true → f b ≤ total f xs
total-le b f [] h = cc
total-le b f (x ∷ xs) h = ground (arith, total-le b f xs)

-- A positive sum has a positive term.
pub total_positive :
    (f : String → ℕ) (xs : List String)
    → 0 < total f xs
    → (b : String) × (contains xs b ≡ true) × (0 < f b)
total_positive f [] h = absurd (omega arith)
total_positive f (x ∷ xs) h =
    elim (f x) as (λ n. f x ≡ n → Found) [
      | zero ↦
          λ e. let (b, inside, pos) = total_positive f xs (omega arith) in (b, ground arith, pos)
      | suc n ↦ λ e. (x, ground arith, omega arith)
    ]
      refl
  where
    Found : Type 0
    Found = (b : String) × (contains (x ∷ xs) b ≡ true) × (0 < f b)

pub total-ext :
    (f g : String → ℕ) (xs : List String) → ((x : String) → f x ≡ g x) → total f xs ≡ total g xs
total-ext f g [] same = refl
total-ext f g (x ∷ xs) same = omega (arith, same x, total-ext f g xs same)

pub count-contains : (p : String) (xs : List String) → contains xs p ≡ true → 0 < count p xs
count-contains p [] h = cc
count-contains p (x ∷ xs) h = ground (arith, count-contains p xs)

pub contains-count : (p : String) (xs : List String) → 0 < count p xs → contains xs p ≡ true
contains-count p [] h = absurd (omega arith)
contains-count p (x ∷ xs) h = ground (arith, contains-count p xs)
