-- ===== src/Base/Result.antt =====
-- A Go function that returns (value, error), where the value counts only if the error is nil.

use mathlib.Core.Path.{◌≡◌, refl, ap, subst}
use mathlib.Core.Logic.{◌⊎◌, inl, inr}

pub data Result {ℓ κ} (E : Type κ) (A : Type ℓ) : Type (ℓ ⊔ κ) where
  ok : A → Result E A
  err : E → Result E A

infixl 5 ◌>>=◌ ◌>>◌
abbrev pub ◌>>=◌ {ℓ κ μ} :
    {E : Type κ} {A : Type ℓ} {B : Type μ} → Result E A → (A → Result E B) → Result E B
ok a >>= f = f a
err e >>= f = err e

abbrev pub ◌>>◌ {κ μ} : {E : Type κ} {B : Type μ} → Result E (Unit {0}) → Result E B → Result E B
m >> k = m >>= λ _. k

pub Result-cases {ℓ κ} :
    {E : Type κ} {A : Type ℓ} (r : Result E A) → ((a : A) × (r ≡ ok a)) ⊎ ((e : E) × (r ≡ err e))
Result-cases (ok a) = inl (a, refl)
Result-cases (err e) = inr (e, refl)

pub ok_injective {ℓ κ} :
    {E : Type κ} {A : Type ℓ} (a b : A) → ◌≡◌ {A = Result E A} (ok a) (ok b) → a ≡ b
ok_injective {E} {A} a b h = ap (λ (r : Result E A). elim r [ ok x ↦ x | err _ ↦ a ]) h

-- What holds of the value if there is no error.
pub record OnOk {E A : Type 0} (P : A → Type 0) (r : Result E A) : Type 0 where
  pub at : (a : A) → r ≡ ok a → P a

pub ok-OnOk : {E A : Type 0} (P : A → Type 0) (a : A) → P a → OnOk {E = E} P (ok a)
ok-OnOk P a p = record { at = λ b h. subst P (ok_injective a b h) p }

pub err-OnOk : {E A : Type 0} (P : A → Type 0) (e : E) → OnOk P (err e)
err-OnOk {E} {A} P e = record {
  at = λ b h. absurd (subst (λ (r : Result E A). elim r [ ok _ ↦ ⊥ | err _ ↦ Unit {0} ]) h tt);
}

pub any-OnOk : {E A : Type 0} (r : Result E A) → OnOk (λ _. Unit {0}) r
any-OnOk r = record { at = λ _ _. tt }

pub both-OnOk :
    {E A : Type 0} (P Q : A → Type 0) (r : Result E A)
    → OnOk P r
    → OnOk Q r
    → OnOk (λ a. P a × Q a) r
both-OnOk P Q r p q = record { at = λ a h. (p.at a h, q.at a h) }

-- The value of a chain comes from the values of its parts.
pub bind-OnOk :
    {E A B : Type 0} {Q : A → Type 0} (P : B → Type 0) (r : Result E A) (f : A → Result E B)
    → OnOk Q r
    → ((a : A) → r ≡ ok a → Q a → OnOk P (f a))
    → OnOk P (r >>= f)
bind-OnOk P (ok a) f q h = h a refl (q.at a refl)
bind-OnOk P (err e) f q h = err-OnOk P e

-- Two calls in a row succeed only if both do.
pub then-ok :
    {E : Type 0} (m k : Result E (Unit {0})) → (m >> k) ≡ ok tt → (m ≡ ok tt) × (k ≡ ok tt)
then-ok (ok tt) k h = (refl, h)
then-ok (err e) k h = cc
