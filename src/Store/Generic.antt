-- ===== src/Store/Generic.antt =====
-- pkg/runtime/store/generic.go: the interface between the store's core and the store over BoltDB, and
-- what the core relies on.
use aptomi.Base.{ℕ, ◌+◌, ◌<◌, ◌≤◌, ◌^◌, String, false, ◌≡◌, Option, some, List, nat_eq}
use aptomi.Base.Result.{Result, ok, OnOk}
use aptomi.Store.Generations.{last_gen}
use aptomi.Store.Objects.{Storable}
use aptomi.Store.Bolt.{Saved}

pub record Generic (O S E : Type 0) : Type 0 where
  pub get : String → S → Result E (Option O)
  pub get_gen : String → ℕ → S → Result E (Option O)
  pub list_generations : String → S → Result E (List O)
  pub save : O → S → Result E (Saved O S)
  pub update : O → S → Result E (Saved O S)

module _ {O S E : Type 0} (objects : Storable O) (generic : Generic O S E) where
  -- All generations of the one store are in the other.
  pub record Extends (s s' : S) : Type 0 where
    pub kept :
        (key : String) (g : ℕ) (v : O)
        → nat_eq g last_gen ≡ false
        → generic.get_gen key g s ≡ ok (some v)
        → generic.get_gen key g s' ≡ ok (some v)

  pub Extends-refl : (s : S) → Extends s s
  Extends-refl s = record { kept = λ key g v given h. h }

  pub Extends-trans : (s t u : S) → Extends s t → Extends t u → Extends s u
  Extends-trans s t u p q = record {
    kept = λ key g v given h. q.kept key g v given (p.kept key g v given h);
  }

  -- A store in which no generation is above `n` stays one with one more, and it loses nothing.
  pub record IsHistory (Valid : ℕ → S → Type 0) (Savable : O → Type 0) (Known : String → Type 0)
      : Type 0 where
    pub grows : (n : ℕ) (s : S) → Valid n s → Valid (n + 1) s
    pub last_bound :
        (n : ℕ) (s : S) (key : String) (o : O)
        → Valid n s
        → n + 1 < 2 ^ 64
        → Known key
        → generic.get_gen key last_gen s ≡ ok (some o)
        → objects.get_generation o ≤ n
    pub save_remains :
        (n : ℕ) (s : S) (o : O)
        → Valid n s
        → n + 1 < 2 ^ 64
        → Savable o
        → objects.get_generation o ≤ n + 1
        → OnOk
            (λ (saved : Saved O S). Valid (n + 1) saved.bucket × Extends s saved.bucket)
            (generic.save o s)
