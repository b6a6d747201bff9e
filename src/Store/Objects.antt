-- ===== src/Store/Objects.antt =====
-- pkg/runtime: the interfaces of stored objects (object.go), the registry (info.go, registry.go) and
-- keys (key.go).
use Prim.Native.String.{◌++◌}
use aptomi.Base.{ℕ, String, Bool, true, ◌≡◌, ◌==◌, if◌then◌else◌}

-- Storable, with what the type assertions to Versioned and Deletable give.
pub record Storable (O : Type 0) : Type 0 where
  pub get_kind : O → String
  pub get_namespace : O → String
  pub get_name : O → String
  pub is_versioned : O → Bool
  pub get_generation : O → ℕ
  pub set_generation : ℕ → O → O
  -- Deletable, and IsDeleted.
  pub is_deleted : O → Bool

pub record Info : Type 0 where
  pub versioned : Bool
  pub deletable : Bool

-- KeyFromParts. No object has an empty namespace or kind.
unfoldable pub key_from_parts : String → String → String → String
key_from_parts namespace kind name =
    let key = namespace ++ ("/" ++ kind) in if name == "" then key else key ++ ("/" ++ name)

module _ {O : Type 0} (objects : Storable O) where
  -- KeyForStorable
  unfoldable pub key_for : O → String
  key_for o = key_from_parts (objects.get_namespace o) (objects.get_kind o) (objects.get_name o)

-- What holds of getters and setters.
pub record IsStorable {O : Type 0} (objects : Storable O) : Type 0 where
  pub get-set :
      (g : ℕ) (o : O)
      → objects.is_versioned o ≡ true
      → objects.get_generation (objects.set_generation g o) ≡ g
  pub same_key : (g : ℕ) (o : O) → key_for objects (objects.set_generation g o) ≡ key_for objects o
  pub same_kind :
      (g : ℕ) (o : O) → objects.get_kind (objects.set_generation g o) ≡ objects.get_kind o
  pub same_versioned :
      (g : ℕ) (o : O) → objects.is_versioned (objects.set_generation g o) ≡ objects.is_versioned o
