-- ===== src/Store/Data/Kinds.antt =====
-- pkg/engine and pkg/lang: the kinds of stored objects, their getters and their keys.
use Prim.Native.Char.{code}
use Prim.Native.String.{◌++◌}
use aptomi.Base.{
  ℕ, String, true, false, ◌≡◌, refl, some, arith, ◌==◌, string_dec, Bool-cases, inl, inr,
}
use aptomi.Base.Text.{lacks, lacks-concat}
use aptomi.Lang.Objects.{
  Object, service, contract, cluster, rule, acl_rule, dependency, kind, get_namespace, get_name,
}
use aptomi.Lang.Validation.{is_identifier, is_name_char}
use aptomi.Lang.Validation.Identifiers.{is_identifier-lacks}
use aptomi.Store.Objects.{IsStorable, Info, key_for, key_from_parts}
use aptomi.Store.Data.{
  Stored, PolicyData, policy_object, policy_data, revision, desired_state, component_instance,
  registry, storable, with_metadata, set_deleted, kind_of, policy_data_key,
}
use aptomi.Store.Bolt.{Codec}
use aptomi.Store.Bolt.Paths.{Plain, at_sign}
use aptomi.Store.Bolt.Valid.{place}
use aptomi.Store.Bolt.Placed.{IsRegistered}
use aptomi.Store.Bolt.Instance.{IsSavable}
use aptomi.Store.Bucket.{Bolt}

get-set :
    (g : ℕ) (o : Stored)
    → storable.is_versioned o ≡ true
    → storable.get_generation (storable.set_generation g o) ≡ g
unfolding with_metadata
get-set g (policy_object (service o)) h = refl
get-set g (policy_object (contract o)) h = refl
get-set g (policy_object (cluster o)) h = refl
get-set g (policy_object (rule o)) h = refl
get-set g (policy_object (acl_rule o)) h = refl
get-set g (policy_object (dependency o)) h = refl
get-set g (policy_data d) h = refl
get-set g (revision r) h = refl
get-set g (desired_state s) h = absurd (ground (arith, h))
get-set g (component_instance i) h = absurd (ground (arith, h))

same_key :
    (g : ℕ) (o : Stored) → key_for storable (storable.set_generation g o) ≡ key_for storable o
unfolding with_metadata key_for
same_key g (policy_object (service o)) = refl
same_key g (policy_object (contract o)) = refl
same_key g (policy_object (cluster o)) = refl
same_key g (policy_object (rule o)) = refl
same_key g (policy_object (acl_rule o)) = refl
same_key g (policy_object (dependency o)) = refl
same_key g (policy_data d) = refl
same_key g (revision r) = refl
same_key g (desired_state s) = refl
same_key g (component_instance i) = refl

same_kind : (g : ℕ) (o : Stored) → kind_of (storable.set_generation g o) ≡ kind_of o
unfolding with_metadata
same_kind g (policy_object (service o)) = refl
same_kind g (policy_object (contract o)) = refl
same_kind g (policy_object (cluster o)) = refl
same_kind g (policy_object (rule o)) = refl
same_kind g (policy_object (acl_rule o)) = refl
same_kind g (policy_object (dependency o)) = refl
same_kind g (policy_data d) = refl
same_kind g (revision r) = refl
same_kind g (desired_state s) = refl
same_kind g (component_instance i) = refl

same_versioned :
    (g : ℕ) (o : Stored)
    → storable.is_versioned (storable.set_generation g o) ≡ storable.is_versioned o
same_versioned g (policy_object o) = refl
same_versioned g (policy_data d) = refl
same_versioned g (revision r) = refl
same_versioned g (desired_state s) = refl
same_versioned g (component_instance i) = refl

pub storable-IsStorable : IsStorable storable
storable-IsStorable = record {
  get-set = get-set;
  same_key = same_key;
  same_kind = same_kind;
  same_versioned = same_versioned;
}

abbrev object_info : Info
object_info = record { versioned = true; deletable = true }

object-registered : (o : Object) → registry (kind o) ≡ some object_info
unfolding registry string_dec
object-registered (service o) = refl
object-registered (contract o) = refl
object-registered (cluster o) = refl
object-registered (rule o) = refl
object-registered (acl_rule o) = refl
object-registered (dependency o) = refl

abbrev data_info : Info
data_info = record { versioned = true; deletable = false }

data_registered : registry "policy" ≡ some data_info
unfolding registry string_dec
data_registered = refl

revision_registered : registry "revision" ≡ some data_info
unfolding registry string_dec
revision_registered = refl

versioned_place :
    (o : Stored)
    → storable.is_versioned o ≡ true
    → place storable registry o ≡ storable.get_generation o
versioned_place (policy_object p) h = rw (object-registered p, place) refl
versioned_place (policy_data d) h = rw (data_registered, place) refl
versioned_place (revision r) h = rw (revision_registered, place) refl
versioned_place (desired_state s) h = absurd (ground (arith, h))
versioned_place (component_instance i) h = absurd (ground (arith, h))

pub registry-IsRegistered : IsRegistered storable registry
registry-IsRegistered = record { versioned_place = versioned_place }

plain_kind : (o : Object) → Plain (kind o)
unfolding lacks
plain_kind (service o) = refl
plain_kind (contract o) = refl
plain_kind (cluster o) = refl
plain_kind (rule o) = refl
plain_kind (acl_rule o) = refl
plain_kind (dependency o) = refl

-- A key of parts without "@" has none.
Plain-key_from_parts :
    (ns k name : String) → Plain ns → Plain k → Plain name → Plain (key_from_parts ns k name)
unfolding key_from_parts lacks
Plain-key_from_parts ns k name p q r =
    let sep = code at_sign in
    let start = lacks-concat sep ns ("/" ++ k) p (lacks-concat sep "/" k refl q) in
    elim (Bool-cases (name == "")) [
      | inl empty ↦ rw (empty) start
      | inr given ↦ rw (given) (
          lacks-concat sep (ns ++ ("/" ++ k)) ("/" ++ name) start
            (lacks-concat sep "/" name refl r))
    ]

pub policy_data_key-Plain : Plain policy_data_key
unfolding key_from_parts lacks string_dec
policy_data_key-Plain = refl

-- An object of a policy whose namespace and name are identifiers.
pub record IsNamed (o : Object) : Type 0 where
  pub namespace : is_identifier (get_namespace o) ≡ true
  pub name : is_identifier (get_name o) ≡ true

same_names : (o : Object) → IsNamed o → IsNamed (set_deleted true o)
unfolding with_metadata
same_names (service o) h = record { namespace = h.namespace; name = h.name }
same_names (contract o) h = record { namespace = h.namespace; name = h.name }
same_names (cluster o) h = record { namespace = h.namespace; name = h.name }
same_names (rule o) h = record { namespace = h.namespace; name = h.name }
same_names (acl_rule o) h = record { namespace = h.namespace; name = h.name }
same_names (dependency o) h = record { namespace = h.namespace; name = h.name }

identifier-Plain : (s : String) → is_identifier s ≡ true → Plain s
unfolding is_name_char
identifier-Plain s h = is_identifier-lacks s (code at_sign) h refl

module _ {B E : Type 0} (codec : Codec Stored E) (bolt : Bolt B String E) where
  pub named-IsSavable :
      (o : Object) → IsNamed o → IsSavable storable registry codec bolt (policy_object o)
  unfolding key_for
  named-IsSavable o h = record {
    info = object_info;
    known = object-registered o;
    versioned_kind = refl;
    versioned = refl;
    plain =
        Plain-key_from_parts (get_namespace o) (kind o) (get_name o)
          (identifier-Plain (get_namespace o) h.namespace) (plain_kind o)
          (identifier-Plain (get_name o) h.name);
  }

  pub deleted-IsSavable :
      (o : Object)
      → IsNamed o
      → IsSavable storable registry codec bolt (policy_object (set_deleted true o))
  deleted-IsSavable o h = named-IsSavable (set_deleted true o) (same_names o h)

  pub data-IsSavable : (pd : PolicyData) → IsSavable storable registry codec bolt (policy_data pd)
  unfolding key_for
  data-IsSavable pd = record {
    info = data_info;
    known = data_registered;
    versioned_kind = refl;
    versioned = refl;
    plain = policy_data_key-Plain;
  }
