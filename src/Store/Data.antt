-- ===== src/Store/Data.antt =====
-- pkg/engine/policy_data.go, revision.go and desired_state.go: what the store keeps besides the
-- objects of policies. The log of a revision is left out. A time is a number.
pub mod Entries
pub mod Kinds
use Prim.Native.String.{◌++◌}
use aptomi.Base.{ℕ, String, Bool, true, false, Option, none, some, [], ◌==◌, if◌then◌else◌}
use aptomi.Base.Dict.{Dict, lookup, insert, erase, has}
use aptomi.Lang.Objects.{
  Metadata, Object, service, contract, cluster, rule, acl_rule, dependency, metadata, kind,
  get_namespace, get_name, system_ns,
}
use aptomi.Engine.Instances.{ComponentInstance}
use aptomi.Engine.Keys.{get_key}
use aptomi.Engine.Resolution.{PolicyResolution}
use aptomi.Store.Generations.{first_gen, last_gen, format_uint}
use aptomi.Store.Objects.{Storable, Info, key_from_parts}
use aptomi.Store.Results.{ApplyResult, empty_result}

-- Namespace, kind and name to generation.
pub record PolicyData : Type 0 where
  pub generation : ℕ
  pub updated_at : ℕ
  pub updated_by : String
  pub objects : Dict (Dict (Dict ℕ))

pub data RevisionStatus : Type 0 where
  waiting in_progress completed error : RevisionStatus

pub record Revision : Type 0 where
  pub generation : ℕ
  pub policy_gen : ℕ
  pub status : RevisionStatus
  pub created_at : ℕ
  pub recalculate_all : Bool
  pub result : ApplyResult
  pub applied_at : ℕ

pub record DesiredState : Type 0 where
  pub revision_gen : ℕ
  pub resolution : PolicyResolution

pub data Stored : Type 0 where
  policy_object : Object → Stored
  policy_data : PolicyData → Stored
  revision : Revision → Stored
  desired_state : DesiredState → Stored
  component_instance : ComponentInstance → Stored

abbrev pub policy_data_key : String
policy_data_key = key_from_parts system_ns "policy" ""

abbrev pub revision_key : String
revision_key = key_from_parts system_ns "revision" ""

-- NewRevision of package engine
unfoldable pub new_revision_data : ℕ → ℕ → Bool → ℕ → Revision
new_revision_data gen policy_gen recalculate_all now = record {
  generation = gen;
  policy_gen = policy_gen;
  status = waiting;
  created_at = now;
  recalculate_all = recalculate_all;
  result = empty_result;
  applied_at = 0;
}

-- GetDesiredStateName
unfoldable pub get_desired_state_name : ℕ → String
get_desired_state_name revision_gen = "revision-" ++ (format_uint revision_gen ++ "-desired-state")

abbrev pub or_empty {ℓ} : {V : Type ℓ} → Option (Dict V) → Dict V
or_empty none = []
or_empty (some d) = d

-- Add
unfoldable pub add : Object → PolicyData → PolicyData
add o pd =
    let by_ns = or_empty (lookup (get_namespace o) pd.objects) in
    let by_kind = or_empty (lookup (kind o) by_ns) in
    record pd {
      objects =
          insert (get_namespace o)
            (insert (kind o) (insert (get_name o) (metadata o).generation by_kind) by_ns)
            pd.objects;
    }

-- Remove, with whether the object was there.
unfoldable pub remove : Object → PolicyData → PolicyData × Bool
remove o pd = elim (lookup (get_namespace o) pd.objects) [
  | none ↦ (pd, false)
  | some by_ns ↦ elim (lookup (kind o) by_ns) [
    | none ↦ (pd, false)
    | some by_kind ↦ (
      record pd {
        objects =
            insert (get_namespace o) (insert (kind o) (erase (get_name o) by_kind) by_ns)
              pd.objects;
      },
      has (get_name o) by_kind,
    )
  ]
]

-- The metadata of an object, changed.
unfoldable pub with_metadata : (Metadata → Metadata) → Object → Object
with_metadata f (service o) = service (record o { metadata = f o.metadata })
with_metadata f (contract o) = contract (record o { metadata = f o.metadata })
with_metadata f (cluster o) = cluster (record o { metadata = f o.metadata })
with_metadata f (rule o) = rule (record o { metadata = f o.metadata })
with_metadata f (acl_rule o) = acl_rule (record o { metadata = f o.metadata })
with_metadata f (dependency o) = dependency (record o { metadata = f o.metadata })

abbrev pub set_deleted : Bool → Object → Object
set_deleted deleted = with_metadata (λ m. record m { deleted = deleted })

-- The Info of each kind, in the registry.
unfoldable pub registry : String → Option Info
registry k =
    if k == "policy"
    then some (record { versioned = true; deletable = false })
    else if k == "revision"
    then some (record { versioned = true; deletable = false })
    else if k == "desired-state"
    then some (record { versioned = false; deletable = false })
    else if k == "component-instance"
    then some (record { versioned = false; deletable = false })
    else if k == "service"
    then some (record { versioned = true; deletable = true })
    else if k == "contract"
    then some (record { versioned = true; deletable = true })
    else if k == "cluster"
    then some (record { versioned = true; deletable = true })
    else if k == "rule"
    then some (record { versioned = true; deletable = true })
    else if k == "aclrule"
    then some (record { versioned = true; deletable = true })
    else if k == "dependency"
    then some (record { versioned = true; deletable = true })
    else none

abbrev pub kind_of : Stored → String
kind_of (policy_object o) = kind o
kind_of (policy_data _) = "policy"
kind_of (revision _) = "revision"
kind_of (desired_state _) = "desired-state"
kind_of (component_instance _) = "component-instance"

abbrev pub namespace_of : Stored → String
namespace_of (policy_object o) = get_namespace o
namespace_of (policy_data _) = system_ns
namespace_of (revision _) = system_ns
namespace_of (desired_state _) = system_ns
namespace_of (component_instance _) = system_ns

abbrev pub name_of : Stored → String
name_of (policy_object o) = get_name o
name_of (policy_data _) = ""
name_of (revision _) = ""
name_of (desired_state s) = get_desired_state_name s.revision_gen
name_of (component_instance i) = get_key i.key

abbrev pub is_versioned : Stored → Bool
is_versioned (policy_object _) = true
is_versioned (policy_data _) = true
is_versioned (revision _) = true
is_versioned (desired_state _) = false
is_versioned (component_instance _) = false

abbrev pub generation_of : Stored → ℕ
generation_of (policy_object o) = (metadata o).generation
generation_of (policy_data d) = d.generation
generation_of (revision r) = r.generation
generation_of (desired_state _) = last_gen
generation_of (component_instance _) = last_gen

abbrev pub with_generation : ℕ → Stored → Stored
with_generation g (policy_object o) =
    policy_object (with_metadata (λ m. record m { generation = g }) o)
with_generation g (policy_data d) = policy_data (record d { generation = g })
with_generation g (revision r) = revision (record r { generation = g })
with_generation g (desired_state s) = desired_state s
with_generation g (component_instance i) = component_instance i

abbrev pub deleted_of : Stored → Bool
deleted_of (policy_object o) = (metadata o).deleted
deleted_of (policy_data _) = false
deleted_of (revision _) = false
deleted_of (desired_state _) = false
deleted_of (component_instance _) = false

abbrev pub storable : Storable Stored
storable = record {
  get_kind = kind_of;
  get_namespace = namespace_of;
  get_name = name_of;
  is_versioned = is_versioned;
  get_generation = generation_of;
  set_generation = with_generation;
  is_deleted = deleted_of;
}
