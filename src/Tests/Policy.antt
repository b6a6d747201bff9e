-- ===== src/Tests/Policy.antt =====
-- pkg/lang/policy.go and target.go: runs, and the theorems at concrete inputs.
use aptomi.Base.{
  String, string_dec, ◌≡◌, refl, false, ◌&&◌, none, some, [], ◌∷◌, ◌==◌, if◌then◌else◌,
}
use aptomi.Base.Dict.{lookup, insert, erase, has}
use aptomi.Base.Result.{Result, ok, err}
use aptomi.Base.Text.{split, lacks}
use aptomi.Util.Params.{Value, str}
use aptomi.Lang.Acl.{new_acl_resolver, sorted_by_weight, insert_by_weight}
use aptomi.Lang.Objects.{Metadata, AclRule, Cluster, acl_rule, cluster, get_namespace}
use aptomi.Lang.Namespaces.{
  new_policy_namespace, find_kind, cluster_kind, cluster_modified, stored, put, check_cluster,
}
use aptomi.Lang.Namespaces
use aptomi.Lang.Namespaces.Storage.{is_at}
use aptomi.Lang.Policy.{
  Policy, new_policy, add_object, remove_object, get_object, get_by_parts, get_in_namespace,
  namespace_for, invalidated_by, system_rules, get_cached_acl_resolver,
}
use aptomi.Lang.Policy.Contents.{
  get_object-add_object, get_object-add_object_same, get_object-remove_object,
}
use aptomi.Lang.Policy.Resolver.{adding, viewing, after, get_cached-after, get_cached-remove_object}
use aptomi.Lang.Targets.{new_target}
use aptomi.Lang.Targets.RoundTrip.{new_target-full, new_target-short}

abbrev marshal : Value → Result String String
marshal (str s) = ok s
marshal _ = err "not a text"

abbrev meta : String → String → Metadata
meta ns name = record { namespace = ns; name = name; generation = 1; deleted = false }

abbrev cluster_of : String → Cluster
cluster_of config = record {
  metadata = meta "main" "west";
  type = "kubernetes";
  labels = [];
  config = str config;
}

abbrev admins : AclRule
admins = record {
  metadata = meta "system" "admins";
  weight = 10;
  criteria = none;
  add_role = ("domain-admin", "*") ∷ [];
}

abbrev west : Policy
west = record {
  namespace =
      ("main", record (new_policy_namespace "main") { clusters = ("west", cluster_of "a") ∷ [] })
      ∷ [];
  acl_resolver = none;
}

adding_test : (add_object marshal (cluster (cluster_of "a")) new_policy).0 ≡ west
unfolding add_object namespace_for invalidated_by Namespaces.add_object put check_cluster lookup
    insert string_dec
adding_test = refl

refused_test :
    (add_object marshal (cluster (cluster_of "b")) west) ≡ (west, some (cluster_modified "west"))
unfolding add_object namespace_for invalidated_by Namespaces.add_object put check_cluster lookup
    insert string_dec
refused_test = refl

locator_test :
    get_object {E = String} "cluster" "main/west" "other" west
    ≡ ok (some (cluster (cluster_of "a")))
unfolding get_object get_by_parts get_in_namespace Namespaces.get_object find_kind stored split
    lookup string_dec
locator_test = refl

get_object-add_object_same_test :
    get_object {E = String} "cluster" "west" "main"
      (add_object marshal (cluster (cluster_of "a")) new_policy).0
    ≡ ok (some (cluster (cluster_of "a")))
unfolding add_object namespace_for invalidated_by Namespaces.add_object put check_cluster lookup
    insert string_dec lacks
get_object-add_object_same_test =
    get_object-add_object_same marshal (cluster (cluster_of "a")) new_policy refl refl

get_object-add_object_example :
    get_object {E = String} "cluster" "west" "main" (add_object marshal (acl_rule admins) west).0
    ≡ (if "main" == get_namespace (acl_rule admins) && is_at cluster_kind "west" (acl_rule admins)
        then ok (some (acl_rule admins))
        else get_object "cluster" "west" "main" west)
unfolding add_object namespace_for invalidated_by Namespaces.add_object put check_cluster lookup
    insert string_dec lacks find_kind
get_object-add_object_example =
    get_object-add_object marshal (acl_rule admins) west "cluster" "west" "main" cluster_kind
      (record (new_policy_namespace "main") { clusters = ("west", cluster_of "a") ∷ [] }) refl refl
      refl refl

get_object-remove_object_example :
    get_object {E = String} "cluster" "west" "main"
      (remove_object (cluster (cluster_of "c")) west).0
    ≡ (if "main" == get_namespace (cluster (cluster_of "c"))
          && is_at cluster_kind "west" (cluster (cluster_of "c"))
        then ok none
        else get_object "cluster" "west" "main" west)
unfolding lookup string_dec lacks find_kind
get_object-remove_object_example =
    get_object-remove_object (cluster (cluster_of "c")) west "cluster" "west" "main" cluster_kind
      (record (new_policy_namespace "main") { clusters = ("west", cluster_of "a") ∷ [] }) refl refl
      refl

get_cached-after_example :
    (get_cached_acl_resolver
      (after marshal (viewing ∷ adding (acl_rule admins) ∷ viewing ∷ []) new_policy)).1
    ≡ new_acl_resolver (
        system_rules (after marshal (viewing ∷ adding (acl_rule admins) ∷ viewing ∷ []) new_policy))
get_cached-after_example =
    get_cached-after marshal (viewing ∷ adding (acl_rule admins) ∷ viewing ∷ [])

-- The rule that was removed still counts.
get_cached-remove_object_example :
    (get_cached_acl_resolver
      (remove_object
        (acl_rule admins)
        (get_cached_acl_resolver (add_object marshal (acl_rule admins) new_policy).0).0).0).1
    ≡ (get_cached_acl_resolver (add_object marshal (acl_rule admins) new_policy).0).1
get_cached-remove_object_example =
    get_cached-remove_object (acl_rule admins) (add_object marshal (acl_rule admins) new_policy).0

stale_test :
    ((get_cached_acl_resolver (add_object marshal (acl_rule admins) new_policy).0).1.acl_rules
      ≡ admins ∷ [])
    × (system_rules
          (remove_object
            (acl_rule admins)
            (get_cached_acl_resolver (add_object marshal (acl_rule admins) new_policy).0).0).0
        ≡ [])
unfolding get_cached_acl_resolver add_object namespace_for invalidated_by Namespaces.add_object put
    system_rules lookup insert string_dec new_acl_resolver sorted_by_weight insert_by_weight
    remove_object Namespaces.remove_object has erase
stale_test = (refl, refl)

new_target-full_example :
    new_target "main/west.apps"
    ≡ record { cluster_namespace = "main"; cluster_name = "west"; suffix = "apps" }
unfolding lacks
new_target-full_example = new_target-full "main" "west" "apps" refl refl

new_target-short_test :
    (new_target "west" ≡ record { cluster_namespace = ""; cluster_name = "west"; suffix = "" })
    × (new_target "west.apps"
        ≡ record { cluster_namespace = ""; cluster_name = "west"; suffix = "apps" })
unfolding lacks
new_target-short_test = new_target-short "west" "apps" refl refl refl
