-- ===== src/Lang/Targets.antt =====
-- pkg/lang/target.go: deployment targets, written [namespace/]cluster[.suffix].
pub mod RoundTrip
use aptomi.Base.{String, ◌==◌, if◌then◌else◌, Option, none, some, List, [], ◌∷◌}
use aptomi.Base.Result.{Result, ok, err, ◌>>=◌}
use aptomi.Base.Text.{split_two}
use aptomi.Lang.Objects.{Object, Cluster, cluster, system_ns}
use aptomi.Lang.Namespaces.{PolicyError, cluster_not_found}
use aptomi.Lang.Policy.{Policy, get_object}

pub record Target : Type 0 where
  pub cluster_namespace : String
  pub cluster_name : String
  pub suffix : String

unfoldable pub with_suffix : String → List String → String → Target
with_suffix ns (name ∷ suffix ∷ _) whole = record {
  cluster_namespace = ns;
  cluster_name = name;
  suffix = suffix;
}
with_suffix ns _ whole = record { cluster_namespace = ns; cluster_name = whole; suffix = "" }

unfoldable pub with_namespace : List String → String → Target
with_namespace (ns ∷ rest ∷ _) whole = with_suffix ns (split_two rest b'.') rest
with_namespace _ whole = with_suffix "" (split_two whole b'.') whole

unfoldable pub new_target : String → Target
unfolding with_namespace with_suffix
new_target target = with_namespace (split_two target b'/') target

module _ {E : Type 0} where
  -- The type assertion at the end. GetObject for the kind of clusters gives only clusters.
  unfoldable pub as_cluster : String → Option Object → Result (PolicyError E) Cluster
  as_cluster name (some (cluster c)) = ok c
  as_cluster name _ = err (cluster_not_found name)

  -- What stands behind the first of the namespaces that has the cluster.
  unfoldable pub or_in_system :
      Policy → String → Option Object → Result (PolicyError E) (Option Object)
  or_in_system policy name (some o) = ok (some o)
  or_in_system policy name none = get_object "cluster" name system_ns policy

  unfoldable pub get_cluster : Target → Policy → String → Result (PolicyError E) Cluster
  unfolding or_in_system as_cluster
  get_cluster target policy current_ns =
      if target.cluster_namespace == ""
      then get_object "cluster" target.cluster_name current_ns policy
        >>= or_in_system policy target.cluster_name
        >>= as_cluster target.cluster_name
      else get_object "cluster" target.cluster_name target.cluster_namespace policy
        >>= as_cluster target.cluster_name
