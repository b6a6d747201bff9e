-- ===== src/Lang/Targets/RoundTrip.antt =====
-- pkg/lang/target.go: NewTarget reads what the format says.
use Prim.Native.Char.{Char}
use Prim.Native.String.{String, ◌++◌}
use aptomi.Base.{◌≡◌, true, refl}
use aptomi.Base.Text.{lacks, split_two-lacks, lacks-concat}
use aptomi.Base.Text.Separators.{split_two-separator}
use aptomi.Lang.Targets.{new_target}

abbrev slash : Char
slash = "/"

abbrev dot : Char
dot = "."

-- NewTarget reads "namespace/cluster.suffix" as its three parts, if the namespace has no "/" and
-- the cluster no ".".
pub new_target-full :
    (ns cluster suffix : String)
    → lacks b'/' ns ≡ true
    → lacks b'.' cluster ≡ true
    → new_target (ns ++ ("/" ++ (cluster ++ ("." ++ suffix))))
      ≡ record { cluster_namespace = ns; cluster_name = cluster; suffix = suffix }
unfolding new_target
new_target-full ns cluster suffix plain_ns plain =
    rw
      (
        split_two-separator slash ns (cluster ++ ("." ++ suffix)) plain_ns,
        split_two-separator dot cluster suffix plain,
      )
      refl

-- NewTarget reads a text without "/" and "." as the name of a cluster, with no namespace and no
-- suffix, and one without "/" that has a "." as a cluster and a suffix.
pub new_target-short :
    (cluster suffix : String)
    → lacks b'/' cluster ≡ true
    → lacks b'/' suffix ≡ true
    → lacks b'.' cluster ≡ true
    → (new_target cluster ≡ record { cluster_namespace = ""; cluster_name = cluster; suffix = "" })
      × (new_target (cluster ++ ("." ++ suffix))
          ≡ record { cluster_namespace = ""; cluster_name = cluster; suffix = suffix })
unfolding new_target lacks
new_target-short cluster suffix no_slash no_slash' plain = (
  rw (split_two-lacks b'/' cluster no_slash, split_two-lacks b'.' cluster plain) refl,
  rw
      (
        split_two-lacks b'/' (cluster ++ ("." ++ suffix)) (
            lacks-concat b'/' cluster ("." ++ suffix) no_slash
              (lacks-concat b'/' "." suffix refl no_slash')),
        split_two-separator dot cluster suffix plain,
      )
      refl,
)
