-- ===== src/Engine/Resolver/Paths.antt =====
-- pkg/engine/resolve/policy_resolver.go: how many keys of services are not on the path of a node.
use aptomi.Base.{
  ℕ, ◌+◌, ◌≤◌, ◌<◌, String, true, false, ◌||◌, ◌≡◌, List, [], ◌∷◌, ◌++◌, ◌==◌, arith, if◌then◌else◌,
}
use aptomi.Base.Lists.{length, contains}

contains-append :
    (xs : List String) (k u : String) → contains (xs ++ k ∷ []) u ≡ (contains xs u || k == u)
contains-append [] k u = ground arith
contains-append (x ∷ xs) k u = ground (arith, contains-append xs k u)

-- How many of the keys are not on the path.
abbrev pub missing : List String → List String → ℕ
missing path [] = 0
missing path (u ∷ us) = (if contains path u then 0 else 1) + missing path us

missing-append-le :
    (path us : List String) (k : String) → missing (path ++ k ∷ []) us ≤ missing path us
missing-append-le path [] k = omega arith
missing-append-le path (u ∷ us) k =
    ground (arith, missing-append-le path us k, contains-append path k u)

pub missing-append :
    (path us : List String) (k : String)
    → contains us k ≡ true
    → contains path k ≡ false
    → missing (path ++ k ∷ []) us < missing path us
missing-append path [] k inside fresh = cc
missing-append path (u ∷ us) k inside fresh =
    ground (arith, missing-append path us k, missing-append-le path us k, contains-append path k u)

pub missing-le-length : (path us : List String) → missing path us ≤ length us
missing-le-length path [] = omega arith
missing-le-length path (u ∷ us) = ground (arith, missing-le-length path us)
