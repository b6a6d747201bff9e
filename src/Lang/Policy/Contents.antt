-- ===== src/Lang/Policy/Contents.antt =====
-- pkg/lang/policy.go: what GetObject returns after AddObject and RemoveObject.
use aptomi.Base.{
  String, true, false, ◌≡◌, refl, ap, ◌∙◌, inl, inr, Bool-cases, Option-cases, ◌&&◌, none, some,
  ◌==◌, arith, if◌then◌else◌,
}
use aptomi.Base.Dict.{lookup, insert, lookup-insert}
use aptomi.Base.Result.{Result, ok, err, Result-cases}
use aptomi.Base.Text.{lacks, split-lacks}
use aptomi.Util.Params.{Value}
use aptomi.Lang.Objects.{Object, kind, get_name, get_namespace}
use aptomi.Lang.Namespaces.{PolicyNamespace, PolicyError, Kind, find_kind, stored, put}
use aptomi.Lang.Namespaces
use aptomi.Lang.Namespaces.Storage.{
  kind_of, is_at, is_at-same, find_kind-kind, stored-put, stored-remove_object, add_object-put,
}
use aptomi.Lang.Policy.{
  Policy, add_object, remove_object, get_object, get_by_parts, get_in_namespace, namespace_for,
}

-- A locator of one part is the name of an object in the current namespace.
get_object-name :
    {E : Type 0} (kind name ns : String) (policy : Policy)
    → lacks b'/' name ≡ true
    → get_object {E = E} kind name ns policy ≡ get_in_namespace kind name ns name policy
unfolding get_object get_by_parts
get_object-name kind name ns policy h = rw (split-lacks b'/' name h) refl

get_in_namespace-some :
    {E : Type 0} (text locator ns n : String) (k : Kind) (policy : Policy) (p : PolicyNamespace)
    → find_kind text ≡ some k
    → lookup ns policy.namespace ≡ some p
    → get_in_namespace {E = E} text locator ns n policy ≡ ok (stored k n p)
unfolding get_in_namespace Namespaces.get_object
get_in_namespace-some text locator ns n k policy p is_k at =
    rw (at, get_in_namespace) (rw (is_k, Namespaces.get_object) refl)

namespace_for-some :
    (ns : String) (policy : Policy) (p : PolicyNamespace)
    → lookup ns policy.namespace ≡ some p
    → namespace_for ns policy ≡ p
unfolding namespace_for
namespace_for-some ns policy p at = rw (at, namespace_for) refl

module _ {E : Type 0} (marshal : Value → Result E String) where
  add_object-error :
      (o : Object) (policy : Policy) (f : PolicyError E)
      → Namespaces.add_object marshal o (namespace_for (get_namespace o) policy) ≡ err f
      → (add_object marshal o policy).1 ≡ some f
  unfolding add_object
  add_object-error o policy f e = rw (e, add_object) refl

  -- If AddObject returns no error, the namespace of the object holds it as addObject puts it in.
  add_object-namespace :
      (o : Object) (policy : Policy)
      → (add_object marshal o policy).1 ≡ none
      → (add_object marshal o policy).0.namespace
        ≡ insert (get_namespace o) (put o (namespace_for (get_namespace o) policy)) policy.namespace
  unfolding add_object
  add_object-namespace o policy h =
      let q = namespace_for (get_namespace o) policy in
      elim (Result-cases (Namespaces.add_object marshal o q)) [
        | inl (p', e) ↦
            rw (e, add_object)
              (ap (λ x. insert (get_namespace o) x policy.namespace)
                (add_object-put marshal o q p' e))
        | inr (f, e) ↦ ground (arith, h, add_object-error o policy f e)
      ]

  -- If AddObject returns no error and the object's name has no "/", then GetObject finds the object
  -- by its kind and name in its namespace.
  pub get_object-add_object_same :
      (o : Object) (policy : Policy)
      → lacks b'/' (get_name o) ≡ true
      → (add_object marshal o policy).1 ≡ none
      → get_object {E = E} (kind o) (get_name o) (get_namespace o) (add_object marshal o policy).0
        ≡ ok (some o)
  get_object-add_object_same o policy plain h =
      let q = namespace_for (get_namespace o) policy in
      let policy' = (add_object marshal o policy).0 in
      let step = lookup-insert (get_namespace o) (get_namespace o) (put o q) policy.namespace in
      let at : lookup (get_namespace o) policy'.namespace ≡ some (put o q) =
        ground (arith, step, add_object-namespace o policy h) in
      let found : stored (kind_of o) (get_name o) (put o q) ≡ some o =
        ground (arith, stored-put (kind_of o) (get_name o) o q, is_at-same o) in
      get_object-name (kind o) (get_name o) (get_namespace o) policy' plain
      ∙ get_in_namespace-some (kind o) (get_name o) (get_namespace o) (get_name o) (kind_of o)
          policy' (put o q) (find_kind-kind o) at
      ∙ ap ok found

  -- If AddObject returns no error, then GetObject with a known kind, a name without "/" and a
  -- namespace of the policy gives the added object if kind, name and namespace are those of the
  -- object, and what it gave before otherwise.
  pub get_object-add_object :
      (o : Object) (policy : Policy) (text n ns : String) (k : Kind) (p : PolicyNamespace)
      → lacks b'/' n ≡ true
      → find_kind text ≡ some k
      → lookup ns policy.namespace ≡ some p
      → (add_object marshal o policy).1 ≡ none
      → get_object {E = E} text n ns (add_object marshal o policy).0 ≡ (
          if ns == get_namespace o && is_at k n o then ok (some o) else get_object text n ns policy)
  get_object-add_object o policy text n ns k p plain is_k at h =
      let q = namespace_for (get_namespace o) policy in
      let policy' = (add_object marshal o policy).0 in
      let step = lookup-insert ns (get_namespace o) (put o q) policy.namespace in
      elim (Bool-cases (ns == get_namespace o)) [
        | inl same ↦ ground (
          arith,
          step,
          namespace_for-some (get_namespace o) policy p,
          add_object-namespace o policy h,
          get_object-name {E = E} text n ns policy' plain,
          get_object-name {E = E} text n ns policy plain,
          get_in_namespace-some {E = E} text n ns n k policy p is_k at,
          get_in_namespace-some {E = E} text n ns n k policy' (put o p) is_k,
          stored-put k n o p,
        )
        | inr other ↦ ground (
          arith,
          step,
          add_object-namespace o policy h,
          get_object-name {E = E} text n ns policy' plain,
          get_object-name {E = E} text n ns policy plain,
          get_in_namespace-some {E = E} text n ns n k policy p is_k at,
          get_in_namespace-some {E = E} text n ns n k policy' p is_k,
        )
      ]

remove_object-some :
    (o : Object) (policy : Policy) (p : PolicyNamespace)
    → lookup (get_namespace o) policy.namespace ≡ some p
    → (remove_object o policy).0.namespace
      ≡ insert (get_namespace o) (Namespaces.remove_object o p).0 policy.namespace
unfolding remove_object
remove_object-some o policy p at = rw (at, remove_object) refl

remove_object-other :
    (o : Object) (policy : Policy) (ns : String)
    → (ns == get_namespace o) ≡ false
    → lookup ns (remove_object o policy).0.namespace ≡ lookup ns policy.namespace
unfolding remove_object
remove_object-other o policy ns other =
    elim (Option-cases (lookup (get_namespace o) policy.namespace)) [
      | inl missing ↦ rw (missing, remove_object) refl
      | inr (p, at) ↦
          rw (at, remove_object)
            (ground (
              arith,
              lookup-insert ns (get_namespace o) (Namespaces.remove_object o p).0 policy.namespace,
            ))
    ]

-- After RemoveObject, GetObject with a known kind, a name without "/" and a namespace of the policy
-- gives no object if kind, name and namespace are those of the removed object, and what it gave
-- before otherwise.
pub get_object-remove_object :
    {E : Type 0} (o : Object) (policy : Policy) (text n ns : String) (k : Kind)
    (p : PolicyNamespace)
    → lacks b'/' n ≡ true
    → find_kind text ≡ some k
    → lookup ns policy.namespace ≡ some p
    → get_object {E = E} text n ns (remove_object o policy).0
      ≡ (if ns == get_namespace o && is_at k n o then ok none else get_object text n ns policy)
get_object-remove_object {E} o policy text n ns k p plain is_k at =
    let policy' = (remove_object o policy).0 in
    elim (Bool-cases (ns == get_namespace o)) [
      | inl same ↦ ground (
        arith,
        at,
        remove_object-some o policy p,
        lookup-insert ns (get_namespace o) (Namespaces.remove_object o p).0 policy.namespace,
        get_object-name {E = E} text n ns policy' plain,
        get_object-name {E = E} text n ns policy plain,
        get_in_namespace-some {E = E} text n ns n k policy p is_k at,
        get_in_namespace-some {E = E} text n ns n k policy' (Namespaces.remove_object o p).0 is_k,
        stored-remove_object k n o p,
      )
      | inr other ↦ ground (
        arith,
        remove_object-other o policy ns other,
        get_object-name {E = E} text n ns policy' plain,
        get_object-name {E = E} text n ns policy plain,
        get_in_namespace-some {E = E} text n ns n k policy p is_k at,
        get_in_namespace-some {E = E} text n ns n k policy' p is_k,
      )
    ]
