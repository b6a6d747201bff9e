-- ===== src/Store/Data/Entries.antt =====
-- pkg/engine/policy_data.go: the entries of the data of a policy, and how Add and Remove change them.
use aptomi.Base.{
  ℕ, String, Bool, true, false, ◌&&◌, ◌≡◌, refl, sym, ap, subst, ◌∙◌, eq_of_test, Option, none,
  some, [], ◌∷◌, ◌==◌, arith, inl, inr, Option-cases, Bool-cases, if◌then◌else◌,
}
use aptomi.Base.Dict.{Dict, lookup, insert, erase, has, lookup-insert, lookup-erase}
use aptomi.Lang.Objects.{Object, metadata, kind, get_namespace, get_name}
use aptomi.Store.Data.{PolicyData, or_empty, add, remove}

abbrev pub is_some : Option ℕ → Bool
is_some none = false
is_some (some _) = true

-- The generation that the data has for an object.
unfoldable pub entry : String → String → String → PolicyData → Option ℕ
entry ns k name pd = lookup name (or_empty (lookup k (or_empty (lookup ns pd.objects))))

abbrev pub is_of : String → String → String → Object → Bool
is_of ns k name o = ns == get_namespace o && (k == kind o && name == get_name o)

inner-insert {ℓ} :
    {V : Type ℓ} (j k : String) (v : Dict V) (d : Dict (Dict V))
    → or_empty (lookup j (insert k v d)) ≡ (if j == k then v else or_empty (lookup j d))
inner-insert j k v d = elim (Bool-cases (j == k)) [
  | inl e ↦ rw (lookup-insert j k v d, e) refl
  | inr e ↦ rw (lookup-insert j k v d, e) refl
]

-- A change of the generations of one kind in one namespace.
changed :
    (ns k : String) (o : Object) (by_kind : Dict ℕ) (pd : PolicyData)
    → or_empty (
        lookup k (
          or_empty (
            lookup ns (
              insert
                (get_namespace o)
                (insert (kind o) by_kind (or_empty (lookup (get_namespace o) pd.objects)))
                pd.objects))))
      ≡ (if ns == get_namespace o && k == kind o
          then by_kind
          else or_empty (lookup k (or_empty (lookup ns pd.objects))))
changed ns k o by_kind pd =
    let by_ns = or_empty (lookup (get_namespace o) pd.objects) in
    elim (Bool-cases (ns == get_namespace o)) [
      | inr e ↦
          rw (inner-insert ns (get_namespace o) (insert (kind o) by_kind by_ns) pd.objects, e) refl
      | inl e ↦ elim (Bool-cases (k == kind o)) [
        | inl f ↦
            rw
              (
                inner-insert ns (get_namespace o) (insert (kind o) by_kind by_ns) pd.objects,
                e,
                inner-insert k (kind o) by_kind by_ns,
                f,
              )
              refl
        | inr f ↦
            rw
              (
                inner-insert ns (get_namespace o) (insert (kind o) by_kind by_ns) pd.objects,
                e,
                inner-insert k (kind o) by_kind by_ns,
                f,
              )
              (ap (λ x. or_empty (lookup k (or_empty (lookup x pd.objects))))
                (sym (eq_of_test ns (get_namespace o) e)))
      ]
    ]

same_parts :
    (ns k name : String) (o : Object)
    → is_of ns k name o ≡ true
    → (ns ≡ get_namespace o) × (k ≡ kind o) × (name ≡ get_name o)
same_parts ns k name o h = (
  eq_of_test ns (get_namespace o) (ground (arith, h)),
  eq_of_test k (kind o) (ground (arith, h)),
  eq_of_test name (get_name o) (ground (arith, h)),
)

-- The entries after the generation of one object has been changed.
entry-changed :
    (ns k name : String) (o : Object) (by_kind : Dict ℕ) (new : Option ℕ) (pd : PolicyData)
    → ((j : String)
        → lookup j by_kind
          ≡ (if j == get_name o then new else entry (get_namespace o) (kind o) j pd))
    → lookup name (
        or_empty (
          lookup k (
            or_empty (
              lookup ns (
                insert
                  (get_namespace o)
                  (insert (kind o) by_kind (or_empty (lookup (get_namespace o) pd.objects)))
                  pd.objects)))))
      ≡ (if is_of ns k name o then new else entry ns k name pd)
unfolding entry
entry-changed ns k name o by_kind new pd h =
    elim (Bool-cases (ns == get_namespace o && k == kind o)) [
      | inr e ↦
          let other : is_of ns k name o ≡ false = ground (arith, e) in
          rw (changed ns k o by_kind pd, e, other) refl
      | inl e ↦
          let named : is_of ns k name o ≡ (name == get_name o) = ground (arith, e) in
          let path_ns = eq_of_test ns (get_namespace o) (ground (arith, e)) in
          let path_k = eq_of_test k (kind o) (ground (arith, e)) in
          rw (changed ns k o by_kind pd, e, named)
            (h name
              ∙ ap (λ x. if name == get_name o then new else entry x (kind o) name pd) (sym path_ns)
              ∙ ap (λ x. if name == get_name o then new else entry ns x name pd) (sym path_k))
    ]

-- After Add the data has the object's generation for the object, and all else as before.
pub entry-add :
    (ns k name : String) (o : Object) (pd : PolicyData)
    → entry ns k name (add o pd)
      ≡ (if is_of ns k name o then some (metadata o).generation else entry ns k name pd)
unfolding entry add
entry-add ns k name o pd =
    let by_kind = or_empty (lookup (kind o) (or_empty (lookup (get_namespace o) pd.objects))) in
    entry-changed ns k name o (insert (get_name o) (metadata o).generation by_kind)
      (some (metadata o).generation) pd
      (λ j. lookup-insert j (get_name o) (metadata o).generation by_kind)

-- Without generations of the object's kind in its namespace there is no entry.
no_entry :
    (ns k name : String) (o : Object) (pd : PolicyData)
    → or_empty (lookup (kind o) (or_empty (lookup (get_namespace o) pd.objects))) ≡ []
    → entry ns k name pd ≡ (if is_of ns k name o then none else entry ns k name pd)
unfolding entry lookup
no_entry ns k name o pd empty = elim (Bool-cases (is_of ns k name o)) [
  | inr e ↦ rw (e) refl
  | inl e ↦
      let paths = same_parts ns k name o e in
      rw (e) (
        ap (λ x. entry x k name pd) paths.0
        ∙ ap (λ x. entry (get_namespace o) x name pd) paths.1
        ∙ ap (lookup name) empty)
]

has-is_some : (k : String) (d : Dict ℕ) → has k d ≡ is_some (lookup k d)
unfolding has lookup
has-is_some k [] = refl
has-is_some k ((j, v) ∷ d) = ground (arith, has-is_some k d)

-- After Remove the data has no generation for the object, and all else as before; Remove says
-- whether there was one.
pub entry-remove :
    (ns k name : String) (o : Object) (pd : PolicyData)
    → (entry ns k name (remove o pd).0 ≡ (if is_of ns k name o then none else entry ns k name pd))
      × ((remove o pd).1 ≡ is_some (entry (get_namespace o) (kind o) (get_name o) pd))
unfolding entry remove lookup
entry-remove ns k name o pd = elim (Option-cases (lookup (get_namespace o) pd.objects)) [
  | inl e ↦ (rw (e, remove) (no_entry ns k name o pd (rw (e) refl)), rw (e, remove) refl)
  | inr (by_ns, e) ↦ elim (Option-cases (lookup (kind o) by_ns)) [
    | inl f ↦ (rw (e, f, remove) (no_entry ns k name o pd (rw (e, f) refl)), rw (e, f, remove) refl)
    | inr (by_kind, f) ↦ (
      rw (e, f, remove)
          (subst
            (λ x.
              lookup name (
                or_empty (
                  lookup k (
                    or_empty (
                      lookup ns (
                        insert (get_namespace o)
                          (insert (kind o) (erase (get_name o) by_kind) (or_empty x))
                          pd.objects)))))
              ≡ (if is_of ns k name o then none else entry ns k name pd))
            e
            (entry-changed ns k name o (erase (get_name o) by_kind) none pd
              (λ j. rw (e, f) (lookup-erase j (get_name o) by_kind)))),
      rw (e, f, remove) (has-is_some (get_name o) by_kind),
    )
  ]
]
