-- ===== src/Util/Params/Process/Reference.antt =====
-- pkg/util/nestedmap.go: what ProcessParameterTree makes of a tree, by a recursion that keeps its
-- shape.
use aptomi.Base.{
  String, Bool, true, false, not, ◌&&◌, ◌≡◌, refl, ap, sym, none, some, ◌==◌, arith, inl, inr,
}
use aptomi.Base.Result.{Result, ok, err, ◌>>=◌, Result-cases}
use aptomi.Util.Params.{Value, str, int, bool, nested, Params, end, field, lookup, insert}
use aptomi.Util.Params.Process.{
  TreeError, template_failed, mode_evaluate, get_nested_map, process_text, process_node,
  process_fields, process_parameter_tree,
}

abbrev append : Params → Params → Params
append end q = q
append (field k v p) q = field k v (append p q)

append-end : (p : Params) → append p end ≡ p
append-end end = refl
append-end (field k v p) = ap (field k v) (append-end p)

append_assoc : (p q r : Params) → append (append p q) r ≡ append p (append q r)
append_assoc end q r = refl
append_assoc (field k v p) q r = ap (field k v) (append_assoc p q r)

insert-fresh :
    (k : String) (v : Value) (p : Params)
    → lookup k p ≡ none
    → insert k v p ≡ append p (field k v end)
unfolding lookup insert
insert-fresh k v end h = refl
insert-fresh k v (field j w p) h = ground (arith, insert-fresh k v p, h)

insert-last :
    (k : String) (v w : Value) (p : Params)
    → lookup k p ≡ none
    → insert k w (append p (field k v end)) ≡ append p (field k w end)
unfolding lookup insert
insert-last k v w end h = ground arith
insert-last k v w (field j x p) h = ground (arith, insert-last k v w p, h)

lookup-last :
    (k : String) (v : Value) (p : Params)
    → lookup k p ≡ none
    → lookup k (append p (field k v end)) ≡ some v
unfolding lookup
lookup-last k v end h = ground arith
lookup-last k v (field j x p) h = ground (arith, lookup-last k v p, h)

lookup-append-none :
    (j k : String) (v : Value) (p : Params)
    → lookup j p ≡ none
    → (j == k) ≡ false
    → lookup j (append p (field k v end)) ≡ none
unfolding lookup
lookup-append-none j k v end h other = ground (arith, other)
lookup-append-none j k v (field i x p) h other =
    ground (arith, lookup-append-none j k v p, h, other)

-- No field, at any depth, has the empty name or a name that stands twice in its map.
unfoldable mutual
  unfolding lookup

  pub plain_value : Value → Bool
  plain_value (nested m) = plain_fields m
  plain_value (str _) = true
  plain_value (int _ _) = true
  plain_value (bool _) = true

  pub plain_fields : Params → Bool
  plain_fields end = true
  plain_fields (field k v rest) =
      not (k == "")
      && (elim (lookup k rest) [ none ↦ true | some _ ↦ false ]
          && (plain_value v && plain_fields rest))

abbrev Disjoint : Params → Params → Type 0
Disjoint end acc = Unit
Disjoint (field k v rest) acc = (lookup k acc ≡ none) × Disjoint rest acc

Disjoint-append :
    (rest acc : Params) (k : String) (w : Value)
    → lookup k rest ≡ none
    → Disjoint rest acc
    → Disjoint rest (append acc (field k w end))
unfolding lookup
Disjoint-append end acc k w h d = tt
Disjoint-append (field j v rest) acc k w h (fresh, d) = (
  lookup-append-none j k w acc fresh (ground (arith, h)),
  Disjoint-append rest acc k w (ground (arith, h)) d,
)

Disjoint-end : (p : Params) → Disjoint p end
unfolding lookup
Disjoint-end end = tt
Disjoint-end (field k v p) = (refl, Disjoint-end p)

module _ {E : Type 0} (evaluate : String → Result E String)
    (compiles : String → Result E (Unit {0})) where
  -- Every text is replaced by what the template evaluates to, and all else stays.
  unfoldable mutual
    pub map_value : Value → Result (TreeError E) Value
    map_value (str s) = elim (evaluate s) [ ok t ↦ ok (str t) | err e ↦ err (template_failed e) ]
    map_value (int s n) = ok (int s n)
    map_value (bool b) = ok (bool b)
    map_value (nested m) = map_fields m >>= λ r. ok (nested r)

    pub map_fields : Params → Result (TreeError E) Params
    map_fields end = ok end
    map_fields (field k v rest) = map_value v >>= λ w. map_fields rest >>= λ r. ok (field k w r)

  mutual
    unfolding process_node process_fields process_text get_nested_map map_value map_fields
        plain_value plain_fields

    process_node-map :
        (v : Value) (key : String) (acc : Params)
        → plain_value v ≡ true
        → (key == "") ≡ false
        → lookup key acc ≡ none
        → process_node evaluate compiles mode_evaluate v
            (append acc (field key (nested end) end))
            key
          ≡ (map_value v >>= λ w. ok (append acc (field key w end)))
    process_node-map (str s) key acc p named fresh = elim (Result-cases (evaluate s)) [
      | inl (t, e) ↦ ground (arith, e, insert-last key (nested end) (str t) acc fresh)
      | inr (f, e) ↦ ground (arith, e)
    ]
    process_node-map (int s n) key acc p named fresh =
        ap ok (insert-last key (nested end) (int s n) acc fresh)
    process_node-map (bool b) key acc p named fresh =
        ap ok (insert-last key (nested end) (bool b) acc fresh)
    process_node-map (nested m) key acc p named fresh = elim (Result-cases (map_fields m)) [
      | inl (r, e) ↦ ground (
        arith,
        e,
        named,
        lookup-last key (nested end) acc fresh,
        process_fields-map m end p (Disjoint-end m),
        insert-last key (nested end) (nested r) acc fresh,
      )
      | inr (f, e) ↦ ground (
        arith,
        e,
        named,
        lookup-last key (nested end) acc fresh,
        process_fields-map m end p (Disjoint-end m),
      )
    ]

    process_fields-map :
        (p acc : Params)
        → plain_fields p ≡ true
        → Disjoint p acc
        → process_fields evaluate compiles mode_evaluate p acc
          ≡ (map_fields p >>= λ q. ok (append acc q))
    process_fields-map end acc p d = ap ok (sym (append-end acc))
    process_fields-map (field k v rest) acc p (fresh, d) =
        let here = process_node-map v k acc (ground (arith, p)) (ground (arith, p)) fresh in
        elim (Result-cases (map_value v)) [
          | inr (f, e) ↦ ground (arith, e, here, insert-fresh k (nested end) acc fresh)
          | inl (w, e) ↦
              let others =
                process_fields-map rest (append acc (field k w end)) (ground (arith, p))
                  (Disjoint-append rest acc k w (ground (arith, p)) d) in
              elim (Result-cases (map_fields rest)) [
                | inr (f, e') ↦
                    ground (arith, e, e', here, others, insert-fresh k (nested end) acc fresh)
                | inl (q, e') ↦ ground (
                  arith,
                  e,
                  e',
                  here,
                  others,
                  insert-fresh k (nested end) acc fresh,
                  append_assoc acc (field k w end) q,
                )
              ]
        ]

  -- In a tree where no field has the empty name or a name that stands twice, ProcessParameterTree
  -- replaces every text by what its template evaluates to and leaves all else, the order included, as
  -- it is; it fails if a template does.
  pub process_parameter_tree-map :
      (tree : Params)
      → plain_fields tree ≡ true
      → process_parameter_tree evaluate compiles mode_evaluate (some tree)
        ≡ (map_fields tree >>= λ p. ok (some p))
  unfolding process_parameter_tree
  process_parameter_tree-map tree p = elim (Result-cases (map_fields tree)) [
    | inl (q, e) ↦ ground (arith, e, process_fields-map tree end p (Disjoint-end tree))
    | inr (f, e) ↦ ground (arith, e, process_fields-map tree end p (Disjoint-end tree))
  ]
