-- ===== src/Engine/Resolution/Named.antt =====
-- pkg/engine/resolve/policy_resolution.go: Validate's two searches by name, in the contexts of a
-- contract and in the components of a service.
use aptomi.Base.{
  String, true, ◌≡◌, ◌⊎◌, refl, sym, ap, ◌∙◌, some, inl, inr, List, [], ◌∷◌, ◌==◌, if◌then◌else◌,
  Bool-cases, Option-cases, eq_of_test, arith,
}
use mathlib.Core.Option.{some-injective}
use aptomi.Base.Dict.{Dict, lookup, insert, lookup-nil, lookup-insert}
use aptomi.Base.Lists.{In}
use aptomi.Lang.Objects.{Context, Service, ServiceComponent}
use aptomi.Lang.Components.{put_components, get_components_map}
use aptomi.Lang.Components.Dfs.{has_name, name-lookup}
use aptomi.Lang.Components.Acyclic.{lookup-put_components}
use aptomi.Engine.Keys.{root_name}
use aptomi.Engine.Resolution.{has_context, has_component}

-- One of the contexts has the name.
abbrev pub HasContext : String → List Context → Type 0
HasContext name contexts = (c : Context) × In c contexts × (c.name ≡ name)

-- One of the service's components has the name.
abbrev pub HasComponent : String → Service → Type 0
HasComponent name s = (c : ServiceComponent) × In c s.components × (c.name ≡ name)

pub has_context_sound :
    (name : String) (cs : List Context) → has_context name cs ≡ true → HasContext name cs
unfolding has_context
has_context_sound name [] h = cc
has_context_sound name (c ∷ cs) h = elim (Bool-cases (c.name == name)) [
  | inl same ↦ (c, inl refl, eq_of_test c.name name same)
  | inr other ↦
      let (d, there, named) = has_context_sound name cs (ground (arith, h, other)) in
      (d, inr there, named)
]

pub has_context_complete :
    (name : String) (cs : List Context) (c : Context)
    → In c cs
    → c.name ≡ name
    → has_context name cs ≡ true
unfolding has_context
has_context_complete name [] c there named = absurd there
has_context_complete name (d ∷ cs) c (inl same) named =
    ground (arith, ap (λ (x : Context). x.name) same, named)
has_context_complete name (d ∷ cs) c (inr later) named =
    ground (arith, has_context_complete name cs c later named)

entry-In :
    (c : ServiceComponent) (m : Dict ServiceComponent) (n : String) (v : ServiceComponent)
    → (if n == c.name then some c else lookup n m) ≡ some v
    → (v ≡ c) ⊎ (lookup n m ≡ some v)
entry-In c m n v e = elim (Bool-cases (n == c.name)) [
  | inl same ↦ inl (sym (some-injective c v (rw same at e)))
  | inr other ↦ inr (rw other at e)
]

lookup-put_components-In :
    (cs : List ServiceComponent) (m : Dict ServiceComponent) (n : String) (v : ServiceComponent)
    → lookup n (put_components cs m) ≡ some v
    → In v cs ⊎ (lookup n m ≡ some v)
unfolding put_components
lookup-put_components-In [] m n v e = inr e
lookup-put_components-In (c ∷ cs) m n v e =
    elim (lookup-put_components-In cs (insert c.name c m) n v e) [
      | inl later ↦ inl (inr later)
      | inr new ↦ elim (entry-In c m n v (sym (lookup-insert n c.name c m) ∙ new)) [
        | inl same ↦ inl (inl same)
        | inr old ↦ inr old
      ]
    ]

In-has_name :
    (cs : List ServiceComponent) (c : ServiceComponent) → In c cs → has_name c.name cs ≡ true
In-has_name [] c there = absurd there
In-has_name (d ∷ cs) c (inl same) = ground (arith, ap (λ (x : ServiceComponent). x.name) same)
In-has_name (d ∷ cs) c (inr later) = ground (arith, In-has_name cs c later)

pub has_component_sound :
    (name : String) (s : Service)
    → has_component name s ≡ true
    → (name ≡ root_name) ⊎ HasComponent name s
unfolding has_component get_components_map
has_component_sound name s h = elim (Bool-cases (name == root_name)) [
  | inl root ↦ inl (eq_of_test name root_name root)
  | inr other ↦ elim (Option-cases (lookup name (get_components_map s))) [
    | inl missing ↦ absurd (ground (arith, h, other, missing))
    | inr (v, found) ↦ elim (lookup-put_components-In s.components [] name v found) [
      | inl there ↦ inr (v, there, name-lookup s name v found)
      | inr empty ↦ absurd (cc (lookup-nil {V = ServiceComponent} name, empty))
    ]
  ]
]

pub has_component_complete :
    (name : String) (s : Service)
    → (name ≡ root_name) ⊎ HasComponent name s
    → has_component name s ≡ true
unfolding has_component get_components_map
has_component_complete name s (inl root) = ground (arith, root)
has_component_complete name s (inr (c, there, named)) =
    let (v, found) =
      lookup-put_components s.components [] c.name (In-has_name s.components c there) in
    ground (arith, named, found)
