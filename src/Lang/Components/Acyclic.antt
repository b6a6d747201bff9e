-- ===== src/Lang/Components/Acyclic.antt =====
-- A service whose dependencies exist and have no cycle is sorted without an error.
use aptomi.Base.{
  ℕ, zero, suc, ◌+◌, ◌≤◌, ◌<◌, String, ◌≡◌, ◌≢◌, refl, sym, ap, subst, ◌∙◌, true, Option, none,
  some, inl, inr, List, [], ◌∷◌, arith, ◌==◌, if◌then◌else◌, Option-cases, Bool-cases,
}
use mathlib.Core.Option.{some-injective}
use aptomi.Base.Dict.{Dict, lookup, insert, lookup-nil, lookup-insert}
use aptomi.Base.Lists.{length, All}
use aptomi.Base.Result.{Result, ok, err, ◌>>=◌}
use aptomi.Lang.Objects.{Service, ServiceComponent}
use aptomi.Lang.Components.Order.{Between, start-Between}
use aptomi.Lang.Components.Dfs.{has_name, Inv, OnOk, Post, dfs-post, paint-Inv, name-lookup}
use aptomi.Lang.Components.Total.{put_components-lacks, sorted_topologically-ne-out_of_fuel}
use aptomi.Lang.Components.{
  put_components, get_components_map, Color, gray, black, SortError, out_of_fuel, State,
  visit_dependencies, paint, finish, dfs_component_sort, sort_from, start, sorted_topologically,
}

-- No error but the exhausted fuel.
abbrev Clean : {A : Type 0} → Result SortError A → Type 0
Clean (ok st) = Unit
Clean (err out_of_fuel) = Unit
Clean (err _) = ⊥

pub lookup-put_components :
    (cs : List ServiceComponent) (m : Dict ServiceComponent) (n : String)
    → has_name n cs ≡ true
    → (v : ServiceComponent) × (lookup n (put_components cs m) ≡ some v)
unfolding put_components
lookup-put_components [] m n h = cc
lookup-put_components (c ∷ cs) m n h = elim (Bool-cases (has_name n cs)) [
  | inl later ↦ lookup-put_components cs (insert c.name c m) n later
  | inr last ↦ (
    c,
    ground (arith, put_components-lacks cs (insert c.name c m) n last, lookup-insert n c.name c m),
  )
]

module _ (rank : String → ℕ) (service : Service) where
  -- Each dependency names a component and has a lower rank.
  abbrev pub DependenciesBelow : ℕ → List String → Type 0
  DependenciesBelow bound deps =
      All (λ d. (has_name d service.components ≡ true) × (rank d < bound)) deps

  -- A rank that falls along every dependency: the dependencies exist and have no cycle.
  abbrev pub IsRanked : Type 0
  IsRanked = All (λ c. DependenciesBelow (rank c.name) c.dependencies) service.components

  abbrev DepsOk : ServiceComponent → Type 0
  DepsOk c = DependenciesBelow (rank c.name) c.dependencies

  entry-DepsOk :
      (c : ServiceComponent) (m : Dict ServiceComponent) (n : String) (w : ServiceComponent)
      → DepsOk c
      → (lookup n m ≡ some w → DepsOk w)
      → (if n == c.name then some c else lookup n m) ≡ some w
      → DepsOk w
  entry-DepsOk c m n w h old e = elim (Bool-cases (n == c.name)) [
    | inl same ↦ subst DepsOk (some-injective c w (rw same at e)) h
    | inr other ↦ old (rw other at e)
  ]

  DepsOk-put :
      (cs : List ServiceComponent) (m : Dict ServiceComponent) (n : String) (v : ServiceComponent)
      → All DepsOk cs
      → ((w : ServiceComponent) → lookup n m ≡ some w → DepsOk w)
      → lookup n (put_components cs m) ≡ some v
      → DepsOk v
  unfolding put_components
  DepsOk-put [] m n v h old e = old v e
  DepsOk-put (c ∷ cs) m n v h old e =
      DepsOk-put cs (insert c.name c m) n v h.1
        (λ w f. entry-DepsOk c m n w h.0 (old w) (sym (lookup-insert n c.name c m) ∙ f)) e

  GrayFrom : ℕ → State → Type 0
  GrayFrom bound st = (n : String) → lookup n st.colors ≡ some gray → bound ≤ rank n

  abbrev VisitClean : (ServiceComponent → State → Result SortError State) → Type 0
  VisitClean visit =
      (v : ServiceComponent) (st : State)
      → Inv st
      → lookup v.name st.colors ≡ none
      → DepsOk v
      → GrayFrom (suc (rank v.name)) st
      → Clean (visit v st)

  module _ (ranked : IsRanked) (fuel : ℕ) (bound : ℕ) where
    LoopClean : List String → Type 0
    LoopClean deps =
        (st : State)
        → Inv st
        → GrayFrom bound st
        → Clean (visit_dependencies (dfs_component_sort fuel service) service deps st)

    after_visit-Clean :
        (v : ServiceComponent) (rest : List String) (st : State) (r : Result SortError State)
        → LoopClean rest
        → GrayFrom bound st
        → OnOk (Post v st) r
        → Clean r
        → Clean (r >>= visit_dependencies (dfs_component_sort fuel service) service rest)
    unfolding LoopClean GrayFrom
    after_visit-Clean v rest st (err e) loop grays p h = h
    after_visit-Clean v rest st (ok mid) loop grays p h =
        loop mid p.inv (λ n e. grays n (p.grays n e))

    known-Clean :
        (d : String) (rest : List String) (v : ServiceComponent) (st : State) (o : Option Color)
        → VisitClean (dfs_component_sort fuel service)
        → LoopClean rest
        → Inv st
        → GrayFrom bound st
        → rank d < bound
        → lookup d (get_components_map service) ≡ some v
        → lookup v.name st.colors ≡ o
        → Clean (visit_dependencies (dfs_component_sort fuel service) service (d ∷ rest) st)
    unfolding visit_dependencies LoopClean GrayFrom get_components_map
    known-Clean d rest v st none visits loop inv grays below found fresh =
        rw (found, visit_dependencies, fresh)
          (after_visit-Clean v rest st (dfs_component_sort fuel service v st) loop grays
            (dfs-post fuel service v st inv fresh)
            (visits v st inv fresh
              (DepsOk-put service.components [] d v ranked
                (λ w f. cc (lookup-nil {V = ServiceComponent} d, f)) found)
              (λ n e. omega (arith, grays n e, ap rank (name-lookup service d v found)))))
    known-Clean d rest v st (some gray) visits loop inv grays below found e =
        absurd (omega (arith, grays v.name e, ap rank (name-lookup service d v found)))
    known-Clean d rest v st (some black) visits loop inv grays below found e =
        rw (found, visit_dependencies, e) (loop st inv grays)

    loop-Clean :
        (deps : List String)
        → DependenciesBelow bound deps
        → VisitClean (dfs_component_sort fuel service)
        → LoopClean deps
    unfolding visit_dependencies LoopClean get_components_map
    loop-Clean [] below visits st inv grays = tt
    loop-Clean (d ∷ rest) below visits st inv grays =
        let (v, found) = lookup-put_components service.components [] d below.0.0 in
        known-Clean d rest v st (lookup v.name st.colors) visits (loop-Clean rest below.1 visits)
          inv grays below.0.1 found refl

  finish-Clean :
      (u : ServiceComponent) (r : Result SortError State)
      → Clean r
      → Clean (r >>= λ st. ok (finish u st))
  finish-Clean u (ok st) h = tt
  finish-Clean u (err e) h = h

  dfs-Clean : (ranked : IsRanked) (fuel : ℕ) → VisitClean (dfs_component_sort fuel service)
  unfolding dfs_component_sort LoopClean GrayFrom paint
  dfs-Clean ranked zero v st inv fresh deps grays = tt
  dfs-Clean ranked (suc fuel) v st inv fresh deps grays = finish-Clean v _ (
      loop-Clean ranked fuel (rank v.name) v.dependencies deps (dfs-Clean ranked fuel)
        (paint v.name gray st) (paint-Inv v st inv fresh)
        (λ n e.
          ground
            (arith, grays n, lookup-insert n v.name gray st.colors, ap rank {x = n} {y = v.name})))

  module _ (ranked : IsRanked) (fuel : ℕ) where
    sorted_next-Clean :
        (c : ServiceComponent) (cs : List ServiceComponent) (st : State)
        (r : Result SortError State)
        → ((mid : State) → Between mid → Clean (sort_from fuel service cs mid))
        → Between st
        → OnOk (Post c st) r
        → Clean r
        → Clean (r >>= sort_from fuel service cs)
    sorted_next-Clean c cs st (err e) next b p h = h
    sorted_next-Clean c cs st (ok mid) next b p h =
        next mid (record { inv = p.inv; no_gray = λ n e. b.no_gray n (p.grays n e) })

    sort_from-Clean :
        (cs : List ServiceComponent) (st : State)
        → All DepsOk cs
        → Between st
        → Clean (sort_from fuel service cs st)
    unfolding sort_from GrayFrom
    sort_from-Clean [] st deps b = tt
    sort_from-Clean (c ∷ cs) st deps b = elim (Option-cases (lookup c.name st.colors)) [
      | inl fresh ↦
          rw (fresh, sort_from)
            (sorted_next-Clean c cs st (dfs_component_sort fuel service c st)
              (λ mid m. sort_from-Clean cs mid deps.1 m) b (dfs-post fuel service c st b.inv fresh)
              (dfs-Clean ranked fuel c st b.inv fresh deps.0 (λ n e. absurd (b.no_gray n e))))
      | inr (x, e) ↦ rw (e, sort_from) (sort_from-Clean cs st deps.1 b)
    ]

ordered-Clean : (r : Result SortError State) → Clean r → Clean (r >>= λ st. ok st.ordered)
ordered-Clean (ok st) h = tt
ordered-Clean (err e) h = h

ok_of_Clean :
    {A : Type 0} (r : Result SortError A) → Clean r → r ≢ err out_of_fuel → (a : A) × (r ≡ ok a)
ok_of_Clean (ok a) h more = (a, refl)
ok_of_Clean (err out_of_fuel) h more = absurd (more refl)
ok_of_Clean (err (SortError.component_cycle _ _)) h more = absurd h
ok_of_Clean (err (SortError.non_existing_component _ _)) h more = absurd h

-- If every dependency names a component of the service, and some rank falls along every
-- dependency, then the sort returns a list and no error.
pub sorted_topologically_total :
    (rank : String → ℕ) (service : Service)
    → IsRanked rank service
    → (l : List ServiceComponent) × (sorted_topologically service ≡ ok l)
unfolding sorted_topologically
sorted_topologically_total rank service ranked =
    ok_of_Clean (sorted_topologically service)
      (ordered-Clean _ (
        sort_from-Clean rank service ranked (length service.components + 1) service.components start
          ranked start-Between))
      (sorted_topologically-ne-out_of_fuel service)
