-- ===== src/Lang/Components/Total.antt =====
-- The fuel of the sort suffices, and errors are returned for a cause only.
use aptomi.Base.{
  ℕ, zero, suc, ◌+◌, ◌≤◌, ◌<◌, String, ◌≡◌, ◌≢◌, refl, true, false, Option, none, some, inl, inr,
  List, [], ◌∷◌, arith, Option-cases,
}
use aptomi.Base.Dict.{Dict, lookup, insert, lookup-nil, lookup-insert}
use aptomi.Base.Lists.{length, All, All-map}
use aptomi.Base.Result.{Result, ok, err, ◌>>=◌}
use aptomi.Lang.Objects.{Service, ServiceComponent}
use aptomi.Lang.Components.{
  put_components, get_components_map, Color, gray, black, SortError, out_of_fuel, State,
  visit_dependencies, paint, finish, dfs_component_sort, sort_from, start, sorted_topologically,
}
use aptomi.Lang.Components.Order.{start-Between}
use aptomi.Lang.Components.Dfs.{
  has_name, Inv, Extends, OnOk, Post, dfs-post, paint-Inv, name-lookup,
}

-- How many of the components have no color.
uncolored : List ServiceComponent → Dict Color → ℕ
uncolored [] colors = 0
uncolored (c ∷ cs) colors = elim (lookup c.name colors) [
  | none ↦ suc (uncolored cs colors)
  | some _ ↦ uncolored cs colors
]

uncolored-le-length :
    (cs : List ServiceComponent) (colors : Dict Color) → uncolored cs colors ≤ length cs
unfolding uncolored
uncolored-le-length [] colors = omega arith
uncolored-le-length (c ∷ cs) colors = ground (arith, uncolored-le-length cs colors)

uncolored-Extends :
    (cs : List ServiceComponent) (st st' : State)
    → Extends st st'
    → uncolored cs st'.colors ≤ uncolored cs st.colors
unfolding uncolored
uncolored-Extends [] st st' more = omega arith
uncolored-Extends (c ∷ cs) st st' more =
    ground (arith, uncolored-Extends cs st st' more, more c.name gray, more c.name black)

uncolored-paint-le :
    (cs : List ServiceComponent) (n : String) (st : State)
    → uncolored cs (paint n gray st).colors ≤ uncolored cs st.colors
unfolding uncolored paint
uncolored-paint-le [] n st = omega arith
uncolored-paint-le (c ∷ cs) n st =
    ground (arith, uncolored-paint-le cs n st, lookup-insert c.name n gray st.colors)

uncolored-paint :
    (cs : List ServiceComponent) (n : String) (st : State)
    → lookup n st.colors ≡ none
    → has_name n cs ≡ true
    → uncolored cs (paint n gray st).colors < uncolored cs st.colors
unfolding uncolored paint
uncolored-paint [] n st fresh h = cc
uncolored-paint (c ∷ cs) n st fresh h = ground (
  arith,
  uncolored-paint cs n st fresh,
  uncolored-paint-le cs n st,
  lookup-insert c.name n gray st.colors,
)

pub put_components-lacks :
    (cs : List ServiceComponent) (m : Dict ServiceComponent) (n : String)
    → has_name n cs ≡ false
    → lookup n (put_components cs m) ≡ lookup n m
unfolding put_components
put_components-lacks [] m n h = refl
put_components-lacks (c ∷ cs) m n h =
    ground (arith, put_components-lacks cs (insert c.name c m) n, lookup-insert n c.name c m)

has_name-lookup :
    (service : Service) (n : String) (v : ServiceComponent)
    → lookup n (get_components_map service) ≡ some v
    → has_name n service.components ≡ true
unfolding get_components_map
has_name-lookup service n v h =
    ground
      (arith, put_components-lacks service.components [] n, lookup-nil {V = ServiceComponent} n)

All-has_name : (cs : List ServiceComponent) → All (λ c. has_name c.name cs ≡ true) cs
All-has_name [] = tt
All-has_name (c ∷ cs) = (ground arith, All-map _ _ cs (λ x e. ground arith) (All-has_name cs))

abbrev Fueled : Result SortError State → Type 0
Fueled (ok st) = Unit
Fueled (err out_of_fuel) = ⊥
Fueled (err _) = Unit

module _ (service : Service) where
  abbrev left : State → ℕ
  left st = uncolored service.components st.colors

  abbrev VisitFueled : ℕ → (ServiceComponent → State → Result SortError State) → Type 0
  VisitFueled fuel visit =
      (v : ServiceComponent) (st : State)
      → Inv st
      → lookup v.name st.colors ≡ none
      → has_name v.name service.components ≡ true
      → left st < fuel
      → Fueled (visit v st)

  module _ (fuel : ℕ) where
    LoopFueled : List String → Type 0
    LoopFueled deps =
        (st : State)
        → Inv st
        → left st < fuel
        → Fueled (visit_dependencies (dfs_component_sort fuel service) service deps st)

    after_visit-Fueled :
        (v : ServiceComponent) (rest : List String) (st : State) (r : Result SortError State)
        → LoopFueled rest
        → left st < fuel
        → OnOk (Post v st) r
        → Fueled r
        → Fueled (r >>= visit_dependencies (dfs_component_sort fuel service) service rest)
    unfolding LoopFueled
    after_visit-Fueled v rest st (err e) loop enough p h = h
    after_visit-Fueled v rest st (ok mid) loop enough p h =
        loop mid p.inv (omega (arith, uncolored-Extends service.components st mid p.extends))

    known-Fueled :
        (d : String) (rest : List String) (v : ServiceComponent) (st : State) (o : Option Color)
        → VisitFueled fuel (dfs_component_sort fuel service)
        → LoopFueled rest
        → Inv st
        → left st < fuel
        → lookup d (get_components_map service) ≡ some v
        → lookup v.name st.colors ≡ o
        → Fueled (visit_dependencies (dfs_component_sort fuel service) service (d ∷ rest) st)
    unfolding visit_dependencies LoopFueled
    known-Fueled d rest v st none visits loop inv enough found fresh =
        rw (found, visit_dependencies, fresh)
          (after_visit-Fueled v rest st (dfs_component_sort fuel service v st) loop enough
            (dfs-post fuel service v st inv fresh)
            (visits v st inv fresh
              (rw (name-lookup service d v found) (has_name-lookup service d v found)) enough))
    known-Fueled d rest v st (some gray) visits loop inv enough found e =
        rw (found, visit_dependencies, e) tt
    known-Fueled d rest v st (some black) visits loop inv enough found e =
        rw (found, visit_dependencies, e) (loop st inv enough)

    loop-Fueled :
        (deps : List String) → VisitFueled fuel (dfs_component_sort fuel service) → LoopFueled deps
    unfolding visit_dependencies LoopFueled
    loop-Fueled [] visits st inv enough = tt
    loop-Fueled (d ∷ rest) visits st inv enough =
        elim (Option-cases (lookup d (get_components_map service))) [
          | inl absent ↦ rw (absent, visit_dependencies) tt
          | inr (v, found) ↦
              known-Fueled d rest v st (lookup v.name st.colors) visits (loop-Fueled rest visits)
                inv enough found refl
        ]

  finish-Fueled :
      (u : ServiceComponent) (r : Result SortError State)
      → Fueled r
      → Fueled (r >>= λ st. ok (finish u st))
  finish-Fueled u (ok st) h = tt
  finish-Fueled u (err e) h = h

  dfs-Fueled : (fuel : ℕ) → VisitFueled fuel (dfs_component_sort fuel service)
  unfolding dfs_component_sort LoopFueled
  dfs-Fueled zero v st inv fresh named enough = absurd (omega arith)
  dfs-Fueled (suc fuel) v st inv fresh named enough = finish-Fueled v _ (
      loop-Fueled fuel v.dependencies (dfs-Fueled fuel) (paint v.name gray st)
        (paint-Inv v st inv fresh)
        (omega (arith, uncolored-paint service.components v.name st fresh named)))

  sorted_next-Fueled :
      (fuel : ℕ) (c : ServiceComponent) (cs : List ServiceComponent) (st : State)
      (r : Result SortError State)
      → ((mid : State) → Inv mid → left mid < fuel → Fueled (sort_from fuel service cs mid))
      → left st < fuel
      → OnOk (Post c st) r
      → Fueled r
      → Fueled (r >>= sort_from fuel service cs)
  sorted_next-Fueled fuel c cs st (err e) next enough p h = h
  sorted_next-Fueled fuel c cs st (ok mid) next enough p h =
      next mid p.inv (omega (arith, uncolored-Extends service.components st mid p.extends))

  sort_from-Fueled :
      (fuel : ℕ) (cs : List ServiceComponent) (st : State)
      → All (λ c. has_name c.name service.components ≡ true) cs
      → Inv st
      → left st < fuel
      → Fueled (sort_from fuel service cs st)
  unfolding sort_from
  sort_from-Fueled fuel [] st named inv enough = tt
  sort_from-Fueled fuel (c ∷ cs) st named inv enough =
      elim (Option-cases (lookup c.name st.colors)) [
        | inl fresh ↦
            rw (fresh, sort_from)
              (sorted_next-Fueled fuel c cs st (dfs_component_sort fuel service c st)
                (λ mid i e. sort_from-Fueled fuel cs mid named.1 i e) enough
                (dfs-post fuel service c st inv fresh)
                (dfs-Fueled fuel c st inv fresh named.0 enough))
        | inr (x, e) ↦ rw (e, sort_from) (sort_from-Fueled fuel cs st named.1 inv enough)
      ]

  ordered-Fueled :
      (r : Result SortError State) → Fueled r → (r >>= λ st. ok st.ordered) ≢ err out_of_fuel
  ordered-Fueled (ok st) h e = cc
  ordered-Fueled (err out_of_fuel) h e = h
  ordered-Fueled (err _) h e = cc

  -- The number of components plus one is enough fuel for every service, also for one with cycles.
  pub sorted_topologically-ne-out_of_fuel : sorted_topologically service ≢ err out_of_fuel
  unfolding sorted_topologically
  sorted_topologically-ne-out_of_fuel = ordered-Fueled _ (
      sort_from-Fueled (length service.components + 1) service.components start
        (All-has_name service.components) start-Between.inv
        (omega (arith, uncolored-le-length service.components start.colors)))
