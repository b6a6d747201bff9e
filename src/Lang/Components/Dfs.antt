-- ===== src/Lang/Components/Dfs.antt =====
-- What one depth-first visit of a component does to the colors and to the ordered list.
use aptomi.Base.{
  ℕ, zero, suc, String, ◌≡◌, refl, Bool, true, false, ◌||◌, Option, none, some, inl, inr, List, [],
  ◌∷◌, ◌++◌, arith, ◌==◌, Option-cases,
}
use aptomi.Base.Dict.{Dict, lookup, insert, lookup-nil, lookup-insert}
use aptomi.Base.Lists.{All, All-map, contains}
use aptomi.Base.Result.{Result, ok, err, ◌>>=◌}
use aptomi.Lang.Objects.{Service, ServiceComponent}
use aptomi.Lang.Components.{
  put_components, get_components_map, Color, gray, black, SortError, State, visit_dependencies,
  paint, finish, dfs_component_sort,
}

abbrev pub has_name : String → List ServiceComponent → Bool
has_name n [] = false
has_name n (u ∷ us) = n == u.name || has_name n us

abbrev pub is_black : String → Dict Color → Bool
is_black n colors = elim (lookup n colors) [ some black ↦ true | _ ↦ false ]

-- Every dependency of each component is among `seen` or before the component.
abbrev pub IsOrdered : List String → List ServiceComponent → Type 0
IsOrdered seen [] = Unit
IsOrdered seen (u ∷ us) =
    All (λ d. contains seen d ≡ true) u.dependencies × IsOrdered (u.name ∷ seen) us

-- No two components have one name.
abbrev pub NodupNames : List ServiceComponent → Type 0
NodupNames [] = Unit
NodupNames (u ∷ us) = (has_name u.name us ≡ false) × NodupNames us

pub record Inv (st : State) : Type 0 where
  pub in_order : IsOrdered [] st.ordered
  pub nodup : NodupNames st.ordered
  pub done : (n : String) → is_black n st.colors ≡ has_name n st.ordered

-- What is colored keeps its color.
abbrev pub Extends : State → State → Type 0
Extends st st' =
    (n : String) (c : Color) → lookup n st.colors ≡ some c → lookup n st'.colors ≡ some c

abbrev pub OnOk : (State → Type 0) → Result SortError State → Type 0
OnOk P (ok st) = P st
OnOk P (err e) = Unit

has_name-append :
    (n : String) (us : List ServiceComponent) (u : ServiceComponent)
    → has_name n (us ++ u ∷ []) ≡ (has_name n us || n == u.name)
has_name-append n [] u = ground arith
has_name-append n (v ∷ us) u = ground (arith, has_name-append n us u)

NodupNames-append :
    (us : List ServiceComponent) (u : ServiceComponent)
    → NodupNames us
    → has_name u.name us ≡ false
    → NodupNames (us ++ u ∷ [])
NodupNames-append [] u h fresh = (refl, tt)
NodupNames-append (v ∷ us) u h fresh =
    ground (arith, NodupNames-append us u h.1, has_name-append v.name us u)

IsOrdered-append :
    (seen : List String) (us : List ServiceComponent) (u : ServiceComponent)
    → IsOrdered seen us
    → All (λ d. (contains seen d || has_name d us) ≡ true) u.dependencies
    → IsOrdered seen (us ++ u ∷ [])
IsOrdered-append seen [] u h ready = (All-map _ _ u.dependencies (λ d e. ground arith) ready, tt)
IsOrdered-append seen (v ∷ us) u h ready = (
  h.0,
  IsOrdered-append (v.name ∷ seen) us u h.1
      (All-map _ _ u.dependencies (λ d e. ground arith) ready),
)

name-lookup-put :
    (cs : List ServiceComponent) (m : Dict ServiceComponent) (n : String) (v : ServiceComponent)
    → ((w : ServiceComponent) → lookup n m ≡ some w → w.name ≡ n)
    → lookup n (put_components cs m) ≡ some v
    → v.name ≡ n
unfolding put_components
name-lookup-put [] m n v h e = h v e
name-lookup-put (c ∷ cs) m n v h e =
    name-lookup-put cs (insert c.name c m) n v
      (λ w f. ground (arith, lookup-insert n c.name c m, h w)) e

-- A component stands in the map under its own name.
pub name-lookup :
    (service : Service) (n : String) (v : ServiceComponent)
    → lookup n (get_components_map service) ≡ some v
    → v.name ≡ n
unfolding get_components_map
name-lookup service n v =
    name-lookup-put service.components [] n v (λ w f. cc (lookup-nil {V = ServiceComponent} n, f))

abbrev pub IsBlack : State → String → Type 0
IsBlack st n = lookup n st.colors ≡ some black

pub record Post (u : ServiceComponent) (st st' : State) : Type 0 where
  pub inv : Inv st'
  pub extends : Extends st st'
  pub grays : (n : String) → lookup n st'.colors ≡ some gray → lookup n st.colors ≡ some gray
  pub u_black : IsBlack st' u.name

pub record PostLoop (deps : List String) (st st' : State) : Type 0 where
  pub inv : Inv st'
  pub extends : Extends st st'
  pub grays : (n : String) → lookup n st'.colors ≡ some gray → lookup n st.colors ≡ some gray
  pub all_black : All (IsBlack st') deps

-- What is proved of the recursive call.
abbrev pub Visits : (ServiceComponent → State → Result SortError State) → Type 0
Visits visit =
    (u : ServiceComponent) (st : State)
    → Inv st
    → lookup u.name st.colors ≡ none
    → OnOk (Post u st) (visit u st)

then-PostLoop :
    (deps : List String) (d : String) (v : ServiceComponent) (st mid : State)
    (r : Result SortError State)
    → v.name ≡ d
    → Post v st mid
    → OnOk (PostLoop deps mid) r
    → OnOk (PostLoop (d ∷ deps) st) r
then-PostLoop deps d v st mid (err e) named p h = tt
then-PostLoop deps d v st mid (ok st') named p h = record {
  inv = h.inv;
  extends = λ n c e. h.extends n c (p.extends n c e);
  grays = λ n e. p.grays n (h.grays n e);
  all_black = (h.extends d black (rw (← named) p.u_black), h.all_black);
}

module _ (visit : ServiceComponent → State → Result SortError State) (visits : Visits visit)
    (service : Service) where
  unfoldable pub Loop : List String → Type 0
  Loop deps =
      (st : State) → Inv st → OnOk (PostLoop deps st) (visit_dependencies visit service deps st)

  visited-Post :
      (d : String) (rest : List String) (v : ServiceComponent) (st : State)
      (r : Result SortError State)
      → Loop rest
      → v.name ≡ d
      → OnOk (Post v st) r
      → OnOk (PostLoop (d ∷ rest) st) (r >>= visit_dependencies visit service rest)
  unfolding Loop
  visited-Post d rest v st (err e) loop named p = tt
  visited-Post d rest v st (ok mid) loop named p =
      then-PostLoop rest d v st mid (visit_dependencies visit service rest mid) named p
        (loop mid p.inv)

  known-post :
      (d : String) (rest : List String) (v : ServiceComponent) (st : State) (o : Option Color)
      → Loop rest
      → Inv st
      → lookup d (get_components_map service) ≡ some v
      → lookup v.name st.colors ≡ o
      → OnOk (PostLoop (d ∷ rest) st) (visit_dependencies visit service (d ∷ rest) st)
  unfolding visit_dependencies Loop
  known-post d rest v st none loop inv found fresh =
      rw (found, visit_dependencies, fresh)
        (visited-Post d rest v st (visit v st) loop (name-lookup service d v found)
          (visits v st inv fresh))
  known-post d rest v st (some gray) loop inv found e = rw (found, visit_dependencies, e) tt
  known-post d rest v st (some black) loop inv found e =
      rw (found, visit_dependencies, e)
        (then-PostLoop rest d v st st (visit_dependencies visit service rest st)
          (name-lookup service d v found)
          (record { inv = inv; extends = λ n c f. f; grays = λ n f. f; u_black = e }) (loop st inv))

  pub visit_dependencies-post : (deps : List String) → Loop deps
  unfolding visit_dependencies Loop
  visit_dependencies-post [] st inv = record {
    inv = inv;
    extends = λ n c e. e;
    grays = λ n e. e;
    all_black = tt;
  }
  visit_dependencies-post (d ∷ rest) st inv =
      elim (Option-cases (lookup d (get_components_map service))) [
        | inl absent ↦ rw (absent, visit_dependencies) tt
        | inr (v, found) ↦
            known-post d rest v st (lookup v.name st.colors) (visit_dependencies-post rest) inv
              found refl
      ]

pub paint-Inv :
    (u : ServiceComponent) (st : State)
    → Inv st
    → lookup u.name st.colors ≡ none
    → Inv (paint u.name gray st)
unfolding paint
paint-Inv u st inv fresh = record {
  in_order = inv.in_order;
  nodup = inv.nodup;
  done = λ n. ground (arith, inv.done n, lookup-insert n u.name gray st.colors);
}

finish-Post :
    (u : ServiceComponent) (st mid : State)
    → lookup u.name st.colors ≡ none
    → PostLoop u.dependencies (paint u.name gray st) mid
    → Post u st (finish u mid)
unfolding finish paint
finish-Post u st mid fresh p = record {
  inv = record {
    in_order =
        IsOrdered-append [] mid.ordered u p.inv.in_order
          (All-map _ _ u.dependencies (λ d e. ground (arith, p.inv.done d)) p.all_black);
    nodup = NodupNames-append mid.ordered u p.inv.nodup (
        ground (
          arith,
          p.inv.done u.name,
          p.extends u.name gray,
          lookup-insert u.name u.name gray st.colors,
        ));
    done = λ n. ground (
      arith,
      p.inv.done n,
      lookup-insert n u.name black mid.colors,
      has_name-append n mid.ordered u,
    );
  };
  extends = λ n c e. ground (
    arith,
    p.extends n c,
    lookup-insert n u.name gray st.colors,
    lookup-insert n u.name black mid.colors,
  );
  grays = λ n e. ground (
    arith,
    p.grays n,
    lookup-insert n u.name gray st.colors,
    lookup-insert n u.name black mid.colors,
  );
  u_black = ground (arith, lookup-insert u.name u.name black mid.colors);
}

finished-Post :
    (u : ServiceComponent) (st : State) (r : Result SortError State)
    → lookup u.name st.colors ≡ none
    → OnOk (PostLoop u.dependencies (paint u.name gray st)) r
    → OnOk (Post u st) (r >>= λ mid. ok (finish u mid))
finished-Post u st (err e) fresh h = tt
finished-Post u st (ok mid) fresh h = finish-Post u st mid fresh h

pub dfs-post : (fuel : ℕ) (service : Service) → Visits (dfs_component_sort fuel service)
unfolding dfs_component_sort Loop
dfs-post zero service u st inv fresh = tt
dfs-post (suc fuel) service u st inv fresh =
    finished-Post u st
      (visit_dependencies (dfs_component_sort fuel service) service u.dependencies
        (paint u.name gray st))
      fresh
      (visit_dependencies-post (dfs_component_sort fuel service) (dfs-post fuel service) service
        u.dependencies (paint u.name gray st) (paint-Inv u st inv fresh))
