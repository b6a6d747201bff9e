-- ===== src/Lang/Components/Order.antt =====
-- What the sorted list of components holds, and in which order.
use aptomi.Base.{
  ℕ, ◌+◌, String, ◌≡◌, ◌≢◌, refl, subst, true, Option, none, some, List, [], ◌∷◌, arith,
}
use aptomi.Base.Dict.{lookup, lookup-nil}
use aptomi.Base.Lists.{length, All, All-map}
use aptomi.Base.Result.{Result, ok, err, ◌>>=◌}
use aptomi.Lang.Objects.{Service, ServiceComponent}
use aptomi.Lang.Components.Dfs.{
  has_name, IsOrdered, NodupNames, Inv, Extends, OnOk, IsBlack, Post, dfs-post,
}
use aptomi.Lang.Components.{
  Color, gray, black, SortError, State, dfs_component_sort, sort_from, start, sorted_topologically,
}

-- What holds between two rounds of the loop over all components.
pub record Between (st : State) : Type 0 where
  pub inv : Inv st
  pub no_gray : (n : String) → lookup n st.colors ≢ some gray

record PostSort (cs : List ServiceComponent) (st st' : State) : Type 0 where
  between : Between st'
  extends : Extends st st'
  all_black : All (λ c. IsBlack st' c.name) cs

sort_next :
    (c : ServiceComponent) (cs : List ServiceComponent) (st mid : State)
    (r : Result SortError State)
    → Extends st mid
    → IsBlack mid c.name
    → OnOk (PostSort cs mid) r
    → OnOk (PostSort (c ∷ cs) st) r
sort_next c cs st mid (err e) more c_black h = tt
sort_next c cs st mid (ok st') more c_black h = record {
  between = h.between;
  extends = λ n x e. h.extends n x (more n x e);
  all_black = (h.extends c.name black c_black, h.all_black);
}

module _ (fuel : ℕ) (service : Service) where
  Sorts : List ServiceComponent → Type 0
  Sorts cs = (st : State) → Between st → OnOk (PostSort cs st) (sort_from fuel service cs st)

  visited-sort :
      (c : ServiceComponent) (cs : List ServiceComponent) (st : State) (r : Result SortError State)
      → Between st
      → Sorts cs
      → OnOk (Post c st) r
      → OnOk (PostSort (c ∷ cs) st) (r >>= sort_from fuel service cs)
  unfolding Sorts
  visited-sort c cs st (err e) b sorts p = tt
  visited-sort c cs st (ok mid) b sorts p =
      sort_next c cs st mid (sort_from fuel service cs mid) p.extends p.u_black
        (sorts mid (record { inv = p.inv; no_gray = λ n e. b.no_gray n (p.grays n e) }))

  sort_from-next :
      (c : ServiceComponent) (cs : List ServiceComponent) (st : State) (o : Option Color)
      → Sorts cs
      → Between st
      → lookup c.name st.colors ≡ o
      → OnOk (PostSort (c ∷ cs) st) (sort_from fuel service (c ∷ cs) st)
  unfolding sort_from Sorts
  sort_from-next c cs st none sorts b fresh =
      rw (fresh, sort_from)
        (visited-sort c cs st (dfs_component_sort fuel service c st) b sorts
          (dfs-post fuel service c st b.inv fresh))
  sort_from-next c cs st (some gray) sorts b e = absurd (b.no_gray c.name e)
  sort_from-next c cs st (some black) sorts b e =
      rw (e, sort_from)
        (sort_next c cs st st (sort_from fuel service cs st) (λ n x f. f) e (sorts st b))

  sort_from-post : (cs : List ServiceComponent) → Sorts cs
  unfolding sort_from Sorts
  sort_from-post [] st b = record { between = b; extends = λ n c e. e; all_black = tt }
  sort_from-post (c ∷ cs) st b =
      sort_from-next c cs st (lookup c.name st.colors) (sort_from-post cs) b refl

pub start-Between : Between start
start-Between = record {
  inv = record { in_order = tt; nodup = tt; done = λ n. ground (arith, lookup-nil {V = Color} n) };
  no_gray = λ n e. cc (lookup-nil {V = Color} n, e);
}

-- The sorted list has each name once, every component stands behind all of its dependencies, and
-- each component of the service is in it by its name.
pub record IsSortOf (service : Service) (l : List ServiceComponent) : Type 0 where
  pub in_order : IsOrdered [] l
  pub nodup : NodupNames l
  pub complete : All (λ c. has_name c.name l ≡ true) service.components

sorted-of :
    (service : Service) (r : Result SortError State) (l : List ServiceComponent)
    → OnOk (PostSort service.components start) r
    → (r >>= λ st. ok st.ordered) ≡ ok l
    → IsSortOf service l
sorted-of service (err e) l h same = cc
sorted-of service (ok st) l h same = subst (IsSortOf service) (cc same) (record {
  in_order = h.between.inv.in_order;
  nodup = h.between.inv.nodup;
  complete =
      All-map _ _ service.components (λ c e. ground (arith, h.between.inv.done c.name)) h.all_black;
})

-- If GetComponentsSortedTopologically returns no error, then the list that it returns holds the
-- name of every component, holds no name twice, and has each component behind its dependencies.
pub sorted_topologically-IsSortOf :
    (service : Service) (l : List ServiceComponent)
    → sorted_topologically service ≡ ok l
    → IsSortOf service l
unfolding sorted_topologically
sorted_topologically-IsSortOf service l h =
    let fuel = length service.components + 1 in
    sorted-of service (sort_from fuel service service.components start) l
      (unfold Sorts in sort_from-post fuel service service.components start start-Between) h
