-- ===== src/Lang/Acl/Cache.antt =====
-- roleMapCache, which is keyed by the user's name.
use aptomi.Base.{
  String, ◌≡◌, refl, sym, ap, ◌∙◌, Bool, some, inl, inr, List, [], ◌∷◌, arith, Option-cases,
}
use aptomi.Base.Dict.{lookup, insert, lookup-nil, lookup-insert}
use aptomi.Base.Lists.{All}
use aptomi.Base.Result.{Result, ok, Result-cases}
use aptomi.Lang.Labels.{Labels}
use aptomi.Lang.Objects.{AclRule, User}
use aptomi.Lang.Acl.{
  RoleMap, AclResolver, new_acl_resolver, compute_role_map, get_user_role_map, sorted_by_weight,
}

module _ {E : Type 0} (evaluate : Labels → String → Result E Bool) (user_of : String → User) where
  -- Every cached role map is that of the user of its name.
  record IsSound (rules : List AclRule) (r : AclResolver) : Type 0 where
    same_rules : r.acl_rules ≡ sorted_by_weight rules
    cached :
        (name : String) (m : RoleMap)
        → lookup name r.role_map_cache ≡ some m
        → compute_role_map evaluate (new_acl_resolver rules) (user_of name) ≡ ok m

  -- The resolver after the role maps of some users were asked for.
  unfoldable pub after : AclResolver → List User → AclResolver
  after r [] = r
  after r (user ∷ rest) = after (get_user_role_map evaluate r user).0 rest

  abbrev pub IsNamed : User → Type 0
  IsNamed user = user_of user.name ≡ user

  compute-same :
      (rules : List AclRule) (r : AclResolver) (user : User)
      → r.acl_rules ≡ sorted_by_weight rules
      → compute_role_map evaluate r user ≡ compute_role_map evaluate (new_acl_resolver rules) user
  unfolding compute_role_map new_acl_resolver
  compute-same rules r user e = rw e

  store-IsSound :
      (rules : List AclRule) (r : AclResolver) (user : User) (m : RoleMap)
      → IsNamed user
      → IsSound rules r
      → compute_role_map evaluate (new_acl_resolver rules) user ≡ ok m
      → IsSound rules (record r { role_map_cache = insert user.name m r.role_map_cache })
  store-IsSound rules r user m named sound computed = record {
    same_rules = sound.same_rules;
    cached = λ name x h. ground (
      arith,
      lookup-insert name user.name m r.role_map_cache,
      sound.cached name x,
      ap user_of {x = name} {y = user.name},
    );
  }

  get_user_role_map-IsSound :
      (rules : List AclRule) (r : AclResolver) (user : User)
      → IsNamed user
      → IsSound rules r
      → IsSound rules (get_user_role_map evaluate r user).0
        × ((get_user_role_map evaluate r user).1
            ≡ compute_role_map evaluate (new_acl_resolver rules) user)
  unfolding get_user_role_map
  get_user_role_map-IsSound rules r user named sound =
      elim (Option-cases (lookup user.name r.role_map_cache)) [
        | inr (m, found) ↦
            rw (found, get_user_role_map) (sound, cc (sound.cached user.name m found, named))
        | inl absent ↦ elim (Result-cases (compute_role_map evaluate r user)) [
          | inr (e, failed) ↦
              rw (absent, get_user_role_map, failed)
                (sound, sym failed ∙ compute-same rules r user sound.same_rules)
          | inl (m, computed) ↦
              let same = compute-same rules r user sound.same_rules in
              rw (absent, get_user_role_map, computed)
                (
                  store-IsSound rules r user m named sound (sym same ∙ computed),
                  sym computed ∙ same,
                )
        ]
      ]

  after-IsSound :
      (rules : List AclRule) (r : AclResolver) (users : List User)
      → All IsNamed users
      → IsSound rules r
      → IsSound rules (after r users)
  unfolding after
  after-IsSound rules r [] named sound = sound
  after-IsSound rules r (u ∷ rest) named sound =
      after-IsSound rules (get_user_role_map evaluate r u).0 rest named.1
        (get_user_role_map-IsSound rules r u named.0 sound).0

  fresh-IsSound : (rules : List AclRule) → IsSound rules (new_acl_resolver rules)
  unfolding new_acl_resolver
  fresh-IsSound rules = record {
    same_rules = refl;
    cached = λ name m h. cc (lookup-nil {V = RoleMap} name, h);
  }

  -- If users are told apart by their names, then whatever users were asked about before, the
  -- resolver answers about a user as a fresh one does.
  pub get_user_role_map-after :
      (rules : List AclRule) (users : List User) (user : User)
      → All IsNamed users
      → IsNamed user
      → (get_user_role_map evaluate (after (new_acl_resolver rules) users) user).1
        ≡ (get_user_role_map evaluate (new_acl_resolver rules) user).1
  get_user_role_map-after rules users user named this =
      let sound = after-IsSound rules (new_acl_resolver rules) users named (fresh-IsSound rules) in
      (get_user_role_map-IsSound rules (after (new_acl_resolver rules) users) user this sound).1
      ∙ sym
          (get_user_role_map-IsSound rules (new_acl_resolver rules) user this
            (fresh-IsSound rules)).1
