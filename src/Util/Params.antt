-- ===== src/Util/Params.antt =====
-- pkg/util/nestedmap.go: trees of parameters. The order of the fields stands for the order in which
-- `range` goes through the map.
pub mod Process
use aptomi.Base.{
  ℕ, suc, String, Bool, true, false, ◌&&◌, Option, none, some, ◌==◌, nat_eq, if◌then◌else◌,
}

mutual
  -- A value in the tree. A Go int is given by its sign and its magnitude.
  pub data Value : Type 0 where
    str : String → Value
    int : (negative : Bool) (magnitude : ℕ) → Value
    bool : Bool → Value
    nested : Params → Value

  -- NestedParameterMap
  pub data Params : Type 0 where
    end : Params
    field : String → Value → Params → Params

unfoldable pub lookup : String → Params → Option Value
lookup k end = none
lookup k (field j v rest) = if k == j then some v else lookup k rest

unfoldable pub insert : String → Value → Params → Params
insert k v end = field k v end
insert k v (field j w rest) = if k == j then field k v rest else field j w (insert k v rest)

unfoldable pub size : Params → ℕ
size end = 0
size (field k v rest) = suc (size rest)

abbrev pub bool_eq : Bool → Bool → Bool
bool_eq true b = b
bool_eq false true = false
bool_eq false false = true

-- reflect.DeepEqual on maps: as many keys, and each key of the first is in the second with an
-- equal value.
unfoldable mutual
  unfolding size

  pub value_eq : Value → Value → Bool
  value_eq (str s) w = elim w [ str t ↦ s == t | _ ↦ false ]
  value_eq (int s n) w = elim w [ int t m ↦ bool_eq s t && nat_eq n m | _ ↦ false ]
  value_eq (bool a) w = elim w [ bool b ↦ bool_eq a b | _ ↦ false ]
  value_eq (nested p) w = elim w [ nested q ↦ nat_eq (size p) (size q) && covered p q | _ ↦ false ]

  pub covered : Params → Params → Bool
  covered end q = true
  covered (field k v rest) q =
      elim (lookup k q) [ none ↦ false | some w ↦ value_eq v w ] && covered rest q

-- NestedParameterMap.DeepEqual
unfoldable pub deep_equal : Params → Params → Bool
unfolding covered size
deep_equal end end = true
deep_equal p q = nat_eq (size p) (size q) && covered p q
