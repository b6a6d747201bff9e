-- ===== src/Util/Params/Process.antt =====
-- pkg/util/nestedmap.go: ProcessParameterTree, which evaluates the text templates of a tree.
-- `evaluate` is Cache.Evaluate at the parameters of the call, and `compiles` is NewTemplate.
pub mod Reference
use aptomi.Base.{ℕ, String, Bool, true, false, Option, none, some, ◌==◌, if◌then◌else◌}
use aptomi.Base.Result.{Result, ok, err, ◌>>=◌}
use aptomi.Util.Params.{Value, str, int, bool, nested, Params, end, field, lookup, insert}

-- ModeCompile and ModeEvaluate; any other number is an error at the first text.
pub data Mode : Type 0 where
  mode_compile mode_evaluate : Mode
  other_mode : ℕ → Mode

pub data TreeError (E : Type 0) : Type 0 where
  template_failed : E → TreeError E
  unknown_mode : ℕ → TreeError E
  -- The type assertion of GetNestedMap panics.
  no_nested_map : (key : String) → TreeError E

-- GetString: a missing key and an empty text give the default.
unfoldable pub get_string : String → String → Params → Option String
get_string key default p = elim (lookup key p) [
  | none ↦ some default
  | some (str s) ↦ some (if s == "" then default else s)
  | some _ ↦ none
]

module _ {E : Type 0} where
  unfoldable pub get_nested_map : String → Params → Result (TreeError E) Params
  get_nested_map key p = elim (lookup key p) [
    | some (nested m) ↦ ok m
    | some _ ↦ err (no_nested_map key)
    | none ↦ err (no_nested_map key)
  ]

module _ {E : Type 0} (evaluate : String → Result E String)
    (compiles : String → Result E (Unit {0})) (mode : Mode) where
  abbrev with_error : {A : Type 0} → Result E A → Result (TreeError E) A
  with_error (ok a) = ok a
  with_error (err e) = err (template_failed e)

  unfoldable pub process_text : Mode → String → Params → String → Result (TreeError E) Params
  process_text mode_evaluate s result key =
      with_error (evaluate s) >>= λ t. ok (insert key (str t) result)
  process_text mode_compile s result key = with_error (compiles s) >>= λ _. ok result
  process_text (other_mode n) s result key = err (unknown_mode n)

  unfoldable mutual
    unfolding process_text get_nested_map

    -- processParameterTreeNode, with the map that it writes to afterwards.
    pub process_node : Value → Params → String → Result (TreeError E) Params
    process_node (str s) result key = process_text mode s result key
    process_node (int s n) result key = ok (insert key (int s n) result)
    process_node (bool b) result key = ok (insert key (bool b) result)
    process_node (nested m) result key = elim (key == "") [
      | true ↦ process_fields m result
      | false ↦ get_nested_map key result >>= process_fields m >>= λ sub.
          ok (insert key (nested sub) result)
    ]

    -- The loop over the fields of a map.
    pub process_fields : Params → Params → Result (TreeError E) Params
    process_fields end result = ok result
    process_fields (field k v rest) result =
        process_node v (insert k (nested end) result) k >>= process_fields rest

  -- ProcessParameterTree; a nil tree gives a nil tree.
  unfoldable pub process_parameter_tree : Option Params → Result (TreeError E) (Option Params)
  process_parameter_tree none = ok none
  process_parameter_tree (some tree) = process_fields tree end >>= λ p. ok (some p)
