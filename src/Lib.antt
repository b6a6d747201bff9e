-- ===== src/Lib.antt =====
-- A model of Aptomi (pkg/), which resolves a policy of services, contracts, clusters and rules into
-- component instances, compares them with what runs, and applies the difference as a plan.
--
-- The parts and their files:
-- - pkg/util/nestedmap.go: Util/Params, the trees of parameters (NestedParameterMap) with DeepEqual.
--   Util/Params/Process has ProcessParameterTree, which evaluates the templates in a tree.
-- - pkg/util/string.go: Util/Names has EscapeName.
-- - pkg/engine/resolve/policy_resolver_node.go and its contextual data: Engine/Nodes, the steps for one
--   contract (user, contract, context, service, keys, rules, parameters). The external data, the
--   evaluation of expressions and templates, the default namespace of a Kubernetes cluster and the
--   hashes are outside, in the record External.
-- - pkg/engine/resolve/policy_resolver.go: Engine/Resolver, resolveNode, resolveDependency, combineData
--   and ResolveAllDependencies. The recursion over contracts takes fuel; one more than the number of
--   keys that services may have is enough (Engine/Resolver/Cycles). The goroutines are the order of the
--   list of dependencies, since each combines its data under a lock. The event log is left out.
-- - pkg/lang/labelset.go: Lang/Labels (LabelSet is the map in its one field; AddLabels is
--   add_labels, ApplyTransform is apply_transform), with its children.
-- - pkg/lang/expression: Lang/Expression (NewExpression, EvaluateAsBool and the cache).
-- - pkg/lang/criteria.go: Lang/Criteria (allows; matches is the method Matches of contexts, rules,
--   ACL rules and components).
-- - pkg/lang/*.go, the structs: Lang/Objects. ACL roles and privileges: Lang/Roles. ACL rules, the
--   resolver and the checks of a policy view: Lang/Acl.
-- - pkg/lang/service.go, the topological sort: Lang/Components.
-- - pkg/lang/policy_namespace.go: Lang/Namespaces. pkg/lang/policy.go: Lang/Policy. target.go:
--   Lang/Targets.
-- - pkg/lang/rule.go and rule_actions.go, with processRules of the resolver: Lang/Rules.
-- - pkg/engine/resolve/component_key.go: Engine/Keys. component_instance.go: Engine/Instances.
--   policy_resolution.go and dependency_resolution.go: Engine/Resolution.
-- - pkg/engine/apply/action/action_plan.go and action_graph.go: Engine/Plan, where applyInternal
--   and applyActions are the step function of a node's goroutine (step_node) and Reach holds every
--   interleaving of these steps.
-- - pkg/engine/apply/action/component and pkg/engine/actual/state_updater_noop.go: Engine/Actions.
-- - pkg/engine/diff/policy_resolution_diff.go, with AddAction and AddBefore: Engine/Diff. The diff
--   takes two resolutions of Engine/Resolution and makes the plan of Engine/Actions that Engine/Plan
--   applies.
-- - pkg/runtime/generation.go and genStr: Store/Generations. object.go, info.go and key.go of
--   pkg/runtime: Store/Objects. pkg/runtime/store/generic.go, the interface of the store: Store/Generic.
--   pkg/runtime/store/generic/bolt/bolt.go: Store/Bolt, over the bucket of Store/Bucket.
-- - pkg/engine/policy_data.go, revision.go and desired_state.go: Store/Data. The counters of
--   action_plan_apply_result.go: Store/Results. pkg/runtime/store/core/policy.go: Store/Policies;
--   revision.go and revision_stats_updater.go there: Store/Revisions. They use Store/Generic, which
--   the record bolt_store of Store/Bolt/Instance fills.
-- - pkg/lang/validation.go: Lang/Validation. Store/Data/Kinds relates its identifiers to the keys of
--   the store, and Store/Policies/Durable joins the core with the store over BoltDB.
-- - pkg/runtime/store/core/actualstate.go and actualstate_updater.go: Store/ActualState.
--   pkg/server/desired_state_enforcer.go, getRevisionForProcessing: Server/Enforcer,
--   and desiredStateEnforce up to the plan of actions: Server/Enforcement. InitPolicy: Store/Initial.
-- Tests holds runs of the model and the results below at concrete inputs.
--
-- How the code is read. A Go map is a list of entries (Base/Dict); the list's order stands for the
-- order of `range`, which Go leaves open, so the theorems hold for every list. A pointer that may
-- be nil is an Option. A function that returns a value and an error returns a Result. Strings are
-- lists of characters. Numbers that the program only counts or compares are natural numbers.
-- The recursion of the topological sort takes fuel, the number of components plus one, which is
-- enough for every service. A plan is applied by steps, not by fuel, and each run ends.
--
-- What stands outside: the expression engine govaluate is the record Govaluate (any compilation and
-- evaluation); yaml.Marshal is a parameter, any function; the code plugins are the function invoke
-- of an action context; a bucket of BoltDB is the record Bolt, with its documented order (IsOrdered),
-- and the YAML codec any pair of functions, of which the theorems ask that what is encoded is decoded
-- again (IsCodec); what an action of a plan returns is chosen freely at each step. A nil map of
-- parameters and an empty one are one value, and has_params of an action context tells them apart
-- where the code does. Logging, HTTP, LDAP, helm and kubernetes clients are not
-- modelled, and neither are the Delete of the store over BoltDB and what follows the
-- application of a plan.

pub mod Base
pub mod Util
pub mod Lang
pub mod Engine
pub mod Store
pub mod Server
mod Tests
