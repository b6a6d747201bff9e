-- ===== src/Lang.antt =====
-- pkg/lang: the policy language.
pub mod Labels
pub mod Expression
pub mod Criteria
pub mod Objects
pub mod Roles
pub mod Acl
pub mod Components
pub mod Namespaces
pub mod Policy
pub mod Targets
pub mod Rules
pub mod Validation
