-- ===== src/Security/Authorization/Laws.antt =====
-- What the authorization service decides, against a description by clearances.
use enterprise_ai_knowledge.Common.{ℕ, ◌≤◌, ◌≡◌, ◌↔◌, true, some, contains, arith}
use enterprise_ai_knowledge.Common.{leb}
use enterprise_ai_knowledge.Identity.{
  UserRole, AccessLevel, ToolName, Principal, role_eq, rank, level_eq,
}
use enterprise_ai_knowledge.Security.Policies.{role_access_levels}
use enterprise_ai_knowledge.Security.Authorization.{
  DocumentAccess, authorize_tool, is_document_authorized,
}

-- The most sensitive level that a role may read, by its rank.
abbrev pub clearance : UserRole → ℕ
clearance UserRole.viewer = 1
clearance UserRole.analyst = 2
clearance UserRole.administrator = 3

allowed-clearance :
    (role : UserRole) (level : AccessLevel)
    → contains (role_access_levels role) level ≡ leb (rank level) (clearance role)
allowed-clearance UserRole.viewer level = ground arith
allowed-clearance UserRole.analyst level = ground arith
allowed-clearance UserRole.administrator level = ground arith

-- A document is authorized exactly when its level's rank is within the clearance of the
-- principal's role and its allowed roles hold that role.
pub is_document_authorized-clearance :
    (p : Principal) (d : DocumentAccess)
    → (is_document_authorized p (some d) ≡ true) ↔ (
        (rank d.access_level ≤ clearance p.identity.role)
        × (contains d.allowed_roles p.identity.role ≡ true))
unfolding is_document_authorized
is_document_authorized-clearance p d = (
  (λ h. ground (arith, allowed-clearance p.identity.role d.access_level)),
  (λ h. ground (arith, allowed-clearance p.identity.role d.access_level)),
)

-- Ranks of the roles, for the statement that permissions only grow.
abbrev pub seniority : UserRole → ℕ
seniority UserRole.viewer = 0
seniority UserRole.analyst = 1
seniority UserRole.administrator = 2

-- Whatever tool a principal may call, a principal of a role at least as senior may call too.
pub authorize_tool-monotone :
    (p q : Principal) (tool : ToolName) (id fresh : ℕ)
    → seniority p.identity.role ≤ seniority q.identity.role
    → (authorize_tool p (some tool) (some id) fresh).allowed ≡ true
    → (authorize_tool q (some tool) (some id) fresh).allowed ≡ true
unfolding authorize_tool
authorize_tool-monotone p q tool id fresh h k = ground arith
