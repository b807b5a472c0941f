-- ===== src/Security/Authorization.antt =====
-- backend/src/enterprise_ai/security/authorization.py: `AuthorizationService`. An argument that
-- the source types `X | object` is an `Option`: `none` is an object of another type.
pub mod Laws
use enterprise_ai_knowledge.Common.{
  ℕ, String, Bool, true, false, ◌&&◌, List, [], ◌∷◌, Option, none, some, contains, if◌then◌else◌,
}
use enterprise_ai_knowledge.Identity.{
  UserRole, AccessLevel, ToolPermission, ToolName, Principal, role_eq, level_eq, permission_eq,
}
use enterprise_ai_knowledge.Security.Policies.{
  role_permissions, tool_permission, role_access_levels,
}

unfoldable pub permissions_for_role : Option UserRole → List ToolPermission
permissions_for_role none = []
permissions_for_role (some role) = role_permissions role

unfoldable pub has_permission : Principal → Option ToolPermission → Bool
unfolding permissions_for_role
has_permission principal none = false
has_permission principal (some permission) =
    contains (permissions_for_role (some principal.identity.role)) permission

pub record AuthorizationDecision : Type 0 where
  pub allowed : Bool
  pub reason_code : String
  pub public_explanation : String
  pub required_permission : ToolPermission

unfoldable pub permission_decision : Principal → ToolPermission → AuthorizationDecision
unfolding has_permission
permission_decision principal permission =
    let allowed = has_permission principal (some permission) in
    record {
      allowed = allowed;
      reason_code = if allowed then "authorization.allowed" else "authorization.missing_permission";
      public_explanation =
          if allowed
          then "The operation is permitted."
          else "Your role does not permit this operation.";
      required_permission = permission;
    }

-- `require_permission` raises this reason code, or returns nothing (`none`).
unfoldable pub require_permission : Principal → ToolPermission → Option String
unfolding has_permission
require_permission principal permission =
    if has_permission principal (some permission)
    then none
    else some "authorization.missing_permission"

pub record ToolAuthorizationDecision : Type 0 where
  pub tool_call_id : ℕ
  pub allowed : Bool
  pub reason_code : String
  pub public_explanation : String
  pub required_permission : Option ToolPermission

-- `tool_call_id or uuid4()`, with the identifier that `uuid4` would draw
abbrev call_id : Option ℕ → ℕ → ℕ
call_id none fresh = fresh
call_id (some given) fresh = given

unfoldable pub authorize_tool :
    Principal → Option ToolName → Option ℕ → ℕ → ToolAuthorizationDecision
unfolding has_permission
authorize_tool principal none tool_call_id fresh = record {
  tool_call_id = call_id tool_call_id fresh;
  allowed = false;
  reason_code = "authorization.unknown_tool";
  public_explanation = "The requested tool is not permitted.";
  required_permission = none;
}
authorize_tool principal (some tool_name) tool_call_id fresh =
    let permission = tool_permission tool_name in
    let allowed = has_permission principal (some permission) in
    record {
      tool_call_id = call_id tool_call_id fresh;
      allowed = allowed;
      reason_code = if allowed then "authorization.allowed" else "authorization.missing_permission";
      public_explanation =
          if allowed then "The tool is permitted." else "Your role does not permit this tool.";
      required_permission = some permission;
    }

unfoldable pub allowed_access_levels : Principal → List AccessLevel
allowed_access_levels principal = role_access_levels principal.identity.role

unfoldable pub allowed_document_roles : Principal → List UserRole
allowed_document_roles principal = principal.identity.role ∷ []

-- What the service reads of `DocumentMetadata`.
pub record DocumentAccess : Type 0 where
  pub access_level : AccessLevel
  pub allowed_roles : List UserRole

unfoldable pub is_document_authorized : Principal → Option DocumentAccess → Bool
unfolding allowed_access_levels
is_document_authorized principal none = false
is_document_authorized principal (some metadata) =
    contains (allowed_access_levels principal) metadata.access_level
    && contains metadata.allowed_roles principal.identity.role
