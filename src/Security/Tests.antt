-- ===== src/Security/Tests.antt =====
-- Instances of the theorems on the authorization service.
use enterprise_ai_knowledge.Common.{◌≤◌, ◌≡◌, ◌∷◌, ◌↔◌, true, some, refl, contains, arith, []}
use enterprise_ai_knowledge.Identity.{role_eq, AccessLevel, ToolName, Principal, UserRole}
use enterprise_ai_knowledge.Security.Authorization.{
  authorize_tool, is_document_authorized, DocumentAccess,
}
use enterprise_ai_knowledge.Security.Authorization.Laws.{
  authorize_tool-monotone, is_document_authorized-clearance,
}

abbrev user_of : UserRole → Principal
user_of role = record {
  identity = record { user_id = 1; username = "u"; display_name = "U"; role = role };
  permissions = [];
  authenticated_at = 0;
  expires_at = 10;
}

abbrev memo : DocumentAccess
memo = record {
  access_level = AccessLevel.confidential;
  allowed_roles = UserRole.analyst ∷ UserRole.administrator ∷ [];
}

is_document_authorized-clearance_example :
    (is_document_authorized (user_of UserRole.analyst) (some memo) ≡ true) ↔ (
      (2 ≤ 2) × (contains (UserRole.analyst ∷ UserRole.administrator ∷ []) UserRole.analyst ≡ true))
is_document_authorized-clearance_example =
    is_document_authorized-clearance (user_of UserRole.analyst) memo

authorize_tool-monotone_example :
    (authorize_tool
      (user_of UserRole.administrator)
      (some ToolName.python_analysis)
      (some 7)
      8).allowed
    ≡ true
unfolding authorize_tool
authorize_tool-monotone_example =
    authorize_tool-monotone (user_of UserRole.analyst) (user_of UserRole.administrator)
      ToolName.python_analysis 7 8 (omega arith) refl
