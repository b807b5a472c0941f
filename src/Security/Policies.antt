-- ===== src/Security/Policies.antt =====
-- backend/src/enterprise_ai/security/policies.py. Every table is total: the source refuses to
-- start when a role or a tool has no entry.
use enterprise_ai_knowledge.Common.{List, [], ◌∷◌}
use enterprise_ai_knowledge.Identity.{UserRole, AccessLevel, ToolPermission, ToolName}

-- `ROLE_PERMISSIONS`
abbrev pub role_permissions : UserRole → List ToolPermission
role_permissions UserRole.viewer = ToolPermission.knowledge_search ∷ []
role_permissions UserRole.analyst =
    ToolPermission.knowledge_search ∷ ToolPermission.python_analysis ∷ ToolPermission.mcp_tools ∷ []
role_permissions UserRole.administrator =
    ToolPermission.knowledge_search ∷ ToolPermission.python_analysis ∷ ToolPermission.mcp_tools
    ∷ ToolPermission.administrative_tools ∷ ToolPermission.ingestion_management
    ∷ ToolPermission.human_approval ∷ []

-- `TOOL_PERMISSIONS`
abbrev pub tool_permission : ToolName → ToolPermission
tool_permission ToolName.knowledge_search = ToolPermission.knowledge_search
tool_permission ToolName.python_analysis = ToolPermission.python_analysis
tool_permission ToolName.employee_directory = ToolPermission.mcp_tools
tool_permission ToolName.service_catalog = ToolPermission.mcp_tools
tool_permission ToolName.incident_records = ToolPermission.mcp_tools
tool_permission ToolName.administrative_ingestion = ToolPermission.ingestion_management

-- `ROLE_ACCESS_LEVELS`
abbrev pub role_access_levels : UserRole → List AccessLevel
role_access_levels UserRole.viewer = AccessLevel.public ∷ AccessLevel.internal ∷ []
role_access_levels UserRole.analyst =
    AccessLevel.public ∷ AccessLevel.internal ∷ AccessLevel.confidential ∷ []
role_access_levels UserRole.administrator =
    AccessLevel.public ∷ AccessLevel.internal ∷ AccessLevel.confidential ∷ AccessLevel.restricted
    ∷ []
