-- ===== src/Identity.antt =====
-- backend/src/enterprise_ai/models/identity.py and the tool names of models/tools.py.
-- Each enumeration is compared by its position. A `frozenset` of its members is the list of them
-- in declaration order, so that two equal sets are one list.
use enterprise_ai_knowledge.Common.{ℕ, ◌≡◌, List, arith, Eq, eq_by_code}
use enterprise_ai_knowledge.Common.{String}

pub data UserRole : Type 0 where
  viewer analyst administrator : UserRole

abbrev pub role_code : UserRole → ℕ
role_code UserRole.viewer = 0
role_code UserRole.analyst = 1
role_code UserRole.administrator = 2

pub role_code_injective : (a b : UserRole) → role_code a ≡ role_code b → a ≡ b
role_code_injective a b h = ground arith

instance abbrev pub role_eq : Eq UserRole
role_eq = eq_by_code role_code role_code_injective

pub data AccessLevel : Type 0 where
  public internal confidential restricted : AccessLevel

-- The property `rank`: the position among the members.
abbrev pub rank : AccessLevel → ℕ
rank AccessLevel.public = 0
rank AccessLevel.internal = 1
rank AccessLevel.confidential = 2
rank AccessLevel.restricted = 3

pub rank_injective : (a b : AccessLevel) → rank a ≡ rank b → a ≡ b
rank_injective a b h = ground arith

instance abbrev pub level_eq : Eq AccessLevel
level_eq = eq_by_code rank rank_injective

pub data ToolPermission : Type 0 where
  knowledge_search python_analysis mcp_tools : ToolPermission
  administrative_tools ingestion_management human_approval : ToolPermission

abbrev pub permission_code : ToolPermission → ℕ
permission_code ToolPermission.knowledge_search = 0
permission_code ToolPermission.python_analysis = 1
permission_code ToolPermission.mcp_tools = 2
permission_code ToolPermission.administrative_tools = 3
permission_code ToolPermission.ingestion_management = 4
permission_code ToolPermission.human_approval = 5

pub permission_code_injective :
    (a b : ToolPermission) → permission_code a ≡ permission_code b → a ≡ b
permission_code_injective a b h = ground arith

instance abbrev pub permission_eq : Eq ToolPermission
permission_eq = eq_by_code permission_code permission_code_injective

pub data ToolName : Type 0 where
  knowledge_search python_analysis employee_directory : ToolName
  service_catalog incident_records administrative_ingestion : ToolName

-- `UserIdentity`; an identifier (UUID) is a number, which is only compared.
pub record UserIdentity : Type 0 where
  pub user_id : ℕ
  pub username : String
  pub display_name : String
  pub role : UserRole

-- `AuthenticatedPrincipal`; times are counted from an epoch.
pub record Principal : Type 0 where
  pub identity : UserIdentity
  pub permissions : List ToolPermission
  pub authenticated_at : ℕ
  pub expires_at : ℕ
