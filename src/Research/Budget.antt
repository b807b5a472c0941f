-- ===== src/Research/Budget.antt =====
-- backend/src/enterprise_ai/research/budgets.py: `BudgetLedger`, with `ResearchBudget` and
-- `ResearchBudgetUsage` of research/models.py. The lock makes every call one step. A resource is
-- named by a string, as in the code.
pub mod Spent
use enterprise_ai_knowledge.Common.{
  string_eq, ◌∷◌, ℕ, true, some, none, ltb, false, if◌then◌else◌, [], String, Option, List, Bool,
  ◌==◌, ◌+◌,
}
use enterprise_ai_knowledge.Common.Int.{pos, negsuc, ℤ}

pub record ResearchBudget : Type 0 where
  pub maximum_depth : ℕ
  pub maximum_total_tasks : ℕ
  pub maximum_retrieval_calls : ℕ
  pub maximum_analysis_calls : ℕ
  pub maximum_llm_calls : ℕ
  pub maximum_evidence_items : ℕ
  pub maximum_evidence_characters : ℕ

pub record ResearchBudgetUsage : Type 0 where
  pub tasks : ℕ
  pub retrieval_calls : ℕ
  pub analysis_calls : ℕ
  pub llm_calls : ℕ
  pub evidence_items : ℕ
  pub evidence_characters : ℕ
  pub exhausted : Bool

-- `ResearchBudgetUsage()`
abbrev pub no_usage : ResearchBudgetUsage
no_usage = record {
  tasks = 0;
  retrieval_calls = 0;
  analysis_calls = 0;
  llm_calls = 0;
  evidence_items = 0;
  evidence_characters = 0;
  exhausted = false;
}

-- The keys of `limits`.
pub data Resource : Type 0 where
  tasks retrieval_calls analysis_calls llm_calls evidence_items evidence_characters : Resource

abbrev pub resource_code : Resource → ℕ
resource_code Resource.tasks = 0
resource_code Resource.retrieval_calls = 1
resource_code Resource.analysis_calls = 2
resource_code Resource.llm_calls = 3
resource_code Resource.evidence_items = 4
resource_code Resource.evidence_characters = 5

-- `resource in limits`
unfoldable pub resource_named : String → Option Resource
resource_named name =
    if name == "tasks"
    then some Resource.tasks
    else if name == "retrieval_calls"
    then some Resource.retrieval_calls
    else if name == "analysis_calls"
    then some Resource.analysis_calls
    else if name == "llm_calls"
    then some Resource.llm_calls
    else if name == "evidence_items"
    then some Resource.evidence_items
    else if name == "evidence_characters"
    then some Resource.evidence_characters
    else none

-- `limits[resource]`
unfoldable pub limit : ResearchBudget → Resource → ℕ
limit budget Resource.tasks = budget.maximum_total_tasks
limit budget Resource.retrieval_calls = budget.maximum_retrieval_calls
limit budget Resource.analysis_calls = budget.maximum_analysis_calls
limit budget Resource.llm_calls = budget.maximum_llm_calls
limit budget Resource.evidence_items = budget.maximum_evidence_items
limit budget Resource.evidence_characters = budget.maximum_evidence_characters

-- `getattr(self._usage, resource)`
unfoldable pub used : ResearchBudgetUsage → Resource → ℕ
used usage Resource.tasks = usage.tasks
used usage Resource.retrieval_calls = usage.retrieval_calls
used usage Resource.analysis_calls = usage.analysis_calls
used usage Resource.llm_calls = usage.llm_calls
used usage Resource.evidence_items = usage.evidence_items
used usage Resource.evidence_characters = usage.evidence_characters

-- `model_copy(update={resource: value})`
unfoldable pub with_used : Resource → ℕ → ResearchBudgetUsage → ResearchBudgetUsage
with_used Resource.tasks value usage = record usage { tasks = value }
with_used Resource.retrieval_calls value usage = record usage { retrieval_calls = value }
with_used Resource.analysis_calls value usage = record usage { analysis_calls = value }
with_used Resource.llm_calls value usage = record usage { llm_calls = value }
with_used Resource.evidence_items value usage = record usage { evidence_items = value }
with_used Resource.evidence_characters value usage = record usage { evidence_characters = value }

-- Line 23 to 29, on a resource that is one.
unfoldable pub charge :
    ResearchBudget → Resource → ℕ → ResearchBudgetUsage → Bool × ResearchBudgetUsage
charge budget r amount usage =
    if ltb (limit budget r) (used usage r + amount)
    then (false, record usage { exhausted = true })
    else (true, with_used r (used usage r + amount) usage)

-- `consume`: none is the `ValueError`.
unfoldable pub consume :
    ResearchBudget → String → ℤ → ResearchBudgetUsage → Option (Bool × ResearchBudgetUsage)
consume budget name (negsuc k) usage = none
consume budget name (pos amount) usage = elim (resource_named name) [
  | none ↦ none
  | some r ↦ some (charge budget r amount usage)
]

-- The calls of a research run, one behind the other: the usage at the end, and the amounts that were
-- granted.
unfoldable pub consume_all :
    ResearchBudget
    → List (Resource × ℕ)
    → ResearchBudgetUsage
    → List (Resource × ℕ) × ResearchBudgetUsage
consume_all budget [] usage = ([], usage)
consume_all budget ((r, amount) ∷ rest) usage =
    let (granted, after) = charge budget r amount usage in
    let (others, end) = consume_all budget rest after in
    (if granted then (r, amount) ∷ others else others, end)
