-- ===== src/Research/Aggregation.antt =====
-- backend/src/enterprise_ai/research/aggregation.py: `aggregate_evidence`, with what it reads of
-- `HybridEvidence`, `EvidenceItem` and `ResearchWorkerResult`, and the records `ResearchEvidenceEntry`
-- and `ResearchEvidenceLedger` of research/models.py. Identifiers, dates, texts and hashes that are
-- only compared are numbers; a score is a natural number of ticks. The parameters are
-- `contains_untrusted_instruction` and the byte size of a text. The dictionary `collected` is an
-- association list in the order of its insertions. An expected fingerprint that is empty counts as
-- none. The numbers stand in the order of the texts they are for, where the code sorts by them.
pub mod Sound
use enterprise_ai_knowledge.Common.{
  list_eq, nat_eq, ◌∷◌, ℕ, ◌||◌, true, some, not, none, map, ltb, lookup, leb, insert,
  if◌then◌else◌, contains, [], Option, List, Dict, Bool, ◌==◌, ◌+◌, ◌&&◌,
}
use enterprise_ai_knowledge.Security.Authorization.{is_document_authorized, DocumentAccess}
use enterprise_ai_knowledge.Identity.{role_eq, level_eq, Principal}

pub record Source : Type 0 where
  pub evidence_id : ℕ
  pub document_id : ℕ
  pub chunk_id : ℕ
  pub source_file : ℕ
  pub section_path : ℕ
  pub source_line_start : ℕ
  pub source_line_end : ℕ
  pub title : ℕ
  pub version : ℕ
  pub updated_date : ℕ
  pub access : DocumentAccess
  pub chunk_content_hash : ℕ
  pub build_fingerprint : ℕ
  pub text : ℕ

pub record HybridEvidence : Type 0 where
  pub evidence : Source
  pub final_rank : ℕ
  pub hybrid_score : ℕ

pub record ResearchWorkerResult : Type 0 where
  pub task_id : ℕ
  pub evidence : List HybridEvidence

pub record ResearchEvidenceEntry : Type 0 where
  pub evidence : HybridEvidence
  pub task_ids : List ℕ

pub record ResearchEvidenceLedger : Type 0 where
  pub entries : List ResearchEvidenceEntry
  pub total_characters : ℕ
  pub dropped_items : ℕ

pub record Aggregation : Type 0 where
  pub maximum_items : ℕ
  pub maximum_characters : ℕ
  pub expected_build_fingerprint : Option ℕ
  pub principal : Option Principal
  pub contains_untrusted_instruction : ℕ → Bool
  pub size : ℕ → ℕ

-- The local state of the loop: `collected`, `evidence_to_chunk`, `dropped`.
pub record Collected : Type 0 where
  pub entries : Dict ℕ ResearchEvidenceEntry
  pub chunk_of : Dict ℕ ℕ
  pub dropped : ℕ

-- `sorted(values, key=...)`: a stable insertion, given the strict order of the keys.
unfoldable pub insert_sorted {ℓ} : {A : Type ℓ} → (A → A → Bool) → A → List A → List A
insert_sorted before x [] = x ∷ []
insert_sorted before x (y ∷ ys) =
    let later = insert_sorted before x ys in if before y x then y ∷ later else x ∷ y ∷ ys

unfoldable pub sorted {ℓ} : {A : Type ℓ} → (A → A → Bool) → List A → List A
sorted before [] = []
sorted before (x ∷ xs) = insert_sorted before x (sorted before xs)

-- `(item.final_rank, -item.hybrid_score)`
abbrev pub better : HybridEvidence → HybridEvidence → Bool
better a b =
    ltb a.final_rank b.final_rank
    || ((a.final_rank == b.final_rank) && ltb b.hybrid_score a.hybrid_score)

-- The key of the last sort, with the chunk's identifier as the last part.
abbrev pub comes_before : ResearchEvidenceEntry → ResearchEvidenceEntry → Bool
comes_before a b =
    better a.evidence b.evidence
    || ((a.evidence.final_rank == b.evidence.final_rank)
        && (a.evidence.hybrid_score == b.evidence.hybrid_score)
        && ltb a.evidence.evidence.chunk_id b.evidence.evidence.chunk_id)

-- The fields of `identity`.
unfoldable pub same_identity : Source → Source → Bool
same_identity a b =
    (a.evidence_id == b.evidence_id)
    && (a.document_id == b.document_id)
    && (a.source_file == b.source_file)
    && (a.section_path == b.section_path)
    && (a.source_line_start == b.source_line_start)
    && (a.source_line_end == b.source_line_end)
    && (a.title == b.title)
    && (a.version == b.version)
    && (a.updated_date == b.updated_date)
    && (a.access.access_level == b.access.access_level)
    && (a.access.allowed_roles == b.access.allowed_roles)
    && (a.chunk_content_hash == b.chunk_content_hash)
    && (a.build_fingerprint == b.build_fingerprint)

-- `tuple(sorted({*task_ids, task_id}))`
abbrev pub add_task : ℕ → List ℕ → List ℕ
add_task t ts = if contains ts t then ts else insert_sorted ltb t ts

-- Lines 32 to 64: what is dropped before the chunk is looked up.
unfoldable pub is_admissible : Aggregation → Source → Bool
is_admissible a source =
    elim a.expected_build_fingerprint [ none ↦ true | some f ↦ source.build_fingerprint == f ]
    && not (a.contains_untrusted_instruction source.text)
    && elim a.principal [ none ↦ true | some p ↦ is_document_authorized p (some source.access) ]

abbrev pub drop_one : Collected → Collected
drop_one c = record c { dropped = c.dropped + 1 }

-- Lines 69 to 98: the entry of a chunk that is known, or a new one.
unfoldable pub collect_chunk : ℕ → HybridEvidence → Collected → Collected
collect_chunk task_id e c = elim (lookup e.evidence.chunk_id c.entries) [
  | some existing ↦
      if not (same_identity existing.evidence.evidence e.evidence) then drop_one c else record c {
        entries =
            insert e.evidence.chunk_id
              (record {
                evidence = if better e existing.evidence then e else existing.evidence;
                task_ids = add_task task_id existing.task_ids;
              })
              c.entries;
      }
  | none ↦ record {
    entries =
        insert e.evidence.chunk_id (record { evidence = e; task_ids = task_id ∷ [] }) c.entries;
    chunk_of = insert e.evidence.evidence_id e.evidence.chunk_id c.chunk_of;
    dropped = c.dropped;
  }
]

-- The body of the loop over a result's evidence.
unfoldable pub collect : Aggregation → ℕ → HybridEvidence → Collected → Collected
collect a task_id e c =
    if not (is_admissible a e.evidence)
    then drop_one c
    else elim (lookup e.evidence.evidence_id c.chunk_of) [
      | none ↦ collect_chunk task_id e c
      | some known ↦ if known == e.evidence.chunk_id then collect_chunk task_id e c else drop_one c
    ]

unfoldable pub collect_evidence : Aggregation → ℕ → List HybridEvidence → Collected → Collected
collect_evidence a task_id [] c = c
collect_evidence a task_id (e ∷ rest) c = collect_evidence a task_id rest (collect a task_id e c)

unfoldable pub collect_results : Aggregation → List ResearchWorkerResult → Collected → Collected
collect_results a [] c = c
collect_results a (r ∷ rest) c = collect_results a rest (collect_evidence a r.task_id r.evidence c)

-- The last loop: the entries that fit, given the count and the size of what was accepted, and the
-- number dropped.
unfoldable pub accept_entries :
    Aggregation → ℕ → ℕ → ℕ → List ResearchEvidenceEntry → ResearchEvidenceLedger
accept_entries a count characters dropped [] = record {
  entries = [];
  total_characters = characters;
  dropped_items = dropped;
}
accept_entries a count characters dropped (x ∷ rest) =
    let size = a.size x.evidence.evidence.text in
    let without = accept_entries a count characters (dropped + 1) rest in
    let with_it = accept_entries a (count + 1) (characters + size) dropped rest in
    if leb a.maximum_items count || ltb a.maximum_characters (characters + size)
    then without
    else record with_it { entries = x ∷ with_it.entries }

abbrev pub nothing_collected : Collected
nothing_collected = record { entries = []; chunk_of = []; dropped = 0 }

-- `aggregate_evidence`
unfoldable pub aggregate_evidence : Aggregation → List ResearchWorkerResult → ResearchEvidenceLedger
aggregate_evidence a results =
    let c = collect_results a (sorted (λ x y. ltb x.task_id y.task_id) results) nothing_collected in
    accept_entries a 0 0 c.dropped (sorted comes_before (map (λ kv. kv.1) c.entries))
