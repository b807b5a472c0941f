-- ===== src/Graph/Runtime/Owners.antt =====
-- The owner of a session.
use enterprise_ai_knowledge.Common.{
  nat_eq, ◌≡◌, ◌∷◌, ℕ, some, refl, none, nat_beq_iff, lookup-insert, lookup, inr, inl,
  if◌then◌else◌, arith, [], Option-cases, List,
}
use enterprise_ai_knowledge.Graph.Runtime.{same_claim, claim_of, Claim, claim_session, GraphInput}

-- The owners behind some requests; a refused one changes nothing.
unfoldable pub claims : List GraphInput → List (ℕ × Claim) → List (ℕ × Claim)
claims [] owners = owners
claims (input ∷ rest) owners =
    claims rest (elim (claim_session input owners) [ none ↦ owners | some next ↦ next ])

claim_session-keeps :
    (input : GraphInput) (owners next : List (ℕ × Claim)) (k : ℕ) (c : Claim)
    → claim_session input owners ≡ some next
    → lookup k owners ≡ some c
    → lookup k next ≡ some c
unfolding claim_session
claim_session-keeps input owners next k c claimed held =
    elim (Option-cases (lookup input.session_id owners)) [
      | inl free ↦ ground (
        arith,
        lookup-insert input.session_id k (claim_of input.principal) owners,
        nat_beq_iff input.session_id k,
      )
      | inr (owner, found) ↦ ground arith
    ]

claims-keeps :
    (inputs : List GraphInput) (owners : List (ℕ × Claim)) (k : ℕ) (c : Claim)
    → lookup k owners ≡ some c
    → lookup k (claims inputs owners) ≡ some c
unfolding claims
claims-keeps [] owners k c held = held
claims-keeps (input ∷ rest) owners k c held = elim (Option-cases (claim_session input owners)) [
  | inl refused ↦ rw (refused, claims) (claims-keeps rest owners k c held)
  | inr (next, claimed) ↦
      rw (claimed, claims)
        (claims-keeps rest next k c (claim_session-keeps input owners next k c claimed held))
]

-- A session that a principal has claimed refuses every request whose user, role or permissions are
-- others, whatever requests came between, and takes those of the owner without a change.
pub claimed-refuses :
    (inputs : List GraphInput) (owners : List (ℕ × Claim)) (c : Claim) (input : GraphInput)
    → lookup input.session_id owners ≡ some c
    → claim_session input (claims inputs owners)
      ≡ (if same_claim c (claim_of input.principal) then some (claims inputs owners) else none)
unfolding claim_session
claimed-refuses inputs owners c input held =
    rw (claims-keeps inputs owners input.session_id c held, claim_session) refl
